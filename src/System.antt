-- ===== src/System.antt =====
-- What the program calls: the operating system, the SSH channel and the cluster. A `Call` names a
-- call with its arguments, and a `System` answers each one from the calls made before it.
use sa_builder.Base.{ℕ, Bytes, List, Option, Bool}
use sa_builder.Base.Int.{ℤ}
use sa_builder.Gitreceive.Pods.{Pod}

-- A command of `os/exec`: its arguments, its working directory and its environment. An empty
-- environment stands for that of the caller.
pub record Cmd : Type 0 where
  pub args : List Bytes
  pub dir : Bytes
  pub env : List Bytes

-- A request of `net/http`: its method, its address, its headers in the order they were added and its
-- body.
pub record HttpRequest : Type 0 where
  pub method : Bytes
  pub url : Bytes
  pub headers : List (Bytes × Bytes)
  pub body : Bytes

pub data Call : Type 0 where
  lock unlock : Call
  stat read_file getenv : Bytes → Call
  mkdir_all : Bytes → ℕ → Call
  write_file : Bytes → Bytes → ℕ → Call
  environ : Call
  run_cmd start_cmd stdin_pipe wait_cmd : Cmd → Call
  copy_input : Call
  new_uuid : Call
  channel_write stderr_write : Bytes → Call
  send_request : Bytes → Bytes → Call
  reply : Bool → Call
  close_channel : Call
  route : Bytes → Bytes → Bytes → Call
  create_pod : Bytes → Pod → Call
  get_pod stream_logs : Bytes → Bytes → Call
  copy_logs close_logs : Call
  reject_channel accept_channel spawn_answer spawn_discard close_conn : Call
  setenv : Bytes → Bytes → Call
  expand_env add_host_key listen : Bytes → Call
  check_closer take_closer accept_conn close_listener spawn_conn notify_signals : Call
  spawn_watch : List (Option ℤ) → Call
  spawn_fetcher : ℤ → Call
  find_process kill_process : ℤ → Call
  http_do : HttpRequest → Call
  close_body : Call
  head_bucket : Bytes → Call
  create_bucket : Bytes → Bytes → Call
  put_object : Bytes → Bytes → Bytes → Bytes → Call

abbrev pub History : Type 0
History = List Call

-- A value or an error's text.
pub data Answer (A : Type 0) : Type 0 where
  got : A → Answer A
  failed : Bytes → Answer A

-- `os.Stat`, with `os.IsNotExist` of its error
pub data Stat : Type 0 where
  entry : Bool → Stat
  missing : Bytes → Stat
  stat_failed : Bytes → Stat

pub data Phase : Type 0 where
  pending running succeeded failed_phase unknown_phase : Phase

-- What the code reads of a pod in the cluster: its phase, and for each container the exit code, if
-- the container has terminated.
pub record PodStatus : Type 0 where
  pub phase : Phase
  pub exit_codes : List (Option ℤ)

pub data GetError : Type 0 where
  not_found other_error : Bytes → GetError

-- The client returns a pod beside the error too.
pub record PodReply : Type 0 where
  pub status : PodStatus
  pub error : Option GetError

-- The namespace and the name that the cluster gave a new pod.
pub record PodRef : Type 0 where
  pub namespace : Bytes
  pub name : Bytes

pub record System : Type 0 where
  pub stat : History → Bytes → Stat
  pub read_file : History → Bytes → Answer Bytes
  pub getenv : History → Bytes → Bytes
  pub expand_env : History → Bytes → Bytes
  pub environ : History → List Bytes
  pub mkdir_all : History → Bytes → Option Bytes
  pub write_file : History → Bytes → Option Bytes
  pub run_cmd : History → Cmd → Option Bytes
  pub start_cmd : History → Cmd → Option Bytes
  pub stdin_pipe : History → Option Bytes
  pub copy_input : History → Option Bytes
  pub wait_cmd : History → Option Bytes
  pub stderr_text : History → Bytes
  pub new_uuid : History → Bytes
  pub send_request : History → Option Bytes
  pub create_pod : History → Bytes → Pod → Answer PodRef
  pub get_pod : History → Bytes → Bytes → PodReply
  pub stream_logs : History → Option Bytes
  pub copy_logs : History → Option Bytes
  pub find_process : History → ℤ → Option Bytes
