-- ===== src/Tests.antt =====
-- A system, a poll and settings to run the development on. The file system is empty but for the
-- allowed key, and the cluster starts each pod at once and ends it well.
mod Fetcher
mod Controller
mod Git
mod Gitreceive
mod Handoff
mod Main
mod Routes
mod Server
mod Sshd
mod Storage
mod Waits
use sa_builder.Base.{
  ℕ, zero, suc, ◌≤◌, arith, ◌≡◌, refl, Bytes, codes, List, [], ◌∷◌, Bool, true, false, Option, none,
  some, Outcome, ok, err, panic, M,
}
use sa_builder.Base.Int.{ℤ, pos}
use sa_builder.System.{
  Call, create_pod, History, System, Answer, got, Stat, missing, entry, Phase, running, succeeded,
  PodReply,
}
use sa_builder.Gitreceive.Config.{Config}
use sa_builder.Gitreceive.Wait.Bound.{rounds}
use sa_builder.Gitreceive.Wait.{Poll, Polls, holds, fails, crashes, expires, again, IsPoll}
use sa_builder.Sshd.Keys.{PublicKey, Crypto}

abbrev pub reply_in : Phase → PodReply
reply_in phase = record {
  status = record { phase = phase; exit_codes = some (pos 0) ∷ [] };
  error = none;
}

-- A pod runs right after it was asked for, and has ended well at every later look.
abbrev pod_reply : History → PodReply
pod_reply (create_pod ns pod ∷ h) = reply_in running
pod_reply _ = reply_in succeeded

abbrev pub linux : System
linux = record {
  stat = λ h path. missing (codes "no such file");
  read_file = λ h path. got (codes "ssh-rsa AAAA");
  getenv = λ h key. [];
  expand_env = λ h text. text;
  environ = λ h. codes "PATH=/bin" ∷ [];
  mkdir_all = λ h path. none;
  write_file = λ h path. none;
  run_cmd = λ h cmd. none;
  start_cmd = λ h cmd. none;
  stdin_pipe = λ h. none;
  copy_input = λ h. none;
  wait_cmd = λ h. none;
  stderr_text = λ h. [];
  new_uuid = λ h. codes "0f1e";
  find_process = λ h pid. none;
  send_request = λ h. none;
  create_pod = λ h ns pod. got (record { namespace = ns; name = codes "pod" });
  get_pod = λ h ns name. pod_reply h;
  stream_logs = λ h. none;
  copy_logs = λ h. none;
}

-- At most `n + 1` checks, given the result of the first.
abbrev pub more : M Call Bool → ℕ → Outcome Bool × History → Outcome (Unit {0}) × History
more cond n (ok true, h) = (ok tt, h)
more cond zero (ok false, h) = (err (codes "timed out waiting for the condition"), h)
more cond (suc n) (ok false, h) = more cond n (cond h)
more cond n (err e, h) = (err e, h)
more cond n (panic, h) = (panic, h)

abbrev pub poll_thrice : Poll
poll_thrice interval timeout cond h = more cond 2 (cond h)

pub more-Polls :
    (cond : M Call Bool) (n : ℕ) (h : History) (r : Outcome Bool × History)
    → cond h ≡ r
    → (run : Polls cond h (more cond n r)) × (rounds run ≤ suc n)
more-Polls cond zero h (ok true, h') e = (holds e, omega arith)
more-Polls cond (suc n) h (ok true, h') e = (holds e, omega arith)
more-Polls cond zero h (ok false, h') e = (expires e, omega arith)
more-Polls cond (suc n) h (ok false, h') e =
    let (run, le) = more-Polls cond n h' (cond h') refl in (again e run, omega (arith, le))
more-Polls cond zero h (err m, h') e = (fails e, omega arith)
more-Polls cond (suc n) h (err m, h') e = (fails e, omega arith)
more-Polls cond zero h (panic, h') e = (crashes e, omega arith)
more-Polls cond (suc n) h (panic, h') e = (crashes e, omega arith)

pub poll_thrice-IsPoll : IsPoll poll_thrice
poll_thrice-IsPoll interval timeout cond h = (more-Polls cond 2 h (cond h) refl).0

abbrev pub settings : Config
settings = record {
  workflow_host = codes "10.0.0.1";
  workflow_port = codes "80";
  registry_host = codes "10.0.0.2";
  registry_port = codes "5555";
  git_home = codes "/home/git";
  ssh_connection = codes "0 0 0 0";
  ssh_original_command = codes "git-receive-pack 'my.app.git'";
  repository = codes "my.app.git";
  username = codes "builder";
  fingerprint = codes "00:11";
  pod_namespace = codes "deis";
  storage_region = codes "us-east-1";
  debug = true;
  builder_pod_tick_duration_msec = pos 200;
  builder_pod_wait_duration_msec = pos 300000;
  object_storage_tick_duration_msec = pos 700;
  object_storage_wait_duration_msec = pos 300000;
}

abbrev pub digits : Bytes
digits = codes "0123456789abcdef0123456789abcdef01234567"

abbrev pub alice : PublicKey
alice = record { key_type = codes "ssh-rsa"; marshal = codes "AAAA" }

-- Every file holds the same key.
abbrev pub one_key : Crypto
one_key = record {
  parse_authorized_key = λ text. some alice;
  md5_sum = λ text. codes "0123456789abcdef";
}
