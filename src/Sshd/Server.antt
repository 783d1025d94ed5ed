-- ===== src/Sshd/Server.antt =====
-- `answer` of pkg/sshd/server.go, with `cleanExec` and `sendExitStatus`. The router, the decoding of
-- a payload and the encoding of a status are parameters. What the functions print is left out.
pub mod Laws
pub mod Safety
use sa_builder.Base.{
  ℕ, Bytes, codes, List, [], ◌∷◌, ◌++◌, Bool, true, false, ◌||◌, ◌==◌, Option, none, some, Outcome,
  ok, err, panic, M, ◌>>=◌, ◌>>◌, pure, crash, call, guard_nil, eqb, if◌then◌else◌,
}
use sa_builder.Strings.{split_two}
use sa_builder.System.{Call, System}

-- `ssh.Request`: its type and its payload
pub record Request : Type 0 where
  pub kind : Bytes
  pub payload : Bytes

-- What `answer` puts in the copy of the context, beside the channel and the request.
pub record Context : Type 0 where
  pub ssh_connection : Bytes
  pub operation : Option Bytes
  pub repository : Option Bytes

-- The names of the routes that the context holds, or their defaults.
pub record Routes : Type 0 where
  pub ssh_ping : Bytes
  pub ssh_git_receive : Bytes

abbrev pub Router : Type 0
Router = Bytes → Context → M Call (Unit {0})

-- The replacer with its two pairs, over the decoded value.
unfoldable pub clean_exec : Bytes → Bytes
clean_exec [] = []
clean_exec (c ∷ s) =
    (if c == b'$' then [] else if c == b'`' then codes "'" else c ∷ []) ++ clean_exec s

unfoldable pub is_git_command : Bytes → Bool
is_git_command word = eqb word (codes "git-receive-pack") || eqb word (codes "git-upload-pack")

-- The error that the router returns, as a value.
abbrev pub error_of : M Call (Unit {0}) → M Call (Option Bytes)
error_of m h =
    let (r, h') = m h in
    elim r [ ok a ↦ (ok none, h') | err e ↦ (ok (some e), h') | panic ↦ (panic, h') ]

-- `xs`
abbrev pub exit_status : Option Bytes → ℕ
exit_status none = 0
exit_status (some e) = 1

-- `req.Reply`, of which the error is dropped
abbrev pub reply : Bool → M Call (Unit {0})
reply accepted = call (Call.reply accepted) (λ h. tt)

-- `defer channel.Close()`
unfoldable pub closing : M Call (Unit {0}) → M Call (Unit {0})
closing m h = let (r, h') = m h in (r, Call.close_channel ∷ h')

module _ (sys : System) (exec_value : Bytes → Bytes) (marshal : ℕ → Bytes) (routes : Routes) where
  -- The status given is not used.
  unfoldable pub send_exit_status : ℕ → M Call (Option Bytes)
  send_exit_status status =
      call (Call.send_request (codes "exit-status") (marshal 0)) (λ h. System.send_request sys h)

  module _ (router : Router) where
    unfoldable pub on_ping : Bytes → M Call (Unit {0})
    on_ping conn = do
      e ← error_of (
          router routes.ssh_ping
            (record { ssh_connection = conn; operation = none; repository = none }))
      guard_nil e (λ m. m)

    -- The Git commands, by the parts behind the first.
    unfoldable pub on_git : Bytes → Bytes → List Bytes → M Call (Unit {0})
    on_git conn operation [] = do reply false; _ ← send_exit_status 0; pure tt
    on_git conn operation (repository ∷ _) = do
      reply true
      e ← error_of (
          router routes.ssh_git_receive (record {
            ssh_connection = conn;
            operation = some operation;
            repository = some repository;
          }))
      _ ← send_exit_status (exit_status e)
      pure tt

    -- The switch on `parts[0]`.
    unfoldable pub on_command : Bytes → List Bytes → M Call (Unit {0})
    on_command conn [] = crash
    on_command conn (word ∷ parts) =
        if eqb word (codes "ping")
        then on_ping conn
        else if is_git_command word
        then on_git conn word parts
        else reply false

    unfoldable pub on_exec : Bytes → Bytes → M Call (Unit {0})
    on_exec conn payload = on_command conn (split_two (clean_exec (exec_value payload)) b' ')

    -- The loop over the requests, which an `exec` ends.
    unfoldable pub answer_requests : Bytes → List Request → M Call (Unit {0})
    answer_requests conn [] = pure tt
    answer_requests conn (req ∷ requests) =
        let rest = answer_requests conn requests in
        if eqb req.kind (codes "env")
        then reply true >> rest
        else if eqb req.kind (codes "exec")
        then on_exec conn req.payload
        else reply false >> rest

    unfoldable pub answer : Bytes → List Request → M Call (Unit {0})
    answer conn requests = closing (answer_requests conn requests)
