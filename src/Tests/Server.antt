-- ===== src/Tests/Server.antt =====
-- The theorems on the SSH server, at concrete inputs.
use sa_builder.Base.{
  ℕ, ◌≡◌, refl, inl, inr, Bytes, codes, List, [], ◌∷◌, true, Option, none, some, Outcome, ok, err,
  panic, eqb, if◌then◌else◌,
}
use sa_builder.Strings.{split_two}
use sa_builder.System.{Call, History}
use sa_builder.Sshd.Server.{Request, Routes, Router, clean_exec, is_git_command, answer}
use sa_builder.Sshd.Server.Laws.{exec_of, answer_git}
use sa_builder.Sshd.Server.Safety.{Agree, ping, git, answer_safe}
use sa_builder.Tests.{linux}

abbrev routes : Routes
routes = record { ssh_ping = codes "sshPing"; ssh_git_receive = codes "sshGitReceive" }

-- The four bytes of a small status.
abbrev four_bytes : ℕ → Bytes
four_bytes n = 0 ∷ 0 ∷ 0 ∷ n ∷ []

abbrev plain : Bytes → Bytes
plain payload = payload

abbrev failing : Router
failing route cxt h = (err (codes "no such repository"), h)

-- The same, but it panics on any command that is not one of Git.
abbrev strict_on : Option Bytes → Outcome (Unit {0})
strict_on none = err (codes "no such repository")
strict_on (some operation) =
    if is_git_command operation then err (codes "no such repository") else panic

abbrev strict : Router
strict route cxt h = (strict_on cxt.operation, h)

strict-Agree : Agree routes failing strict
strict-Agree route cxt h ping = refl
strict-Agree route cxt h (git (inl e) clean) = rw e (unfold is_git_command in unfold eqb in refl)
strict-Agree route cxt h (git (inr e) clean) = rw e (unfold is_git_command in unfold eqb in refl)

abbrev pushing : Bytes
pushing = codes "git-receive-pack 'my.app.git'"

abbrev setting : Request
setting = record { kind = codes "env"; payload = codes "LANG=C" }

abbrev conn : Bytes
conn = codes "10.0.0.9 4242 10.0.0.1 2223"

pushing_git : is_git_command (codes "git-receive-pack") ≡ true
unfolding is_git_command eqb
pushing_git = refl

pushing_parts :
    split_two (clean_exec pushing) b' ' ≡ codes "git-receive-pack" ∷ codes "'my.app.git'" ∷ []
unfolding split_two clean_exec
pushing_parts = refl

answer_git_example : answer linux plain four_bytes routes failing conn (exec_of pushing ∷ []) [] ≡ (
  ok tt,
  Call.close_channel
      ∷ Call.send_request (codes "exit-status") (four_bytes 0)
      ∷ Call.reply true
      ∷ [],
)
answer_git_example =
    answer_git linux plain four_bytes routes failing conn pushing (codes "git-receive-pack")
      (codes "'my.app.git'") [] [] (Call.reply true ∷ []) (err (codes "no such repository"))
      pushing_git pushing_parts refl (λ e. cc)

answer_safe_example :
    answer linux plain four_bytes routes failing conn (exec_of pushing ∷ []) []
    ≡ answer linux plain four_bytes routes strict conn (exec_of pushing ∷ []) []
answer_safe_example =
    answer_safe linux plain four_bytes routes failing strict strict-Agree conn
      (exec_of pushing ∷ []) []

accept_unless_rejected : History → Option Bytes
accept_unless_rejected (Call.reject_channel ∷ h) = some (codes "ssh: channel was already decided")
accept_unless_rejected _ = none

abbrev offered : List Bytes
offered = codes "session" ∷ codes "direct-tcpip" ∷ []
