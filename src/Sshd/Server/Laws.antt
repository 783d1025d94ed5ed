-- ===== src/Sshd/Server/Laws.antt =====
-- What the server answers, and what reaches the router.
use sa_builder.Base.{
  ℕ, ◌≡◌, ◌≢◌, refl, sym, ◌∙◌, ap, inl, inr, Bytes, codes, List, [], ◌∷◌, ◌++◌, append-nil, true,
  false, some, Outcome, ok, err, panic, ◌>>=◌, pure, eqb, eqb_iff, All, Bool-cases, arith,
}
use sa_builder.Strings.{split_two}
use sa_builder.System.{Call, History, System}
use sa_builder.Sshd.Server.{
  Request, Context, Routes, Router, clean_exec, is_git_command, error_of, exit_status, closing,
  send_exit_status, on_git, on_command, on_exec, answer_requests, answer,
}

-- A request that is no `exec`.
abbrev pub IsOther : Request → Type 0
IsOther req = req.kind ≢ codes "exec"

abbrev pub exec_of : Bytes → Request
exec_of payload = record { kind = codes "exec"; payload = payload }

git_command_no_ping : (w : Bytes) → is_git_command w ≡ true → eqb w (codes "ping") ≡ false
unfolding is_git_command eqb
git_command_no_ping w h = elim (Bool-cases (eqb w (codes "ping"))) [
  | inl e ↦ absurd (contra (rw ((eqb_iff w (codes "ping")).0 e) at h))
  | inr e ↦ e
]
  where
    contra : false ≡ true → ⊥
    contra q = cc

-- The context of a Git command.
abbrev pub git_context : Bytes → Bytes → Bytes → Context
git_context conn operation repository = record {
  ssh_connection = conn;
  operation = some operation;
  repository = some repository;
}

-- The replies to requests that are no `exec`.
pub replied : List Request → History → History
unfolding eqb
replied [] h = h
replied (req ∷ reqs) h = replied reqs (Call.reply (eqb req.kind (codes "env")) ∷ h)

module _ (sys : System) (exec_value : Bytes → Bytes) (marshal : ℕ → Bytes) (routes : Routes) where
  -- What follows the router.
  pub report_exit : Outcome (Unit {0}) × History → Outcome (Unit {0}) × History
  report_exit r =
      (do
        e ← error_of (λ _. r)
        _ ← send_exit_status sys exec_value marshal routes (exit_status e)
        pure tt)
        []

  report_exit_lem :
      (r : Outcome (Unit {0})) (h1 : History)
      → r ≢ panic
      → report_exit (r, h1) ≡ (ok tt, Call.send_request (codes "exit-status") (marshal 0) ∷ h1)
  unfolding report_exit send_exit_status
  report_exit_lem (ok a) h1 calm = refl
  report_exit_lem (err e) h1 calm = refl
  report_exit_lem panic h1 calm = absurd (calm refl)

  module _ (router : Router) where
    answer_requests_other :
        (conn : Bytes) (req : Request) (reqs : List Request) (h : History)
        → IsOther req
        → answer_requests sys exec_value marshal routes router conn (req ∷ reqs) h
          ≡ answer_requests sys exec_value marshal routes router conn reqs
              (Call.reply (eqb req.kind (codes "env")) ∷ h)
    unfolding answer_requests
    answer_requests_other conn req reqs h other = elim (Bool-cases (eqb req.kind (codes "env"))) [
      | inl e ↦ rw e refl
      | inr e ↦ rw (e, no_exec) refl
    ]
      where
        no_exec : eqb req.kind (codes "exec") ≡ false
        no_exec = ground (arith, eqb_iff req.kind (codes "exec"))

    answer_requests_exec :
        (conn : Bytes) (req : Request) (reqs : List Request) (h : History)
        → req.kind ≡ codes "exec"
        → answer_requests sys exec_value marshal routes router conn (req ∷ reqs) h
          ≡ on_exec sys exec_value marshal routes router conn req.payload h
    unfolding answer_requests eqb
    answer_requests_exec conn req reqs h e = rw e refl

    answer_requests_others :
        (conn : Bytes) (before reqs : List Request) (h : History)
        → All IsOther before
        → answer_requests sys exec_value marshal routes router conn (before ++ reqs) h
          ≡ answer_requests sys exec_value marshal routes router conn reqs (replied before h)
    unfolding replied
    answer_requests_others conn [] reqs h others = refl
    answer_requests_others conn (req ∷ before) reqs h (other, others) =
        answer_requests_other conn req (before ++ reqs) h other
        ∙ answer_requests_others conn before reqs _ others

    pub answer_lem :
        (conn : Bytes) (before : List Request) (h : History)
        → All IsOther before
        → ((payload : Bytes) (after : List Request)
            → answer sys exec_value marshal routes router conn (before ++ exec_of payload ∷ after) h
              ≡ closing
                  (on_exec sys exec_value marshal routes router conn payload)
                  (replied before h))
          × (answer sys exec_value marshal routes router conn before h
              ≡ (ok tt, Call.close_channel ∷ replied before h))
    unfolding answer closing
    answer_lem conn before h others = (
      (λ payload after.
          ap (λ (r : Outcome (Unit {0}) × History). (r.0, Call.close_channel ∷ r.1))
            (answer_requests_others conn before (exec_of payload ∷ after) h others
              ∙ answer_requests_exec conn (exec_of payload) after _ refl)),
      ap (λ (r : Outcome (Unit {0}) × History). (r.0, Call.close_channel ∷ r.1))
          (ap (λ reqs. answer_requests sys exec_value marshal routes router conn reqs h)
              (sym (append-nil before))
            ∙ (answer_requests_others conn before [] h others ∙ nothing (replied before h))),
    )
      where
        nothing :
            (h' : History)
            → answer_requests sys exec_value marshal routes router conn [] h' ≡ (ok tt, h')
        nothing h' = unfold answer_requests in refl

    pub on_git_lem :
        (conn operation repository : Bytes) (parts : List Bytes) (h : History)
        → on_git sys exec_value marshal routes router conn operation (repository ∷ parts) h
          ≡ report_exit (
              router routes.ssh_git_receive
                (git_context conn operation repository)
                (Call.reply true ∷ h))
    unfolding on_git report_exit
    on_git_lem conn operation repository parts h = refl

    on_exec_git :
        (conn payload operation repository : Bytes) (h : History)
        → is_git_command operation ≡ true
        → split_two (clean_exec (exec_value payload)) b' ' ≡ operation ∷ repository ∷ []
        → on_exec sys exec_value marshal routes router conn payload h
          ≡ on_git sys exec_value marshal routes router conn operation (repository ∷ []) h
    unfolding on_exec on_command
    on_exec_git conn payload operation repository h git parts =
        rw (parts, git_command_no_ping operation git, git) refl

    -- For a Git command with a repository the client is sent the encoding of the exit status 0 and
    -- `answer` returns no error, whether the router returned an error or not, if it did not panic.
    pub answer_git :
        (conn payload operation repository : Bytes) (after : List Request) (h h1 : History)
        (r : Outcome (Unit {0}))
        → is_git_command operation ≡ true
        → split_two (clean_exec (exec_value payload)) b' ' ≡ operation ∷ repository ∷ []
        → router routes.ssh_git_receive
            (git_context conn operation repository)
            (Call.reply true ∷ h)
          ≡ (r, h1)
        → r ≢ panic
        → answer sys exec_value marshal routes router conn (exec_of payload ∷ after) h
          ≡ (ok tt, Call.close_channel ∷ Call.send_request (codes "exit-status") (marshal 0) ∷ h1)
    unfolding closing replied
    answer_git conn payload operation repository after h h1 r git parts run calm =
        (answer_lem conn [] h tt).0 payload after
        ∙ ap closed (
            on_exec_git conn payload operation repository h git parts
            ∙ (on_git_lem conn operation repository [] h
                ∙ (ap report_exit run ∙ report_exit_lem r h1 calm)))
      where
        closed : Outcome (Unit {0}) × History → Outcome (Unit {0}) × History
        closed r = (r.0, Call.close_channel ∷ r.1)
