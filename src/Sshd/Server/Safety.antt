-- ===== src/Sshd/Server/Safety.antt =====
-- What reaches the router: only requests for known routes with known commands and cleaned names.
use sa_builder.Base.{
  ℕ, ◌≡◌, ◌≢◌, refl, sym, ◌∙◌, ap, inl, inr, Bytes, codes, List, [], ◌∷◌, true, ◌==◌, none, Outcome,
  ◌>>=◌, guard_nil, eqb, eqb_iff, ◌⊎◌, Lacks, All, Bool-cases, arith,
}
use sa_builder.Strings.{split_two, put_first}
use sa_builder.System.{Call, History, System}
use sa_builder.Sshd.Server.{
  Request, Context, Routes, Router, clean_exec, is_git_command, error_of, closing, on_ping, on_git,
  on_command, on_exec, answer_requests, answer,
}
use sa_builder.Sshd.Server.Laws.{git_context, report_exit, on_git_lem}

-- A text without the two bytes that the cleaning removes.
abbrev pub IsCleaned : Bytes → Type 0
IsCleaned s = Lacks b'$' s × Lacks b'`' s

clean_exec-IsCleaned : (s : Bytes) → IsCleaned (clean_exec s)
unfolding clean_exec
clean_exec-IsCleaned [] = (tt, tt)
clean_exec-IsCleaned (c ∷ s) = ground (arith, clean_exec-IsCleaned s)

put_first-Lacks :
    (b c : ℕ) (ps : List Bytes) → b ≢ c → All (Lacks b) ps → All (Lacks b) (put_first c ps)
put_first-Lacks b c [] h k = ground arith
put_first-Lacks b c (p ∷ ps) h (k, ks) = ground arith

split_two-Lacks : (b sep : ℕ) (s : Bytes) → Lacks b s → All (Lacks b) (split_two s sep)
unfolding split_two
split_two-Lacks b sep [] h = (tt, tt)
split_two-Lacks b sep (c ∷ s) (hc, hs) = elim (Bool-cases (c == sep)) [
  | inl e ↦ rw e (tt, (hs, tt))
  | inr e ↦
      rw e (put_first-Lacks b c (split_two s sep) (λ q. hc (sym q)) (split_two-Lacks b sep s hs))
]

split_two-IsCleaned : (s : Bytes) → IsCleaned s → All IsCleaned (split_two s b' ')
split_two-IsCleaned s (d, q) =
    both (split_two s b' ') (split_two-Lacks b'$' b' ' s d) (split_two-Lacks b'`' b' ' s q)
  where
    both : (ps : List Bytes) → All (Lacks b'$') ps → All (Lacks b'`') ps → All IsCleaned ps
    both [] a b = tt
    both (p ∷ ps) (a, as') (b, bs) = ((a, b), both ps as' bs)

parts-IsCleaned : (s : Bytes) → All IsCleaned (split_two (clean_exec s) b' ')
parts-IsCleaned s = split_two-IsCleaned (clean_exec s) (clean_exec-IsCleaned s)

-- The context of a ping.
abbrev pub ping_context : Bytes → Context
ping_context conn = record { ssh_connection = conn; operation = none; repository = none }

-- What may reach the router: the route of the ping without a command, or that of Git with one of
-- the two commands and a repository that holds neither `$` nor a backquote.
pub data IsSafe (routes : Routes) : Bytes → Context → Type 0 where
  ping : {conn : Bytes} → IsSafe routes routes.ssh_ping (ping_context conn)
  git :
      {conn operation repository : Bytes}
      → (operation ≡ codes "git-receive-pack") ⊎ (operation ≡ codes "git-upload-pack")
      → IsCleaned repository
      → IsSafe routes routes.ssh_git_receive (git_context conn operation repository)

is_git_command_cases :
    (word : Bytes)
    → is_git_command word ≡ true
    → (word ≡ codes "git-receive-pack") ⊎ (word ≡ codes "git-upload-pack")
unfolding is_git_command
is_git_command_cases word h = elim (Bool-cases (eqb word (codes "git-receive-pack"))) [
  | inl e ↦ inl ((eqb_iff word (codes "git-receive-pack")).0 e)
  | inr e ↦ inr ((eqb_iff word (codes "git-upload-pack")).0 (rw e at h))
]

-- Two routers that do the same wherever the request is safe.
abbrev pub Agree : Routes → Router → Router → Type 0
Agree routes r1 r2 =
    (route : Bytes) (cxt : Context) (h : History)
    → IsSafe routes route cxt
    → r1 route cxt h ≡ r2 route cxt h

report_ping : Outcome (Unit {0}) × History → Outcome (Unit {0}) × History
report_ping r = (do e ← error_of (λ _. r); guard_nil e (λ m. m)) []

module _ (sys : System) (exec_value : Bytes → Bytes) (marshal : ℕ → Bytes) (routes : Routes) where
  module _ (r1 r2 : Router) (agree : Agree routes r1 r2) where
    on_ping_lem :
        (r : Router) (conn : Bytes) (h : History)
        → on_ping sys exec_value marshal routes r conn h
          ≡ report_ping (r routes.ssh_ping (ping_context conn) h)
    unfolding on_ping report_ping
    on_ping_lem r conn h = refl

    on_ping_same :
        (conn : Bytes) (h : History)
        → on_ping sys exec_value marshal routes r1 conn h
          ≡ on_ping sys exec_value marshal routes r2 conn h
    on_ping_same conn h =
        on_ping_lem r1 conn h ∙ (ap report_ping (agree _ _ h ping) ∙ sym (on_ping_lem r2 conn h))

    on_git_same :
        (conn word : Bytes) (parts : List Bytes) (h : History)
        → is_git_command word ≡ true
        → All IsCleaned parts
        → on_git sys exec_value marshal routes r1 conn word parts h
          ≡ on_git sys exec_value marshal routes r2 conn word parts h
    on_git_same conn word [] h e clean = unfold on_git in refl
    on_git_same conn word (repo ∷ parts) h e (clean, _) =
        on_git_lem sys exec_value marshal routes r1 conn word repo parts h
        ∙ (ap (report_exit sys exec_value marshal routes)
              (agree _ _ _ (git (is_git_command_cases word e) clean))
            ∙ sym (on_git_lem sys exec_value marshal routes r2 conn word repo parts h))

    on_command_same :
        (conn : Bytes) (parts : List Bytes) (h : History)
        → All IsCleaned parts
        → on_command sys exec_value marshal routes r1 conn parts h
          ≡ on_command sys exec_value marshal routes r2 conn parts h
    unfolding on_command
    on_command_same conn [] h clean = refl
    on_command_same conn (word ∷ parts) h (_, clean) = elim (Bool-cases (eqb word (codes "ping"))) [
      | inl e ↦ rw e (on_ping_same conn h)
      | inr e ↦ rw e (elim (Bool-cases (is_git_command word)) [
        | inl f ↦ rw f (on_git_same conn word parts h f clean)
        | inr f ↦ rw f refl
      ])
    ]

    on_exec_same :
        (conn payload : Bytes) (h : History)
        → on_exec sys exec_value marshal routes r1 conn payload h
          ≡ on_exec sys exec_value marshal routes r2 conn payload h
    unfolding on_exec
    on_exec_same conn payload h = on_command_same conn _ h (parts-IsCleaned (exec_value payload))

    answer_requests_same :
        (conn : Bytes) (reqs : List Request) (h : History)
        → answer_requests sys exec_value marshal routes r1 conn reqs h
          ≡ answer_requests sys exec_value marshal routes r2 conn reqs h
    unfolding answer_requests
    answer_requests_same conn [] h = refl
    answer_requests_same conn (req ∷ reqs) h = elim (Bool-cases (eqb req.kind (codes "env"))) [
      | inl e ↦ rw e (answer_requests_same conn reqs _)
      | inr e ↦ rw e (elim (Bool-cases (eqb req.kind (codes "exec"))) [
        | inl f ↦ rw f (on_exec_same conn req.payload h)
        | inr f ↦ rw f (answer_requests_same conn reqs _)
      ])
    ]

    -- Two routers that do the same for the ping, and for `git-receive-pack` and `git-upload-pack` on a
    -- repository without `$` and backquote, make the same server: nothing else ever reaches the router.
    pub answer_safe :
        (conn : Bytes) (reqs : List Request) (h : History)
        → answer sys exec_value marshal routes r1 conn reqs h
          ≡ answer sys exec_value marshal routes r2 conn reqs h
    unfolding answer closing
    answer_safe conn reqs h =
        ap (λ (r : Outcome (Unit {0}) × History). (r.0, Call.close_channel ∷ r.1))
          (answer_requests_same conn reqs h)
