-- ===== src/Boot/Laws.antt =====
-- The status that the builder ends with.
use sa_builder.Base.{
  ℕ, suc, ◌≡◌, refl, ◌∙◌, ap, Bytes, codes, List, ◌∷◌, false, Option, none, some, Outcome, ok, err,
  panic, eqb,
}
use sa_builder.Base.Int.{ℤ}
use sa_builder.System.{Call, History, System}
use sa_builder.Cookoo.{
  Value, text, signers, router, server_config, Contexts, get-put_keep, Dispatcher, Runner,
  find_route, run_tasks-fails, handle_request-ok,
}
use sa_builder.Sshd.Keys.{Crypto}
use sa_builder.Sshd.Server.{Routes}
use sa_builder.Sshd.HostKeys.{gen_ssh_keys, parse_host_keys}
use sa_builder.Sshd.Listener.{Network, Run, add_host_keys, serve}
use sa_builder.Sshd.Listener.Laws.{Finite, Ends, IsClosed, serve-Ends}
use sa_builder.Routes.{
  Fn, registry, boot_route, gen_task, host_keys_key, server_config_key, address_key,
}
use sa_builder.Boot.{
  address, status_ok, status_local_error, status_of, serve_inputs, serve_from, with_names, booted,
  run,
}
use sa_builder.Boot.Tasks.{runs as boot_runs, gen_task_err, boot_tasks_ok, Booted, watching}

-- A service that ended as `Serve` does gives status 0.
status_ok_of :
    (net : Network) (r : Option (Outcome ℕ × History)) (s : Run) (h2 : History)
    → r ≡ status_of s
    → Ends s (IsClosed net h2)
    → (h' : History) × (r ≡ some (ok status_ok, h')) × IsClosed net h2 (ok tt) h'
unfolding status_of
status_ok_of net r none h2 e ends = absurd ends
status_ok_of net r (some (ok a, h')) h2 e ends = (h', e, ends)
status_ok_of net r (some (err m, h')) h2 e (q, ends) = absurd (cc)
status_ok_of net r (some (panic, h')) h2 e (q, ends) = absurd (cc)

pub find_boot_route : find_route (codes "boot") registry ≡ some boot_route
unfolding find_route registry
find_boot_route = refl

module _ (sys : System) (crypto : Crypto) (exec_value : Bytes → Bytes) (marshal : ℕ → Bytes)
    (parse_private_key : Bytes → Option Bytes) (routes : Routes) (C : Contexts) where
  open C use {Context, get, put}

  abbrev runs : Runner C Fn
  runs = boot_runs sys crypto exec_value marshal parse_private_key routes C

  -- How the program ends where the address cannot be listened on, and where it can.
  module _ (net : Network) (ip : Bytes) (port : ℤ) where
    -- The names of the routes hide nothing else.
    behind_names :
        (c : Context) (key : Bytes) (w : Option Value)
        → eqb key (codes "route.sshd.pubkeyAuth") ≡ false
        → eqb key (codes "route.sshd.sshPing") ≡ false
        → eqb key (codes "route.sshd.sshGitReceive") ≡ false
        → get (put c address_key (text (address ip port))) key ≡ w
        → get (with_names C ip port c) key ≡ w
    unfolding with_names
    behind_names c key w a b d e =
        get-put_keep C _ _ _ _ d (get-put_keep C _ _ _ _ b (get-put_keep C _ _ _ _ a e))

    serve_inputs_ok :
        (c : Context) (keys : List Bytes) (h : History)
        → Booted sys crypto exec_value marshal parse_private_key routes C c keys
        → serve_inputs C (with_names C ip port c) h ≡ (ok (keys, address ip port), h)
    unfolding serve_inputs eqb
    serve_inputs_ok c keys h there =
        rw
          (
            behind_names c host_keys_key (some (signers keys)) refl refl refl
                (get-put_keep C c _ _ _ refl (there.0)),
            behind_names c address_key (some (text (address ip port))) refl refl refl
                (C.get-put_self c address_key _),
            behind_names c server_config_key (some server_config) refl refl refl
                (get-put_keep C c _ _ _ refl (there.1)),
          )
          refl

    abbrev after_inputs : ℕ → Outcome (List Bytes × Bytes) × History → Run
    after_inputs fuel r = elim r.0 [
      | ok (keys, addr) ↦ serve net fuel keys addr r.1
      | err e ↦ some (err e, r.1)
      | panic ↦ some (panic, r.1)
    ]

    booted_ok :
        (fuel : ℕ) (c : Context) (keys : List Bytes) (h : History)
        → Booted sys crypto exec_value marshal parse_private_key routes C c keys
        → booted C net fuel ip port (ok (c, none), h)
          ≡ status_of (serve net fuel keys (address ip port) h)
    unfolding booted serve_from
    booted_ok fuel c keys h there =
        ap (λ r. status_of (after_inputs fuel r)) (serve_inputs_ok c keys h there)

    module _ (D : Dispatcher C Fn) (empty : Context) (h : History) {h1 : History} where
      run-gen_failed :
          (fuel : ℕ) (m : Bytes)
          → gen_ssh_keys sys parse_private_key h ≡ (err m, h1)
          → run C D runs empty net fuel ip port h ≡ some (ok 1, h1)
      unfolding run booted
      run-gen_failed fuel m e =
          let c0 = put empty (codes "cookoo.Router") router in
          ap (booted C net fuel ip port) (
            handle_request-ok C D runs registry _ boot_route c0 h find_boot_route (
              run_tasks-fails C runs gen_task _ c0 h m
                (gen_task_err sys crypto exec_value marshal parse_private_key routes C c0 h m e)))

      run-booted :
          (fuel : ℕ)
          → ((key : Bytes) → get empty key ≡ none)
          → gen_ssh_keys sys parse_private_key h ≡ (ok tt, h1)
          → (keys : List Bytes) × (h2 : History) × (run C D runs empty net fuel ip port h
              ≡ status_of (serve net fuel keys (address ip port) h2))
            × ((h3 : History) × (parse_host_keys sys parse_private_key false h1 ≡ (ok keys, h3)))
      unfolding run eqb
      run-booted fuel nothing_there gen =
          let c0 = put empty (codes "cookoo.Router") router in
          let (c, keys, h2, e, there, found) =
            boot_tasks_ok sys crypto exec_value marshal parse_private_key routes C c0 h
              (get-put_keep C empty _ _ _ refl (nothing_there _))
              (get-put_keep C empty _ _ _ refl (nothing_there _)) (C.get-put_self empty _ router)
              gen in
          (
            keys,
            watching h2,
            ap (booted C net fuel ip port)
                  (handle_request-ok C D runs registry _ boot_route c0 h find_boot_route e)
                ∙ booted_ok fuel c keys (watching h2) there,
            found,
          )

      -- `Run` ends where `Serve` does: `n` is a number of connections behind which the closer is full
      -- or `Accept` fails, and the context is empty at the start. If `ssh-keygen` fails it ends with
      -- status 1 and does nothing else. Otherwise it listens with the host keys that `ParseHostKeys`
      -- finds behind it, and ends with status 1 if the address cannot be listened on; and else with
      -- status 0, at a full closer or where `Accept` failed, after the listener was closed and each
      -- connection accepted since had its handling started before the next was accepted.
      pub run-Ends :
          (n : ℕ)
          → Finite net n
          → ((key : Bytes) → get empty key ≡ none)
          → ((m : Bytes)
              → gen_ssh_keys sys parse_private_key h ≡ (err m, h1)
              → run C D runs empty net (suc n) ip port h ≡ some (ok status_local_error, h1))
            × (gen_ssh_keys sys parse_private_key h ≡ (ok tt, h1)
                → (keys : List Bytes) × ((h3 : History) × (parse_host_keys sys parse_private_key
                        false h1
                      ≡ (ok keys, h3)))
                  × (h2 : History) × (let addr = address ip port in
                      let keyed = add_host_keys keys h2 in
                      ((e : Bytes)
                        → net.listen_error keyed addr ≡ some e
                        → run C D runs empty net (suc n) ip port h
                          ≡ some (ok status_local_error, Call.listen addr ∷ keyed))
                      × (net.listen_error keyed addr ≡ none
                          → (h' : History) × (run C D runs empty net (suc n) ip port h
                              ≡ some (ok status_ok, h'))
                            × IsClosed net (Call.listen addr ∷ keyed) (ok tt) h')))
      unfolding status_of
      run-Ends n finite nothing_there = (
        (λ m e. run-gen_failed (suc n) m e),
        (λ gen.
            let (keys, h2, e, found) = run-booted (suc n) nothing_there gen in
            let ends = serve-Ends net n finite keys (address ip port) h2 in
            (
              keys,
              found,
              h2,
              (
                (λ m f. e ∙ ap status_of ((ends.0) m f)),
                (λ f.
                    status_ok_of net (run C D runs empty net (suc n) ip port h)
                      (serve net (suc n) keys (address ip port) h2) _ e ((ends.1) f)),
              ),
            )),
      )
