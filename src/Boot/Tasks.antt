-- ===== src/Boot/Tasks.antt =====
-- The tasks of the boot route, each on what its functions do.
use sa_builder.Base.{
  ℕ, ◌≡◌, refl, ◌∙◌, Bytes, codes, List, [], ◌∷◌, ◌++◌, false, Option, none, some, ok, err, ◌>>=◌,
  pure, bind-ok, bind-err, Succeeds, bind-Succeeds, eqb,
}
use sa_builder.System.{Call, History, System}
use sa_builder.Environment.{use_default, get_one, get_env}
use sa_builder.Cookoo.{
  Value, text, signers, router, server_config, truth, nothing, Contexts, get-put_keep, Runner,
  run_tasks, run_tasks-cons, run_tasks-ok,
}
use sa_builder.Sshd.Keys.{Crypto}
use sa_builder.Sshd.Server.{Routes}
use sa_builder.Sshd.HostKeys.{
  gen_ssh_keys, read_host_key, read_host_keys, read_v1_key, parse_host_keys, default_key_types,
  prepend,
}
use sa_builder.Commands.{process_ids, kill_on_exit}
use sa_builder.Routes.{
  Fn, gen_ssh_keys_fn, parse_host_keys_fn, configure_fn, env_get_fn, boot_route, gen_task,
  host_keys_task, configure_task, port_task, listen_task, host_keys_key, server_config_key, run_fn,
}

module _ (sys : System) (parse_private_key : Bytes → Option Bytes) where
  read_host_key-Succeeds : (path : Bytes) → Succeeds (read_host_key sys parse_private_key path)
  unfolding read_host_key
  read_host_key-Succeeds path h = (_, _, refl)

  read_host_keys-Succeeds :
      (types : List Bytes) → Succeeds (read_host_keys sys parse_private_key types)
  unfolding read_host_keys
  read_host_keys-Succeeds [] h = (_, _, refl)
  read_host_keys-Succeeds (t ∷ types) h =
      bind-Succeeds (read_host_key sys parse_private_key _) _ (read_host_key-Succeeds _)
        (λ key.
          bind-Succeeds (read_host_keys sys parse_private_key types) _
            (read_host_keys-Succeeds types) (λ keys h. (prepend key keys, h, refl)))
        h

  parse_host_keys-Succeeds : Succeeds (parse_host_keys sys parse_private_key false)
  unfolding parse_host_keys read_v1_key
  parse_host_keys-Succeeds =
      bind-Succeeds (read_host_keys sys parse_private_key default_key_types)
        (λ keys. read_v1_key sys parse_private_key false >>= (λ v1. pure (keys ++ prepend v1 [])))
        (read_host_keys-Succeeds default_key_types) (λ keys h. (keys ++ [], h, refl))

-- The wait for a signal, with one parameter that is no process id.
abbrev pub watching : History → History
watching h = Call.spawn_watch (none ∷ []) ∷ Call.notify_signals ∷ h

get_one-Succeeds :
    (sys : System) (name def found : Bytes) → Succeeds (get_one sys name (text def) found)
unfolding get_one use_default
get_one-Succeeds sys name def [] h = (_, _, refl)
get_one-Succeeds sys name def (c ∷ s) h = (_, _, refl)

module _ (sys : System) (crypto : Crypto) (exec_value : Bytes → Bytes) (marshal : ℕ → Bytes)
    (parse_private_key : Bytes → Option Bytes) (routes : Routes) (C : Contexts) where
  open C use {Context, get, put}

  abbrev pub runs : Runner C Fn
  runs = run_fn sys crypto exec_value marshal parse_private_key routes C

  module _ (c : Context) (h : History) where
    gen_task_ok :
        {h1 : History}
        → gen_ssh_keys sys parse_private_key h ≡ (ok tt, h1)
        → runs gen_ssh_keys_fn [] c h ≡ (ok (nothing, c), h1)
    unfolding run_fn
    gen_task_ok e = bind-ok (gen_ssh_keys sys parse_private_key) (λ _. pure (nothing, c)) h e

    pub gen_task_err :
        {h1 : History} (m : Bytes)
        → gen_ssh_keys sys parse_private_key h ≡ (err m, h1)
        → runs gen_ssh_keys_fn [] c h ≡ (err m, h1)
    unfolding run_fn
    gen_task_err m e = bind-err (gen_ssh_keys sys parse_private_key) (λ _. pure (nothing, c)) h e

    host_keys_task_ok :
        get c (codes "enableV1") ≡ none
        → (keys : List Bytes) × (h1 : History) × (runs parse_host_keys_fn [] c h
            ≡ (ok (signers keys, c), h1))
          × (parse_host_keys sys parse_private_key false h ≡ (ok keys, h1))
    unfolding run_fn
    host_keys_task_ok e =
        let (keys, h1, f) = parse_host_keys-Succeeds sys parse_private_key h in
        (
          keys,
          h1,
          rw e (
              bind-ok (parse_host_keys sys parse_private_key false) (λ ks. pure (signers ks, c)) h
                f),
          f,
        )

    configure_task_ok :
        get c (codes "cookoo.Router") ≡ some router
        → runs configure_fn [] c h ≡ (ok (server_config, c), h)
    unfolding run_fn
    configure_task_ok e = rw e refl

  abbrev port_params : List (Bytes × Value)
  port_params = (codes "EXTERNAL_PORT", text []) ∷ []

  port_task_ok :
      (c : Context) (h : History)
      → (val : Bytes) × (h1 : History) × (runs env_get_fn port_params c h
          ≡ (ok (truth, put c (codes "EXTERNAL_PORT") (text val)), h1))
  unfolding run_fn get_env
  port_task_ok c h =
      let name = codes "EXTERNAL_PORT" in
      let found = System.getenv sys h name in
      let h0 = Call.getenv name ∷ h in
      let (val, h1, e) = get_one-Succeeds sys name [] found h0 in
      (
        val,
        h1,
        bind-ok (get_env sys C port_params c) (λ c'. pure (truth, c')) h
            (bind-ok (get_one sys name (text []) found) (λ v. pure (put c name (text v))) h0 e),
      )

  listen_task_ok :
      (c : Context) (h : History)
      → get c (codes "sshdstart") ≡ none
      → run_tasks C runs (listen_task ∷ []) c h
        ≡ (ok (put c (codes "listen") nothing, none), watching h)
  unfolding run_fn kill_on_exit process_ids
  listen_task_ok c h e = run_tasks-ok C runs listen_task c h nothing c (rw e refl)

  -- What the last two tasks put hides nothing else.
  last_three :
      (c : Context) (val key : Bytes) (w : Option Value)
      → eqb key (codes "EXTERNAL_PORT") ≡ false
      → eqb key (codes "externalport") ≡ false
      → eqb key (codes "listen") ≡ false
      → get c key ≡ w
      → get
          (put
            (put (put c (codes "EXTERNAL_PORT") (text val)) (codes "externalport") truth)
            (codes "listen")
            nothing)
          key
        ≡ w
  last_three c val key w a b d e =
      get-put_keep C _ _ _ _ d (get-put_keep C _ _ _ _ b (get-put_keep C _ _ _ _ a e))

  -- What the boot leaves in the context.
  abbrev pub Booted : Context → List Bytes → Type 0
  Booted c keys =
      (get c host_keys_key ≡ some (signers keys)) × (get c server_config_key ≡ some server_config)

  module _ (c0 : Context) (h : History) {h1 : History} where
    pub boot_tasks_ok :
        get c0 (codes "enableV1") ≡ none
        → get c0 (codes "sshdstart") ≡ none
        → get c0 (codes "cookoo.Router") ≡ some router
        → gen_ssh_keys sys parse_private_key h ≡ (ok tt, h1)
        → (c : Context) × (keys : List Bytes) × (h2 : History) × (run_tasks C runs boot_route.does
              c0 h
            ≡ (ok (c, none), watching h2))
          × Booted c keys
          × ((h3 : History) × (parse_host_keys sys parse_private_key false h1 ≡ (ok keys, h3)))
    unfolding eqb
    boot_tasks_ok v1 start rt gen =
        let c1 = put c0 (codes "installSshHostKeys") nothing in
        let (keys, h2, e2, found) = host_keys_task_ok c1 h1 (get-put_keep C c0 _ _ _ refl v1) in
        let c2 = put c1 host_keys_key (signers keys) in
        let rt2 = get-put_keep C c1 _ _ _ refl (get-put_keep C c0 _ _ _ refl rt) in
        let c3 = put c2 server_config_key server_config in
        let (val, h4, e4) = port_task_ok c3 h2 in
        let c4 = put c3 (codes "EXTERNAL_PORT") (text val) in
        let c5 = put c4 (codes "externalport") truth in
        (
          put c5 (codes "listen") nothing,
          keys,
          h4,
          run_tasks-cons C runs gen_task _ c0 h nothing c0 (gen_task_ok c0 h gen)
              ∙ run_tasks-cons C runs host_keys_task _ c1 h1 (signers keys) c1 e2
              ∙ run_tasks-cons C runs configure_task _ c2 h2 server_config c2
                  (configure_task_ok c2 h2 rt2)
              ∙ run_tasks-cons C runs port_task _ c3 h2 truth c4 e4
              ∙ listen_task_ok c5 h4 (
                  get-put_keep C c4 _ _ _ refl (
                    get-put_keep C c3 _ _ _ refl (
                      get-put_keep C c2 _ _ _ refl
                        (get-put_keep C c1 _ _ _ refl (get-put_keep C c0 _ _ _ refl start))))),
          (
            last_three c3 val host_keys_key (some (signers keys)) refl refl refl
                (get-put_keep C c2 _ _ _ refl (C.get-put_self c1 _ (signers keys))),
            last_three c3 val server_config_key (some server_config) refl refl refl
                (C.get-put_self c2 _ server_config),
          ),
          (h2, found),
        )
