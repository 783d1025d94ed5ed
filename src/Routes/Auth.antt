-- ===== src/Routes/Auth.antt =====
-- The callback that `Configure` of pkg/sshd/sshd.go installs for public keys, over the route of
-- pkg/routes.go, and whom it lets in.
use sa_builder.Base.{
  ℕ, ◌≡◌, ◌≢◌, refl, sym, ◌∙◌, ap, Bytes, codes, [], ◌∷◌, Bool, true, false, Option, none, some,
  Outcome, ok, panic, M, ◌>>=◌, pure, bind-ok, eqb, eqb_iff, if◌then◌else◌,
}
use sa_builder.System.{Call, History, System}
use sa_builder.Cookoo.{
  Value, public_key, permissions, metadata, Params, param, find_route, Contexts, as_text,
  Dispatcher, handle_request-ok, Runner, resolve, run_tasks, run_tasks-ok,
}
use sa_builder.Sshd.Keys.{
  PublicKey, Permissions, Crypto, auth_key, compare_keys, builder_permissions, allowed_key_path,
}
use sa_builder.Sshd.Keys.Laws.{stored}
use sa_builder.Sshd.Server.{Routes}
use sa_builder.Routes.{
  Fn, registry, auth_task, auth_key_fn, auth_route, permissions_value, run_fn, run_auth_key, lift,
}

-- `&ssh.Permissions{}`
abbrev pub no_permissions : Permissions
no_permissions = record { extensions = [] }

-- `c.Get("pubkeyAuth", ...).(*ssh.Permissions)`
abbrev pub as_permissions : Option Value → Outcome Permissions
as_permissions none = ok no_permissions
as_permissions (some (permissions p)) = ok p
as_permissions (some _) = panic

module _ (sys : System) (crypto : Crypto) (exec_value : Bytes → Bytes) (marshal : ℕ → Bytes)
    (parse_private_key : Bytes → Option Bytes) (routes : Routes) (C : Contexts)
    (D : Dispatcher C Fn) where
  open C use {Context, get, put}

  -- The context after the callback, the permissions and the error that it returns.
  unfoldable pub public_key_callback :
      Context → PublicKey → M Call (Context × Permissions × Option Bytes)
  public_key_callback c key = do
    let c' = put (put c (codes "metadata") metadata) (codes "key") (public_key key)
    name ← lift (as_text (codes "pubkeyAuth") (get c' (codes "route.sshd.pubkeyAuth")))
    (c'', e) ←
        D.handle_request (run_fn sys crypto exec_value marshal parse_private_key routes C) registry
          name c'
    p ← lift (as_permissions (get c'' (codes "pubkeyAuth")))
    pure (c'', p, e)

find_auth_route : find_route (codes "pubkeyAuth") registry ≡ some auth_route
unfolding find_route registry
find_auth_route = refl

compare_keys_ends : (a b : PublicKey) → (s : Bool) × (compare_keys a (some b) ≡ ok s)
unfolding compare_keys
compare_keys_ends a b =
    elim (eqb a.key_type b.key_type)
      as (λ t. (s : Bool) × (if◌then◌else◌ t (ok (eqb a.marshal b.marshal)) (ok false) ≡ ok s)) [
        | true ↦ (eqb a.marshal b.marshal, refl)
        | false ↦ (false, refl)
      ]

-- With a key in the file `AuthKey` ends, whatever key it is asked about.
auth_key_ends :
    (sys : System) (crypto : Crypto) (key b : PublicKey) (h : History)
    → stored sys crypto h ≡ some b
    → (p : Option Permissions) × (h1 : History) × (auth_key sys crypto key h ≡ (ok p, h1))
unfolding auth_key
auth_key_ends sys crypto key b h e =
    let (s, f) = compare_keys_ends key b in
    (if s then some builder_permissions else none, Call.read_file allowed_key_path ∷ h, rw e (rw f))

-- Two names that differ.
name_ne : (a b : Bytes) → eqb a b ≡ false → a ≢ b
name_ne a b e q = cc (sym e ∙ (eqb_iff a b).1 q)

module _ (sys : System) (crypto : Crypto) (exec_value : Bytes → Bytes) (marshal : ℕ → Bytes)
    (parse_private_key : Bytes → Option Bytes) (routes : Routes) (C : Contexts) where
  open C use {Context, get, put}

  abbrev runs : Runner C Fn
  runs = run_fn sys crypto exec_value marshal parse_private_key routes C

  run_auth_key_lem :
      (ps : Params) (c : Context) (key : PublicKey) (h h1 : History) (p : Option Permissions)
      → param (codes "key") ps ≡ some (public_key key)
      → auth_key sys crypto key h ≡ (ok p, h1)
      → runs auth_key_fn ps c h ≡ (ok (permissions_value p, c), h1)
  unfolding run_fn run_auth_key
  run_auth_key_lem ps c key h h1 p e f = rw e (
      bind-ok (run_auth_key sys crypto (some (public_key key))) (λ v. pure (v, c)) h
        (bind-ok (auth_key sys crypto key) (λ q. pure (permissions_value q)) h f))

  resolve_key :
      (c : Context) (key : PublicKey)
      → get c (codes "key") ≡ some (public_key key)
      → param (codes "key") (resolve C (auth_task.using) c) ≡ some (public_key key)
  unfolding param
  resolve_key c key e = rw e

  run_auth_route :
      (c : Context) (key : PublicKey) (h h1 : History) (p : Option Permissions)
      → get c (codes "key") ≡ some (public_key key)
      → auth_key sys crypto key h ≡ (ok p, h1)
      → run_tasks C runs (auth_task ∷ []) c h
        ≡ (ok (put c (codes "authN") (permissions_value p), none), h1)
  run_auth_route c key h h1 p e f =
      run_tasks-ok C runs auth_task c h (permissions_value p) c
        (run_auth_key_lem (resolve C (auth_task.using) c) c key h h1 p (resolve_key c key e) f)

  -- The context is ready for the callback: it names the route, or leaves it to the default, and holds
  -- nothing under `pubkeyAuth`.
  abbrev pub IsReady : Context → Type 0
  IsReady c =
      (as_text (codes "pubkeyAuth") (get c (codes "route.sshd.pubkeyAuth"))
        ≡ ok (codes "pubkeyAuth"))
      × (get c (codes "pubkeyAuth") ≡ none)

  put-IsReady :
      (c : Context) (name : Bytes) (v : Value)
      → eqb (codes "route.sshd.pubkeyAuth") name ≡ false
      → eqb (codes "pubkeyAuth") name ≡ false
      → IsReady c
      → IsReady (put c name v)
  put-IsReady c name v e f (r, p) = (
    rw (C.get-put_other c name (codes "route.sshd.pubkeyAuth") v (name_ne _ _ e)) r,
    C.get-put_other c name (codes "pubkeyAuth") v (name_ne _ _ f) ∙ p,
  )

  module _ (D : Dispatcher C Fn) where
    -- What the callback does behind the router.
    callback_end :
        Outcome (Context × Option Bytes) × History
        → Outcome (Context × Permissions × Option Bytes) × History
    callback_end r =
        (do (c, e) ← λ _. r; p ← lift (as_permissions (get c (codes "pubkeyAuth"))); pure (c, p, e))
          []

    callback_lem :
        (c : Context) (key : PublicKey) (h : History)
        → let c' = put (put c (codes "metadata") metadata) (codes "key") (public_key key) in
          as_text (codes "pubkeyAuth") (get c' (codes "route.sshd.pubkeyAuth"))
            ≡ ok (codes "pubkeyAuth")
          → public_key_callback sys crypto exec_value marshal parse_private_key routes C D c key h
            ≡ callback_end (D.handle_request runs registry (codes "pubkeyAuth") c' h)
    unfolding public_key_callback callback_end
    callback_lem c key h e = rw e refl

    -- With a key in the file the callback returns no error for any key at all, whether it is the key
    -- in the file or not, and empty permissions: nobody reads what `AuthKey` found. The context stays
    -- ready, so the next attempt ends the same way. The router is any that runs a route's tasks.
    pub callback_accepts :
        (c : Context) (key b : PublicKey) (h : History)
        → IsReady c
        → stored sys crypto h ≡ some b
        → (c' : Context) × (h1 : History) × IsReady c'
          × (public_key_callback sys crypto exec_value marshal parse_private_key routes C D c key h
              ≡ (ok (c', no_permissions, none), h1))
    unfolding eqb callback_end
    callback_accepts c key b h ready found =
        let c1 = put c (codes "metadata") metadata in
        let c2 = put c1 (codes "key") (public_key key) in
        let ready2 : IsReady c2 =
          put-IsReady c1 (codes "key") (public_key key) refl refl
            (put-IsReady c (codes "metadata") metadata refl refl ready) in
        let (p, h1, e) = auth_key_ends sys crypto key b h found in
        let run =
          run_auth_route c2 key h h1 p (C.get-put_self c1 (codes "key") (public_key key)) e in
        let c3 = put c2 (codes "authN") (permissions_value p) in
        let ready3 : IsReady c3 =
          put-IsReady c2 (codes "authN") (permissions_value p) refl refl ready2 in
        let handled =
          handle_request-ok C D runs registry (codes "pubkeyAuth") auth_route c2 h find_auth_route
            run in
        (
          c3,
          h1,
          ready3,
          callback_lem c key h ready2.0 ∙ (ap callback_end handled ∙ rw (ready3.1) refl),
        )
