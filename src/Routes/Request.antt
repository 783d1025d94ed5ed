-- ===== src/Routes/Request.antt =====
-- From a request on a channel to `Receive`: the router that `answer` of pkg/sshd/server.go calls, over
-- the registry of pkg/routes.go.
use sa_builder.Base.{
  ℕ, ◌≡◌, ◌≢◌, refl, ◌∙◌, ap, inr, Bytes, codes, List, [], ◌∷◌, true, Option, none, some, Outcome,
  ok, err, panic, ◌>>=◌, pure, guard_nil, eqb, bind-ok, bind-err, After-end,
}
use sa_builder.Strings.{split_two}
use sa_builder.System.{Call, History, System}
use sa_builder.Cookoo.{
  text, nothing, channel, request, param, find_route, Contexts, Runner, resolve, get-put_keep,
  Dispatcher, handle_request-ok, run_tasks, run_tasks-ok, run_tasks-fails,
}
use sa_builder.Sshd.Keys.{Crypto}
use sa_builder.Sshd.Server
use sa_builder.Sshd.Server.{Routes, clean_exec, is_git_command, answer}
use sa_builder.Sshd.Server.Laws.{git_context, exec_of, answer_git}
use sa_builder.Git.RepoName.{clean_repo_name}
use sa_builder.Git.Receive.{Params as ReceiveParams, receive}
use sa_builder.Git.Receive.Laws.{NotServed, receive-After}
use sa_builder.Routes.{Fn, registry, receive_task, receive_route, run_fn, run_receive}

-- The names that `Run` puts into the context.
abbrev pub route_names : Routes
route_names = record { ssh_ping = codes "sshPing"; ssh_git_receive = codes "sshGitReceive" }

-- The parameters of `Receive` on this route.
abbrev pub route_params : Bytes → Bytes → ReceiveParams
route_params operation repository = record {
  has_channel = true;
  has_request = true;
  repo_name = repository;
  operation = operation;
  git_home = codes "/home/git";
}

module _ (sys : System) (crypto : Crypto) (exec_value : Bytes → Bytes) (marshal : ℕ → Bytes)
    (parse_private_key : Bytes → Option Bytes) (C : Contexts) where
  open C use {Context, get, put, copy}

  abbrev pub runs : Runner C Fn
  runs = run_fn sys crypto exec_value marshal parse_private_key route_names C

  abbrev put_some : Bytes → Option Bytes → Context → Context
  put_some key none c = c
  put_some key (some s) c = put c key (text s)

  -- The copy of the context, with what `answer` puts there.
  unfoldable pub context_of : Context → Server.Context → Context
  context_of base cxt =
      let c =
        put
          (put (put (copy base) (codes "SSH_CONNECTION") (text cxt.ssh_connection))
            (codes "channel") channel)
          (codes "request") request in
      put_some (codes "repository") cxt.repository (put_some (codes "operation") cxt.operation c)

  -- `router.HandleRequest(...)` on that context, of which only the error is used.
  unfoldable pub server_router : Dispatcher C Fn → Context → Server.Router
  server_router D base name cxt = do
    (c, e) ← D.handle_request runs registry name (context_of base cxt)
    guard_nil e (λ m. m)

  find_receive_route : find_route (codes "sshGitReceive") registry ≡ some receive_route
  unfolding find_route registry
  find_receive_route = refl

  -- What the route finds in the context.
  abbrev Holds : Context → Bytes → Bytes → Bytes → Type 0
  Holds c conn operation repository =
      (get c (codes "channel") ≡ some channel)
      × (get c (codes "operation") ≡ some (text operation))
      × (get c (codes "repository") ≡ some (text repository))
      × (get c (codes "SSH_CONNECTION") ≡ some (text conn))

  context_of-Holds :
      (base : Context) (conn operation repository : Bytes)
      → Holds (context_of base (git_context conn operation repository)) conn operation repository
  unfolding context_of eqb
  context_of-Holds base conn operation repository =
      let c0 = copy base in
      let c1 = put c0 (codes "SSH_CONNECTION") (text conn) in
      let c2 = put c1 (codes "channel") channel in
      let c3 = put c2 (codes "request") request in
      let c4 = put c3 (codes "operation") (text operation) in
      (
        get-put_keep C c4 _ _ _ refl (
            get-put_keep C c3 _ _ _ refl
              (get-put_keep C c2 _ _ _ refl (C.get-put_self c1 _ channel))),
        get-put_keep C c4 _ _ _ refl (C.get-put_self c3 _ (text operation)),
        C.get-put_self c4 _ (text repository),
        get-put_keep C c4 _ _ _ refl (
            get-put_keep C c3 _ _ _ refl (
              get-put_keep C c2 _ _ _ refl
                (get-put_keep C c1 _ _ _ refl (C.get-put_self c0 _ (text conn))))),
      )

  run_receive_lem :
      (c : Context) (conn operation repository : Bytes) (h : History)
      → Holds c conn operation repository
      → run_receive sys crypto (resolve C (receive_task.using) c) (get c (codes "SSH_CONNECTION")) h
        ≡ receive sys crypto (route_params operation repository) conn h
  unfolding run_receive param
  run_receive_lem c conn operation repository h (ch, op, rp, cn) = rw (ch, op, rp, cn) refl

  run_fn_receive :
      (c : Context) (conn operation repository : Bytes) (h h1 : History) (e : Bytes)
      → Holds c conn operation repository
      → (receive sys crypto (route_params operation repository) conn h ≡ (ok tt, h1)
          → run_tasks C runs receive_route.does c h
            ≡ (ok (put c (codes "receive") nothing, none), h1))
        × (receive sys crypto (route_params operation repository) conn h ≡ (err e, h1)
            → run_tasks C runs receive_route.does c h ≡ (ok (c, some e), h1))
  unfolding run_fn
  run_fn_receive c conn operation repository h h1 e holds =
      let ps = resolve C (receive_task.using) c in
      let go = run_receive sys crypto ps (get c (codes "SSH_CONNECTION")) in
      let same = run_receive_lem c conn operation repository h holds in
      (
        (λ f.
            run_tasks-ok C runs receive_task c h nothing c
              (bind-ok go (λ _. pure (nothing, c)) h (same ∙ f))),
        (λ f.
            run_tasks-fails C runs receive_task [] c h e
              (bind-err go (λ _. pure (nothing, c)) h (same ∙ f))),
      )

  module _ (D : Dispatcher C Fn) (base : Context) where
    -- What the server makes of the router's result.
    error_end : Outcome (Context × Option Bytes) × History → Outcome (Unit {0}) × History
    error_end r = (do (c, e) ← λ _. r; guard_nil e (λ m. m)) []

    server_router_lem :
        (cxt : Server.Context) (h : History)
        → server_router D base (codes "sshGitReceive") cxt h
          ≡ error_end
              (D.handle_request runs registry (codes "sshGitReceive") (context_of base cxt) h)
    unfolding server_router error_end
    server_router_lem cxt h = refl

    -- A Git command runs `Receive` on the operation and the repository of the request, if that does
    -- not panic.
    server_router-receive :
        (conn operation repository : Bytes) (h h1 : History) (r : Outcome (Unit {0}))
        → receive sys crypto (route_params operation repository) conn h ≡ (r, h1)
        → r ≢ panic
        → server_router D base (codes "sshGitReceive") (git_context conn operation repository) h
          ≡ (r, h1)
    unfolding error_end
    server_router-receive conn operation repository h h1 (ok a) run calm =
        let c = context_of base (git_context conn operation repository) in
        let holds = context_of-Holds base conn operation repository in
        server_router_lem _ h
        ∙ ap error_end (
            handle_request-ok C D runs registry _ receive_route c h find_receive_route
              ((run_fn_receive c conn operation repository h h1 [] holds).0 run))
    server_router-receive conn operation repository h h1 (err e) run calm =
        let c = context_of base (git_context conn operation repository) in
        let holds = context_of-Holds base conn operation repository in
        server_router_lem _ h
        ∙ ap error_end (
            handle_request-ok C D runs registry _ receive_route c h find_receive_route
              ((run_fn_receive c conn operation repository h h1 e holds).1 run))
    server_router-receive conn operation repository h h1 panic run calm = absurd (calm refl)

    -- A push over the whole path: `answer` on an `exec` of a Git command, the route and `Receive`. If
    -- `Receive` does not panic, `answer` ends without an error, and of the calls that start a command
    -- to be waited for or write a file it has made none, the write of the hook of the cleaned name's
    -- repository, or that and the start of `git-shell` for it; none if the name is refused. The
    -- router is any that runs a route's tasks.
    pub answer_push :
        (conn payload operation repository : Bytes) (after : List Server.Request) (h : History)
        → is_git_command operation ≡ true
        → split_two (clean_exec (exec_value payload)) b' ' ≡ operation ∷ repository ∷ []
        → (receive sys crypto (route_params operation repository) conn (Call.reply true ∷ h)).0
          ≢ panic
        → (h' : History) × (answer sys exec_value marshal route_names
              (server_router D base)
              conn
              (exec_of payload ∷ after)
              h
            ≡ (ok tt, h'))
          × NotServed sys crypto
              (codes "/home/git")
              operation
              conn
              (clean_repo_name repository)
              h
              h'
    answer_push conn payload operation repository after h git parts calm =
        let r = receive sys crypto (route_params operation repository) conn (Call.reply true ∷ h) in
        (
          _,
          answer_git sys exec_value marshal route_names (server_router D base) conn payload
              operation repository after h (r.1) (r.0) git parts
              (server_router-receive conn operation repository (Call.reply true ∷ h) (r.1) (r.0)
                refl calm)
              calm,
          After-end r (λ _ h1 (name, e, started). inr (name, e, inr (inr started)))
              (receive-After sys crypto (route_params operation repository) conn
                (Call.reply true ∷ h)),
        )
