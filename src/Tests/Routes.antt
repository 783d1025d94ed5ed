-- ===== src/Tests/Routes.antt =====
-- The theorems on the routes and the boot, at concrete inputs: contexts as lists of values, and a
-- router that runs the tasks of a route.
use sa_builder.Base.{
  ℕ, ◌≤◌, ◌≡◌, ◌≢◌, refl, sym, ◌∙◌, ap, inl, Bytes, codes, List, [], ◌∷◌, true, false, Option, none,
  some, Outcome, ok, err, panic, M, fail, eqb, eqb_iff, eqb_refl, Bool-cases, inr,
}
use sa_builder.Base.Int.{pos}
use sa_builder.Strings.{split_two, contains, has_prefix, replace_byte, trim_prefix, trim_suffix}
use sa_builder.Sshd.Keys.{allowed_key, fingerprint, key_fingerprint}
use sa_builder.Sshd.Fingerprint.{
  store, hex_digit, hex_encode, make_bytes, put_digit, colon_loop, colon_notation,
}
use sa_builder.Git.Repo.{locked, init_repo, on_stat, create_repo, create_pre_receive_hook}
use sa_builder.System.{Call, History}
use sa_builder.Cookoo.{
  Value, text, router, Params, param, Route, find_route, Contexts, Runner, run_tasks, Dispatcher,
}
use sa_builder.Sshd.Server.{clean_exec, is_git_command, answer}
use sa_builder.Sshd.Server.Laws.{exec_of}
use sa_builder.Sshd.Keys.Laws.{stored}
use sa_builder.Sshd.Keys.{PublicKey}
use sa_builder.Sshd.HostKeys.{gen_ssh_keys, parse_host_keys, ssh_keygen}
use sa_builder.Sshd.Listener.{Network, serve, add_host_keys}
use sa_builder.Sshd.Listener.Laws.{Finite, taken, Ends, IsClosed, serve-Ends}
use sa_builder.Routes.{Fn, registry, run_fn}
use sa_builder.Routes.Auth.{no_permissions, public_key_callback, IsReady, callback_accepts}
use sa_builder.Routes.Request.{route_names, route_params, server_router, answer_push}
use sa_builder.Git.RepoName.{clean_repo_name}
use sa_builder.Git.Receive.{receive, receive_name, ready_repo, serve_repo, run_git_shell}
use sa_builder.Git.Receive.Laws.{NotServed}
use sa_builder.Boot.{run, address, status_ok, status_local_error}
use sa_builder.Boot.Laws.{run-Ends}
use sa_builder.Boot.Signal.{boot_kills_nothing}
use sa_builder.Commands.{kill_each}
use sa_builder.Base.Int.{ℤ}
use sa_builder.Tests.{linux, alice, one_key}

abbrev pub four_bytes : ℕ → Bytes
four_bytes n = 0 ∷ 0 ∷ 0 ∷ n ∷ []

abbrev pub plain : Bytes → Bytes
plain payload = payload

-- The values put last come first.
abbrev pub put_value : Params → Bytes → Value → Params
put_value c key v = (key, v) ∷ c

pub get_put_self : (c : Params) (key : Bytes) (v : Value) → param key (put_value c key v) ≡ some v
unfolding param
get_put_self c key v = rw (eqb_refl key) refl

pub get_put_other :
    (c : Params) (key other : Bytes) (v : Value)
    → other ≢ key
    → param other (put_value c key v) ≡ param other c
unfolding param
get_put_other c key other v ne = elim (Bool-cases (eqb key other)) [
  | inl e ↦ absurd (ne (sym ((eqb_iff key other).0 e)))
  | inr e ↦ rw e refl
]

abbrev pub contexts : Contexts
contexts = record {
  Context = Params;
  get = λ c key. param key c;
  put = put_value;
  copy = λ c. c;
  get-put_self = get_put_self;
  get-put_other = get_put_other;
  get-copy = λ c key. refl;
}

abbrev pub on_route :
    Runner contexts Fn → Option (Route Fn) → Params → M Call (Params × Option Bytes)
on_route runs none c = fail (codes "no such route")
on_route runs (some r) c = run_tasks contexts runs r.does c

abbrev pub plain_router : Dispatcher contexts Fn
plain_router = record {
  handle_request = λ runs routes name c. on_route runs (find_route name routes) c;
  handle_request_lem = λ runs routes name r c h found calm. ap (λ o. on_route runs o c h) found;
}

-- What the boot leaves in a context for a new connection.
abbrev on_boot : Params
on_boot =
    (codes "cookoo.Router", router)
    ∷ (codes "route.sshd.pubkeyAuth", text (codes "pubkeyAuth"))
    ∷ []

on_boot-IsReady : IsReady linux one_key plain four_bytes some route_names contexts on_boot
unfolding param
on_boot-IsReady = (refl, refl)

abbrev mallory : PublicKey
mallory = record { key_type = codes "ssh-rsa"; marshal = codes "ZZZZ" }

alice_there : stored linux one_key [] ≡ some alice
alice_there = refl

callback_accepts_example :
    (c' : Params) × (h1 : History) × IsReady linux one_key plain four_bytes some route_names
      contexts c'
    × (public_key_callback linux one_key plain four_bytes some route_names contexts plain_router
          on_boot mallory []
        ≡ (ok (c', no_permissions, none), h1))
callback_accepts_example =
    callback_accepts linux one_key plain four_bytes some route_names contexts plain_router on_boot
      mallory alice [] on_boot-IsReady alice_there

abbrev conn : Bytes
conn = codes "10.0.0.9 4242 10.0.0.1 2223"

abbrev pushing : Bytes
pushing = codes "git-receive-pack 'my.app.git'"

pushing_git : is_git_command (codes "git-receive-pack") ≡ true
unfolding is_git_command eqb
pushing_git = refl

pushing_parts :
    split_two (clean_exec pushing) b' ' ≡ codes "git-receive-pack" ∷ codes "'my.app.git'" ∷ []
unfolding split_two clean_exec
pushing_parts = refl

pushing_received :
    (receive linux one_key
      (route_params (codes "git-receive-pack") (codes "'my.app.git'"))
      conn
      (Call.reply true ∷ [])).0
    ≡ ok tt
unfolding receive receive_name fingerprint key_fingerprint colon_notation colon_loop hex_encode
    put_digit store make_bytes clean_repo_name contains ready_repo create_repo locked on_stat
    init_repo create_pre_receive_hook serve_repo run_git_shell has_prefix replace_byte trim_prefix
    trim_suffix hex_digit allowed_key
pushing_received = refl

pushing_calm :
    (receive linux one_key
      (route_params (codes "git-receive-pack") (codes "'my.app.git'"))
      conn
      (Call.reply true ∷ [])).0
    ≢ panic
pushing_calm e = cc (sym pushing_received ∙ e)

answer_push_example :
    (h' : History) × (answer linux plain four_bytes route_names
        (server_router linux one_key plain four_bytes some contexts plain_router on_boot)
        conn
        (exec_of pushing ∷ [])
        []
      ≡ (ok tt, h'))
    × NotServed linux one_key
        (codes "/home/git")
        (codes "git-receive-pack")
        conn
        (clean_repo_name (codes "'my.app.git'"))
        []
        h'
answer_push_example =
    answer_push linux one_key plain four_bytes some contexts plain_router on_boot conn pushing
      (codes "git-receive-pack") (codes "'my.app.git'") [] [] pushing_git pushing_parts pushing_calm

pub nothing_put : (key : Bytes) → param key [] ≡ none
unfolding param
nothing_put key = refl

-- A network that gives one connection, and whose next `Accept` fails.
abbrev first_only : ℕ → Option Bytes
first_only ℕ.zero = none
first_only (ℕ.suc n) = some (codes "accept: use of closed network connection")

abbrev pub one_conn : Network
one_conn = record {
  closer_full = λ h. false;
  listen_error = λ h addr. none;
  accept_error = λ h. first_only (taken h);
}

first_only_lem : (n : ℕ) → 1 ≤ n → (e : Bytes) × (first_only n ≡ some e)
first_only_lem ℕ.zero bound = elim bound [ ]
first_only_lem (ℕ.suc n) bound = (_, refl)

pub one_conn-Finite : Finite one_conn 1
one_conn-Finite h bound = inr (first_only_lem (taken h) bound)

abbrev one_host_key : List Bytes
one_host_key = codes "key" ∷ []

abbrev any_address : Bytes
any_address = codes "0.0.0.0:2223"

serve-Ends_example :
    let keyed = add_host_keys one_host_key [] in
    ((e : Bytes)
      → one_conn.listen_error keyed any_address ≡ some e
      → serve one_conn 2 one_host_key any_address []
        ≡ some (err e, Call.listen any_address ∷ keyed))
    × (one_conn.listen_error keyed any_address ≡ none
        → Ends
            (serve one_conn 2 one_host_key any_address [])
            (IsClosed one_conn (Call.listen any_address ∷ keyed)))
serve-Ends_example = serve-Ends one_conn 1 one_conn-Finite one_host_key any_address []

generated : gen_ssh_keys linux some [] ≡ (ok tt, Call.run_cmd ssh_keygen ∷ [])
unfolding gen_ssh_keys
generated = refl

abbrev started : Option (Outcome ℕ × History)
started =
    run contexts plain_router (run_fn linux one_key plain four_bytes some route_names contexts) []
      one_conn 2 (codes "0.0.0.0") (pos 2223) []

run-Ends_example :
    (keys : List Bytes) × ((h3 : History) × (parse_host_keys linux some false
          (Call.run_cmd ssh_keygen ∷ [])
        ≡ (ok keys, h3)))
    × (h2 : History) × (let addr = address (codes "0.0.0.0") (pos 2223) in
        let keyed = add_host_keys keys h2 in
        ((e : Bytes)
          → one_conn.listen_error keyed addr ≡ some e
          → started ≡ some (ok status_local_error, Call.listen addr ∷ keyed))
        × (one_conn.listen_error keyed addr ≡ none
            → (h' : History) × (started ≡ some (ok status_ok, h'))
              × IsClosed one_conn (Call.listen addr ∷ keyed) (ok tt) h'))
run-Ends_example =
    (run-Ends linux one_key plain four_bytes some route_names contexts one_conn (codes "0.0.0.0")
        (pos 2223) plain_router [] [] 1 one_conn-Finite (λ key. nothing_put key)).1
      generated

abbrev with_router : Params
with_router = (codes "cookoo.Router", router) ∷ []

with_router_lem :
    (param (codes "enableV1") with_router ≡ none)
    × (param (codes "sshdstart") with_router ≡ none)
    × (param (codes "cookoo.Router") with_router ≡ some router)
unfolding param
with_router_lem = (refl, refl, refl)

boot_kills_nothing_example :
    (c : Params) × (pids : List (Option ℤ)) × (h2 : History) × (plain_router.handle_request
        (run_fn linux one_key plain four_bytes some route_names contexts)
        registry
        (codes "boot")
        with_router
        []
      ≡ (ok (c, none), Call.spawn_watch pids ∷ Call.notify_signals ∷ h2))
    × ((later : History) → kill_each linux pids 0 later ≡ (ok 0, later))
boot_kills_nothing_example =
    boot_kills_nothing linux one_key plain four_bytes some route_names contexts plain_router
      with_router [] with_router_lem.0 with_router_lem.1 with_router_lem.2 generated
