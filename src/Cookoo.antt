-- ===== src/Cookoo.antt =====
-- What the code uses of the cookoo library: a context of values by their names, routes of tasks with
-- their parameters, and a router that runs the tasks of a route. The library is a parameter, a record
-- of its operations with what is documented of them.
use sa_builder.Base.{
  ◌≡◌, ◌≢◌, sym, ap, ◌∙◌, Bytes, List, [], ◌∷◌, false, Option, none, some, Outcome, ok, err, panic,
  M, ◌>>=◌, pure, eqb, eqb_iff, if◌then◌else◌,
}
use sa_builder.Base.Int.{ℤ}
use sa_builder.System.{Call, Answer, got, failed}
use sa_builder.Sshd.Keys.{PublicKey, Permissions}

-- The values that the program keeps in a context; `nothing` is nil.
pub data Value : Type 0 where
  text : Bytes → Value
  public_key : PublicKey → Value
  permissions : Permissions → Value
  signers : List Bytes → Value
  integer : ℤ → Value
  channel request metadata router server_config truth nothing : Value

-- `cookoo.Param`: its name, the name in the context that `From: "cxt:..."` gives, and its default.
pub record Param : Type 0 where
  pub name : Bytes
  pub from : Option Bytes
  pub default : Value

-- `cookoo.Cmd`, for the functions `F` of the program
pub record Task (F : Type 0) : Type 0 where
  pub name : Bytes
  pub fn : F
  pub using : List Param

-- `cookoo.Route`
pub record Route (F : Type 0) : Type 0 where
  pub name : Bytes
  pub does : List (Task F)

abbrev pub Params : Type 0
Params = List (Bytes × Value)

-- `p.Get(name, ...)`, none if the parameter was not given
unfoldable pub param : Bytes → Params → Option Value
unfolding eqb
param name [] = none
param name ((key, v) ∷ ps) = let rest = param name ps in if eqb key name then some v else rest

-- The route of a name.
unfoldable pub find_route : {F : Type 0} → Bytes → List (Route F) → Option (Route F)
unfolding eqb
find_route name [] = none
find_route name (r ∷ rs) = let rest = find_route name rs in if eqb r.name name then some r else rest

-- `cookoo.Context`, and that `Put`, `Get` and `Copy` do what their names say.
pub record Contexts : Type 1 where
  pub Context : Type 0
  pub get : Context → Bytes → Option Value
  pub put : Context → Bytes → Value → Context
  pub copy : Context → Context
  pub get-put_self : (c : Context) (key : Bytes) (v : Value) → get (put c key v) key ≡ some v
  pub get-put_other :
      (c : Context) (key other : Bytes) (v : Value)
      → other ≢ key
      → get (put c key v) other ≡ get c other
  pub get-copy : (c : Context) (key : Bytes) → get (copy c) key ≡ get c key

-- A text that a context or a parameter holds, or a default: `....(string)`.
abbrev pub as_text : Bytes → Option Value → Outcome Bytes
as_text default none = ok default
as_text default (some (text s)) = ok s
as_text default (some _) = panic

-- The error of a function, as a value.
abbrev pub attempt : {A : Type 0} → M Call A → M Call (Answer A)
attempt m h =
    let (r, h') = m h in
    elim r [ ok a ↦ (ok (got a), h') | err e ↦ (ok (failed e), h') | panic ↦ (panic, h') ]

module _ (C : Contexts) where
  open C use {Context, get, put}

  -- A value stays where another name is put.
  pub get-put_keep :
      (c : Context) (name key : Bytes) (v : Value) {w : Option Value}
      → eqb key name ≡ false
      → get c key ≡ w
      → get (put c name v) key ≡ w
  get-put_keep c name key v e f =
      C.get-put_other c name key v (λ q. cc (sym e ∙ (eqb_iff key name).1 q)) ∙ f

  -- What a function of the program does with its parameters: a value and the context after it.
  abbrev pub Runner : Type 0 → Type 0
  Runner F = F → Params → Context → M Call (Value × Context)

  -- The default where the context has no such value.
  abbrev pub or_default : Value → Option Value → Value
  or_default v none = v
  or_default v (some w) = w

  abbrev pub resolve_one : Context → Option Bytes → Value → Value
  resolve_one cxt none v = v
  resolve_one cxt (some key) v = or_default v (get cxt key)

  abbrev pub resolve : List Param → Context → Params
  resolve [] cxt = []
  resolve (p ∷ ps) cxt = (p.name, resolve_one cxt p.from p.default) ∷ resolve ps cxt

  -- What is documented of a route: its tasks run in their order, each result is stored under its
  -- task's name, and the first error ends the route.
  unfoldable pub run_tasks :
      {F : Type 0} → Runner F → List (Task F) → Context → M Call (Context × Option Bytes)
  run_tasks run [] cxt = pure (cxt, none)
  run_tasks run (t ∷ ts) cxt = do
    r ← attempt (run t.fn (resolve t.using cxt) cxt)
    elim r [ failed e ↦ pure (cxt, some e) | got (v, cxt') ↦ run_tasks run ts (put cxt' t.name v) ]

  -- What follows a task.
  abbrev after_task :
      {F : Type 0}
      → Runner F
      → Task F
      → List (Task F)
      → Context
      → Outcome (Value × Context) × List Call
      → Outcome (Context × Option Bytes) × List Call
  after_task run t ts cxt r =
      (do
        a ← attempt (λ _. r)
        elim a [
          | failed e ↦ pure (cxt, some e)
          | got (v, cxt') ↦ run_tasks run ts (put cxt' t.name v)
        ])
        []

  -- A task that ends, before others.
  pub run_tasks-cons :
      {F : Type 0} (run : Runner F) (t : Task F) (ts : List (Task F)) (cxt : Context)
      (h : List Call) {h1 : List Call} (v : Value) (cxt' : Context)
      → run t.fn (resolve t.using cxt) cxt h ≡ (ok (v, cxt'), h1)
      → run_tasks run (t ∷ ts) cxt h ≡ run_tasks run ts (put cxt' t.name v) h1
  unfolding run_tasks
  run_tasks-cons run t ts cxt h v cxt' e = ap (after_task run t ts cxt) e

  -- A first task that fails.
  pub run_tasks-fails :
      {F : Type 0} (run : Runner F) (t : Task F) (ts : List (Task F)) (cxt : Context)
      (h : List Call) {h1 : List Call} (e : Bytes)
      → run t.fn (resolve t.using cxt) cxt h ≡ (err e, h1)
      → run_tasks run (t ∷ ts) cxt h ≡ (ok (cxt, some e), h1)
  unfolding run_tasks
  run_tasks-fails run t ts cxt h m e = ap (after_task run t ts cxt) e

  -- A route of one task.
  module _ {F : Type 0} (run : Runner F) (t : Task F) (cxt : Context) (h : List Call)
      {h1 : List Call} where
    pub run_tasks-ok :
        (v : Value) (cxt' : Context)
        → run t.fn (resolve t.using cxt) cxt h ≡ (ok (v, cxt'), h1)
        → run_tasks run (t ∷ []) cxt h ≡ (ok (put cxt' t.name v, none), h1)
    unfolding run_tasks
    run_tasks-ok v cxt' e = run_tasks-cons run t [] cxt h v cxt' e

  -- `cookoo.Router` over the functions `F`: the context after the request, and its error. Of runs
  -- that panic nothing is assumed.
  pub record Dispatcher (F : Type 0) : Type 0 where
    pub handle_request :
        Runner F → List (Route F) → Bytes → Context → M Call (Context × Option Bytes)
    pub handle_request_lem :
        (run : Runner F) (routes : List (Route F)) (name : Bytes) (route : Route F) (cxt : Context)
        (h : List Call)
        → find_route name routes ≡ some route
        → (run_tasks run route.does cxt h).0 ≢ panic
        → handle_request run routes name cxt h ≡ run_tasks run route.does cxt h

  -- A request whose tasks end, with or without an error.
  pub handle_request-ok :
      {F : Type 0} (D : Dispatcher F) (run : Runner F) (routes : List (Route F)) (name : Bytes)
      (route : Route F) (cxt : Context) (h : List Call) {a : Context × Option Bytes}
      {h1 : List Call}
      → find_route name routes ≡ some route
      → run_tasks run route.does cxt h ≡ (ok a, h1)
      → D.handle_request run routes name cxt h ≡ (ok a, h1)
  handle_request-ok D run routes name route cxt h found e =
      D.handle_request_lem run routes name route cxt h found
        (λ q. cc (sym (ap (λ (r : Outcome (Context × Option Bytes) × List Call). r.0) e) ∙ q))
      ∙ e
