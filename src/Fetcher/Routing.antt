-- ===== src/Fetcher/Routing.antt =====
-- The routes send each request to the handler that the store expects.
use sa_builder.Base.{
  ◌≡◌, ◌≢◌, refl, length, sym, ◌∙◌, Bytes, codes, List, [], ◌∷◌, ◌++◌, Bool, true, false, ◌&&◌,
  Option, none, some, eqb, eqb_iff, if◌then◌else◌, Bool-cases, inl, inr, arith,
}
use mathlib.Core.Path.{subst}
use sa_builder.Strings.{split}
use sa_builder.Fetcher.Server.{
  Handler, routes, Vars, var, match_elements, or_next, first_match, AfterSlash,
}
use sa_builder.Fetcher.Store.{ask_tar, ask_slug, ask_health, put_under, no_ask, ask_of}
use sa_builder.Fetcher.Templates.{
  match_elements-none, below, put_name, below-lit, below-any, health_elements, health-lit,
  routed_ask,
}

-- The routes in their order, with their methods and what their templates make of a path.
abbrev in_order :
    Bool → Bool → Option Vars → Option Vars → Option Vars → Option Vars → Option (Handler × Vars)
in_order get put tar slug health any =
    let last = if put then or_next Handler.put_slug_handler any none else none in
    let third = if get then or_next Handler.health_handler health last else last in
    let second = if get then or_next Handler.get_slug_handler slug third else third in
    if get then or_next Handler.get_tar_handler tar second else second

routes_in_order :
    (method : Bytes) (segs : List Bytes)
    → first_match routes method segs
      ≡ in_order
          (eqb (codes "GET") method)
          (eqb (codes "PUT") method)
          (match_elements (below (codes "tar")) segs)
          (match_elements (below (codes "slug")) segs)
          (match_elements health_elements segs)
          (match_elements (below (codes "{type}")) segs)
unfolding first_match split
routes_in_order method segs = refl

one_method : (method : Bytes) → (eqb (codes "GET") method && eqb (codes "PUT") method) ≡ false
one_method method = elim (Bool-cases (eqb (codes "GET") method)) [
  | inl e ↦ rw (← (eqb_iff (codes "GET") method).0 e) (unfold eqb in refl)
  | inr e ↦ rw e refl
]

-- A name and an element behind it.
ask_pair :
    (get put g h tar slug : Bool) (n w : Bytes)
    → (get && put) ≡ false
    → routed_ask (
        in_order get put
          (if g && h && tar then some (put_name n) else none)
          (if g && h && slug then some (put_name n) else none)
          none
          (if g && h then some (put_name n ++ (codes "type", w) ∷ []) else none))
      ≡ (if g && h
          then (if get
              then (if tar then ask_tar n else (if slug then ask_slug n else no_ask))
              else (if put then put_under n else no_ask))
          else no_ask)
unfolding var eqb
ask_pair true true g h tar slug n w p = cc
ask_pair true false true true true slug n w p = refl
ask_pair true false true true false true n w p = refl
ask_pair true false true true false false n w p = refl
ask_pair false true true true tar slug n w p = refl
ask_pair false false true true tar slug n w p = refl
ask_pair true false true false tar slug n w p = refl
ask_pair true false false h tar slug n w p = refl
ask_pair false true true false tar slug n w p = refl
ask_pair false true false h tar slug n w p = refl
ask_pair false false true false tar slug n w p = refl
ask_pair false false false h tar slug n w p = refl

ask_single :
    (get put g h health : Bool)
    → routed_ask (in_order get put none none (if g && h && health then some [] else none) none) ≡ (
        if g && h
        then (if get
            then (if health then ask_health else no_ask)
            else (if put then no_ask else no_ask))
        else no_ask)
ask_single get put g h health = ground arith

ask_none : (get put : Bool) → routed_ask (in_order get put none none none none) ≡ no_ask
ask_none get put = ground arith

ask_nothing :
    (get put b : Bool)
    → no_ask ≡ (if b then (if get then no_ask else (if put then no_ask else no_ask)) else no_ask)
ask_nothing get put b = ground arith

-- A path of a length that no template has.
no_route :
    (method : Bytes) (segs : List Bytes)
    → length segs ≢ 5
    → length segs ≢ 4
    → routed_ask (first_match routes method segs) ≡ no_ask
no_route method segs five four =
    rw
      (
        routes_in_order method segs,
        match_elements-none (below (codes "tar")) segs (omega arith),
        match_elements-none (below (codes "slug")) segs (omega arith),
        match_elements-none health_elements segs (omega arith),
        match_elements-none (below (codes "{type}")) segs (omega arith),
      )
      (ask_none (eqb (codes "GET") method) (eqb (codes "PUT") method))

-- The routes and the store read a path in the same way.
rest_ask :
    (method : Bytes) (rest : List Bytes)
    → routed_ask (first_match routes method ([] ∷ rest)) ≡ ask_of method ([] ∷ rest)
rest_ask method [] = no_route method _ (omega arith) (omega arith)
rest_ask method (g ∷ []) = no_route method _ (omega arith) (omega arith)
rest_ask method (g ∷ h ∷ []) =
    no_route method _ (omega arith) (omega arith)
    ∙ ask_nothing (eqb (codes "GET") method) (eqb (codes "PUT") method)
        (eqb (codes "git") g && eqb (codes "home") h)
rest_ask method (g ∷ h ∷ n ∷ []) =
    let segs = [] ∷ g ∷ h ∷ n ∷ [] in
    rw
      (
        routes_in_order method segs,
        match_elements-none (below (codes "tar")) segs (omega arith),
        match_elements-none (below (codes "slug")) segs (omega arith),
        health-lit g h n,
        match_elements-none (below (codes "{type}")) segs (omega arith),
      )
      (ask_single (eqb (codes "GET") method) (eqb (codes "PUT") method) (eqb (codes "git") g)
        (eqb (codes "home") h) (eqb (codes "health") n))
rest_ask method (g ∷ h ∷ n ∷ w ∷ []) =
    let segs = [] ∷ g ∷ h ∷ n ∷ w ∷ [] in
    rw
      (
        routes_in_order method segs,
        below-lit g h n w b't' (codes "ar") (omega arith),
        below-lit g h n w b's' (codes "lug") (omega arith),
        match_elements-none health_elements segs (omega arith),
        below-any g h n w,
      )
      (ask_pair (eqb (codes "GET") method) (eqb (codes "PUT") method) (eqb (codes "git") g)
        (eqb (codes "home") h) (eqb (codes "tar") w) (eqb (codes "slug") w) n w (one_method method))
rest_ask method (g ∷ h ∷ n ∷ w ∷ x ∷ rest) =
    no_route method _ (omega arith) (omega arith)
    ∙ ask_nothing (eqb (codes "GET") method) (eqb (codes "PUT") method)
        (eqb (codes "git") g && eqb (codes "home") h)

pub routes_ask :
    (method : Bytes) (segs : List Bytes)
    → AfterSlash segs
    → routed_ask (first_match routes method segs) ≡ ask_of method segs
routes_ask method [] h = absurd h
routes_ask method (root ∷ rest) (e, h) =
    subst (λ r. routed_ask (first_match routes method (r ∷ rest)) ≡ ask_of method (r ∷ rest))
      (sym e) (rest_ask method rest)
