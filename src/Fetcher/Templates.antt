-- ===== src/Fetcher/Templates.antt =====
-- What the templates of the routes make of a path.
use sa_builder.Base.{
  ℕ, ◌≡◌, ◌≢◌, refl, length, suc, ap, Bytes, codes, List, [], ◌∷◌, ◌++◌, Bool, true, false, ◌&&◌,
  Option, none, some, eqb, if◌then◌else◌, arith,
}
use sa_builder.Strings.{strip_prefix}
use sa_builder.Fetcher.Server.{Handler, Vars, var, match_element, match_elements, join_vars}
use sa_builder.Fetcher.Store.{Ask, ask_tar, ask_slug, ask_health, put_under, no_ask}

-- The ask of a handler with its variables.
abbrev pub routed_ask : Option (Handler × Vars) → Ask
routed_ask none = no_ask
routed_ask (some (Handler.get_tar_handler, vars)) = ask_tar (var (codes "name") vars)
routed_ask (some (Handler.get_slug_handler, vars)) = ask_slug (var (codes "name") vars)
routed_ask (some (Handler.health_handler, vars)) = ask_health
routed_ask (some (Handler.put_slug_handler, vars)) = put_under (var (codes "name") vars)

-- A path of another length than the template does not match.
pub match_elements-none : (ts ss : List Bytes) → length ts ≢ length ss → match_elements ts ss ≡ none
unfolding match_elements
match_elements-none [] [] h = absurd (h refl)
match_elements-none [] (s ∷ ss) h = refl
match_elements-none (t ∷ ts) [] h = refl
match_elements-none (t ∷ ts) (s ∷ ss) h =
    rw (match_elements-none ts ss (λ e. h (ap suc e))) (join_vars-none (match_element t s))
  where
    join_vars-none : (o : Option Vars) → join_vars o none ≡ none
    join_vars-none none = refl
    join_vars-none (some v) = refl

-- An element without braces, and the variable of the routes.
match_element-lit :
    (s : Bytes) (b : ℕ) (t : Bytes)
    → b ≢ b'{'
    → match_element (b ∷ t) s ≡ (if eqb (b ∷ t) s then some [] else none)
unfolding match_element strip_prefix
match_element-lit s b t h = ground arith

match_element-name : (n : Bytes) → match_element (codes "{name}") n ≡ some ((codes "name", n) ∷ [])
unfolding match_element strip_prefix eqb
match_element-name n = refl

match_element-nil : match_element [] [] ≡ some []
unfolding match_element strip_prefix eqb
match_element-nil = refl

abbrev lit : Bool → Option Vars
lit b = if b then some [] else none

abbrev pub below : Bytes → List Bytes
below last = [] ∷ codes "git" ∷ codes "home" ∷ codes "{name}" ∷ last ∷ []

abbrev pub put_name : Bytes → Vars
put_name n = (codes "name", n) ∷ []

joined :
    (x y z : Bool) (v : Vars)
    → join_vars
        (some [])
        (join_vars (lit x) (join_vars (lit y) (join_vars (some v) (join_vars (lit z) (some [])))))
      ≡ (if x && y && z then some (v ++ []) else none)
joined true true true v = refl
joined true true false v = refl
joined true false z v = ground arith
joined false y z v = refl

pub below-lit :
    (g h n w : Bytes) (b : ℕ) (t : Bytes)
    → b ≢ b'{'
    → match_elements (below (b ∷ t)) ([] ∷ g ∷ h ∷ n ∷ w ∷ []) ≡ (
        if eqb (codes "git") g && eqb (codes "home") h && eqb (b ∷ t) w
        then some (put_name n)
        else none)
unfolding match_elements
below-lit g h n w b t p =
    rw
      (
        match_element-nil,
        match_element-lit g b'g' (codes "it") (omega arith),
        match_element-lit h b'h' (codes "ome") (omega arith),
        match_element-name n,
        match_element-lit w b t p,
      )
      (joined (eqb (codes "git") g) (eqb (codes "home") h) (eqb (b ∷ t) w) (put_name n))

match_element-type : (w : Bytes) → match_element (codes "{type}") w ≡ some ((codes "type", w) ∷ [])
unfolding match_element strip_prefix eqb
match_element-type w = refl

joined_any :
    (x y : Bool) (v : Vars)
    → join_vars (some []) (join_vars (lit x) (join_vars (lit y) (some v)))
      ≡ (if x && y then some v else none)
joined_any true true v = refl
joined_any true false v = refl
joined_any false y v = refl

pub below-any :
    (g h n w : Bytes)
    → match_elements (below (codes "{type}")) ([] ∷ g ∷ h ∷ n ∷ w ∷ []) ≡ (
        if eqb (codes "git") g && eqb (codes "home") h
        then some (put_name n ++ (codes "type", w) ∷ [])
        else none)
unfolding match_elements
below-any g h n w =
    rw
      (
        match_element-nil,
        match_element-lit g b'g' (codes "it") (omega arith),
        match_element-lit h b'h' (codes "ome") (omega arith),
        match_element-name n,
        match_element-type w,
      )
      (joined_any (eqb (codes "git") g) (eqb (codes "home") h)
        (put_name n ++ (codes "type", w) ∷ []))

abbrev pub health_elements : List Bytes
health_elements = [] ∷ codes "git" ∷ codes "home" ∷ codes "health" ∷ []

joined_health :
    (x y z : Bool)
    → join_vars (some []) (join_vars (lit x) (join_vars (lit y) (join_vars (lit z) (some []))))
      ≡ (if x && y && z then some [] else none)
joined_health true true true = refl
joined_health true true false = refl
joined_health true false z = ground arith
joined_health false y z = refl

pub health-lit :
    (g h n : Bytes)
    → match_elements health_elements ([] ∷ g ∷ h ∷ n ∷ []) ≡ (
        if eqb (codes "git") g && eqb (codes "home") h && eqb (codes "health") n
        then some []
        else none)
unfolding match_elements
health-lit g h n =
    rw
      (
        match_element-nil,
        match_element-lit g b'g' (codes "it") (omega arith),
        match_element-lit h b'h' (codes "ome") (omega arith),
        match_element-lit n b'h' (codes "ealth") (omega arith),
      )
      (joined_health (eqb (codes "git") g) (eqb (codes "home") h) (eqb (codes "health") n))
