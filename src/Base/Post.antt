-- ===== src/Base/Post.antt =====
-- Reasoning about a computation by what holds after it: `Q` of a value that it returns and the
-- history then, `S` of the history where it stops with an error or a panic.
use mathlib.Core.Path.{◌≡◌, ap, ◌∙◌}
use mathlib.Core.List.{List}
use mathlib.Core.Option.{Option, none, some}
use sa_builder.Base.ByteString.{Bytes}
use sa_builder.Base.Effect.{Outcome, ok, err, panic, M, ◌>>=◌, wrap_err, guard_nil}

abbrev pub After :
    {C A : Type 0} → Outcome A × List C → (A → List C → Type 0) → (List C → Type 0) → Type 0
After (ok a, h) Q S = Q a h
After (err e, h) Q S = S h
After (panic, h) Q S = S h

-- A first part whose result is known.
module _ {C A B : Type 0} (m : M C A) (f : A → M C B) (h : List C) {h1 : List C} where
  pub bind-ok : {a : A} → m h ≡ (ok a, h1) → (m >>= f) h ≡ f a h1
  bind-ok e = ap (λ (r : Outcome A × List C). ◌>>=◌ (λ _. r) f h) e

  pub bind-err : {e : Bytes} → m h ≡ (err e, h1) → (m >>= f) h ≡ (err e, h1)
  bind-err e = ap (λ (r : Outcome A × List C). ◌>>=◌ (λ _. r) f h) e

-- The computation returns a value, from every history.
abbrev pub Succeeds : {C A : Type 0} → M C A → Type 0
Succeeds {C} {A} m = (h : List C) → (a : A) × (h1 : List C) × (m h ≡ (ok a, h1))

pub bind-Succeeds :
    {C A B : Type 0} (m : M C A) (f : A → M C B)
    → Succeeds m
    → ((a : A) → Succeeds (f a))
    → Succeeds (m >>= f)
bind-Succeeds m f first next h =
    let (a, h1, e) = first h in let (b, h2, e') = next a h1 in (b, h2, bind-ok m f h e ∙ e')

-- A computation that goes on with what the first part returned.
pub After-bind :
    {C A B : Type 0} (m : M C A) (f : A → M C B) (h : List C) (Q : B → List C → Type 0)
    (S : List C → Type 0)
    → After (m h) (λ a h'. After (f a h') Q S) S
    → After ((m >>= f) h) Q S
After-bind {C} {A} {B} m f h Q S p = go (m h) p
  where
    go :
        (r : Outcome A × List C)
        → After r (λ a h'. After (f a h') Q S) S
        → After (◌>>=◌ (λ _. r) f h) Q S
    go (ok a, h') q = q
    go (err e, h') q = q
    go (panic, h') q = q

pub After-map :
    {C A : Type 0} (r : Outcome A × List C) {Q Q' : A → List C → Type 0} {S S' : List C → Type 0}
    → ((a : A) (h : List C) → Q a h → Q' a h)
    → ((h : List C) → S h → S' h)
    → After r Q S
    → After r Q' S'
After-map (ok a, h) f g p = f a h p
After-map (err e, h) f g p = g h p
After-map (panic, h) f g p = g h p

-- What holds where the computation stops, if it holds behind a result too.
pub After-end :
    {C A : Type 0} (r : Outcome A × List C) {Q : A → List C → Type 0} {S : List C → Type 0}
    → ((a : A) (h : List C) → Q a h → S h)
    → After r Q S
    → S r.1
After-end (ok a, h) f p = f a h p
After-end (err e, h) f p = p
After-end (panic, h) f p = p

-- What holds of the history however the computation ends.
pub After-always :
    {C A : Type 0} (r : Outcome A × List C) (P : List C → Type 0) → P r.1 → After r (λ _ h. P h) P
After-always (ok a, h) P p = p
After-always (err e, h) P p = p
After-always (panic, h) P p = p

pub After-wrap_err :
    {C A : Type 0} (w : Bytes → Bytes) (m : M C A) (h : List C) (Q : A → List C → Type 0)
    (S : List C → Type 0)
    → After (m h) Q S
    → After (wrap_err w m h) Q S
After-wrap_err {C} {A} w m h Q S p = go (m h) p
  where
    go : (r : Outcome A × List C) → After r Q S → After (wrap_err w (λ _. r) h) Q S
    go (ok a, h') q = q
    go (err e, h') q = q
    go (panic, h') q = q

pub After-guard_nil :
    {C : Type 0} (e : Option Bytes) (f : Bytes → Bytes) (h : List C)
    (Q : Unit {0} → List C → Type 0) (S : List C → Type 0)
    → Q tt h
    → S h
    → After (guard_nil e f h) Q S
After-guard_nil none f h Q S q s = q
After-guard_nil (some e) f h Q S q s = s

-- A view of the history, such as the list of its calls of one kind.
module _ {C V : Type 0} (view : List C → V) where
  -- However it ends, the computation leaves the view as it was.
  abbrev pub Keeps : {A : Type 0} → M C A → Type 0
  Keeps m = (h : List C) → view (m h).1 ≡ view h

  -- A step that leaves the view alone, and what comes behind it.
  pub After-keeps :
      {A B : Type 0} (m : M C A) (f : A → M C B) (h : List C) (Q : B → List C → Type 0)
      (S : List C → Type 0)
      → Keeps m
      → ((a : A) (h' : List C) → view h' ≡ view h → After (f a h') Q S)
      → ((h' : List C) → view h' ≡ view h → S h')
      → After ((m >>= f) h) Q S
  After-keeps {A} m f h Q S quiet next stop = After-bind m f h Q S (go (m h) (quiet h))
    where
      go : (r : Outcome A × List C) → view r.1 ≡ view h → After r (λ a h'. After (f a h') Q S) S
      go (ok a, h') e = next a h' e
      go (err m', h') e = stop h' e
      go (panic, h') e = stop h' e

  pub After-of-Keeps :
      {A : Type 0} (m : M C A) (h : List C)
      → Keeps m
      → After (m h) (λ _ h'. view h' ≡ view h) (λ h'. view h' ≡ view h)
  After-of-Keeps {A} m h quiet = go (m h) (quiet h)
    where
      go :
          (r : Outcome A × List C)
          → view r.1 ≡ view h
          → After r (λ _ h'. view h' ≡ view h) (λ h'. view h' ≡ view h)
      go (ok a, h') e = e
      go (err m', h') e = e
      go (panic, h') e = e

  pub wrap_err-Keeps : {A : Type 0} (w : Bytes → Bytes) (m : M C A) → Keeps m → Keeps (wrap_err w m)
  wrap_err-Keeps {A} w m quiet h = go (m h) (quiet h)
    where
      go : (r : Outcome A × List C) → view r.1 ≡ view h → view (wrap_err w (λ _. r) h).1 ≡ view h
      go (ok a, h') e = e
      go (err m', h') e = e
      go (panic, h') e = e
