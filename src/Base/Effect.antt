-- ===== src/Base/Effect.antt =====
-- Code that calls out. A handler runs over the history of the calls made so far, latest first,
-- and the environment answers each call from that history, so it may answer the same call
-- differently each time. A Go function returns a value, returns an `error`, or panics.
use mathlib.Core.List.{List, ◌∷◌}
use mathlib.Core.Option.{Option, none, some}
use sa_builder.Base.ByteString.{Bytes}

pub data Outcome (A : Type 0) : Type 0 where
  ok : A → Outcome A
  err : Bytes → Outcome A
  panic : Outcome A

-- A computation that makes calls of `C` and returns an `A`.
abbrev pub M : Type 0 → Type 0 → Type 0
M C A = List C → Outcome A × List C

infixl 5 ◌>>=◌ ◌>>◌
abbrev pub ◌>>=◌ : {C A B : Type 0} → M C A → (A → M C B) → M C B
◌>>=◌ m f h =
    let (r, h') = m h in elim r [ ok a ↦ f a h' | err e ↦ (err e, h') | panic ↦ (panic, h') ]

abbrev pub ◌>>◌ : {C B : Type 0} → M C (Unit {0}) → M C B → M C B
m >> k = m >>= λ _. k

abbrev pub pure : {C A : Type 0} → A → M C A
pure a h = (ok a, h)

abbrev pub fail : {C A : Type 0} → Bytes → M C A
fail e h = (err e, h)

abbrev pub crash : {C A : Type 0} → M C A
crash h = (panic, h)

-- Make a call, and let the environment answer it from the history before it.
abbrev pub call : {C A : Type 0} → C → (List C → A) → M C A
call c answer h = (ok (answer h), c ∷ h)

-- `if err != nil { return ... }`, with the error that is returned.
abbrev pub guard_nil : {C : Type 0} → Option Bytes → (Bytes → Bytes) → M C (Unit {0})
guard_nil none f h = (ok tt, h)
guard_nil (some e) f h = (err (f e), h)

-- `if err != nil { return fmt.Errorf(...) }` behind a call of a function of the program.
abbrev pub wrap_err : {C A : Type 0} → (Bytes → Bytes) → M C A → M C A
wrap_err f m h =
    let (r, h') = m h in
    elim r [ ok a ↦ (ok a, h') | err e ↦ (err (f e), h') | panic ↦ (panic, h') ]
