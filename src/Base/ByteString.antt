-- ===== src/Base/ByteString.antt =====
-- Go strings and byte slices: lists of byte values.
use Prim.Native.Nat.{ℕ}
use Prim.Native.Char.{code}
use Prim.Native.String.{String}
use mathlib.Core.Path.{◌≡◌, refl}
use mathlib.Core.Logic.{◌≢◌, ◌↔◌}
use mathlib.Core.Bool.{Bool, true, false, ◌&&◌}
use mathlib.Core.List.{List, [], ◌∷◌}
use native.Mathlib.Omega.{arith}
use sa_builder.Base.Tests.{◌==◌}
use sa_builder.Base.Lists.{All}

abbrev pub Bytes : Type 0
Bytes = List ℕ

-- The code points of a literal, which are its bytes when the text is ASCII.
abbrev pub codes : String → Bytes
codes String.[] = []
codes (String.◌∷◌ c s) = code c ∷ codes s

-- `a == b` on strings
unfoldable pub eqb : Bytes → Bytes → Bool
eqb [] [] = true
eqb [] (b ∷ bs) = false
eqb (a ∷ as') [] = false
eqb (a ∷ as') (b ∷ bs) = a == b && eqb as' bs

pub eqb_sound : (s t : Bytes) → eqb s t ≡ true → s ≡ t
unfolding eqb
eqb_sound [] [] h = refl
eqb_sound [] (b ∷ bs) h = cc
eqb_sound (a ∷ as') [] h = cc
eqb_sound (a ∷ as') (b ∷ bs) h = ground (arith, eqb_sound as' bs)

pub eqb_refl : (s : Bytes) → eqb s s ≡ true
unfolding eqb
eqb_refl [] = refl
eqb_refl (a ∷ as') = ground (arith, eqb_refl as')

pub eqb_iff : (s t : Bytes) → (eqb s t ≡ true) ↔ (s ≡ t)
eqb_iff s t = (eqb_sound s t, λ e. rw e (eqb_refl t))

-- No byte of the text is `b`.
abbrev pub Lacks : ℕ → Bytes → Type 0
Lacks b = All (λ c. c ≢ b)
