-- ===== src/Strings/Search.antt =====
-- `contains` and the parts of a text.
use sa_builder.Base.{
  ◌≡◌, refl, Bytes, [], ◌∷◌, ◌++◌, Bool, true, false, ◌||◌, arith, Bool-cases, inl, inr,
}
use sa_builder.Strings.{has_prefix, contains}

has_prefix_extends : (s b p : Bytes) → has_prefix s p ≡ true → has_prefix (s ++ b) p ≡ true
unfolding has_prefix
has_prefix_extends s b [] h = refl
has_prefix_extends [] b (c ∷ p) h = cc
has_prefix_extends (a ∷ s) b (c ∷ p) h = ground (arith, has_prefix_extends s b p)

has_prefix_nil : (b p : Bytes) → has_prefix [] p ≡ true → contains b p ≡ true
unfolding contains
has_prefix_nil [] p h = h
has_prefix_nil (c ∷ b) p h = rw (has_prefix_extends [] (c ∷ b) p h)

contains_extends : (s b p : Bytes) → contains s p ≡ true → contains (s ++ b) p ≡ true
unfolding contains
contains_extends [] b p h = has_prefix_nil b p h
contains_extends (c ∷ s) b p h = elim (Bool-cases (has_prefix (c ∷ s) p)) [
  | inl e ↦ rw (has_prefix_extends (c ∷ s) b p e)
  | inr e ↦ or_right _ _ (contains_extends s b p (rw e at h))
]
  where
    or_right : (x y : Bool) → y ≡ true → (x || y) ≡ true
    or_right true y e = refl
    or_right false y e = e

-- A text that does not hold `p` has no front and no back that does.
pub contains-front : (s b p : Bytes) → contains (s ++ b) p ≡ false → contains s p ≡ false
contains-front s b p h = elim (Bool-cases (contains s p)) [
  | inl e ↦ absurd (cc (contains_extends s b p e))
  | inr e ↦ e
]

pub contains-back : (a s p : Bytes) → contains (a ++ s) p ≡ false → contains s p ≡ false
unfolding contains
contains-back [] s p h = h
contains-back (c ∷ a) s p h = contains-back a s p (ground arith)
