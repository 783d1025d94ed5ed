-- ===== src/Strings/Split.antt =====
-- Splitting and joining.
use sa_builder.Base.{
  ℕ, ◌≡◌, ◌≢◌, refl, Bytes, List, [], ◌∷◌, ◌++◌, none, some, Lacks, All, ◌==◌, arith, Bool-cases,
  inl, inr,
}
use sa_builder.Strings.{split, split_two, join, put_first, before_last}

pub split-ne-nil : (s : Bytes) (sep : ℕ) → split s sep ≢ []
unfolding split
split-ne-nil [] sep = cc
split-ne-nil (c ∷ s) sep = elim (Bool-cases (c == sep)) [
  | inl e ↦ rw e (cc)
  | inr e ↦ rw e (put_first-ne-nil c (split s sep))
]
  where
    put_first-ne-nil : (c : ℕ) (ps : List Bytes) → put_first c ps ≢ []
    put_first-ne-nil c [] = cc
    put_first-ne-nil c (p ∷ ps) = cc

put_first-Lacks :
    (c b : ℕ) (ps : List Bytes) → c ≢ b → All (Lacks b) ps → All (Lacks b) (put_first c ps)
put_first-Lacks c b [] h _ = ((h, tt), tt)
put_first-Lacks c b (p ∷ ps) h (hp, hps) = ((h, hp), hps)

-- No part of a split holds the separator.
pub split-Lacks : (s : Bytes) (sep : ℕ) → All (Lacks sep) (split s sep)
unfolding split
split-Lacks [] sep = (tt, tt)
split-Lacks (c ∷ s) sep = elim (Bool-cases (c == sep)) [
  | inl e ↦ rw e (tt, split-Lacks s sep)
  | inr e ↦ rw e (put_first-Lacks c sep (split s sep) (ground arith) (split-Lacks s sep))
]

-- The text up to the first separator is the first part.
pub split-append :
    (p s : Bytes) (sep : ℕ) → Lacks sep p → split (p ++ sep ∷ s) sep ≡ p ∷ split s sep
unfolding split
split-append [] s sep h = ground arith
split-append (c ∷ p) s sep (hc, hp) = rw (split-append p s sep hp) (ground arith)

pub split_of_Lacks : (p : Bytes) (sep : ℕ) → Lacks sep p → split p sep ≡ p ∷ []
unfolding split
split_of_Lacks [] sep h = refl
split_of_Lacks (c ∷ p) sep (hc, hp) = rw (split_of_Lacks p sep hp) (ground arith)

pub split_two-append :
    (p s : Bytes) (sep : ℕ) → Lacks sep p → split_two (p ++ sep ∷ s) sep ≡ p ∷ s ∷ []
unfolding split_two
split_two-append [] s sep h = ground arith
split_two-append (c ∷ p) s sep (hc, hp) = rw (split_two-append p s sep hp) (ground arith)

pub split_two_of_Lacks : (p : Bytes) (sep : ℕ) → Lacks sep p → split_two p sep ≡ p ∷ []
unfolding split_two
split_two_of_Lacks [] sep h = refl
split_two_of_Lacks (c ∷ p) sep (hc, hp) = rw (split_two_of_Lacks p sep hp) (ground arith)

-- Joining the parts of a split gives the text back.
join-put_first :
    (c : ℕ) (ps : List Bytes) (sep : Bytes) → ps ≢ [] → join (put_first c ps) sep ≡ c ∷ join ps sep
unfolding join
join-put_first c [] sep h = absurd (h refl)
join-put_first c (p ∷ []) sep h = refl
join-put_first c (p ∷ q ∷ ps) sep h = refl

join-nil-cons : (ps : List Bytes) (sep : Bytes) → ps ≢ [] → join ([] ∷ ps) sep ≡ sep ++ join ps sep
unfolding join
join-nil-cons [] sep h = absurd (h refl)
join-nil-cons (p ∷ ps) sep h = refl

pub join-split : (s : Bytes) (sep : ℕ) → join (split s sep) (sep ∷ []) ≡ s
unfolding split
join-split [] sep = unfold join in refl
join-split (c ∷ s) sep = elim (Bool-cases (c == sep)) [
  | inl e ↦
      rw (e, join-nil-cons (split s sep) (sep ∷ []) (split-ne-nil s sep), join-split s sep)
        (ground arith)
  | inr e ↦ rw (e, join-put_first c (split s sep) (sep ∷ []) (split-ne-nil s sep), join-split s sep)
]

pub before_last_of_Lacks : (q : Bytes) (b : ℕ) → Lacks b q → before_last q b ≡ none
unfolding before_last
before_last_of_Lacks [] b h = refl
before_last_of_Lacks (c ∷ q) b (hc, hq) =
    rw (before_last_of_Lacks q b hq, before_last) (ground arith)

-- What stands before the last `b`.
pub before_last-append : (p q : Bytes) (b : ℕ) → Lacks b q → before_last (p ++ b ∷ q) b ≡ some p
unfolding before_last
before_last-append [] q b h = rw (before_last_of_Lacks q b h) (ground arith)
before_last-append (c ∷ p) q b h = rw (before_last-append p q b h)
