-- ===== src/Strings/Laws.antt =====
-- Prefixes, suffixes, searching and replacing.
use sa_builder.Base.{
  ℕ, ◌-◌, ◌≡◌, refl, sym, ◌⊎◌, inl, inr, Bytes, [], ◌∷◌, ◌++◌, append_assoc, true, some, eqb_refl,
  length, length-append, drop, take-append, take-append-drop, All-append, Lacks, ◌==◌,
  if◌then◌else◌, Bool-cases, Option-cases, arith,
}
use sa_builder.Strings.{
  strip_prefix, has_prefix, trim_prefix, has_suffix, trim_suffix, replace_byte,
}

pub strip_prefix-append : (p s : Bytes) → strip_prefix (p ++ s) p ≡ some s
unfolding strip_prefix
strip_prefix-append [] s = refl
strip_prefix-append (b ∷ p) s = ground (arith, strip_prefix-append p s)

pub strip_prefix_sound : (s p : Bytes) {r : Bytes} → strip_prefix s p ≡ some r → s ≡ p ++ r
unfolding strip_prefix
strip_prefix_sound s [] h = ground arith
strip_prefix_sound [] (b ∷ p) h = cc
strip_prefix_sound (a ∷ s) (b ∷ p) {r} h = ground (arith, strip_prefix_sound s p {r = r})

pub has_prefix-append : (p s : Bytes) → has_prefix (p ++ s) p ≡ true
unfolding has_prefix
has_prefix-append p s = rw (strip_prefix-append p s, has_prefix)

pub trim_prefix-append : (p s : Bytes) → trim_prefix (p ++ s) p ≡ s
unfolding trim_prefix
trim_prefix-append p s = rw (strip_prefix-append p s, trim_prefix)

-- Trimming a prefix leaves a tail of the text.
pub trim_prefix_cases : (s p : Bytes) → (trim_prefix s p ≡ s) ⊎ (s ≡ p ++ trim_prefix s p)
unfolding trim_prefix
trim_prefix_cases s p = elim (Option-cases (strip_prefix s p)) [
  | inl e ↦ inl (rw (e, trim_prefix))
  | inr (r, e) ↦ inr (rw (e, trim_prefix) (strip_prefix_sound s p e))
]

-- Trimming a suffix leaves a front of the text.
pub trim_suffix_front : (s p : Bytes) → (r : Bytes) × (s ≡ trim_suffix s p ++ r)
unfolding trim_suffix
trim_suffix_front s p = elim (Bool-cases (has_suffix s p)) [
  | inl e ↦ (drop (length s - length p) s, rw (e, trim_suffix) (sym (take-append-drop _ s)))
  | inr e ↦ ([], rw (e, trim_suffix) (sym (append_nil s)))
]
  where
    append_nil : (s : Bytes) → s ++ [] ≡ s
    append_nil s = mathlib.Core.List.append-nil s

pub drop-length_append : (xs ys : Bytes) → drop (length xs) (xs ++ ys) ≡ ys
drop-length_append [] ys = refl
drop-length_append (x ∷ xs) ys = drop-length_append xs ys

length_append_sub : (s p : Bytes) → length (s ++ p) - length p ≡ length s
length_append_sub s p = omega (arith, length-append s p)

pub trim_suffix-append : (s p : Bytes) → trim_suffix (s ++ p) p ≡ s
unfolding trim_suffix
trim_suffix-append s p =
    rw length_append_sub
      (rw (drop-length_append, eqb_refl, take-append) (ground (arith, length-append s p)))

pub replace_byte-append :
    (s t : Bytes) (old : ℕ) (new : Bytes)
    → replace_byte (s ++ t) old new ≡ replace_byte s old new ++ replace_byte t old new
unfolding replace_byte
replace_byte-append [] t old new = refl
replace_byte-append (c ∷ s) t old new = rw (replace_byte-append s t old new, append_assoc)

-- A byte that no replacement text holds is gone.
pub replace_byte-Lacks :
    (s : Bytes) (old : ℕ) (new : Bytes) → Lacks old new → Lacks old (replace_byte s old new)
unfolding replace_byte
replace_byte-Lacks [] old new h = tt
replace_byte-Lacks (c ∷ s) old new h =
    All-append _ (if c == old then new else c ∷ []) _ (ground arith)
      (replace_byte-Lacks s old new h)

-- A replacement brings in no byte that neither the text nor the replacement has.
pub replace_byte-Lacks_other :
    (b : ℕ) (s : Bytes) (old : ℕ) (new : Bytes)
    → Lacks b s
    → Lacks b new
    → Lacks b (replace_byte s old new)
unfolding replace_byte
replace_byte-Lacks_other b [] old new _ h = tt
replace_byte-Lacks_other b (c ∷ s) old new (hc, hs) h =
    All-append _ (if c == old then new else c ∷ []) _ (ground arith)
      (replace_byte-Lacks_other b s old new hs h)

pub replace_byte_of_Lacks :
    (s : Bytes) (old : ℕ) (new : Bytes) → Lacks old s → replace_byte s old new ≡ s
unfolding replace_byte
replace_byte_of_Lacks [] old new h = refl
replace_byte_of_Lacks (c ∷ s) old new (hc, hs) = ground (arith, replace_byte_of_Lacks s old new hs)

pub Lacks-front : (b : ℕ) (s t : Bytes) → Lacks b (s ++ t) → Lacks b s
Lacks-front b [] t h = tt
Lacks-front b (c ∷ s) t (hc, hs) = (hc, Lacks-front b s t hs)

pub Lacks-back : (b : ℕ) (s t : Bytes) → Lacks b (s ++ t) → Lacks b t
Lacks-back b [] t h = h
Lacks-back b (c ∷ s) t (hc, hs) = Lacks-back b s t hs

pub trim_prefix-Lacks : (b : ℕ) (s p : Bytes) → Lacks b s → Lacks b (trim_prefix s p)
trim_prefix-Lacks b s p h = elim (trim_prefix_cases s p) [
  | inl e ↦ rw e h
  | inr e ↦ Lacks-back b p (trim_prefix s p) (rw (← e) h)
]

pub trim_suffix-Lacks : (b : ℕ) (s p : Bytes) → Lacks b s → Lacks b (trim_suffix s p)
trim_suffix-Lacks b s p h =
    let (r, e) = trim_suffix_front s p in Lacks-front b (trim_suffix s p) r (rw (← e) h)
