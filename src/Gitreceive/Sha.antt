-- ===== src/Gitreceive/Sha.antt =====
-- pkg/gitreceive/git/sha.go
use sa_builder.Base.{
  ℕ, zero, suc, Lacks, ap, ◌≤◌, ◌≡◌, ◌↔◌, refl, Bytes, codes, [], ◌∷◌, ◌++◌, Bool, true, false,
  ◌&&◌, ◌||◌, Outcome, ok, err, length, take, All, leb, ◌==◌, if◌then◌else◌, arith, length-take,
  ◌⊎◌, inl, inr, Bool-cases, drop, take-append-drop, sym,
}
use mathlib.Core.Path.{subst}

-- `shortShaIdx`; the code writes the literal again.
abbrev pub short_sha_idx : ℕ
short_sha_idx = 8

-- `[\da-f]`
pub is_sha_digit : ℕ → Bool
is_sha_digit c = (leb b'0' c && leb c b'9') || (leb b'a' c && leb c b'f')

all_sha_digits : Bytes → Bool
unfolding is_sha_digit
all_sha_digits [] = true
all_sha_digits (c ∷ s) = is_sha_digit c && all_sha_digits s

-- `^[\da-f]{40}$`
unfoldable pub sha_regex : Bytes → Bool
unfolding all_sha_digits
sha_regex s = length s == 40 && all_sha_digits s

pub record Sha : Type 0 where
  pub full : Bytes
  pub short : Bytes

-- `ErrInvalidGitSha.Error`
unfoldable pub invalid_git_sha : Bytes → Bytes
invalid_git_sha sha = codes "git sha " ++ (sha ++ codes " was invalid")

-- The slice `rawSha[0:8]` is in bounds, since the expression fixes the length.
unfoldable pub new_sha : Bytes → Outcome Sha
new_sha raw_sha =
    if sha_regex raw_sha
    then ok (record { full = raw_sha; short = take short_sha_idx raw_sha })
    else err (invalid_git_sha raw_sha)

-- A lower-case hexadecimal digit.
abbrev pub IsShaDigit : ℕ → Type 0
IsShaDigit c = ((b'0' ≤ c) × (c ≤ b'9')) ⊎ ((b'a' ≤ c) × (c ≤ b'f'))

abbrev pub IsShaText : Bytes → Type 0
IsShaText s = (length s ≡ 40) × All IsShaDigit s

is_sha_digit_sound : (c : ℕ) → is_sha_digit c ≡ true → IsShaDigit c
unfolding is_sha_digit
is_sha_digit_sound c h = ground arith

is_sha_digit_complete : (c : ℕ) → IsShaDigit c → is_sha_digit c ≡ true
unfolding is_sha_digit
is_sha_digit_complete c h = ground arith

all_sha_digits_sound : (s : Bytes) → all_sha_digits s ≡ true → All IsShaDigit s
unfolding all_sha_digits
all_sha_digits_sound [] h = tt
all_sha_digits_sound (c ∷ s) h =
    let (hc, hs) = and_parts _ _ h in (is_sha_digit_sound c hc, all_sha_digits_sound s hs)
  where
    and_parts : (a b : Bool) → (a && b) ≡ true → (a ≡ true) × (b ≡ true)
    and_parts true b e = (refl, e)
    and_parts false b e = cc

all_sha_digits_complete : (s : Bytes) → All IsShaDigit s → all_sha_digits s ≡ true
unfolding all_sha_digits
all_sha_digits_complete [] h = refl
all_sha_digits_complete (c ∷ s) (hc, hs) =
    rw (is_sha_digit_complete c hc) (all_sha_digits_complete s hs)

sha_regex_iff : (s : Bytes) → (sha_regex s ≡ true) ↔ IsShaText s
unfolding sha_regex
sha_regex_iff s = (
  (λ h. ground (arith, all_sha_digits_sound s)),
  (λ h. ground (arith, all_sha_digits_complete s h.1)),
)

-- A text of forty lower-case hexadecimal digits gives a SHA whose full form is the text and whose
-- short form is its first eight digits.
pub new_sha_accepts :
    (s : Bytes)
    → IsShaText s
    → (sha : Sha) × (new_sha s ≡ ok sha)
      × (sha.full ≡ s)
      × (length sha.short ≡ 8)
      × ((rest : Bytes) × (s ≡ sha.short ++ rest))
unfolding new_sha
new_sha_accepts s h = rw ((sha_regex_iff s).1 h) (
  record { full = s; short = take short_sha_idx s },
  refl,
  refl,
  length-take 8 s (omega arith),
  (drop 8 s, sym (take-append-drop 8 s)),
)

-- Every other text is refused with the error that names it.
pub new_sha_refuses : (s : Bytes) → ¬ IsShaText s → new_sha s ≡ err (invalid_git_sha s)
unfolding new_sha
new_sha_refuses s h = elim (Bool-cases (sha_regex s)) [
  | inl e ↦ absurd (h ((sha_regex_iff s).0 e))
  | inr e ↦ rw e
]

-- A text of forty lower-case hexadecimal digits gives a SHA whose full form is the text and whose
-- short form is its first eight digits. Every other text is refused with the error that names it.
pub new_sha_lem :
    (s : Bytes)
    → (IsShaText s
        × ((sha : Sha) × (new_sha s ≡ ok sha)
            × (sha.full ≡ s)
            × (length sha.short ≡ 8)
            × ((rest : Bytes) × (s ≡ sha.short ++ rest))))
      ⊎ ((¬ IsShaText s) × (new_sha s ≡ err (invalid_git_sha s)))
new_sha_lem s = elim (Bool-cases (sha_regex s)) [
  | inl e ↦ let h = (sha_regex_iff s).0 e in inl (h, new_sha_accepts s h)
  | inr e ↦
      let h : ¬ IsShaText s = λ h. cc (e, (sha_regex_iff s).1 h) in inr (h, new_sha_refuses s h)
]

All-take : (P : ℕ → Type 0) (n : ℕ) (s : Bytes) → All P s → All P (take n s)
All-take P zero s h = tt
All-take P (suc n) [] h = tt
All-take P (suc n) (c ∷ s) (hc, hs) = (hc, All-take P n s hs)

digits-Lacks : (b : ℕ) (s : Bytes) → ¬ IsShaDigit b → All IsShaDigit s → Lacks b s
digits-Lacks b [] h _ = tt
digits-Lacks b (c ∷ s) h (hc, hs) = ((λ e. h (rw (← e) hc)), digits-Lacks b s h hs)

abbrev short_of : Outcome Sha → Bytes
short_of (ok sha) = sha.short
short_of _ = []

-- The short form of a SHA has nothing but digits.
pub new_sha-Lacks :
    (b : ℕ) (raw_sha : Bytes) {sha : Sha}
    → ¬ IsShaDigit b
    → new_sha raw_sha ≡ ok sha
    → Lacks b sha.short
unfolding new_sha
new_sha-Lacks b raw_sha {sha} h p = elim (Bool-cases (sha_regex raw_sha)) [
  | inl e ↦ subst (Lacks b) (rw e at (ap short_of p)) (
      digits-Lacks b _ h
        (All-take IsShaDigit short_sha_idx raw_sha ((sha_regex_iff raw_sha).0 e).1))
  | inr e ↦ cc (p, e)
]
