-- ===== src/Strings/Decimal.antt =====
-- The verb `%d` of fmt.
use sa_builder.Base.{
  ℕ, zero, suc, ◌+◌, ◌/◌, ◌%◌, ◌<◌, ◌≡◌, refl, Bytes, [], ◌∷◌, ◌++◌, ltb, if◌then◌else◌, arith,
  Bool-cases, inl, inr,
}
use sa_builder.Base.Int.{ℤ, pos, negsuc}

-- The digits, by fuel; `suc n` is enough for `n`.
unfoldable pub digits : ℕ → ℕ → Bytes
digits zero n = []
digits (suc fuel) n =
    let rest = digits fuel (n / 10) in
    if ltb n 10 then (b'0' + n) ∷ [] else rest ++ (b'0' + n % 10) ∷ []

unfoldable pub decimal : ℕ → Bytes
unfolding digits
decimal n = digits (suc n) n

unfoldable pub decimal_ℤ : ℤ → Bytes
decimal_ℤ (pos n) = decimal n
decimal_ℤ (negsuc n) = b'-' ∷ decimal (suc n)

-- Enough fuel is as good as more.
digits-fuel : (f g n : ℕ) → n < f → n < g → digits f n ≡ digits g n
unfolding digits
digits-fuel zero g n h k = elim h [ ]
digits-fuel (suc f) zero n h k = elim k [ ]
digits-fuel (suc f) (suc g) n h k = elim (Bool-cases (ltb n 10)) [
  | inl e ↦ rw e refl
  | inr e ↦ rw (e, digits-fuel f g (n / 10) (ground arith) (ground arith)) refl
]

-- A number of one digit is that digit, and another is what is left of its last digit, and that digit.
pub decimal_lem :
    (n : ℕ)
    → decimal n ≡ (if ltb n 10 then (b'0' + n) ∷ [] else decimal (n / 10) ++ (b'0' + n % 10) ∷ [])
unfolding decimal digits
decimal_lem n = elim (Bool-cases (ltb n 10)) [
  | inl e ↦ rw e refl
  | inr e ↦ rw (e, digits-fuel n (suc (n / 10)) (n / 10) (ground arith) (omega arith)) refl
]
