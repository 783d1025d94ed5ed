-- ===== src/Sshd/Fingerprint.antt =====
-- The colon notation of a key's hash: `Fingerprint` of pkg/sshd/sshd.go and `fingerprint` of
-- pkg/controller/utils.go, which have the same loop. The hash itself is `md5.Sum`.
pub mod Laws
use sa_builder.Base.{
  ℕ, zero, suc, ◌+◌, ◌-◌, ◌/◌, ◌%◌, Bytes, [], ◌∷◌, ◌++◌, Bool, ◌&&◌, Option, none, some, length,
  ltb, ◌==◌, if◌then◌else◌,
}

-- `fp[j] = b`; an index out of range panics.
unfoldable pub store : Bytes → ℕ → ℕ → Option Bytes
store [] j b = none
store (c ∷ fp) zero b = some (b ∷ fp)
store (c ∷ fp) (suc j) b = elim (store fp j b) [ none ↦ none | some rest ↦ some (c ∷ rest) ]

-- `hextable`
unfoldable pub hex_digit : ℕ → ℕ
hex_digit n = if ltb n 10 then b'0' + n else b'a' + (n - 10)

-- `hex.Encode`
unfoldable pub hex_encode : Bytes → Bytes
hex_encode [] = []
hex_encode (b ∷ bs) = hex_digit (b / 16) ∷ hex_digit (b % 16) ∷ hex_encode bs

abbrev pub colon : ℕ
colon = b':'

-- `make([]byte, n)`
unfoldable pub make_bytes : ℕ → Bytes
make_bytes zero = []
make_bytes (suc n) = 0 ∷ make_bytes n

-- The writes of one round, and the index after them.
unfoldable pub put_digit : ℕ → ℕ → ℕ → Bytes → Option (Bytes × ℕ)
put_digit i j b fp =
    if ltb 0 i && (i % 2 == 0)
    then elim (store fp j colon) [
      | none ↦ none
      | some fp' ↦ elim (store fp' (j + 1) b) [ none ↦ none | some fp'' ↦ some (fp'', j + 2) ]
    ]
    else elim (store fp j b) [ none ↦ none | some fp' ↦ some (fp', j + 1) ]

-- `for ; i < len(buf); i++`
unfoldable pub colon_loop : Bytes → ℕ → ℕ → Bytes → Option Bytes
colon_loop [] i j fp = some fp
colon_loop (b ∷ buf) i j fp = elim (put_digit i j b fp) [
  | none ↦ none
  | some (fp', j') ↦ colon_loop buf (i + 1) j' fp'
]

-- From the hash on; none is a panic.
unfoldable pub colon_notation : Bytes → Option Bytes
colon_notation hash = let buf = hex_encode hash in colon_loop buf 0 0 (make_bytes (length buf + 15))
