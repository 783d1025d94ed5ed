-- ===== src/Strings.antt =====
-- What the program uses of Go's package `strings`, over byte lists.
pub mod Decimal
pub mod Laws
pub mod Split
pub mod Search
pub mod Trim
use sa_builder.Base.{
  ℕ, ◌-◌, Bytes, List, [], ◌∷◌, ◌++◌, Bool, true, false, ◌&&◌, ◌||◌, Option, none, some, eqb,
  length, take, drop, leb, ◌==◌, if◌then◌else◌,
}

-- `s[len(p):]`, if `s` begins with `p`
unfoldable pub strip_prefix : Bytes → Bytes → Option Bytes
strip_prefix s [] = some s
strip_prefix [] (b ∷ p) = none
strip_prefix (a ∷ s) (b ∷ p) = let rest = strip_prefix s p in if a == b then rest else none

unfoldable pub has_prefix : Bytes → Bytes → Bool
unfolding strip_prefix
has_prefix s p = elim (strip_prefix s p) [ none ↦ false | some _ ↦ true ]

unfoldable pub trim_prefix : Bytes → Bytes → Bytes
unfolding strip_prefix
trim_prefix s p = elim (strip_prefix s p) [ none ↦ s | some rest ↦ rest ]

unfoldable pub has_suffix : Bytes → Bytes → Bool
unfolding eqb
has_suffix s p = leb (length p) (length s) && eqb (drop (length s - length p) s) p

unfoldable pub trim_suffix : Bytes → Bytes → Bytes
unfolding has_suffix
trim_suffix s p = if has_suffix s p then take (length s - length p) s else s

unfoldable pub contains : Bytes → Bytes → Bool
unfolding has_prefix
contains [] p = has_prefix [] p
contains (c ∷ s) p = has_prefix (c ∷ s) p || contains s p

-- `strings.Replace(s, old, new, -1)` for an `old` of one byte; a `strings.NewReplacer` of one-byte
-- pairs makes the first replacement whose byte fits, in one pass.
unfoldable pub replace_byte : Bytes → ℕ → Bytes → Bytes
replace_byte [] old new = []
replace_byte (c ∷ s) old new = (if c == old then new else c ∷ []) ++ replace_byte s old new

-- `strings.Split(s, sep)` for a separator of one byte
abbrev pub put_first : ℕ → List Bytes → List Bytes
put_first c [] = (c ∷ []) ∷ []
put_first c (p ∷ ps) = (c ∷ p) ∷ ps

unfoldable pub split : Bytes → ℕ → List Bytes
split [] sep = [] ∷ []
split (c ∷ s) sep = let rest = split s sep in if c == sep then [] ∷ rest else put_first c rest

-- `strings.SplitN(s, sep, 2)` for a separator of one byte
unfoldable pub split_two : Bytes → ℕ → List Bytes
split_two [] sep = [] ∷ []
split_two (c ∷ s) sep =
    let rest = split_two s sep in if c == sep then [] ∷ s ∷ [] else put_first c rest

unfoldable pub join : List Bytes → Bytes → Bytes
join [] sep = []
join (p ∷ []) sep = p
join (p ∷ q ∷ ps) sep = p ++ (sep ++ join (q ∷ ps) sep)

-- `s[0:strings.LastIndex(s, b)]` for a text of one byte, or none where the index is -1
unfoldable pub before_last : Bytes → ℕ → Option Bytes
before_last [] b = none
before_last (c ∷ s) b = elim (before_last s b) [
  | some p ↦ some (c ∷ p)
  | none ↦ if c == b then some [] else none
]
