-- ===== src/Strings/Trim.antt =====
-- `strings.TrimSpace`: the white space of Unicode, by its encodings in UTF-8.
use sa_builder.Base.{ℕ, zero, suc, Bytes, List, [], ◌∷◌, length, if◌then◌else◌}
use sa_builder.Strings.{has_prefix}
use mathlib.Core.List.{map, reverse}

abbrev pub spaces : List Bytes
spaces =
    (9 ∷ [])
    ∷ (10 ∷ [])
    ∷ (11 ∷ [])
    ∷ (12 ∷ [])
    ∷ (13 ∷ [])
    ∷ (32 ∷ [])
    ∷ (0xc2 ∷ 0x85 ∷ [])
    ∷ (0xc2 ∷ 0xa0 ∷ [])
    ∷ (0xe1 ∷ 0x9a ∷ 0x80 ∷ [])
    ∷ (0xe2 ∷ 0x80 ∷ 0x80 ∷ [])
    ∷ (0xe2 ∷ 0x80 ∷ 0x81 ∷ [])
    ∷ (0xe2 ∷ 0x80 ∷ 0x82 ∷ [])
    ∷ (0xe2 ∷ 0x80 ∷ 0x83 ∷ [])
    ∷ (0xe2 ∷ 0x80 ∷ 0x84 ∷ [])
    ∷ (0xe2 ∷ 0x80 ∷ 0x85 ∷ [])
    ∷ (0xe2 ∷ 0x80 ∷ 0x86 ∷ [])
    ∷ (0xe2 ∷ 0x80 ∷ 0x87 ∷ [])
    ∷ (0xe2 ∷ 0x80 ∷ 0x88 ∷ [])
    ∷ (0xe2 ∷ 0x80 ∷ 0x89 ∷ [])
    ∷ (0xe2 ∷ 0x80 ∷ 0x8a ∷ [])
    ∷ (0xe2 ∷ 0x80 ∷ 0xa8 ∷ [])
    ∷ (0xe2 ∷ 0x80 ∷ 0xa9 ∷ [])
    ∷ (0xe2 ∷ 0x80 ∷ 0xaf ∷ [])
    ∷ (0xe2 ∷ 0x81 ∷ 0x9f ∷ [])
    ∷ (0xe3 ∷ 0x80 ∷ 0x80 ∷ [])
    ∷ []

-- The length of the pattern that the text begins with, 0 if there is none.
unfoldable pub space_width : List Bytes → Bytes → ℕ
unfolding has_prefix
space_width [] s = 0
space_width (p ∷ ps) s = let rest = space_width ps s in if has_prefix s p then length p else rest

-- Drop the bytes left of a pattern, and then the patterns that follow.
unfoldable pub skip_patterns : List Bytes → ℕ → Bytes → Bytes
unfolding space_width
skip_patterns ps left [] = []
skip_patterns ps (suc left) (c ∷ s) = skip_patterns ps left s
skip_patterns ps zero (c ∷ s) = elim (space_width ps (c ∷ s)) [
  | zero ↦ c ∷ s
  | suc w ↦ skip_patterns ps w s
]

-- From the front, and then the same backwards.
unfoldable pub trim_space : Bytes → Bytes
unfolding skip_patterns
trim_space s = reverse (skip_patterns (map reverse spaces) 0 (reverse (skip_patterns spaces 0 s)))
