-- ===== src/Gitreceive/Controller/Exploit.antt =====
-- The regular expression `\(\)\s+\{[^\}]+\};\s+(.*)` of pkg/gitreceive/controller.go as a test by
-- clauses. Its parts leave one way to match behind a `()`, since none of the bytes that a part repeats
-- begins the next part.
pub mod Laws
use sa_builder.Base.{
  ℕ, Bytes, codes, [], ◌∷◌, Bool, true, false, ◌||◌, Option, none, some, ◌==◌, if◌then◌else◌,
}
use sa_builder.Strings.{strip_prefix}

-- `\s`
unfoldable pub is_space : ℕ → Bool
is_space c = c == 9 || c == 10 || c == 12 || c == 13 || c == 32

unfoldable pub skip_spaces : Bytes → Bytes
skip_spaces [] = []
skip_spaces (c ∷ s) = let rest = skip_spaces s in if is_space c then rest else c ∷ s

-- What is behind `\s+`
unfoldable pub behind_spaces : Bytes → Option Bytes
behind_spaces [] = none
behind_spaces (c ∷ s) = if is_space c then some (skip_spaces s) else none

-- What is behind the first `}`
unfoldable pub behind_brace : Bytes → Option Bytes
behind_brace [] = none
behind_brace (c ∷ s) = let rest = behind_brace s in if c == b'}' then some s else rest

-- What is behind `[^\}]+\}`
unfoldable pub behind_block : Bytes → Option Bytes
behind_block [] = none
behind_block (c ∷ s) = if c == b'}' then none else behind_brace s

-- Go on where there was a match.
infixl 5 ◌>>=◌
abbrev pub ◌>>=◌ : Option Bytes → (Bytes → Option Bytes) → Option Bytes
none >>= f = none
some s >>= f = f s

-- The parts in their order, from the start of the text.
unfoldable pub exploit_at : Bytes → Option Bytes
exploit_at s = do
  s1 ← strip_prefix s (codes "()")
  s2 ← behind_spaces s1
  s3 ← strip_prefix s2 (codes "{")
  s4 ← behind_block s3
  s5 ← strip_prefix s4 (codes ";")
  behind_spaces s5

abbrev pub is_some : Option Bytes → Bool
is_some none = false
is_some (some s) = true

-- `MatchString` finds a match from any place in the text.
unfoldable pub potential_exploit : Bytes → Bool
potential_exploit [] = false
potential_exploit (c ∷ s) = is_some (exploit_at (c ∷ s)) || potential_exploit s
