-- ===== src/Gitreceive/Controller/Exploit/Laws.antt =====
-- Which texts match the regular expression.
use sa_builder.Base.{
  ℕ, ◌≡◌, refl, ap, ◌∙◌, ◌⊎◌, inl, inr, ◌↔◌, Bytes, codes, [], ◌∷◌, ◌++◌, true, false, Option, none,
  some, ◌==◌, All, Lacks, Bool-cases, Option-cases, arith,
}
use sa_builder.Strings.{strip_prefix}
use sa_builder.Strings.Laws.{strip_prefix_sound}
use sa_builder.Gitreceive.Controller.Exploit.{
  is_space, skip_spaces, behind_spaces, behind_brace, behind_block, exploit_at, potential_exploit,
  ◌>>=◌,
}

-- A tab, a line feed, a form feed, a carriage return or a blank.
abbrev pub IsSpace : ℕ → Type 0
IsSpace c = (c ≡ 9) ⊎ (c ≡ 10) ⊎ (c ≡ 12) ⊎ (c ≡ 13) ⊎ (c ≡ 32)

is_space_iff : (c : ℕ) → (is_space c ≡ true) ↔ IsSpace c
unfolding is_space
is_space_iff c = (ground arith, ground arith)

skip_spaces_front : (s : Bytes) → (sp : Bytes) × All IsSpace sp × (s ≡ sp ++ skip_spaces s)
unfolding skip_spaces
skip_spaces_front [] = ([], tt, refl)
skip_spaces_front (c ∷ s) = elim (Bool-cases (is_space c)) [
  | inl e ↦
      let (sp, all, q) = skip_spaces_front s in
      (c ∷ sp, ((is_space_iff c).0 e, all), rw e (ap (λ t. c ∷ t) q))
  | inr e ↦ ([], tt, rw e refl)
]

behind_brace_sound :
    (s : Bytes) {r : Bytes}
    → behind_brace s ≡ some r
    → (block : Bytes) × Lacks b'}' block × (s ≡ block ++ b'}' ∷ r)
unfolding behind_brace
behind_brace_sound [] e = cc
behind_brace_sound (c ∷ s) {r} e = elim (Bool-cases (c == b'}')) [
  | inl t ↦ ([], tt, ground arith)
  | inr f ↦
      let (block, lacks, q) = behind_brace_sound s {r = r} (ground arith) in
      (c ∷ block, ((ground arith), lacks), ap (λ t. c ∷ t) q)
]

behind_brace_complete :
    (block r : Bytes) → Lacks b'}' block → behind_brace (block ++ b'}' ∷ r) ≡ some r
unfolding behind_brace
behind_brace_complete [] r lacks = refl
behind_brace_complete (c ∷ block) r (apart, lacks) =
    ground (arith, behind_brace_complete block r lacks)

skip_spaces_complete :
    (sp : Bytes) (c : ℕ) (r : Bytes)
    → All IsSpace sp
    → is_space c ≡ false
    → skip_spaces (sp ++ c ∷ r) ≡ c ∷ r
unfolding skip_spaces
skip_spaces_complete [] c r all e = rw e refl
skip_spaces_complete (d ∷ sp) c r (h, all) e =
    rw ((is_space_iff d).1 h) (skip_spaces_complete sp c r all e)

-- A match at the start: `()`, blanks, a block in braces that holds no other closing brace and is not
-- empty, a semicolon, and a blank at least.
abbrev pub IsMatchAt : Bytes → Type 0
IsMatchAt s =
    (c : ℕ) × (sp : Bytes) × (b : ℕ) × (block : Bytes) × (d : ℕ) × (back : Bytes) × IsSpace c
    × All IsSpace sp
    × Lacks b'}' (b ∷ block)
    × IsSpace d
    × (s ≡ codes "()" ++ (c ∷ sp ++ (codes "{" ++ (b ∷ block ++ (codes "};" ++ (d ∷ back))))))

behind_block_sound :
    (s : Bytes) {r : Bytes}
    → behind_block s ≡ some r
    → (b : ℕ) × (block : Bytes) × Lacks b'}' (b ∷ block) × (s ≡ b ∷ block ++ b'}' ∷ r)
unfolding behind_block
behind_block_sound [] e = cc
behind_block_sound (c ∷ s) {r} e = elim (Bool-cases (c == b'}')) [
  | inl t ↦ absurd (ground arith)
  | inr f ↦
      let (block, lacks, q) = behind_brace_sound s {r = r} (ground arith) in
      (c, block, ((ground arith), lacks), ap (λ t. c ∷ t) q)
]

behind_spaces_sound :
    (s : Bytes) {r : Bytes}
    → behind_spaces s ≡ some r
    → (c : ℕ) × (sp : Bytes) × IsSpace c × All IsSpace sp × (s ≡ c ∷ sp ++ r)
unfolding behind_spaces
behind_spaces_sound [] e = cc
behind_spaces_sound (c ∷ s) {r} e = elim (Bool-cases (is_space c)) [
  | inl t ↦
      let (sp, all, q) = skip_spaces_front s in
      let found : skip_spaces s ≡ r = ground arith in
      (c, sp, (is_space_iff c).0 t, all, ap (λ t. c ∷ t) (q ∙ ap (λ t. sp ++ t) found))
  | inr f ↦ absurd (ground arith)
]

behind_block_complete :
    (b : ℕ) (block r : Bytes)
    → Lacks b'}' (b ∷ block)
    → behind_block (b ∷ block ++ b'}' ∷ r) ≡ some r
unfolding behind_block
behind_block_complete b block r (apart, lacks) = ground (arith, behind_brace_complete block r lacks)

behind_spaces_complete :
    (c : ℕ) (sp : Bytes) (d : ℕ) (r : Bytes)
    → IsSpace c
    → All IsSpace sp
    → is_space d ≡ false
    → behind_spaces (c ∷ sp ++ d ∷ r) ≡ some (d ∷ r)
unfolding behind_spaces
behind_spaces_complete c sp d r h all e =
    rw ((is_space_iff c).1 h) (ap some (skip_spaces_complete sp d r all e))

behind_space : (d : ℕ) (r : Bytes) → IsSpace d → behind_spaces (d ∷ r) ≡ some (skip_spaces r)
unfolding behind_spaces
behind_space d r h = rw ((is_space_iff d).1 h) refl

bind_some :
    (o : Option Bytes) (f : Bytes → Option Bytes) {r : Bytes}
    → (o >>= f) ≡ some r
    → (x : Bytes) × (o ≡ some x) × (f x ≡ some r)
bind_some none f e = cc
bind_some (some x) f e = (x, refl, e)

exploit_at_sound : (s : Bytes) {r : Bytes} → exploit_at s ≡ some r → IsMatchAt s
unfolding exploit_at
exploit_at_sound s {r} e =
    let (s1, e1, k1) = bind_some (strip_prefix s (codes "()")) _ e in
    let (s2, e2, k2) = bind_some (behind_spaces s1) _ k1 in
    let (s3, e3, k3) = bind_some (strip_prefix s2 (codes "{")) _ k2 in
    let (s4, e4, k4) = bind_some (behind_block s3) _ k3 in
    let (s5, e5, k5) = bind_some (strip_prefix s4 (codes ";")) _ k4 in
    let (c, sp, hc, all, q2) = behind_spaces_sound s1 e2 in
    let (b, block, lacks, q4) = behind_block_sound s3 e4 in
    let (d, sp', hd, all', q6) = behind_spaces_sound s5 k5 in
    let q5 = strip_prefix_sound s4 (codes ";") e5 ∙ ap (λ t. codes ";" ++ t) q6 in
    let q3 =
      strip_prefix_sound s2 (codes "{") e3
      ∙ ap (λ t. codes "{" ++ t) (q4 ∙ ap (λ t. b ∷ block ++ b'}' ∷ t) q5) in
    let q1 =
      strip_prefix_sound s (codes "()") e1
      ∙ ap (λ t. codes "()" ++ t) (q2 ∙ ap (λ t. c ∷ sp ++ t) q3) in
    (c, sp, b, block, d, (sp' ++ r), hc, all, lacks, hd, q1)

exploit_at_complete : (s : Bytes) → IsMatchAt s → (r : Bytes) × (exploit_at s ≡ some r)
unfolding exploit_at strip_prefix is_space
exploit_at_complete s (c, sp, b, block, d, back, hc, all, lacks, hd, q) = (
  skip_spaces back,
  rw
      (
        q,
        behind_spaces_complete c sp b'{' (b ∷ block ++ (codes "};" ++ (d ∷ back))) hc all refl,
        behind_block_complete b block (codes ";" ++ (d ∷ back)) lacks,
      )
      (behind_space d back hd),
)

-- A match begins anywhere in the text.
abbrev pub IsMatch : Bytes → Type 0
IsMatch body = (front s : Bytes) × (body ≡ front ++ s) × IsMatchAt s

potential_exploit_sound : (body : Bytes) → potential_exploit body ≡ true → IsMatch body
unfolding potential_exploit
potential_exploit_sound [] e = cc
potential_exploit_sound (c ∷ s) e = elim (Option-cases (exploit_at (c ∷ s))) [
  | inr (r, f) ↦ ([], c ∷ s, refl, exploit_at_sound (c ∷ s) f)
  | inl f ↦
      let (front, s', q, m) = potential_exploit_sound s (ground arith) in
      (c ∷ front, s', ap (λ t. c ∷ t) q, m)
]

potential_exploit_here : (s : Bytes) → IsMatchAt s → potential_exploit s ≡ true
unfolding potential_exploit
potential_exploit_here [] (c, sp, b, block, d, back, hc, all, lacks, hd, q) = cc
potential_exploit_here (c ∷ s) m = rw ((exploit_at_complete (c ∷ s) m).1) refl

potential_exploit_behind :
    (front s : Bytes) → potential_exploit s ≡ true → potential_exploit (front ++ s) ≡ true
unfolding potential_exploit
potential_exploit_behind [] s e = e
potential_exploit_behind (c ∷ front) s e = ground (arith, potential_exploit_behind front s e)

-- The test of the body finds exactly the texts that match the regular expression of the code: those
-- that hold, one behind the other, `()`, white space, a block in braces that is not empty and has no
-- closing brace within, a semicolon, and white space.
pub potential_exploit_lem : (body : Bytes) → (potential_exploit body ≡ true) ↔ IsMatch body
potential_exploit_lem body = (
  potential_exploit_sound body,
  (λ (front, s, q, m).
      ap potential_exploit q ∙ potential_exploit_behind front s (potential_exploit_here s m)),
)
