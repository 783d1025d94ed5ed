-- ===== src/Git/RepoName/Escape.antt =====
-- Where the path of a cleaned name leads.
use sa_builder.Base.{
  ℕ, ◌≡◌, ◌≢◌, refl, ◌⊎◌, inl, inr, Bytes, codes, List, [], ◌∷◌, ◌++◌, true, false, ok, Lacks, All,
  All-append, ◌==◌, Bool-cases, arith, ap, length, length-append, eqb,
}
use sa_builder.Strings.{
  contains, has_prefix, split, put_first, replace_byte, join, trim_prefix, trim_suffix,
}
use sa_builder.Strings.Laws.{
  replace_byte_of_Lacks, trim_prefix_cases, trim_suffix_front, trim_suffix-append,
}
use sa_builder.Strings.Search.{contains-front, contains-back}
use sa_builder.Strings.Split.{split_of_Lacks, split-Lacks}
use sa_builder.FilePath.{dot_dot, slash, clean_from, clean_step, climb, join_path}
use sa_builder.FilePath.Laws.{IsPlain, clean_from_below, clean_step_of_IsPlain}
use sa_builder.Git.RepoName.{clean_repo_name, repo_of_name, repo_path, quote, git_suffix}
use sa_builder.Git.RepoName.Quotes.{clean_repo_name_sound}

-- The Git home that `Receive` defaults to.
abbrev pub default_git_home : Bytes
default_git_home = codes "/home/git"

abbrev NotUp : Bytes → Type 0
NotUp s = s ≢ dot_dot

head-NotUp : (c d : ℕ) (p : Bytes) → (c ≢ b'.') ⊎ (d ≢ b'.') → NotUp (c ∷ d ∷ p)
head-NotUp c d p h = ground arith

-- A byte in front of a text makes no `..` element, unless it makes a `..`.
put_first-NotUp :
    (c d : ℕ) (ps : List Bytes)
    → (c ≢ b'.') ⊎ (d ≢ b'.')
    → All NotUp (put_first d ps)
    → All NotUp (put_first c (put_first d ps))
put_first-NotUp c d [] h k = (head-NotUp c d [] h, tt)
put_first-NotUp c d (p ∷ ps) h (_, k) = (head-NotUp c d p h, k)

split-NotUp_cons :
    (c d : ℕ) (u : Bytes)
    → (c ≢ b'.') ⊎ (d ≢ b'.')
    → All NotUp (split (d ∷ u) b'/')
    → All NotUp (split (c ∷ d ∷ u) b'/')
unfolding split
split-NotUp_cons c d u h k = elim (Bool-cases (c == b'/')) [
  | inl e ↦ rw e (cc, k)
  | inr e ↦ rw e (elim (Bool-cases (d == b'/')) [
    | inl f ↦ rw f ((cc), (rw f at k).1)
    | inr f ↦ rw f (put_first-NotUp c d (split u b'/') h (rw f at k))
  ])
]

contains_dots_cons :
    (c d : ℕ) (u : Bytes)
    → contains (c ∷ d ∷ u) dot_dot ≡ false
    → ((c ≢ b'.') ⊎ (d ≢ b'.')) × (contains (d ∷ u) dot_dot ≡ false)
unfolding contains has_prefix
contains_dots_cons c d u h = ground arith

split-NotUp : (s : Bytes) → contains s dot_dot ≡ false → All NotUp (split (s ++ git_suffix) b'/')
split-NotUp [] h = unfold split in (cc, tt)
split-NotUp (c ∷ []) h =
    unfold split in
    elim (Bool-cases (c == b'/')) [ inl e ↦ rw e ((cc), ((cc), tt)) | inr e ↦ rw e ((cc), tt) ]
split-NotUp (c ∷ d ∷ u) h =
    let (apart, rest) = contains_dots_cons c d u h in
    split-NotUp_cons c d (u ++ git_suffix) apart (split-NotUp (d ∷ u) rest)

clean_repo_name-contains :
    (name : Bytes) {r : Bytes}
    → Lacks quote name
    → clean_repo_name name ≡ ok r
    → contains r dot_dot ≡ false
clean_repo_name-contains name lacks h =
    let (clean, e) = clean_repo_name_sound name h in
    let whole : replace_byte name quote [] ≡ name = replace_byte_of_Lacks name quote [] lacks in
    let (tail, f) = trim_suffix_front name git_suffix in
    let front : contains (trim_suffix name git_suffix) dot_dot ≡ false =
      contains-front _ tail dot_dot (rw (← f) clean) in
    rw (e, whole)
      (elim (trim_prefix_cases (trim_suffix name git_suffix) slash) [
        | inl same ↦ rw same front
        | inr cut ↦ contains-back slash _ dot_dot (rw (← cut) front)
      ])

repo_path-clean_from :
    (repo : Bytes)
    → repo_path default_git_home repo
      ≡ slash ++ join (clean_from true (codes "git" ∷ codes "home" ∷ []) (split repo b'/')) slash
unfolding repo_path join_path
repo_path-clean_from repo = refl

-- A name without a quote that is accepted gives a path whose elements are those of the Git home and
-- then names without a slash, neither empty nor `.` nor `..`: the path never climbs out of the Git
-- home.
pub repo_path_below :
    (name : Bytes) {r : Bytes}
    → Lacks quote name
    → clean_repo_name name ≡ ok r
    → (rest : List Bytes) × All IsPlain rest
      × All (Lacks b'/') rest
      × (repo_path default_git_home (repo_of_name r)
          ≡ slash ++ join (codes "home" ∷ codes "git" ∷ rest) slash)
unfolding repo_of_name
repo_path_below name {r} lacks h =
    let (rest, plain, apart, e) =
      clean_from_below true (codes "git" ∷ codes "home" ∷ []) _
        (split-NotUp r (clean_repo_name-contains name lacks h))
        (split-Lacks (r ++ git_suffix) b'/') in
    (rest, plain, apart, rw (repo_path-clean_from, e))

contains_word : (word : Bytes) → Lacks b'.' word → contains (word ++ git_suffix) dot_dot ≡ false
unfolding contains has_prefix
contains_word [] h = refl
contains_word (c ∷ word) (hc, h) = rw (contains_word word h) (ground arith)

word-IsPlain : (word : Bytes) → IsPlain (word ++ git_suffix)
word-IsPlain word = (
  (λ e. omega (arith, ap length e, length-append word git_suffix)),
  (λ e. omega (arith, ap length e, length-append word git_suffix)),
  (λ e. omega (arith, ap length e, length-append word git_suffix)),
)

climbing_name : (rest : Bytes) → contains (codes ".'./" ++ rest) dot_dot ≡ contains rest dot_dot
unfolding contains has_prefix
climbing_name rest = refl

unquoted :
    (rest : Bytes)
    → Lacks quote rest
    → replace_byte (codes ".'./" ++ rest) quote [] ≡ codes "../" ++ rest
unfolding replace_byte
unquoted rest h = rw (replace_byte_of_Lacks rest quote [] h)

no_slash : (rest : Bytes) → trim_prefix (codes "../" ++ rest) slash ≡ codes "../" ++ rest
unfolding trim_prefix
no_slash rest = refl

climbing_name_cleaned :
    (word : Bytes)
    → Lacks quote word
    → ok (
        trim_prefix
          (trim_suffix (replace_byte (codes ".'./" ++ (word ++ git_suffix)) quote []) git_suffix)
          slash)
      ≡ ok (codes "../" ++ word)
climbing_name_cleaned word h = rw (
  unquoted (word ++ git_suffix) (All-append _ word git_suffix h (omega arith)),
  trim_suffix-append (codes "../" ++ word) git_suffix,
  no_slash,
)

repo_path_beside :
    (repo : Bytes)
    → IsPlain repo
    → Lacks b'/' repo
    → repo_path default_git_home (codes "../" ++ repo) ≡ codes "/home/" ++ repo
unfolding split clean_from clean_step climb eqb join
repo_path_beside repo plain h =
    rw (repo_path-clean_from)
      (rw (split_of_Lacks repo b'/' h, clean_step_of_IsPlain true (codes "home" ∷ []) repo plain))

-- A name with a quote between its dots is accepted and climbs: for every word without a dot, a
-- slash or a quote, the name `.'./WORD.git` gives a repository beside the Git home.
pub clean_repo_name_climbs :
    (word : Bytes)
    → Lacks b'.' word
    → Lacks b'/' word
    → Lacks quote word
    → (clean_repo_name (codes ".'./" ++ (word ++ git_suffix)) ≡ ok (codes "../" ++ word))
      × (repo_path default_git_home (repo_of_name (codes "../" ++ word))
          ≡ codes "/home/" ++ (word ++ git_suffix))
unfolding clean_repo_name repo_of_name
clean_repo_name_climbs word hd hs hq = (
  rw (climbing_name (word ++ git_suffix), contains_word word hd) (climbing_name_cleaned word hq),
  repo_path_beside (word ++ git_suffix) (word-IsPlain word)
      (All-append _ word git_suffix hs (omega arith)),
)
