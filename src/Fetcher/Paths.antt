-- ===== src/Fetcher/Paths.antt =====
-- The paths and the names of the locations that a build hands to its pods.
use sa_builder.Base.{
  ◌≤◌, ◌≡◌, refl, length, length-append, sym, ap, ◌∙◌, Bytes, codes, [], ◌∷◌, ◌++◌, append_assoc,
  true, none, All-append, Lacks, eqb, arith,
}
use sa_builder.Strings.{split}
use sa_builder.Strings.Split.{split-append, split_of_Lacks}
use sa_builder.FilePath.{join_path}
use sa_builder.FilePath.Laws.{IsPlain, clean_from_of_IsPlain}
use sa_builder.Gitreceive.Storage.{app_key}
use sa_builder.Fetcher.{first_part, tar_path}
use sa_builder.Fetcher.Server.{IsCleanPath, Request}
use sa_builder.Fetcher.Store.{ask, ask_of, ask_tar, ask_slug, put_under}

-- The path of a name and a part of it.
abbrev pub location : Bytes → Bytes → Bytes
location name part = codes "/git/home/" ++ (name ++ b'/' ∷ part)

split-location :
    (name part : Bytes)
    → Lacks b'/' name
    → Lacks b'/' part
    → split (location name part) b'/' ≡ [] ∷ codes "git" ∷ codes "home" ∷ name ∷ part ∷ []
split-location name part hn hp =
    split-append [] (codes "git/home/" ++ (name ++ b'/' ∷ part)) b'/' tt
    ∙ ap (λ ps. [] ∷ ps)
        (split-append (codes "git") (codes "home/" ++ (name ++ b'/' ∷ part)) b'/' (omega arith)
          ∙ ap (λ ps. codes "git" ∷ ps)
              (split-append (codes "home") (name ++ b'/' ∷ part) b'/' (omega arith)
                ∙ ap (λ ps. codes "home" ∷ ps)
                    (split-append name part b'/' hn
                      ∙ ap (λ ps. name ∷ ps) (split_of_Lacks part b'/' hp))))

pub IsPlain-of_length : (s : Bytes) → 3 ≤ length s → IsPlain s
IsPlain-of_length s h = (
  (λ e. omega (arith, ap length e)),
  (λ e. omega (arith, ap length e)),
  (λ e. omega (arith, ap length e)),
)

-- The name of a build: `%s:git-%s`.
abbrev pub build_name : Bytes → Bytes → Bytes
build_name app short = app ++ (codes ":git-" ++ short)

pub build_name-IsPlain : (app short : Bytes) → IsPlain (build_name app short)
build_name-IsPlain app short =
    IsPlain-of_length _ (omega (arith, length-append app (codes ":git-" ++ short)))

pub build_name-Lacks :
    (app short : Bytes) → Lacks b'/' app → Lacks b'/' short → Lacks b'/' (build_name app short)
build_name-Lacks app short ha hs =
    All-append _ app (codes ":git-" ++ short) ha
      (All-append _ (codes ":git-") short (omega arith) hs)

pub location-IsCleanPath :
    (name part : Bytes)
    → IsPlain name
    → Lacks b'/' name
    → IsPlain part
    → Lacks b'/' part
    → IsCleanPath (location name part)
location-IsCleanPath name part pn ln pp lp = rw (split-location name part ln lp) (
  refl,
  (
    IsPlain-of_length (codes "git") (omega arith),
    (IsPlain-of_length (codes "home") (omega arith), (pn, (pp, tt))),
  ),
)

abbrev pub get_request : Bytes → Request
get_request path = record {
  method = codes "GET";
  path = path;
  body = [];
  create_error = none;
  copy_error = none;
}

abbrev pub put_request : Bytes → Bytes → Request
put_request path body = record {
  method = codes "PUT";
  path = path;
  body = body;
  create_error = none;
  copy_error = none;
}

-- The archive that `git archive` writes for an application below the Git home.
abbrev pub archive_file : Bytes → Bytes
archive_file app =
    join_path (codes "/home/git" ∷ (app ++ codes ".git") ∷ [])
    ++ (codes "/" ++ (app ++ codes ".tar.gz"))

pub archive_file_lem : (app : Bytes) → Lacks b'/' app → archive_file app ≡ tar_path app
unfolding join_path tar_path
archive_file_lem app h =
    rw
      (
        split_of_Lacks (app ++ codes ".git") b'/' (All-append _ app (codes ".git") h (omega arith)),
        clean_from_of_IsPlain true (codes "git" ∷ codes "home" ∷ []) ((app ++ codes ".git") ∷ [])
            (IsPlain-of_length _ (omega (arith, length-append app (codes ".git"))), tt),
      )
      (ap (λ s. codes "/home/git/" ++ s)
        (append_assoc app (codes ".git") (codes "/" ++ (app ++ codes ".tar.gz"))))

pub build_name_assoc :
    (app short part : Bytes)
    → app_key app short part ≡ codes "home/" ++ (build_name app short ++ b'/' ∷ part)
build_name_assoc app short part =
    ap (λ s. codes "home/" ++ s) (sym (append_assoc app (codes ":git-" ++ short) (b'/' ∷ part)))

pub first_part_name :
    (app short : Bytes) → Lacks b':' app → first_part (split (build_name app short) b':') ≡ app
first_part_name app short h = ap first_part (split-append app (codes "git-" ++ short) b':' h)

module _ (name : Bytes) (clear : Lacks b'/' name) where
  pub ask_tar_lem : ask (get_request (location name (codes "tar"))) ≡ ask_tar name
  unfolding eqb
  ask_tar_lem = ap (ask_of (codes "GET")) (split-location name (codes "tar") clear (omega arith))

  pub ask_slug_lem : ask (get_request (location name (codes "slug"))) ≡ ask_slug name
  unfolding eqb
  ask_slug_lem = ap (ask_of (codes "GET")) (split-location name (codes "slug") clear (omega arith))

  pub ask_push_lem :
      (body : Bytes) → ask (put_request (location name (codes "push")) body) ≡ put_under name
  unfolding eqb
  ask_push_lem body =
      ap (ask_of (codes "PUT")) (split-location name (codes "push") clear (omega arith))
