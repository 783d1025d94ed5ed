-- ===== src/Fetcher/Laws.antt =====
-- What is stored is what is served.
use sa_builder.Base.{◌≡◌, refl, sym, ◌∙◌, ap, Bytes, codes, ◌∷◌, ◌++◌, Lacks, drop}
use sa_builder.Strings.{trim_suffix}
use sa_builder.Strings.Laws.{trim_suffix-append}
use sa_builder.Strings.Split.{split-append, split_of_Lacks}
use sa_builder.Fetcher.{Files, slug_path, get_tar}

pub slug_path_injective : (a b : Bytes) → slug_path a ≡ slug_path b → a ≡ b
unfolding slug_path
slug_path_injective a b e =
    sym (trim_suffix-append a (codes "/slug.tgz"))
    ∙ (ap (λ s. trim_suffix (drop 6 s) (codes "/slug.tgz")) e
        ∙ trim_suffix-append b (codes "/slug.tgz"))

-- The archive of an application is served under the application's name with anything behind a
-- colon, as in the location that a build pod is given, if the name itself has no colon.
pub get_tar_of_slug_name :
    (files : Files) (app rest : Bytes)
    → Lacks b':' app
    → get_tar files (app ++ b':' ∷ rest) ≡ get_tar files app
unfolding get_tar
get_tar_of_slug_name files app rest lacks =
    rw (split-append app rest b':' lacks, split_of_Lacks app b':' lacks) refl
