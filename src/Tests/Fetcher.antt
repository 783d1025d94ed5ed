-- ===== src/Tests/Fetcher.antt =====
-- The theorems on the fetcher, at concrete inputs.
use sa_builder.Base.{List, refl, eqb, ok, ◌≡◌, ◌≢◌, Bytes, codes, [], ◌∷◌, ◌++◌, arith}
use sa_builder.Strings.{split, strip_prefix}
use sa_builder.Gitreceive.Sha.{Sha, new_sha, sha_regex}
use sa_builder.Gitreceive.Storage.{SlugBuilderInfo, s3_endpoint, slug_builder_info}
use sa_builder.Fetcher.{Files, get_slug, read_file_of, tar_path, slug_path, write_body}
use sa_builder.Fetcher.Server.{
  Mux, IsMux, IsCleanPath, Request, served, var, first_match, match_element, match_elements, handle,
  dispatch, serve_requests,
}
use sa_builder.Fetcher.Store.{Named, ask, put_under, store_replies, store_after}
use sa_builder.Fetcher.Refines.{Models, serve_requests-Models}
use sa_builder.Fetcher.Paths.{get_request, put_request, build_name, archive_file}
use sa_builder.Fetcher.Locations.{reply_to, files_after, build_locations}
use sa_builder.Tests.{digits}

abbrev files : Files
files = (codes "/home/git/app.git/app.tar.gz", codes "archive") ∷ []

-- A router that takes every path as a clean one.
abbrev plain_mux : Mux
plain_mux rs method path = first_match rs method (split path b'/')

plain_mux-IsMux : IsMux plain_mux
plain_mux-IsMux = record { matches = λ rs method path clean. refl }

abbrev short : Bytes
short = codes "01234567"

abbrev slug_request : Request
slug_request = get_request (codes "/git/home/app/slug")

abbrev archives : Named
archives app = read_file_of files (tar_path app)

abbrev slugs : Named
slugs name = read_file_of files (slug_path name)

served_health :
    (serve_requests plain_mux (get_request (codes "/git/home/health") ∷ slug_request ∷ []) files).0
    ≡ served (codes "Hello, world!") ∷ served (codes "appdosn't exist") ∷ []
unfolding serve_requests dispatch handle first_match match_elements match_element split eqb
    strip_prefix get_slug write_body read_file_of slug_path var
served_health = refl

push_clean : IsCleanPath (codes "/git/home/app/push")
unfolding split
push_clean = ground arith

slug_clean : IsCleanPath (codes "/git/home/app/slug")
unfolding split
slug_clean = ground arith

abbrev exchanged : List Request
exchanged = put_request (codes "/git/home/app/push") (codes "slug") ∷ slug_request ∷ []

serve_requests-Models_example :
    ((serve_requests plain_mux exchanged files).0 ≡ store_replies archives exchanged slugs)
    × Models (serve_requests plain_mux exchanged files).1 archives (store_after exchanged slugs)
serve_requests-Models_example =
    serve_requests-Models plain_mux plain_mux-IsMux archives exchanged files slugs
      (push_clean, (slug_clean, tt))
      (record { has_archives = λ app. refl; has_slugs = λ name. refl })

abbrev sha : Sha
sha = record { full = digits; short = codes "01234567" }

digits_accepted : new_sha digits ≡ ok sha
unfolding new_sha sha_regex
digits_accepted = refl

slug_asked : ask slug_request ≢ put_under (build_name (codes "app") sha.short)
unfolding split eqb
slug_asked = cc

abbrev info : SlugBuilderInfo
info = slug_builder_info (codes "10.0.0.3") (codes "app") (build_name (codes "app") sha.short) sha

build_locations_example :
    (tar push slug : Bytes) × (info.tar_url ≡ s3_endpoint (codes "10.0.0.3") ++ tar)
    × (info.push_url ≡ s3_endpoint (codes "10.0.0.3") ++ push)
    × (info.slug_url ≡ s3_endpoint (codes "10.0.0.3") ++ slug)
    × (reply_to plain_mux (get_request tar) files
        ≡ served (write_body (codes "app") (read_file_of files (archive_file (codes "app")))) ∷ [])
    × (reply_to plain_mux (get_request slug) (
          files_after plain_mux
            (slug_request ∷ [])
            (files_after plain_mux (put_request push (codes "slug") ∷ []) files))
        ≡ served (codes "slug") ∷ [])
build_locations_example =
    build_locations plain_mux plain_mux-IsMux (codes "10.0.0.3") (codes "app") digits files
      (codes "slug") (slug_request ∷ []) (omega arith) (omega arith) digits_accepted
      (slug_clean, tt) (slug_asked, tt)
