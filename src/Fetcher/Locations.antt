-- ===== src/Fetcher/Locations.antt =====
-- The locations that a build hands to its pods, as the server answers them.
use mathlib.Core.Path.{subst}
use sa_builder.Base.{
  ◌≡◌, ◌≢◌, refl, sym, ap, ◌∙◌, Bytes, codes, List, [], ◌∷◌, ◌++◌, none, All, Lacks, arith, ok,
}
use sa_builder.FilePath.{clean}
use sa_builder.FilePath.Laws.{IsPlain}
use sa_builder.Gitreceive.Sha.{Sha, new_sha, new_sha-Lacks}
use sa_builder.Gitreceive.Storage.{s3_endpoint, key_url, slug_builder_info}
use sa_builder.Fetcher.{Files, read_file_of, tar_path, slug_path, write_body}
use sa_builder.Fetcher.Server.{Mux, IsCleanPath, IsMux, Request, Reply, served, serve_requests}
use sa_builder.Fetcher.Store.{
  store_reply, store_next, put_at, put_at_self, ask, put_under, Named, store_after,
  store_after-other,
}
use sa_builder.Fetcher.Refines.{Models, serve_requests-Models}
use sa_builder.Fetcher.Paths.{
  IsPlain-of_length, ask_tar_lem, ask_slug_lem, ask_push_lem, build_name-IsPlain, build_name-Lacks,
  location-IsCleanPath, archive_file_lem, build_name_assoc, first_part_name, location, build_name,
  get_request, put_request, archive_file,
}

-- What is in the files.
abbrev archives_in : Files → Named
archives_in files app = read_file_of files (tar_path app)

abbrev slugs_in : Files → Named
slugs_in files name = read_file_of files (slug_path name)

in-Models : (files : Files) → Models files (archives_in files) (slugs_in files)
in-Models files = record { has_archives = λ app. refl; has_slugs = λ name. refl }

module _ (mux : Mux) where
  -- What the server answers to one request, and the files behind it.
  abbrev pub reply_to : Request → Files → List Reply
  reply_to req files = (serve_requests mux (req ∷ []) files).0

  abbrev pub files_after : List Request → Files → Files
  files_after reqs files = (serve_requests mux reqs files).1

module _ (mux : Mux) (law : IsMux mux) where
  tar_served :
      (app short : Bytes) (files : Files)
      → Lacks b'/' app
      → Lacks b':' app
      → Lacks b'/' short
      → reply_to mux (get_request (location (build_name app short) (codes "tar"))) files
        ≡ served (write_body app (read_file_of files (archive_file app))) ∷ []
  tar_served app short files ha hc hs =
      let name = build_name app short in
      let clear = build_name-Lacks app short ha hs in
      let archives = archives_in files in
      (serve_requests-Models mux law archives (get_request (location name (codes "tar")) ∷ []) files
        (slugs_in files)
        (
          location-IsCleanPath name (codes "tar") (build_name-IsPlain app short) clear
              (IsPlain-of_length (codes "tar") (omega arith)) (omega arith),
          tt,
        )
        (in-Models files)).0
      ∙ ap (λ a. store_reply archives a (slugs_in files) ∷ []) (ask_tar_lem name clear)
      ∙ ap (λ a. served (write_body a (archives a)) ∷ []) (first_part_name app short hc)
      ∙ ap (λ p. served (write_body app (read_file_of files p)) ∷ [])
          (sym (archive_file_lem app ha))

  slug_served :
      (name : Bytes) (reqs : List Request) (files : Files) (body : Bytes)
      → IsPlain name
      → Lacks b'/' name
      → All (λ req. IsCleanPath (Request.path req)) reqs
      → All (λ req. ask req ≢ put_under name) reqs
      → reply_to mux (get_request (location name (codes "slug"))) (
          files_after mux reqs
            (files_after mux (put_request (location name (codes "push")) body ∷ []) files))
        ≡ served body ∷ []
  unfolding write_body
  slug_served name reqs files body plain clear clean apart =
      let archives = archives_in files in
      let slugs = slugs_in files in
      let put = put_request (location name (codes "push")) body in
      let get = get_request (location name (codes "slug")) in
      let files1 = files_after mux (put ∷ []) files in
      let slugs1 = put_at none name body slugs in
      let m1 : Models files1 archives slugs1 =
        subst (λ a. Models files1 archives (store_next a put slugs)) (ask_push_lem name clear body)
          (serve_requests-Models mux law archives (put ∷ []) files slugs
            (
              location-IsCleanPath name (codes "push") plain clear
                  (IsPlain-of_length (codes "push") (omega arith)) (omega arith),
              tt,
            )
            (in-Models files)).1 in
      let m2 = (serve_requests-Models mux law archives reqs files1 slugs1 clean m1).1 in
      let slugs2 = store_after reqs slugs1 in
      (serve_requests-Models mux law archives (get ∷ []) (files_after mux reqs files1) slugs2
        (
          location-IsCleanPath name (codes "slug") plain clear
              (IsPlain-of_length (codes "slug") (omega arith)) (omega arith),
          tt,
        )
        m2).0
      ∙ ap (λ a. store_reply archives a slugs2 ∷ []) (ask_slug_lem name clear)
      ∙ ap (λ o. served (write_body name o) ∷ [])
          (store_after-other reqs slugs1 name apart ∙ put_at_self name body slugs)

  -- The locations that a build hands to its pods lead through the server to each other: behind the
  -- address of the builder, a GET of the tar location is answered with the file that `git archive`
  -- writes in the application's repository, or the text for a file that is missing. After a PUT to
  -- the push location, and any requests of which none puts under the name of this build, a GET of
  -- the slug location is answered with what was put. The application's name has no slash and no
  -- colon, the file of the slug can be made and its copy ends well, the paths in between are clean, and the router matches
  -- templates as documented.
  pub build_locations :
      (host app raw_sha : Bytes) {sha : Sha} (files : Files) (body : Bytes) (reqs : List Request)
      → Lacks b'/' app
      → Lacks b':' app
      → new_sha raw_sha ≡ ok sha
      → All (λ req. IsCleanPath (Request.path req)) reqs
      → All (λ req. ask req ≢ put_under (build_name app sha.short)) reqs
      → let info = slug_builder_info host app (build_name app sha.short) sha in
        (tar push slug : Bytes) × (info.tar_url ≡ s3_endpoint host ++ tar)
        × (info.push_url ≡ s3_endpoint host ++ push)
        × (info.slug_url ≡ s3_endpoint host ++ slug)
        × (reply_to mux (get_request tar) files
            ≡ served (write_body app (read_file_of files (archive_file app))) ∷ [])
        × (reply_to mux
              (get_request slug)
              (files_after mux reqs (files_after mux (put_request push body ∷ []) files))
            ≡ served body ∷ [])
  unfolding slug_builder_info
  build_locations host app raw_sha {sha} files body reqs ha hc p clean apart =
      let short = sha.short in
      let name = build_name app short in
      let hs = new_sha-Lacks b'/' raw_sha (λ d. omega arith) p in
      (
        location name (codes "tar"),
        location name (codes "push"),
        location name (codes "slug"),
        refl,
        ap (key_url (s3_endpoint host)) (build_name_assoc app short (codes "push")),
        ap (key_url (s3_endpoint host)) (build_name_assoc app short (codes "slug")),
        tar_served app short files ha hc hs,
        slug_served name reqs files body (build_name-IsPlain app short)
            (build_name-Lacks app short ha hs) clean apart,
      )
