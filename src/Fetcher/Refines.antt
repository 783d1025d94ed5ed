-- ===== src/Fetcher/Refines.antt =====
-- The server refines the store.
use sa_builder.Base.{
  ℕ, take, ◌≡◌, refl, sym, ap, ◌∙◌, Bytes, codes, List, [], ◌∷◌, false, Option, none, some, All,
  eqb, eqb_iff, eqb_refl, if◌then◌else◌, Bool-cases, inl, inr,
}
use mathlib.Core.Path.{subst, ap₂}
use sa_builder.Strings.{split}
use sa_builder.Fetcher.{
  Files, first_part, read_file_of, tar_path, slug_path, get_tar, get_slug, put_slug, write_body,
  copied,
}
use sa_builder.Fetcher.Server.{
  Handler, routes, Vars, var, Mux, IsCleanPath, IsMux, Request, served, handle, dispatch,
  serve_requests,
}
use sa_builder.Fetcher.Store.{
  ask, Named, received, put_at, store_next, store_reply, store_replies, store_after,
}
use sa_builder.Fetcher.Laws.{slug_path_injective}
use sa_builder.Fetcher.Templates.{routed_ask}
use sa_builder.Fetcher.Routing.{routes_ask}

-- The files hold the archives and the slugs.
pub record Models (files : Files) (archives slugs : Named) : Type 0 where
  pub has_archives : (app : Bytes) → read_file_of files (tar_path app) ≡ archives app
  pub has_slugs : (name : Bytes) → read_file_of files (slug_path name) ≡ slugs name

eqb-slug_path : (a b : Bytes) → eqb (slug_path a) (slug_path b) ≡ eqb a b
eqb-slug_path a b = elim (Bool-cases (eqb a b)) [
  | inl e ↦ rw (e, (eqb_iff a b).0 e) (eqb_refl (slug_path b))
  | inr e ↦ elim (Bool-cases (eqb (slug_path a) (slug_path b))) [
    | inl f ↦ cc (e, (eqb_iff a b).1 (slug_path_injective a b ((eqb_iff _ _).0 f)))
    | inr f ↦ f ∙ sym e
  ]
]

eqb-slug_path-tar_path : (a b : Bytes) → eqb (slug_path a) (tar_path b) ≡ false
unfolding slug_path tar_path eqb
eqb-slug_path-tar_path a b = refl

put_slug-Models :
    (e : Option Bytes) (c : Option ℕ) (files : Files) (name body : Bytes) (archives slugs : Named)
    → Models files archives slugs
    → Models (put_slug e c files name body) archives (put_at e name (copied c body) slugs)
unfolding put_slug read_file_of
put_slug-Models none c files name body archives slugs m = record {
  has_archives = λ app. rw (eqb-slug_path-tar_path name app) (m.has_archives app);
  has_slugs = λ other.
      rw (eqb-slug_path name other)
        (ap (λ o. if eqb name other then some (copied c body) else o) (m.has_slugs other));
}
put_slug-Models (some e) c files name body archives slugs m = m

copied-received : (req : Request) → copied req.copy_error req.body ≡ received req
copied-received req =
    elim req.copy_error
      as (λ c.
        copied c req.body
        ≡ elim c as (λ _. Bytes) [ none ↦ req.body | some written ↦ take written req.body ]) [
          | none ↦ refl
          | some written ↦ refl
        ]

dispatch-Models :
    (o : Option (Handler × Vars)) (req : Request) (files : Files) (archives slugs : Named)
    → Models files archives slugs
    → ((dispatch o req files).0 ≡ store_reply archives (routed_ask o) slugs)
      × Models (dispatch o req files).1 archives (store_next (routed_ask o) req slugs)
unfolding dispatch handle get_tar get_slug
dispatch-Models none req files archives slugs m = (refl, m)
dispatch-Models (some (Handler.get_tar_handler, vars)) req files archives slugs m =
    let app = first_part (split (var (codes "name") vars) b':') in
    (ap (λ o. served (write_body app o)) (m.has_archives app), m)
dispatch-Models (some (Handler.get_slug_handler, vars)) req files archives slugs m =
    let name = var (codes "name") vars in
    (ap (λ o. served (write_body name o)) (m.has_slugs name), m)
dispatch-Models (some (Handler.health_handler, vars)) req files archives slugs m = (refl, m)
dispatch-Models (some (Handler.put_slug_handler, vars)) req files archives slugs m =
    let name = var (codes "name") vars in
    (
      refl,
      subst
          (λ body.
            Models (put_slug req.create_error req.copy_error files name req.body) archives
              (put_at req.create_error name body slugs))
          (copied-received req)
          (put_slug-Models req.create_error req.copy_error files name req.body archives slugs m),
    )

module _ (mux : Mux) (law : IsMux mux) (archives : Named) where
  dispatch_lem :
      (req : Request) (files : Files) (slugs : Named)
      → IsCleanPath req.path
      → Models files archives slugs
      → ((dispatch (mux routes req.method req.path) req files).0
          ≡ store_reply archives (ask req) slugs)
        × Models
            (dispatch (mux routes req.method req.path) req files).1
            archives
            (store_next (ask req) req slugs)
  dispatch_lem req files slugs clean m =
      let found = mux routes req.method req.path in
      let asked : routed_ask found ≡ ask req =
        ap routed_ask (law.matches routes req.method req.path clean)
        ∙ routes_ask req.method (split req.path b'/') clean in
      subst
        (λ a.
          ((dispatch found req files).0 ≡ store_reply archives a slugs)
          × Models (dispatch found req files).1 archives (store_next a req slugs))
        asked (dispatch-Models found req files archives slugs m)

  -- The server answers every sequence of requests as the store does, and its files hold what the
  -- store holds in the end: a request for an archive or a slug is answered with the one of its name,
  -- and a put changes the slug of its name to what came of its body before an error ended the copy,
  -- if its file can be made, and nothing else. The paths are clean, and the router matches templates
  -- as documented.
  pub serve_requests-Models :
      (reqs : List Request) (files : Files) (slugs : Named)
      → All (λ req. IsCleanPath (Request.path req)) reqs
      → Models files archives slugs
      → ((serve_requests mux reqs files).0 ≡ store_replies archives reqs slugs)
        × Models (serve_requests mux reqs files).1 archives (store_after reqs slugs)
  unfolding serve_requests
  serve_requests-Models [] files slugs clean m = (refl, m)
  serve_requests-Models (req ∷ reqs) files slugs (c, cs) m =
      let (e, m') = dispatch_lem req files slugs c m in
      let (es, m'') = serve_requests-Models reqs _ (store_next (ask req) req slugs) cs m' in
      (ap₂ (λ r rs. r ∷ rs) e es, m'')
