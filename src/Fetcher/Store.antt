-- ===== src/Fetcher/Store.antt =====
-- What the server promises: a store of archives and slugs by their names, without files and routes.
use sa_builder.Base.{
  take, ◌≡◌, ◌≢◌, refl, ap, ◌∙◌, Bytes, codes, List, [], ◌∷◌, ◌&&◌, Option, none, some, All, eqb,
  eqb_iff, eqb_refl, if◌then◌else◌, Bool-cases, inl, inr,
}
use sa_builder.Strings.{split}
use sa_builder.Fetcher.{first_part, write_body}
use sa_builder.Fetcher.Server.{Request, Reply, served, unrouted, health_text}

-- What a request asks of the store.
pub data Ask : Type 0 where
  ask_tar ask_slug : Bytes → Ask
  ask_health : Ask
  put_under : Bytes → Ask
  no_ask : Ask

-- Below `/git/home/`: a name and what is asked of it, or `health`.
abbrev pub ask_get : List Bytes → Ask
ask_get (name ∷ []) = if eqb (codes "health") name then ask_health else no_ask
ask_get (name ∷ what ∷ []) =
    if eqb (codes "tar") what
    then ask_tar name
    else (if eqb (codes "slug") what then ask_slug name else no_ask)
ask_get _ = no_ask

abbrev pub ask_put : List Bytes → Ask
ask_put (name ∷ kind ∷ []) = put_under name
ask_put _ = no_ask

abbrev pub ask_method : Bytes → List Bytes → Ask
ask_method method rest =
    if eqb (codes "GET") method
    then ask_get rest
    else (if eqb (codes "PUT") method then ask_put rest else no_ask)

abbrev pub ask_of : Bytes → List Bytes → Ask
ask_of method (root ∷ git ∷ home ∷ rest) =
    if eqb (codes "git") git && eqb (codes "home") home then ask_method method rest else no_ask
ask_of method _ = no_ask

-- The archives by the names of the applications, and the slugs by theirs.
abbrev pub Named : Type 0
Named = Bytes → Option Bytes

abbrev pub put_at : Option Bytes → Bytes → Bytes → Named → Named
put_at none name body slugs other = if eqb name other then some body else slugs other
put_at (some e) name body slugs other = slugs other

-- What came of a body: the whole of it, unless its copy ended early.
abbrev pub received : Request → Bytes
received req = elim req.copy_error [ none ↦ req.body | some written ↦ take written req.body ]

-- A put stores what came of its body under the name, unless the file cannot be made.
abbrev pub store_next : Ask → Request → Named → Named
store_next (put_under name) req slugs = put_at req.create_error name (received req) slugs
store_next _ req slugs = slugs

abbrev pub ask : Request → Ask
ask req = ask_of req.method (split req.path b'/')

module _ (archives : Named) where
  abbrev pub store_reply : Ask → Named → Reply
  store_reply (ask_tar name) slugs =
      let app = first_part (split name b':') in served (write_body app (archives app))
  store_reply (ask_slug name) slugs = served (write_body name (slugs name))
  store_reply ask_health slugs = served health_text
  store_reply (put_under name) slugs = served []
  store_reply no_ask slugs = unrouted

  -- The answers to a sequence of requests.
  abbrev pub store_replies : List Request → Named → List Reply
  store_replies [] slugs = []
  store_replies (req ∷ reqs) slugs =
      store_reply (ask req) slugs ∷ store_replies reqs (store_next (ask req) req slugs)

-- What the store holds after a sequence of requests.
abbrev pub store_after : List Request → Named → Named
store_after [] slugs = slugs
store_after (req ∷ reqs) slugs = store_after reqs (store_next (ask req) req slugs)

put_at-other :
    (e : Option Bytes) (name body : Bytes) (slugs : Named) (other : Bytes)
    → name ≢ other
    → put_at e name body slugs other ≡ slugs other
put_at-other none name body slugs other apart = elim (Bool-cases (eqb name other)) [
  | inl e ↦ absurd (apart ((eqb_iff name other).0 e))
  | inr e ↦ rw e refl
]
put_at-other (some e) name body slugs other apart = refl

store_next-other :
    (a : Ask) (req : Request) (slugs : Named) (name : Bytes)
    → a ≢ put_under name
    → store_next a req slugs name ≡ slugs name
store_next-other (put_under n) req slugs name apart =
    put_at-other req.create_error n (received req) slugs name (λ e. apart (ap put_under e))
store_next-other (ask_tar n) req slugs name apart = refl
store_next-other (ask_slug n) req slugs name apart = refl
store_next-other ask_health req slugs name apart = refl
store_next-other no_ask req slugs name apart = refl

-- A slug stays while nothing is put under its name.
pub store_after-other :
    (reqs : List Request) (slugs : Named) (name : Bytes)
    → All (λ req. ask req ≢ put_under name) reqs
    → store_after reqs slugs name ≡ slugs name
store_after-other [] slugs name h = refl
store_after-other (req ∷ reqs) slugs name (p, h) =
    store_after-other reqs (store_next (ask req) req slugs) name h
    ∙ store_next-other (ask req) req slugs name p

pub put_at_self : (name body : Bytes) (slugs : Named) → put_at none name body slugs name ≡ some body
put_at_self name body slugs = rw (eqb_refl name) refl
