-- ===== src/Fetcher/Server.antt =====
-- `Serve` of fetcher/fetcher.go: the routes with their handlers, and the answers to a sequence of
-- requests. The router is a library, and so is the listener below it.
use sa_builder.Base.{
  ℕ, Bytes, codes, List, [], ◌∷◌, ◌++◌, Bool, ◌&&◌, Option, none, some, All, eqb, if◌then◌else◌,
  ◌≡◌,
}
use sa_builder.Strings.{split, has_prefix, has_suffix, trim_prefix, trim_suffix}
use sa_builder.FilePath.Laws.{IsPlain}
use sa_builder.Fetcher.{Files, get_tar, get_slug, put_slug}

-- The handlers that the routes name.
pub data Handler : Type 0 where
  get_tar_handler get_slug_handler health_handler put_slug_handler : Handler

-- `rtr.HandleFunc(template, handler).Methods(method)`
pub record HandleFunc : Type 0 where
  pub template : Bytes
  pub handler : Handler
  pub method : Bytes

abbrev pub routes : List HandleFunc
routes =
    record {
      template = codes "/git/home/{name}/tar";
      handler = get_tar_handler;
      method = codes "GET";
    }
    ∷ record {
      template = codes "/git/home/{name}/slug";
      handler = get_slug_handler;
      method = codes "GET";
    }
    ∷ record { template = codes "/git/home/health"; handler = health_handler; method = codes "GET" }
    ∷ record {
      template = codes "/git/home/{name}/{type}";
      handler = put_slug_handler;
      method = codes "PUT";
    }
    ∷ []

-- The variables of a route by their names.
abbrev pub Vars : Type 0
Vars = List (Bytes × Bytes)

-- `mux.Vars(r)[name]`, the empty text if there is none
unfoldable pub var : Bytes → Vars → Bytes
unfolding eqb
var name [] = []
var name ((key, v) ∷ vars) = let rest = var name vars in if eqb key name then v else rest

-- The router: the handler for a method and a path, with its variables.
abbrev pub Mux : Type 0
Mux = List HandleFunc → Bytes → Bytes → Option (Handler × Vars)

-- What is documented of templates: `{x}` is anything up to the next slash, and it has that value; all
-- other elements are themselves.
abbrev pub is_variable : Bytes → Bool
is_variable t = has_prefix t (codes "{") && has_suffix t (codes "}")

abbrev variable_name : Bytes → Bytes
variable_name t = trim_suffix (trim_prefix t (codes "{")) (codes "}")

unfoldable pub match_element : Bytes → Bytes → Option Vars
unfolding has_prefix has_suffix trim_prefix trim_suffix
match_element t s =
    if is_variable t then some ((variable_name t, s) ∷ []) else (if eqb t s then some [] else none)

abbrev pub join_vars : Option Vars → Option Vars → Option Vars
join_vars none rest = none
join_vars (some v) none = none
join_vars (some v) (some vs) = some (v ++ vs)

unfoldable pub match_elements : List Bytes → List Bytes → Option Vars
match_elements [] [] = some []
match_elements [] (s ∷ ss) = none
match_elements (t ∷ ts) [] = none
match_elements (t ∷ ts) (s ∷ ss) = join_vars (match_element t s) (match_elements ts ss)

abbrev pub or_next : Handler → Option Vars → Option (Handler × Vars) → Option (Handler × Vars)
or_next handler (some vars) rest = some (handler, vars)
or_next handler none rest = rest

-- The first route whose method and template fit.
unfoldable pub first_match : List HandleFunc → Bytes → List Bytes → Option (Handler × Vars)
first_match [] method segs = none
first_match (r ∷ rs) method segs =
    let rest = first_match rs method segs in
    if eqb r.method method
    then or_next r.handler (match_elements (split r.template b'/') segs) rest
    else rest

abbrev pub AfterSlash : List Bytes → Type 0
AfterSlash [] = ⊥
AfterSlash (s ∷ segs) = (s ≡ []) × All IsPlain segs

-- A path from the root whose elements are plain, such as `Clean` leaves. Of other paths nothing is
-- assumed; the router redirects them.
abbrev pub IsCleanPath : Bytes → Type 0
IsCleanPath path = AfterSlash (split path b'/')

pub record IsMux (mux : Mux) : Type 0 where
  pub matches :
      (rs : List HandleFunc) (method path : Bytes)
      → IsCleanPath path
      → mux rs method path ≡ first_match rs method (split path b'/')

-- A request, and what `os.Create` and `io.Copy` answer if it comes to that: the error, and after how
-- many bytes an error ended the copy.
pub record Request : Type 0 where
  pub method : Bytes
  pub path : Bytes
  pub body : Bytes
  pub create_error : Option Bytes
  pub copy_error : Option ℕ

-- The body of a handler's answer, or that no route fits, which the router answers itself.
pub data Reply : Type 0 where
  served : Bytes → Reply
  unrouted : Reply

-- The fixed text of `health`
abbrev pub health_text : Bytes
health_text = codes "Hello, world!"

-- The handler with the variables of its route. `putSlug` writes no body.
unfoldable pub handle : Handler → Vars → Request → Files → Reply × Files
handle get_tar_handler vars req files = (served (get_tar files (var (codes "name") vars)), files)
handle get_slug_handler vars req files = (served (get_slug files (var (codes "name") vars)), files)
handle health_handler vars req files = (served health_text, files)
handle put_slug_handler vars req files =
    (served [], put_slug req.create_error req.copy_error files (var (codes "name") vars) req.body)

unfoldable pub dispatch : Option (Handler × Vars) → Request → Files → Reply × Files
dispatch none req files = (unrouted, files)
dispatch (some (handler, vars)) req files = handle handler vars req files

module _ (mux : Mux) where
  -- The requests in the order in which their handlers run.
  unfoldable pub serve_requests : List Request → Files → List Reply × Files
  serve_requests [] files = ([], files)
  serve_requests (req ∷ reqs) files =
      let (reply, files') = dispatch (mux routes req.method req.path) req files in
      let (replies, files'') = serve_requests reqs files' in (reply ∷ replies, files'')
