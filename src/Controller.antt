-- ===== src/Controller.antt =====
-- pkg/controller/utils.go: the user of a key, as the controller knows it. The file takes `GetBuilderKey`
-- from another repository, so it is a parameter; Conf models the function of that name in pkg/conf.
pub mod Laws
use sa_builder.Base.{
  ℕ, Bytes, codes, List, [], ◌∷◌, ◌++◌, Bool, true, false, Option, none, some, Outcome, ok, err,
  panic, M, ◌>>=◌, ◌>>◌, pure, fail, call, guard_nil, if◌then◌else◌,
}
use sa_builder.Base.Int.{ℤ, pos, eqb_ℤ}
use sa_builder.Strings.{join}
use sa_builder.System.{Call, HttpRequest, System, Answer, got, failed}
use sa_builder.Http.{Response, Client, or_error, send, closing_body}
use sa_builder.Sshd.Fingerprint.{colon_notation}
use sa_builder.Sshd.Keys.{PublicKey, Crypto}

abbrev pub host_env_name : Bytes
host_env_name = codes "DEIS_WORKFLOW_SERVICE_HOST"

abbrev pub port_env_name : Bytes
port_env_name = codes "DEIS_WORKFLOW_SERVICE_PORT"

pub record UserInfo : Type 0 where
  pub username : Bytes
  pub key : Bytes
  pub fingerprint : Bytes
  pub apps : List Bytes

abbrev pub missing_env : Bytes → Bytes
missing_env name = codes "missing required '" ++ (name ++ codes "' environment variable")

-- The address from the host and the port, each an error where it is empty.
unfoldable pub url_of : Bytes → Bytes → List Bytes → Outcome Bytes
url_of [] port additional_path = err (missing_env host_env_name)
url_of (c ∷ host) [] additional_path = err (missing_env port_env_name)
url_of (c ∷ host) (d ∷ port) additional_path = ok (
    codes "http://"
    ++ ((c ∷ host)
        ++ (codes ":" ++ ((d ∷ port) ++ (codes "/" ++ join additional_path (codes "/"))))))

-- `fingerprint`, which stands here a second time.
unfoldable pub key_fingerprint : Crypto → PublicKey → Outcome Bytes
key_fingerprint crypto key = elim (colon_notation (crypto.md5_sum key.marshal)) [
  | none ↦ panic
  | some fp ↦ ok fp
]

abbrev pub key_path : Bytes → List Bytes
key_path fp = codes "v2" ∷ codes "hooks" ∷ codes "key" ∷ fp ∷ []

abbrev pub key_request : Bytes → Bytes → HttpRequest
key_request url builder_key = record {
  method = codes "GET";
  url = url;
  headers =
      (codes "Content-Type", codes "application/json")
      ∷ (codes "Accept", codes "application/json")
      ∷ (codes "User-Agent", codes "deis-builder")
      ∷ (codes "X-Deis-Builder-Auth", builder_key)
      ∷ [];
  body = [];
}

abbrev pub no_permissions_text : Bytes
no_permissions_text = codes "user has no permissions to push in application"

abbrev pub lift : {A : Type 0} → Outcome A → M Call A
lift r h = (r, h)

unfoldable pub check_ok : Response → M Call (Unit {0})
check_ok res = if eqb_ℤ res.status (pos 200) then pure tt else fail no_permissions_text

-- What is decoded, with the fingerprint.
unfoldable pub read_user : (Bytes → Answer UserInfo) → Bytes → Response → M Call UserInfo
read_user decode fp res = do
  ret ← or_error (decode res.body)
  pure (record ret { fingerprint = fp })

module _ (sys : System) where
  unfoldable pub controller_url_str : List Bytes → M Call Bytes
  controller_url_str additional_path = do
    host ← call (Call.getenv host_env_name) (λ h. System.getenv sys h host_env_name)
    port ← call (Call.getenv port_env_name) (λ h. System.getenv sys h port_env_name)
    lift (url_of host port additional_path)

  unfoldable pub user_info_from_key :
      Crypto → Client → M Call Bytes → (Bytes → Answer UserInfo) → PublicKey → M Call UserInfo
  user_info_from_key crypto client get_builder_key decode key = do
    fp ← lift (key_fingerprint crypto key)
    url ← controller_url_str (key_path fp)
    guard_nil (client.refuses (codes "GET") url) (λ m. m)
    builder_key ← get_builder_key
    res ← send client (key_request url builder_key)
    closing_body (do check_ok res; read_user decode fp res)
