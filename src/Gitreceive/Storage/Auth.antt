-- ===== src/Gitreceive/Storage/Auth.antt =====
-- auth.go, endpoint.go and client.go of pkg/gitreceive/storage: how the client of the object storage is
-- set up. The library of AWS is a parameter.
pub mod Laws
use sa_builder.Base.{
  Bytes, codes, List, [], ◌∷◌, ◌++◌, Bool, true, false, not, ◌&&◌, Outcome, ok, err, panic, M,
  ◌>>=◌, ◌>>◌, pure, fail, call, eqb, if◌then◌else◌,
}
use sa_builder.Strings.Trim.{trim_space}
use sa_builder.System.{Call, System, Answer, got, failed}
use sa_builder.Cookoo.{attempt}

abbrev pub access_key_id_file : Bytes
access_key_id_file = codes "/var/run/secrets/object/store/access-key-id"

abbrev pub access_secret_key_file : Bytes
access_secret_key_file = codes "/var/run/secrets/object/store/access-secret-key"

abbrev pub err_missing_key : Bytes
err_missing_key = codes "missing " ++ access_key_id_file

abbrev pub err_missing_secret : Bytes
err_missing_secret = codes "missing " ++ access_secret_key_file

-- `credentials.Value`, what the code reads of it
pub record Keys : Type 0 where
  pub access_key_id : Bytes
  pub secret_access_key : Bytes

-- What the code uses of the package `credentials`: the anonymous ones, those of two texts and a session
-- token, and the keys that `Get` returns, with its error or without.
pub record Aws : Type 1 where
  pub Credentials : Type 0
  pub anonymous : Credentials
  pub static : Bytes → Bytes → Bytes → Credentials
  pub keys : Credentials → Keys

-- `os.Getenv`, and whether it is set to a text
abbrev pub getenv : System → Bytes → M Call Bytes
getenv sys key = call (Call.getenv key) (λ h. System.getenv sys h key)

abbrev pub is_empty : Bytes → Bool
is_empty [] = true
is_empty (c ∷ s) = false

abbrev pub minio_host_env_var : Bytes
minio_host_env_var = codes "DEIS_MINIO_SERVICE_HOST"

abbrev pub minio_port_env_var : Bytes
minio_port_env_var = codes "DEIS_MINIO_SERVICE_PORT"

abbrev pub outside_storage_host_env_var : Bytes
outside_storage_host_env_var = codes "DEIS_OUTSIDE_STORAGE_HOST"

abbrev pub outside_storage_port_env_var : Bytes
outside_storage_port_env_var = codes "DEIS_OUTSIDE_STORAGE_PORT"

abbrev pub err_no_storage_config : Bytes
err_no_storage_config =
    codes
      "no storage config variables found (DEIS_MINIO_SERVICE_HOST:DEIS_MINIO_SERVICE_PORT or DEIS_OUTSIDE_STORAGE_HOST:DEIS_OUTSIDE_STORAGE_PORT)"

-- `%s://%s:%s`
abbrev pub storage_url : Bytes → Bytes → Bytes → Bytes
storage_url scheme host port = scheme ++ (codes "://" ++ (host ++ (codes ":" ++ port)))

-- The endpoint from the four variables.
unfoldable pub endpoint_of : Bytes → Bytes → Bytes → Bytes → Outcome Bytes
endpoint_of m_host m_port o_host o_port =
    if not (is_empty m_host) && not (is_empty m_port)
    then ok (storage_url (codes "http") m_host m_port)
    else if not (is_empty o_host) && not (is_empty o_port)
    then ok (storage_url (codes "https") o_host o_port)
    else err err_no_storage_config

unfoldable pub get_endpoint : System → M Call Bytes
get_endpoint sys = do
  m_host ← getenv sys minio_host_env_var
  m_port ← getenv sys minio_port_env_var
  o_host ← getenv sys outside_storage_host_env_var
  o_port ← getenv sys outside_storage_port_env_var
  λ h. (endpoint_of m_host m_port o_host o_port, h)

-- `aws.Config`, what the code sets of it
pub record AwsConfig (Credentials : Type 0) : Type 0 where
  pub credentials : Credentials
  pub region : Bytes
  pub endpoint : Bytes
  pub s3_force_path_style : Bool

-- Whether one of the keys is a text.
abbrev pub usable : Keys → Bool
usable auth = not (is_empty auth.access_key_id && is_empty auth.secret_access_key)

-- `is_not_exist` says of an error whether it is the value `os.ErrNotExist` itself.
module _ (sys : System) (is_not_exist : Bytes → Bool) (aws : Aws) where
  open aws use {Credentials, anonymous, static, keys}

  -- The credentials from what the two reads gave; the bytes beside an error are none.
  unfoldable pub auth_of : Answer Bytes → Answer Bytes → Outcome Credentials
  auth_of (got id) (got secret) = ok (static (trim_space id) (trim_space secret) [])
  auth_of (failed e) (got secret) = err err_missing_key
  auth_of (got id) (failed e) = err err_missing_secret
  auth_of (failed e) (failed e') =
      if is_not_exist e && is_not_exist e'
      then ok anonymous
      else ok (static (trim_space []) (trim_space []) [])

  unfoldable pub get_auth : M Call Credentials
  get_auth = do
    id ← call (Call.read_file access_key_id_file) (λ h. System.read_file sys h access_key_id_file)
    secret ←
        call (Call.read_file access_secret_key_file)
          (λ h. System.read_file sys h access_secret_key_file)
    λ h. (auth_of id secret, h)

  unfoldable pub creds_ok : M Call Bool
  creds_ok = do
    cred ← attempt get_auth
    elim cred [ failed e ↦ pure false | got c ↦ pure (usable (keys c)) ]

  -- `s3.New` keeps what it is given.
  unfoldable pub get_client : Bytes → M Call (AwsConfig Credentials)
  get_client region_str = do
    auth ← get_auth
    endpoint ← get_endpoint sys
    pure (record {
      credentials = auth;
      region = region_str;
      endpoint = endpoint;
      s3_force_path_style = true;
    })
