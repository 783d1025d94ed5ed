-- ===== src/Sshd/Keys.antt =====
-- The keys of pkg/sshd/sshd.go: `Fingerprint`, `compareKeys` and `AuthKey`. Parsing a key and
-- `md5.Sum` are parameters. What the functions print is left out.
pub mod Laws
use sa_builder.Base.{
  Bytes, codes, List, [], ◌∷◌, Bool, true, false, Option, none, some, Outcome, ok, err, panic, M,
  ◌>>=◌, pure, crash, call, eqb, if◌then◌else◌,
}
use sa_builder.System.{Call, System, Answer, got, failed}
use sa_builder.Sshd.Fingerprint.{colon_notation}

-- `ssh.PublicKey`: its `Type()` and its `Marshal()`
pub record PublicKey : Type 0 where
  pub key_type : Bytes
  pub marshal : Bytes

-- `ssh.ParseAuthorizedKey`, none for its error, and `md5.Sum`
pub record Crypto : Type 0 where
  pub parse_authorized_key : Bytes → Option PublicKey
  pub md5_sum : Bytes → Bytes

-- `ssh.Permissions`, of which the code sets the extensions
pub record Permissions : Type 0 where
  pub extensions : List (Bytes × Bytes)

abbrev pub builder_permissions : Permissions
builder_permissions = record { extensions = (codes "user", codes "builder") ∷ [] }

abbrev pub allowed_key_path : Bytes
allowed_key_path = codes "/etc/deistest.pub"

-- The error of `ioutil.ReadFile` is dropped.
abbrev pub content : Answer Bytes → Bytes
content (got text) = text
content (failed e) = []

-- A key that did not parse is a nil interface, and calling its method panics.
unfoldable pub compare_keys : PublicKey → Option PublicKey → Outcome Bool
compare_keys a none = panic
compare_keys a (some b) =
    if eqb a.key_type b.key_type then ok (eqb a.marshal b.marshal) else ok false

unfoldable pub key_fingerprint : Crypto → Option PublicKey → Outcome Bytes
key_fingerprint crypto none = panic
key_fingerprint crypto (some key) = elim (colon_notation (crypto.md5_sum key.marshal)) [
  | none ↦ panic
  | some fp ↦ ok fp
]

module _ (sys : System) (crypto : Crypto) where
  -- `ioutil.ReadFile` and `ssh.ParseAuthorizedKey`
  unfoldable pub allowed_key : M Call (Option PublicKey)
  allowed_key = do
    raw ← call (Call.read_file allowed_key_path) (λ h. System.read_file sys h allowed_key_path)
    pure (crypto.parse_authorized_key (content raw))

  unfoldable pub fingerprint : M Call Bytes
  unfolding allowed_key
  fingerprint = do key ← allowed_key; λ h. (key_fingerprint crypto key, h)

  -- No permissions are the result `nil, nil`.
  unfoldable pub auth_key : PublicKey → M Call (Option Permissions)
  unfolding allowed_key
  auth_key key = do
    allowed ← allowed_key
    same ← λ h. (compare_keys key allowed, h)
    pure (if same then some builder_permissions else none)
