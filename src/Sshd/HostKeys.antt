-- ===== src/Sshd/HostKeys.antt =====
-- `ParseHostKeys` and `GenSSHKeys` of pkg/sshd/sshd.go. Parsing a private key is a parameter, none for
-- its error.
use sa_builder.Base.{
  Bytes, codes, List, [], ◌∷◌, ◌++◌, Bool, true, false, Option, none, some, M, ◌>>=◌, pure, call,
  guard_nil,
}
use sa_builder.System.{Call, Cmd, System, Answer, got, failed}

abbrev pub ssh_keygen : Cmd
ssh_keygen = record { args = codes "ssh-keygen" ∷ codes "-A" ∷ []; dir = []; env = [] }

-- The default template `/etc/ssh/ssh_host_%s_key`, since the route gives no parameters.
abbrev pub host_key_path : Bytes → Bytes
host_key_path key_type = codes "/etc/ssh/ssh_host_" ++ (key_type ++ codes "_key")

abbrev pub v1_key_path : Bytes
v1_key_path = codes "/etc/ssh/ssh_host_key"

abbrev pub default_key_types : List Bytes
default_key_types = codes "rsa" ∷ codes "dsa" ∷ codes "ecdsa" ∷ []

-- `append`, where there is a key
abbrev pub prepend : Option Bytes → List Bytes → List Bytes
prepend none keys = keys
prepend (some key) keys = key ∷ keys

module _ (sys : System) (parse_private_key : Bytes → Option Bytes) where
  unfoldable pub gen_ssh_keys : M Call (Unit {0})
  gen_ssh_keys = do
    e ← call (Call.run_cmd ssh_keygen) (λ h. System.run_cmd sys h ssh_keygen)
    guard_nil e (λ m. m)

  -- The key in a file, none if it cannot be read or parsed.
  abbrev pub parsed : Answer Bytes → Option Bytes
  parsed (failed e) = none
  parsed (got raw) = parse_private_key raw

  unfoldable pub read_host_key : Bytes → M Call (Option Bytes)
  read_host_key path = do
    raw ← call (Call.read_file path) (λ h. System.read_file sys h path)
    pure (parsed raw)

  -- The loop over the types; a key that fails is skipped.
  unfoldable pub read_host_keys : List Bytes → M Call (List Bytes)
  read_host_keys [] = pure []
  read_host_keys (key_type ∷ key_types) = do
    key ← read_host_key (host_key_path key_type)
    keys ← read_host_keys key_types
    pure (prepend key keys)

  unfoldable pub read_v1_key : Bool → M Call (Option Bytes)
  read_v1_key false = pure none
  read_v1_key true = read_host_key v1_key_path

  -- The flag is the context's `enableV1`.
  unfoldable pub parse_host_keys : Bool → M Call (List Bytes)
  parse_host_keys enable_v1 = do
    keys ← read_host_keys default_key_types
    v1 ← read_v1_key enable_v1
    pure (keys ++ prepend v1 [])
