-- ===== src/Conf.antt =====
-- `GetBuilderKey` of pkg/conf/config.go.
use sa_builder.Base.{Bytes, codes, ◌++◌, Outcome, ok, err, M, ◌>>=◌, call}
use sa_builder.System.{Call, System, Answer, got, failed}

abbrev pub builder_key_location : Bytes
builder_key_location = codes "/var/run/secrets/api/auth/builder-key"

abbrev pub key_or_error : Answer Bytes → Outcome Bytes
key_or_error (got key) = ok key
key_or_error (failed e) = err (
    codes "couldn't get builder key from "
    ++ (builder_key_location ++ (codes " (" ++ (e ++ codes ")"))))

unfoldable pub get_builder_key : System → M Call Bytes
get_builder_key sys = do
  key ←
      call (Call.read_file builder_key_location) (λ h. System.read_file sys h builder_key_location)
  λ h. (key_or_error key, h)
