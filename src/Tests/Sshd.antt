-- ===== src/Tests/Sshd.antt =====
-- The theorems on the keys, at concrete inputs.
use mathlib.Core.List.{map}
use sa_builder.Base.{◌≡◌, refl, codes, [], ◌∷◌, none, some, ok, panic, length}
use sa_builder.Strings.{join}
use sa_builder.Sshd.Fingerprint.{colon, colon_notation}
use sa_builder.Sshd.Fingerprint.Laws.{hex_pair, colon_notation_of_md5}
use sa_builder.Sshd.Keys.{PublicKey, builder_permissions, auth_key}
use sa_builder.Sshd.Keys.Laws.{stored, auth_key_lem}
use sa_builder.Tests.{linux, one_key, alice}

colon_notation_of_md5_example :
    (colon_notation (codes "0123456789abcdef")
      ≡ some (join (map hex_pair (codes "0123456789abcdef")) (colon ∷ [])))
    × (length (join (map hex_pair (codes "0123456789abcdef")) (colon ∷ [])) ≡ 47)
colon_notation_of_md5_example = colon_notation_of_md5 (codes "0123456789abcdef") refl

auth_key_lem_example :
    ((stored linux one_key [] ≡ some alice)
      → (auth_key linux one_key alice []).0 ≡ ok (some builder_permissions))
    × ((b : PublicKey)
        → stored linux one_key [] ≡ some b
        → ¬ (alice ≡ b)
        → (auth_key linux one_key alice []).0 ≡ ok none)
    × (stored linux one_key [] ≡ none → (auth_key linux one_key alice []).0 ≡ panic)
auth_key_lem_example = auth_key_lem linux one_key alice []
