-- ===== src/Tests/Storage.antt =====
-- The theorems on the object storage, at concrete inputs.
use sa_builder.Base.{
  ◌≡◌, ◌≢◌, ◌↔◌, refl, ◌⊎◌, inl, inr, Bytes, codes, [], ◌∷◌, Bool, true, false, ok,
}
use sa_builder.Strings.Trim.{trim_space}
use sa_builder.Gitreceive.Storage.Auth.{Keys, Aws, creds_ok}
use sa_builder.Gitreceive.Storage.Auth.Laws.{
  no_keys, IsAws, HoldsText, id_read, secret_read, files_read, creds_ok_lem,
}
use sa_builder.Tests.{linux}

trimmed :
    trim_space (9 ∷ 32 ∷ 0xc2 ∷ 0xa0 ∷ b'a' ∷ 32 ∷ b'b' ∷ 0xe3 ∷ 0x80 ∷ 0x80 ∷ 10 ∷ [])
    ≡ codes "a b"
unfolding trim_space
trimmed = refl

-- Both texts, if there are both.
abbrev both : Bytes → Bytes → Keys
both [] secret = no_keys
both (c ∷ id) [] = no_keys
both (c ∷ id) (d ∷ secret) = record { access_key_id = c ∷ id; secret_access_key = d ∷ secret }

both_keys :
    (id secret : Bytes)
    → id ≢ []
    → secret ≢ []
    → both id secret ≡ record { access_key_id = id; secret_access_key = secret }
both_keys [] secret p q = absurd (p refl)
both_keys (c ∷ id) [] p q = absurd (q refl)
both_keys (c ∷ id) (d ∷ secret) p q = refl

both_empty : (id secret : Bytes) → (id ≡ []) ⊎ (secret ≡ []) → both id secret ≡ no_keys
both_empty [] secret p = refl
both_empty (c ∷ id) [] p = refl
both_empty (c ∷ id) (d ∷ secret) (inl p) = cc
both_empty (c ∷ id) (d ∷ secret) (inr p) = cc

abbrev plain_aws : Aws
plain_aws = record {
  Credentials = Keys;
  anonymous = no_keys;
  static = λ id secret token. both id secret;
  keys = λ c. c;
}

plain_aws-IsAws : IsAws plain_aws
plain_aws-IsAws = record {
  keys-anonymous = refl;
  keys-static = λ id secret token. both_keys id secret;
  keys-static_empty = λ id secret token. both_empty id secret;
}

creds_ok_lem_example :
    (b : Bool) × (creds_ok linux (λ e. false) plain_aws [] ≡ (ok b, files_read []))
    × ((b ≡ true) ↔ (HoldsText (id_read linux []) × HoldsText (secret_read linux [])))
creds_ok_lem_example = creds_ok_lem linux (λ e. false) plain_aws plain_aws-IsAws []
