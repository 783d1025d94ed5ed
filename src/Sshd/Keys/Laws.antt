-- ===== src/Sshd/Keys/Laws.antt =====
-- Who is let in, and when the server panics.
use sa_builder.Base.{
  ◌≡◌, refl, Bytes, [], ◌∷◌, true, false, Option, none, some, ok, panic, eqb_iff, length, arith,
}
use mathlib.Core.List.{map}
use sa_builder.Strings.{join}
use sa_builder.System.{History, System}
use sa_builder.Sshd.Fingerprint.{colon}
use sa_builder.Sshd.Fingerprint.Laws.{hex_pair, colon_notation_of_md5}
use sa_builder.Sshd.Keys.{
  PublicKey, Crypto, builder_permissions, compare_keys, key_fingerprint, allowed_key_path, content,
  fingerprint, auth_key,
}

compare_keys_same : (a : PublicKey) → compare_keys a (some a) ≡ ok true
unfolding compare_keys
compare_keys_same a = ground (arith, eqb_iff a.key_type a.key_type, eqb_iff a.marshal a.marshal)

compare_keys_other : (a b : PublicKey) → ¬ (a ≡ b) → compare_keys a (some b) ≡ ok false
unfolding compare_keys
compare_keys_other a b h =
    ground (arith, eqb_iff a.key_type b.key_type, eqb_iff a.marshal b.marshal)

module _ (sys : System) (crypto : Crypto) where
  -- The key that the server compares with at `h`, none if the file or the key in it is bad.
  abbrev pub stored : History → Option PublicKey
  stored h = crypto.parse_authorized_key (content (System.read_file sys h allowed_key_path))

  -- `AuthKey` gives the builder's permissions exactly to the key in the file, and to every other
  -- key it returns neither permissions nor an error; without a key in the file it panics.
  pub auth_key_lem :
      (key : PublicKey) (h : History)
      → ((stored h ≡ some key) → (auth_key sys crypto key h).0 ≡ ok (some builder_permissions))
        × ((b : PublicKey)
            → stored h ≡ some b
            → ¬ (key ≡ b)
            → (auth_key sys crypto key h).0 ≡ ok none)
        × (stored h ≡ none → (auth_key sys crypto key h).0 ≡ panic)
  unfolding auth_key
  auth_key_lem key h = (
    (λ e. rw e (rw (compare_keys_same key))),
    (λ b e other. rw e (rw (compare_keys_other key b other))),
    (λ e. rw e (unfold compare_keys in refl)),
  )

  -- With a key in the file, `Fingerprint` returns the sixteen pairs of digits of the key's MD5 hash
  -- with colons between them, if `md5.Sum` gives 16 bytes.
  pub fingerprint_lem :
      ((s : Bytes) → length (crypto.md5_sum s) ≡ 16)
      → (key : PublicKey) (h : History) → stored h ≡ some key
      → (fingerprint sys crypto h).0
        ≡ ok (join (map hex_pair (crypto.md5_sum key.marshal)) (colon ∷ []))
  unfolding fingerprint key_fingerprint
  fingerprint_lem md5 key h e = rw e (
      rw
        ((colon_notation_of_md5 (crypto.md5_sum key.marshal) (md5 key.marshal)).0, key_fingerprint))
