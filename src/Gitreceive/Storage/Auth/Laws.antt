-- ===== src/Gitreceive/Storage/Auth/Laws.antt =====
-- When the credentials of the object storage are usable.
use sa_builder.Base.{
  ◌≡◌, ◌≢◌, ◌↔◌, refl, sym, ap, ◌∙◌, ◌⊎◌, inl, inr, Bytes, [], ◌∷◌, Bool, true, false, Outcome, ok,
  err, panic, ◌>>=◌, pure, arith, if◌then◌else◌, ◌&&◌,
}
use sa_builder.Strings.Trim.{trim_space}
use sa_builder.System.{Call, History, System, Answer, got, failed}
use sa_builder.Cookoo.{attempt}
use sa_builder.Gitreceive.Storage.Auth.{
  Keys, Aws, access_key_id_file, access_secret_key_file, auth_of, get_auth, creds_ok, usable,
}

abbrev pub no_keys : Keys
no_keys = record { access_key_id = []; secret_access_key = [] }

-- What is documented of the package `credentials`.
pub record IsAws (aws : Aws) : Type 0 where
  pub keys-anonymous : aws.keys aws.anonymous ≡ no_keys
  pub keys-static :
      (id secret token : Bytes)
      → id ≢ []
      → secret ≢ []
      → aws.keys (aws.static id secret token)
        ≡ record { access_key_id = id; secret_access_key = secret }
  pub keys-static_empty :
      (id secret token : Bytes)
      → (id ≡ []) ⊎ (secret ≡ [])
      → aws.keys (aws.static id secret token) ≡ no_keys

-- A file that can be read, and holds more than white space.
abbrev pub HoldsText : Answer Bytes → Type 0
HoldsText a = (raw : Bytes) × (a ≡ got raw) × (trim_space raw ≢ [])

-- The two reads.
abbrev pub id_read : System → History → Answer Bytes
id_read sys h = System.read_file sys h access_key_id_file

abbrev pub secret_read : System → History → Answer Bytes
secret_read sys h =
    System.read_file sys (Call.read_file access_key_id_file ∷ h) access_secret_key_file

abbrev pub files_read : History → History
files_read h = Call.read_file access_secret_key_file ∷ Call.read_file access_key_id_file ∷ h

empty_cases : (s : Bytes) → (s ≡ []) ⊎ (s ≢ [])
empty_cases [] = inl refl
empty_cases (c ∷ s) = inr (cc)

usable_texts :
    (id secret : Bytes)
    → id ≢ []
    → secret ≢ []
    → usable (record { access_key_id = id; secret_access_key = secret }) ≡ true
usable_texts [] secret p q = absurd (p refl)
usable_texts (c ∷ id) secret p q = refl

module _ (sys : System) (is_not_exist : Bytes → Bool) (aws : Aws) (law : IsAws aws) where
  verdict : Outcome aws.Credentials → Bool
  verdict (ok c) = usable (aws.keys c)
  verdict (err e) = false
  verdict panic = false

  texts_usable :
      (id secret : Bytes)
      → (usable (aws.keys (aws.static id secret [])) ≡ true) ↔ ((id ≢ []) × (secret ≢ []))
  texts_usable id secret = elim (empty_cases id) [
    | inl e ↦ (
      (λ p. cc (ap usable (law.keys-static_empty id secret [] (inl e)), p)),
      (λ p. absurd (p.0 e)),
    )
    | inr p ↦ elim (empty_cases secret) [
      | inl e ↦ (
        (λ q. cc (ap usable (law.keys-static_empty id secret [] (inr e)), q)),
        (λ q. absurd (q.1 e)),
      )
      | inr q ↦ (
        (λ t. (p, q)),
        (λ t. ap usable (law.keys-static id secret [] p q) ∙ usable_texts id secret p q),
      )
    ]
  ]

  none_usable : usable (aws.keys aws.anonymous) ≡ false
  none_usable = ap usable law.keys-anonymous

  blank_usable : (s : Bytes) → usable (aws.keys (aws.static [] s [])) ≡ false
  blank_usable s = ap usable (law.keys-static_empty [] s [] (inl refl))

  -- The text of a file that was read.
  holds_text : (raw : Bytes) → HoldsText (got raw) → trim_space raw ≢ []
  holds_text raw (raw', e, p) = λ q. p (ap trim_space (sym (got_injective e)) ∙ q)
    where
      content : Answer Bytes → Bytes
      content (got s) = s
      content (failed s) = s

      got_injective : {a b : Bytes} → ◌≡◌ {A = Answer Bytes} (got a) (got b) → a ≡ b
      got_injective e = ap content e

  neither_usable :
      (b : Bool)
      → verdict (if b then ok aws.anonymous else ok (aws.static (trim_space []) (trim_space []) []))
        ≡ false
  unfolding verdict trim_space
  neither_usable true = none_usable
  neither_usable false = blank_usable []

  auth_of-usable :
      (a b : Answer Bytes)
      → (verdict (auth_of sys is_not_exist aws a b) ≡ true) ↔ (HoldsText a × HoldsText b)
  unfolding verdict auth_of
  auth_of-usable (got id) (got secret) = (
    (λ p.
        let (q, r) = (texts_usable (trim_space id) (trim_space secret)).0 p in
        ((id, refl, q), (secret, refl, r))),
    (λ p.
        (texts_usable (trim_space id) (trim_space secret)).1
          (holds_text id p.0, holds_text secret p.1)),
  )
  auth_of-usable (failed e) (got secret) = ((λ p. cc), (λ p. cc (p.0.1)))
  auth_of-usable (got id) (failed e) = ((λ p. cc), (λ p. cc (p.1.1)))
  auth_of-usable (failed e) (failed e') =
      ((λ p. cc (p, neither_usable (is_not_exist e && is_not_exist e'))), (λ p. cc (p.0.1)))

  abbrev asked : Outcome aws.Credentials → History → Outcome Bool × History
  asked r h =
      (do
        cred ← attempt (λ (h : History). (r, h))
        elim cred [ failed e ↦ pure false | got c ↦ pure (usable (aws.keys c)) ])
        h

  asked_lem :
      (r : Outcome aws.Credentials) (h : History) → r ≢ panic → asked r h ≡ (ok (verdict r), h)
  unfolding verdict
  asked_lem (ok c) h p = refl
  asked_lem (err e) h p = refl
  asked_lem panic h p = absurd (p refl)

  auth_of-ne-panic : (a b : Answer Bytes) → auth_of sys is_not_exist aws a b ≢ panic
  unfolding auth_of
  auth_of-ne-panic (got id) (got secret) = cc
  auth_of-ne-panic (failed e) (got secret) = cc
  auth_of-ne-panic (got id) (failed e) = cc
  auth_of-ne-panic (failed e) (failed e') = ground arith

  -- `CredsOK` reads both files once and never stops with an error. It says yes exactly if both can be
  -- read and each holds more than white space.
  pub creds_ok_lem :
      (h : History)
      → (b : Bool) × (creds_ok sys is_not_exist aws h ≡ (ok b, files_read h))
        × ((b ≡ true) ↔ (HoldsText (id_read sys h) × HoldsText (secret_read sys h)))
  unfolding creds_ok get_auth
  creds_ok_lem h =
      let a = id_read sys h in
      let b = secret_read sys h in
      let r = auth_of sys is_not_exist aws a b in
      (verdict r, asked_lem r (files_read h) (auth_of-ne-panic a b), auth_of-usable a b)

  -- If both files are missing, `getAuth` returns the credentials of two empty texts, and not the
  -- anonymous ones, if the error of a read is never `os.ErrNotExist` itself.
  pub get_auth_missing :
      (h : History) {e e' : Bytes}
      → ((e : Bytes) → is_not_exist e ≡ false)
      → id_read sys h ≡ failed e
      → secret_read sys h ≡ failed e'
      → get_auth sys is_not_exist aws h ≡ (ok (aws.static [] [] []), files_read h)
  unfolding get_auth auth_of trim_space
  get_auth_missing h {e} wrapped p q = rw (p, q, auth_of, wrapped e) refl
