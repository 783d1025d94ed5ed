-- ===== src/Gitreceive/Storage/Bucket.antt =====
-- bucket.go and object.go of pkg/gitreceive/storage: buckets and objects of the object storage, whose
-- answers are a parameter.
use sa_builder.Base.{
  Bytes, codes, Bool, true, false, Option, none, some, M, ◌>>=◌, pure, fail, call, eqb,
  if◌then◌else◌,
}
use sa_builder.System.{Call, History}

-- An error that is an `awserr.Error` has a code.
pub data S3Error : Type 0 where
  coded : Bytes → Bytes → S3Error
  plain : Bytes → S3Error

abbrev pub error_text : S3Error → Bytes
error_text (coded code text) = text
error_text (plain text) = text

-- The client: the error of each call, if any.
pub record S3 : Type 0 where
  pub head_bucket : History → Bytes → Option S3Error
  pub create_bucket : History → Bytes → Option S3Error
  pub put_object : History → Bytes → Bytes → Bytes → Option S3Error

abbrev pub acl_public_read : Bytes
acl_public_read = codes "public-read"

-- The code of an error, if it has one.
abbrev pub has_code : Bytes → S3Error → Bool
has_code code (coded c text) = eqb c code
has_code code (plain text) = false

-- `return a` for an error with the code, and the error for any other.
abbrev pub unless_code : {A : Type 0} → Bytes → A → A → Option S3Error → M Call A
unless_code code a b none = pure a
unless_code code a b (some e) = if has_code code e then pure b else fail (error_text e)

module _ (svc : S3) where
  unfoldable pub bucket_exists : Bytes → M Call Bool
  bucket_exists bucket_name = do
    e ← call (Call.head_bucket bucket_name) (λ h. S3.head_bucket svc h bucket_name)
    unless_code (codes "404") true false e

  unfoldable pub create_bucket : Bytes → M Call (Unit {0})
  create_bucket bucket_name = do
    e ←
        call (Call.create_bucket bucket_name acl_public_read)
          (λ h. S3.create_bucket svc h bucket_name)
    unless_code (codes "409") tt tt e

  abbrev pub or_fail : {A : Type 0} → A → Option S3Error → M Call A
  or_fail a none = pure a
  or_fail a (some e) = fail (error_text e)

  unfoldable pub object_exists : Bytes → Bytes → M Call Bool
  object_exists bucket obj_name = do
    e ← call (Call.head_bucket bucket) (λ h. S3.head_bucket svc h bucket)
    or_fail true e

  unfoldable pub upload_object : Bytes → Bytes → Bytes → M Call (Unit {0})
  upload_object bucket_name obj_key content = do
    e ←
        call (Call.put_object bucket_name obj_key content acl_public_read)
          (λ h. S3.put_object svc h bucket_name obj_key content)
    or_fail tt e
