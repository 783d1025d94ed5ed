-- ===== src/Gitreceive/Storage.antt =====
-- pkg/gitreceive/storage/slug_builder_info.go: where a build finds its source and leaves its slug.
pub mod Auth
pub mod Bucket
use sa_builder.Base.{Bytes, codes, ◌++◌, M, ◌>>=◌, pure, call}
use sa_builder.System.{Call, System}
use sa_builder.Gitreceive.Sha.{Sha}

pub record SlugBuilderInfo : Type 0 where
  pub push_key : Bytes
  pub push_url : Bytes
  pub tar_key : Bytes
  pub tar_url : Bytes
  pub slug_key : Bytes
  pub slug_url : Bytes

-- `"http://" + host + ":3000"`
unfoldable pub s3_endpoint : Bytes → Bytes
s3_endpoint host = codes "http://" ++ (host ++ codes ":3000")

-- `%s/git/%s`
unfoldable pub key_url : Bytes → Bytes → Bytes
key_url endpoint key = endpoint ++ (codes "/git/" ++ key)

-- `home/%s:git-%s/` with the part behind it
abbrev pub app_key : Bytes → Bytes → Bytes → Bytes
app_key app_name short part =
    codes "home/" ++ (app_name ++ (codes ":git-" ++ (short ++ (codes "/" ++ part))))

unfoldable pub slug_builder_info : Bytes → Bytes → Bytes → Sha → SlugBuilderInfo
unfolding s3_endpoint key_url
slug_builder_info host app_name slug_name sha =
    let endpoint = s3_endpoint host in
    let tar_key = codes "home/" ++ (slug_name ++ codes "/tar") in
    let push_key = app_key app_name sha.short (codes "push") in
    let slug_key = app_key app_name sha.short (codes "slug") in
    record {
      push_key = push_key;
      push_url = key_url endpoint push_key;
      tar_key = tar_key;
      tar_url = key_url endpoint tar_key;
      slug_key = slug_key;
      slug_url = key_url endpoint slug_key;
    }

unfoldable pub new_slug_builder_info : System → Bytes → Bytes → Sha → M Call SlugBuilderInfo
new_slug_builder_info sys app_name slug_name sha = do
  host ←
      call (Call.getenv (codes "DEIS_BUILDER_SERVICE_HOST"))
        (λ h. System.getenv sys h (codes "DEIS_BUILDER_SERVICE_HOST"))
  pure (slug_builder_info host app_name slug_name sha)
