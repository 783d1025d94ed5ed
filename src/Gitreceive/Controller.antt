-- ===== src/Gitreceive/Controller.antt =====
-- pkg/gitreceive/controller.go and constants.go: the requests of the hook to the controller. The JSON
-- encoding is a parameter, and a Go `map[string]string` is the list of its entries.
pub mod Exploit
pub mod Laws
use sa_builder.Base.{
  ℕ, Bytes, codes, List, [], ◌∷◌, ◌++◌, Bool, true, false, Option, none, some, Outcome, ok, err, M,
  ◌>>=◌, ◌>>◌, pure, fail, guard_nil, if◌then◌else◌,
}
use sa_builder.Base.Int.{ℤ, pos, eqb_ℤ}
use sa_builder.Strings.{join, replace_byte}
use sa_builder.Strings.Decimal.{decimal_ℤ}
use sa_builder.System.{Call, HttpRequest, Answer}
use sa_builder.Http.{Response, Client, or_error, send, closing_body}
use sa_builder.Types.{ConfigHook, BuildHook, BuildHookResponse, AppConfig}
use sa_builder.Gitreceive.Config.{Config, app}
use sa_builder.Gitreceive.Controller.Exploit.{potential_exploit}

abbrev pub content_type : Bytes
content_type = codes "application/json"

abbrev pub user_agent : Bytes
user_agent = codes "deis-builder"

-- `unexpectedControllerStatusCode` as its text
unfoldable pub unexpected_status : Bytes → ℤ → ℤ → Bytes
unexpected_status endpoint expected actual =
    codes "Deis controller endpoint "
    ++ (endpoint
        ++ (codes ": expected status code "
            ++ (decimal_ℤ expected ++ (codes ", got " ++ decimal_ℤ actual))))

unfoldable pub controller_url_str : Config → List Bytes → Bytes
controller_url_str conf additional_path =
    codes "http://"
    ++ (conf.workflow_host
        ++ (codes ":" ++ (conf.workflow_port ++ (codes "/" ++ join additional_path (codes "/")))))

-- The headers that `setReqHeaders` adds.
unfoldable pub req_headers : Bytes → List (Bytes × Bytes)
req_headers builder_key =
    (codes "Content-Type", content_type)
    ∷ (codes "Accept", content_type)
    ∷ (codes "User-Agent", user_agent)
    ∷ (codes "X-Deis-Builder-Auth", builder_key)
    ∷ []

-- A request to a hook with the headers.
abbrev pub hook_request : Bytes → Bytes → Bytes → HttpRequest
hook_request builder_key url body = record {
  method = codes "POST";
  url = url;
  headers = req_headers builder_key;
  body = body;
}

-- `if res.StatusCode != expected`
unfoldable pub check_status_code : Bytes → ℤ → Response → M Call (Unit {0})
check_status_code url expected res =
    if eqb_ℤ res.status expected then pure tt else fail (unexpected_status url expected res.status)

-- The library of JSON, for the values that the code encodes and decodes.
pub record Json (Any Time : Type 0) : Type 0 where
  pub encode_config_hook : ConfigHook → Answer Bytes
  pub encode_build_hook : BuildHook → Answer Bytes
  pub encode_entries : List (Bytes × Bytes) → Answer Bytes
  pub decode_config : Bytes → Answer (AppConfig Any Time)
  pub decode_build_response : Bytes → Answer BuildHookResponse

-- The entries that `receive` sends.
unfoldable pub push_entries : Config → Bytes → List (Bytes × Bytes)
push_entries conf git_sha =
    (codes "receive_user", conf.username)
    ∷ (codes "receive_repo", app conf)
    ∷ (codes "sha", git_sha)
    ∷ (codes "fingerprint", conf.fingerprint)
    ∷ (codes "ssh_connection", conf.ssh_connection)
    ∷ (codes "ssh_original_command", conf.ssh_original_command)
    ∷ []

abbrev pub shellshock : Bytes
shellshock = codes "an environment variable in the app is trying to exploit Shellshock"

unfoldable pub exploit_error : Bytes → Option Bytes
exploit_error post_body = if potential_exploit post_body then some shellshock else none

abbrev pub hook_path : Bytes → List Bytes
hook_path name = codes "v2" ∷ codes "hooks" ∷ name ∷ []

module _ {Any Time : Type 0} (client : Client) (json : Json Any Time) where
  unfoldable pub get_app_config : Config → Bytes → Bytes → Bytes → M Call (AppConfig Any Time)
  get_app_config conf builder_key user_name app_name = do
    let url = controller_url_str conf (hook_path (codes "config"))
    data' ←
        or_error
          (json.encode_config_hook (record { receive_user = user_name; receive_repo = app_name }))
    guard_nil (client.refuses (codes "POST") url) (λ m. m)
    res ← send client (hook_request builder_key url data')
    closing_body (do check_status_code url (pos 200) res; or_error (json.decode_config res.body))

  unfoldable pub publish_release : Config → Bytes → BuildHook → M Call BuildHookResponse
  publish_release conf builder_key build_hook = do
    b ← or_error (json.encode_build_hook build_hook)
    let post_body = replace_byte b b'\'' []
    guard_nil (exploit_error post_body) (λ m. m)
    let url = controller_url_str conf (hook_path (codes "build"))
    guard_nil (client.refuses (codes "POST") url) (λ m. m)
    res ← send client (hook_request builder_key url post_body)
    closing_body
        (do check_status_code url (pos 200) res; or_error (json.decode_build_response res.body))

  unfoldable pub receive : Config → Bytes → Bytes → M Call (Unit {0})
  receive conf builder_key git_sha = do
    let url = controller_url_str conf (hook_path (codes "push"))
    body ← or_error (json.encode_entries (push_entries conf git_sha))
    guard_nil (client.refuses (codes "POST") url) (λ m. m)
    res ← send client (hook_request builder_key url body)
    closing_body (do check_status_code url (pos 201) res; pure tt)
