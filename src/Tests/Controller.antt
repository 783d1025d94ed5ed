-- ===== src/Tests/Controller.antt =====
-- The theorems on the requests to the controller, at concrete inputs.
use sa_builder.Base.{◌⊎◌, ◌↔◌, ◌≡◌, refl, Bytes, codes, [], ◌∷◌, true, false, none, ok}
use sa_builder.Base.Int.{pos}
use sa_builder.Strings.{replace_byte, join, strip_prefix}
use sa_builder.System.{Call, System, Answer, got}
use sa_builder.Http.{Client}
use sa_builder.Http.Laws.{outcome}
use sa_builder.Types.{BuildHook, AppConfig}
use sa_builder.Gitreceive.Controller.{Json, get_app_config, publish_release, receive}
use sa_builder.Gitreceive.Controller.Exploit.{
  potential_exploit, exploit_at, behind_spaces, behind_block, behind_brace, skip_spaces, is_space,
}
use sa_builder.Gitreceive.Controller.Exploit.Laws.{IsMatch, potential_exploit_lem}
use sa_builder.Gitreceive.Controller.Laws.{
  Posts, hook_url, post, Never, Always, IsExploit, IsSent, hooks-Posts,
}
use sa_builder.Sshd.Fingerprint.{
  store, hex_digit, hex_encode, make_bytes, put_digit, colon_loop, colon_notation,
}
use sa_builder.Controller.{UserInfo, url_of, key_path, key_fingerprint, user_info_from_key}
use sa_builder.Controller.Laws.{asked, NotAsked, Asks, user_info_from_key_lem}
use sa_builder.Conf.{get_builder_key, builder_key_location}
use sa_builder.Tests.{linux, settings, digits, alice, one_key}

-- A controller that answers everything well.
abbrev calm : Client
calm = record {
  refuses = λ method url. none;
  answers = λ h req. got (record { status = pos 200; body = codes "{}" });
}

abbrev blank : AppConfig (Unit {0}) (Unit {0})
blank = record {
  owner = codes "alice";
  app = codes "my.app";
  values = [];
  memory = [];
  cpu = [];
  tags = [];
  uuid = codes "0f1e";
  created = tt;
  updated = tt;
}

-- The codec writes a quote, and reads every body as the same value.
abbrev plain_json : Json (Unit {0}) (Unit {0})
plain_json = record {
  encode_config_hook = λ hook. got hook.receive_repo;
  encode_build_hook = λ hook. got (b'\'' ∷ hook.sha);
  encode_entries = λ entries. got (codes "{}");
  decode_config = λ body. got blank;
  decode_build_response = λ body. got (record { release = (codes "version", pos 2) ∷ [] });
}

abbrev hook : BuildHook
hook = record {
  sha = digits;
  receive_user = codes "alice";
  receive_repo = codes "my.app";
  image = codes "my.app:git-01234567";
  procfile = [];
  dockerfile = [];
}

abbrev builder_key : Bytes
builder_key = codes "s3cr3t"

abbrev config_url : Bytes
config_url = hook_url settings (codes "config")

abbrev build_url : Bytes
build_url = hook_url settings (codes "build")

abbrev push_url : Bytes
push_url = hook_url settings (codes "push")

hooks-Posts_example :
    Posts calm
      (post builder_key config_url)
      config_url
      (pos 200)
      (λ res. ok blank)
      (got (codes "my.app"))
      (λ raw. raw)
      Never
      Always
      []
      (get_app_config calm plain_json settings builder_key (codes "alice") (codes "my.app") [])
    × Posts calm
        (post builder_key build_url)
        build_url
        (pos 200)
        (λ res. outcome (plain_json.decode_build_response res.body))
        (got (b'\'' ∷ digits))
        (λ raw. replace_byte raw b'\'' [])
        IsExploit
        IsSent
        []
        (publish_release calm plain_json settings builder_key hook [])
    × Posts calm
        (post builder_key push_url)
        push_url
        (pos 201)
        (λ res. ok tt)
        (got (codes "{}"))
        (λ raw. raw)
        Never
        Always
        []
        (receive calm plain_json settings builder_key digits [])
hooks-Posts_example =
    hooks-Posts calm plain_json settings builder_key (codes "alice") (codes "my.app") digits hook []

abbrev decode_user : Bytes → Answer UserInfo
decode_user body =
    got
      (record { username = codes "alice"; key = []; fingerprint = []; apps = codes "my.app" ∷ [] })

exploit_found : potential_exploit (codes "x=() { :; }; echo") ≡ true
unfolding potential_exploit exploit_at behind_spaces behind_block behind_brace skip_spaces is_space
    strip_prefix
exploit_found = refl

potential_exploit_lem_example :
    (potential_exploit (codes "x=() { :; }; echo") ≡ true) ↔ IsMatch (codes "x=() { :; }; echo")
potential_exploit_lem_example = potential_exploit_lem (codes "x=() { :; }; echo")

exploit_needs_a_space : potential_exploit (codes "x=(){ :; }; echo") ≡ false
unfolding potential_exploit exploit_at behind_spaces behind_block behind_brace skip_spaces is_space
    strip_prefix
exploit_needs_a_space = refl

-- Every variable names the same host.
abbrev in_cluster : System
in_cluster = record linux { getenv = λ h key. codes "10.0.0.1" }

abbrev alice_notation : Bytes
alice_notation = codes "30:31:32:33:34:35:36:37:38:39:61:62:63:64:65:66"

alice_fingerprint : key_fingerprint one_key alice ≡ ok alice_notation
unfolding key_fingerprint colon_notation colon_loop hex_encode put_digit store make_bytes hex_digit
alice_fingerprint = refl

abbrev key_address : Bytes
key_address =
    codes "http://10.0.0.1:10.0.0.1/v2/hooks/key/30:31:32:33:34:35:36:37:38:39:61:62:63:64:65:66"

key_url_found :
    url_of (codes "10.0.0.1") (codes "10.0.0.1") (key_path alice_notation) ≡ ok key_address
unfolding url_of join
key_url_found = refl

builder_key_read :
    get_builder_key in_cluster (asked [])
    ≡ (ok (codes "ssh-rsa AAAA"), Call.read_file builder_key_location ∷ asked [])
unfolding get_builder_key
builder_key_read = refl

user_info_from_key_lem_example :
    let r =
      user_info_from_key in_cluster one_key calm
        (get_builder_key in_cluster)
        decode_user
        alice
        [] in
    NotAsked in_cluster one_key calm
      (get_builder_key in_cluster)
      decode_user
      alice
      []
      alice_notation
      r
    ⊎ Asks in_cluster one_key calm
        (get_builder_key in_cluster)
        decode_user
        alice
        []
        alice_notation
        r
user_info_from_key_lem_example =
    user_info_from_key_lem in_cluster one_key calm (get_builder_key in_cluster) decode_user alice []
      alice_notation alice_fingerprint
