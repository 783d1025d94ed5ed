-- ===== src/Gitreceive/Controller/Laws.antt =====
-- What the hook sends to the controller, and what it makes of the answer.
use sa_builder.Base.{
  ◌≡◌, refl, ◌⊎◌, inl, inr, Bytes, codes, [], true, false, Option, none, some, Outcome, ok, err, M,
  ◌>>=◌, ◌>>◌, pure, Bool-cases, Option-cases, Lacks, guard_nil, ◌∷◌, ◌++◌,
}
use sa_builder.Base.Int.{ℤ, pos, eqb_ℤ}
use sa_builder.Strings.Decimal.{decimal_ℤ}
use sa_builder.Strings.{replace_byte, join}
use sa_builder.Strings.Laws.{replace_byte-Lacks}
use sa_builder.System.{Call, HttpRequest, History, Answer, got, failed}
use sa_builder.Http.{Response, Client, or_error}
use sa_builder.Http.Laws.{outcome, or_error_lem, Exchanged, Checks, exchange, exchange_lem}
use sa_builder.Types.{BuildHook}
use sa_builder.Gitreceive.Config.{Config}
use sa_builder.Gitreceive.Controller.{
  Json, unexpected_status, controller_url_str, req_headers, check_status_code, push_entries,
  get_app_config, publish_release, receive, exploit_error,
}
use sa_builder.Gitreceive.Controller.Exploit.{potential_exploit}
use sa_builder.Gitreceive.Controller.Exploit.Laws.{IsMatch, potential_exploit_lem}

check_same :
    (url : Bytes) (expected : ℤ) (res : Response) (h : History)
    → eqb_ℤ res.status expected ≡ true
    → check_status_code url expected res h ≡ (ok tt, h)
unfolding check_status_code
check_same url expected res h e = rw e refl

check_other :
    (url : Bytes) (expected : ℤ) (res : Response) (h : History)
    → eqb_ℤ res.status expected ≡ false
    → check_status_code url expected res h ≡ (err (unexpected_status url expected res.status), h)
unfolding check_status_code
check_other url expected res h e = rw e refl

-- The error of a response with another status than the expected one.
abbrev pub refusal : Bytes → ℤ → Response → Bytes
refusal url expected res =
    codes "Deis controller endpoint "
    ++ (url
        ++ (codes ": expected status code "
            ++ (decimal_ℤ expected ++ (codes ", got " ++ decimal_ℤ res.status))))

check_status_code-Checks :
    (url : Bytes) (expected : ℤ)
    → Checks expected (refusal url expected) (check_status_code url expected)
unfolding unexpected_status
check_status_code-Checks url expected res h =
    (check_same url expected res h, check_other url expected res h)

-- The address of a hook, and the request with the four headers that goes there.
abbrev pub hook_url : Config → Bytes → Bytes
hook_url conf name =
    codes "http://"
    ++ (conf.workflow_host ++ (codes ":" ++ (conf.workflow_port ++ (codes "/v2/hooks/" ++ name))))

abbrev pub post : Bytes → Bytes → Bytes → HttpRequest
post builder_key url body = record {
  method = codes "POST";
  url = url;
  headers =
      (codes "Content-Type", codes "application/json")
      ∷ (codes "Accept", codes "application/json")
      ∷ (codes "User-Agent", codes "deis-builder")
      ∷ (codes "X-Deis-Builder-Auth", builder_key)
      ∷ [];
  body = body;
}

-- What a function that posts does, in the order of its tests: what it posts cannot be encoded, the
-- body is one that stops it, `NewRequest` refuses, or one request is sent.
abbrev pub Posts :
    {A : Type 0}
    → Client
    → (Bytes → HttpRequest)
    → Bytes
    → ℤ
    → (Response → Outcome A)
    → Answer Bytes
    → (Bytes → Bytes)
    → (Bytes → Bytes → Type 0)
    → (Bytes → Type 0)
    → History
    → Outcome A × History
    → Type 0
Posts client req url expected read encoded change Stops Passes h r =
    ((e : Bytes) × (encoded ≡ failed e) × (r ≡ (err e, h)))
    ⊎ ((raw : Bytes) × (encoded ≡ got raw)
        × (((e : Bytes) × Stops (change raw) e × (r ≡ (err e, h)))
            ⊎ (Passes (change raw)
                × (((e : Bytes) × (client.refuses (codes "POST") url ≡ some e) × (r ≡ (err e, h)))
                    ⊎ ((client.refuses (codes "POST") url ≡ none)
                        × Exchanged client (req (change raw)) expected (refusal url expected) read h
                            r)))))

-- A test that stops at some bodies with an error and lets the others pass.
abbrev Decides :
    (Bytes → Option Bytes) → (Bytes → Bytes) → (Bytes → Bytes → Type 0) → (Bytes → Type 0) → Type 0
Decides stop change Stops Passes =
    (raw : Bytes)
    → ((e : Bytes) × (stop (change raw) ≡ some e) × Stops (change raw) e)
      ⊎ ((stop (change raw) ≡ none) × Passes (change raw))

module _ {A : Type 0} (client : Client) (req : Bytes → HttpRequest) (url : Bytes) (expected : ℤ)
    (f : Response → M Call A) (read : Response → Outcome A)
    (quiet : (res : Response) (h' : History) → f res h' ≡ (read res, h')) where
  -- The request behind the look at what `NewRequest` says.
  abbrev posting : Bytes → M Call A
  posting body =
      guard_nil (client.refuses (codes "POST") url) (λ m. m)
      >> exchange client (req body) (check_status_code url expected) f

  abbrev encoding : Answer Bytes → (Bytes → Bytes) → (Bytes → Option Bytes) → M Call A
  encoding encoded change stop = do
    raw ← or_error encoded
    guard_nil (stop (change raw)) (λ m. m)
    posting (change raw)

  encoding-Posts :
      (encoded : Answer Bytes) (change : Bytes → Bytes) (stop : Bytes → Option Bytes)
      (Stops : Bytes → Bytes → Type 0) (Passes : Bytes → Type 0) (h : History)
      → Decides stop change Stops Passes
      → Posts client req url expected read encoded change Stops Passes h
          (encoding encoded change stop h)
  encoding-Posts (failed e) change stop Stops Passes h decide = inl (e, refl, refl)
  encoding-Posts (got raw) change stop Stops Passes h decide = inr (
    raw,
    refl,
    elim (decide raw) [
      | inl (e, stops, s) ↦ inl (e, s, rw stops refl)
      | inr (goes, p) ↦ inr (
        p,
        elim (Option-cases (client.refuses (codes "POST") url)) [
          | inr (e, refused) ↦ inl (e, refused, rw (goes, refused) refl)
          | inl taken ↦ inr (
            taken,
            rw (goes, taken)
                (exchange_lem client (req (change raw)) expected (refusal url expected)
                  (check_status_code url expected) f read h (check_status_code-Checks url expected)
                  quiet),
          )
        ],
      )
    ],
  )

-- Nothing stops a body that is not looked at.
abbrev pub Never : Bytes → Bytes → Type 0
Never body e = ⊥

abbrev pub Always : Bytes → Type 0
Always body = Unit

never : Decides (λ b. none) (λ raw. raw) Never Always
never b = inr (refl, tt)

-- What stops `publishRelease`, and what it sends.
abbrev pub IsExploit : Bytes → Bytes → Type 0
IsExploit body e =
    IsMatch body × (e ≡ codes "an environment variable in the app is trying to exploit Shellshock")

abbrev pub IsSent : Bytes → Type 0
IsSent body = (¬ IsMatch body) × Lacks b'\'' body

exploit_error-Decides : Decides exploit_error (λ raw. replace_byte raw b'\'' []) IsExploit IsSent
unfolding exploit_error
exploit_error-Decides raw = elim (Bool-cases (potential_exploit (replace_byte raw b'\'' []))) [
  | inl found ↦ inl (_, rw found refl, ((potential_exploit_lem _).0 found, refl))
  | inr clean ↦ inr (
    rw clean refl,
    ((λ m. cc (clean, (potential_exploit_lem _).1 m)), replace_byte-Lacks raw b'\'' [] tt),
  )
]

module _ {Any Time : Type 0} (client : Client) (json : Json Any Time) (conf : Config)
    (builder_key : Bytes) where
  -- Each of the three functions encodes what it has for its hook. It sends nothing exactly if that
  -- fails, if `NewRequest` refuses the address, or, of `publishRelease`, if the body matches the
  -- regular expression, and then returns that error. Else it sends one request, a POST with the four
  -- headers to `/v2/hooks/` and the hook's name at the controller's host and port, whose body is what
  -- was encoded, of `publishRelease` less its single quotes. If no response comes it returns that
  -- error. If one comes it closes its body once, behind all else, and what it returns is what the
  -- library decodes of the body where the status is the expected one, 200 or, of a push, 201, and
  -- the error with the status everywhere else.
  pub hooks-Posts :
      (user_name app_name git_sha : Bytes) (build_hook : BuildHook) (h : History)
      → let config = hook_url conf (codes "config") in
        let build = hook_url conf (codes "build") in
        let push = hook_url conf (codes "push") in
        Posts client
          (post builder_key config)
          config
          (pos 200)
          (λ res. outcome (json.decode_config res.body))
          (json.encode_config_hook (record { receive_user = user_name; receive_repo = app_name }))
          (λ raw. raw)
          Never
          Always
          h
          (get_app_config client json conf builder_key user_name app_name h)
        × Posts client
            (post builder_key build)
            build
            (pos 200)
            (λ res. outcome (json.decode_build_response res.body))
            (json.encode_build_hook build_hook)
            (λ raw. replace_byte raw b'\'' [])
            IsExploit
            IsSent
            h
            (publish_release client json conf builder_key build_hook h)
        × Posts client
            (post builder_key push)
            push
            (pos 201)
            (λ res. ok tt)
            (json.encode_entries (push_entries conf git_sha))
            (λ raw. raw)
            Never
            Always
            h
            (receive client json conf builder_key git_sha h)
  unfolding get_app_config publish_release receive controller_url_str req_headers join
  hooks-Posts user_name app_name git_sha build_hook h = (
    encoding-Posts client (post builder_key _) _ (pos 200)
        (λ res. or_error (json.decode_config res.body)) _
        (λ res h'. or_error_lem (json.decode_config res.body) h') _ _ (λ raw. none) _ _ h never,
    encoding-Posts client (post builder_key _) _ (pos 200)
        (λ res. or_error (json.decode_build_response res.body)) _
        (λ res h'. or_error_lem (json.decode_build_response res.body) h') _ _ exploit_error
        IsExploit IsSent h exploit_error-Decides,
    encoding-Posts client (post builder_key _) _ (pos 201) (λ res. pure tt) _ (λ res h'. refl) _ _
        (λ raw. none) _ _ h never,
  )
