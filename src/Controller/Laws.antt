-- ===== src/Controller/Laws.antt =====
-- What `UserInfoFromKey` asks, and what it makes of the answer.
use mathlib.Core.Path.{subst}
use sa_builder.Base.{
  ◌++◌, some, ◌⊎◌, inl, inr, ◌≢◌, panic, Option-cases, bind-err, [], ◌≡◌, refl, sym, ◌∙◌, ap, Bytes,
  codes, ◌∷◌, none, Outcome, ok, err, M, ◌>>=◌, ◌>>◌, pure, bind-ok, guard_nil,
}
use sa_builder.Base.Int.{pos}
use sa_builder.Strings.{join}
use sa_builder.System.{Call, HttpRequest, History, System, Answer, got, failed}
use sa_builder.Http.{Response, Client, or_error}
use sa_builder.Http.Laws.{Exchanged, Checks, exchange, exchange_lem}
use sa_builder.Sshd.Keys.{PublicKey, Crypto}
use sa_builder.Controller.{
  UserInfo, host_env_name, port_env_name, url_of, key_fingerprint, key_path, key_request, check_ok,
  read_user, controller_url_str, user_info_from_key, lift,
}

-- The error of every status but 200.
abbrev pub forbidden : Response → Bytes
forbidden res = codes "user has no permissions to push in application"

check_ok-Checks : Checks (pos 200) forbidden check_ok
unfolding check_ok
check_ok-Checks res h = ((λ e. rw e refl), (λ e. rw e refl))

-- What the function returns of a response with status 200.
abbrev pub user_of : (Bytes → Answer UserInfo) → Bytes → Response → Outcome UserInfo
user_of decode fp res = elim (decode res.body) [
  | got info ↦ ok (record info { fingerprint = fp })
  | failed e ↦ err e
]

read_user_lem :
    (decode : Bytes → Answer UserInfo) (fp : Bytes) (res : Response) (h : History)
    → read_user decode fp res h ≡ (user_of decode fp res, h)
unfolding read_user
read_user_lem decode fp res h =
    elim (decode res.body)
      as (λ a.
        (or_error a >>= (λ (ret : UserInfo). pure {C = Call} (record ret { fingerprint = fp }))) h
        ≡ (
          elim a as (λ _. Outcome UserInfo) [
            | got info ↦ ok (record info { fingerprint = fp })
            | failed e ↦ err e
          ],
          h,
        )) [ got info ↦ refl | failed e ↦ refl ]

-- The address of a fingerprint's hook, and the request with the four headers that goes there.
abbrev pub user_url : Bytes → Bytes → Bytes → Bytes
user_url host port fp =
    codes "http://" ++ (host ++ (codes ":" ++ (port ++ (codes "/v2/hooks/key/" ++ fp))))

abbrev pub get : Bytes → Bytes → HttpRequest
get url builder_key = record {
  method = codes "GET";
  url = url;
  headers =
      (codes "Content-Type", codes "application/json")
      ∷ (codes "Accept", codes "application/json")
      ∷ (codes "User-Agent", codes "deis-builder")
      ∷ (codes "X-Deis-Builder-Auth", builder_key)
      ∷ [];
  body = [];
}

abbrev pub no_host : Bytes
no_host = codes "missing required 'DEIS_WORKFLOW_SERVICE_HOST' environment variable"

abbrev pub no_port : Bytes
no_port = codes "missing required 'DEIS_WORKFLOW_SERVICE_PORT' environment variable"

url_cases :
    (host port fp : Bytes)
    → let r = url_of host port (key_path fp) in
      ((host ≡ []) × (r ≡ err no_host))
      ⊎ ((host ≢ []) × (port ≡ []) × (r ≡ err no_port))
      ⊎ ((host ≢ []) × (port ≢ []) × (r ≡ ok (user_url host port fp)))
unfolding url_of join
url_cases [] port fp = inl (refl, refl)
url_cases (c ∷ host) [] fp = inr (inl (cc, refl, refl))
url_cases (c ∷ host) (d ∷ port) fp = inr (inr (cc, cc, refl))

-- Behind the reads of the host and the port.
abbrev pub asked : History → History
asked h = Call.getenv port_env_name ∷ Call.getenv host_env_name ∷ h

abbrev url_result : System → History → Bytes → Outcome Bytes
url_result sys h fp =
    url_of (System.getenv sys h host_env_name)
      (System.getenv sys (Call.getenv host_env_name ∷ h) port_env_name) (key_path fp)

module _ (sys : System) (crypto : Crypto) (client : Client) (get_builder_key : M Call Bytes)
    (decode : Bytes → Answer UserInfo) (key : PublicKey) (h : History) where
  abbrev then_ask : Bytes → Bytes → M Call UserInfo
  then_ask fp url =
      guard_nil (client.refuses (codes "GET") url) (λ m. m)
      >> (get_builder_key >>= (λ builder_key.
          exchange client (key_request url builder_key) check_ok (read_user decode fp)))

  user_info_url :
      {fp : Bytes} {r : Outcome Bytes}
      → key_fingerprint crypto key ≡ ok fp
      → url_result sys h fp ≡ r
      → user_info_from_key sys crypto client get_builder_key decode key h
        ≡ (lift r >>= then_ask fp) (asked h)
  unfolding user_info_from_key controller_url_str
  user_info_url {fp} e u = rw e (ap (λ r. (lift r >>= then_ask fp) (asked h)) u)

  abbrev pub host : Bytes
  host = System.getenv sys h (codes "DEIS_WORKFLOW_SERVICE_HOST")

  abbrev pub port : Bytes
  port =
      System.getenv sys (Call.getenv (codes "DEIS_WORKFLOW_SERVICE_HOST") ∷ h)
        (codes "DEIS_WORKFLOW_SERVICE_PORT")

  -- Nothing was asked: the host or the port is empty, or `NewRequest` refuses the address, or there
  -- is no builder key.
  abbrev pub NotAsked : Bytes → Outcome UserInfo × History → Type 0
  NotAsked fp r =
      ((host ≡ []) × (r ≡ (err no_host, asked h)))
      ⊎ ((host ≢ []) × (port ≡ []) × (r ≡ (err no_port, asked h)))
      ⊎ ((host ≢ [])
          × (port ≢ [])
          × (((e : Bytes) × (client.refuses (codes "GET") (user_url host port fp) ≡ some e)
                × (r ≡ (err e, asked h)))
              ⊎ ((client.refuses (codes "GET") (user_url host port fp) ≡ none)
                  × ((builder_key : Bytes) → (get_builder_key (asked h)).0 ≢ ok builder_key)
                  × (r.1 ≡ (get_builder_key (asked h)).1)
                  × ((info : UserInfo) → r.0 ≢ ok info))))

  abbrev pub Asks : Bytes → Outcome UserInfo × History → Type 0
  Asks fp r =
      (host ≢ [])
      × (port ≢ [])
      × (client.refuses (codes "GET") (user_url host port fp) ≡ none)
      × (builder_key : Bytes) × (h1 : History) × (get_builder_key (asked h) ≡ (ok builder_key, h1))
      × Exchanged client (get (user_url host port fp) builder_key) (pos 200) forbidden
          (user_of decode fp) h1 r

  abbrev request_user : Bytes → Bytes → Bytes → M Call UserInfo
  request_user fp url builder_key =
      exchange client (key_request url builder_key) check_ok (read_user decode fp)

  no_user :
      (o : Outcome UserInfo)
      → ((info : UserInfo) → o ≢ ok info)
      → {k : Outcome Bytes} {h1 : History} → ((builder_key : Bytes) → k ≢ ok builder_key)
      → get_builder_key (asked h) ≡ (k, h1)
      → {r : Outcome UserInfo × History} → r ≡ (o, h1)
      → ((builder_key : Bytes) → (get_builder_key (asked h)).0 ≢ ok builder_key)
        × (r.1 ≡ (get_builder_key (asked h)).1)
        × ((info : UserInfo) → r.0 ≢ ok info)
  no_user o none_in none_key k e = (
    (λ b q. none_key b (sym (ap (λ (x : Outcome Bytes × History). x.0) k) ∙ q)),
    ap (λ (x : Outcome UserInfo × History). x.1) e
        ∙ sym (ap (λ (x : Outcome Bytes × History). x.1) k),
    (λ info q. none_in info (sym (ap (λ (x : Outcome UserInfo × History). x.0) e) ∙ q)),
  )

  behind_key :
      (fp : Bytes)
      → host ≢ []
      → port ≢ []
      → client.refuses (codes "GET") (user_url host port fp) ≡ none
      → (k : Outcome Bytes × History) → get_builder_key (asked h) ≡ k
      → {r : Outcome UserInfo × History}
      → r ≡ (get_builder_key >>= request_user fp (user_url host port fp)) (asked h)
      → NotAsked fp r ⊎ Asks fp r
  behind_key fp hn pn taken (ok builder_key, h1) k e = inr (
    hn,
    pn,
    taken,
    builder_key,
    h1,
    k,
    subst
        (Exchanged client (get (user_url host port fp) builder_key) (pos 200) forbidden
          (user_of decode fp) h1)
        (sym (e ∙ bind-ok get_builder_key (request_user fp (user_url host port fp)) (asked h) k))
        (exchange_lem client (get (user_url host port fp) builder_key) (pos 200) forbidden check_ok
          (read_user decode fp) (user_of decode fp) h1 check_ok-Checks (read_user_lem decode fp)),
  )
  behind_key fp hn pn taken (err m, h1) k e =
      let none_found =
        no_user (err m) (λ info. cc) (λ b. cc) k
          (e ∙ bind-err get_builder_key (request_user fp (user_url host port fp)) (asked h) k) in
      inl (inr (inr (hn, pn, inr (taken, none_found.0, none_found.1, none_found.2))))
  behind_key fp hn pn taken (panic, h1) k e =
      let none_found =
        no_user panic (λ info. cc) (λ b. cc) k
          (e
            ∙ ap
                (λ (x : Outcome Bytes × History).
                  ◌>>=◌ (λ _. x) (request_user fp (user_url host port fp)) (asked h))
                k) in
      inl (inr (inr (hn, pn, inr (taken, none_found.0, none_found.1, none_found.2))))

  -- For a key whose hash has a colon notation: where the environment names no host, or else no port,
  -- the error says which is missing; where `NewRequest` refuses the address its error is returned;
  -- where there is no builder key there is no user; and nothing is asked in these cases. In every
  -- other one request is sent, a GET with the four headers for `/v2/hooks/key/` and the notation at
  -- that host and port. The error of a request that got no response is returned. Else the body is
  -- closed behind all else, and what is returned is the decoded user with this notation as its
  -- fingerprint exactly where the status is 200 and the body can be decoded.
  pub user_info_from_key_lem :
      (fp : Bytes)
      → key_fingerprint crypto key ≡ ok fp
      → let r = user_info_from_key sys crypto client get_builder_key decode key h in
        NotAsked fp r ⊎ Asks fp r
  user_info_from_key_lem fp e = elim (url_cases host port fp) [
    | inl (hn, u) ↦ inl (inl (hn, user_info_url e u))
    | inr (inl (hn, pn, u)) ↦ inl (inr (inl (hn, pn, user_info_url e u)))
    | inr (inr (hn, pn, u)) ↦
        elim (Option-cases (client.refuses (codes "GET") (user_url host port fp))) [
          | inr (m, refused) ↦
              inl (inr (inr (hn, pn, inl (m, refused, user_info_url e u ∙ rw refused refl))))
          | inl taken ↦
              behind_key fp hn pn taken (get_builder_key (asked h)) refl
                (user_info_url e u ∙ rw taken refl)
        ]
  ]
