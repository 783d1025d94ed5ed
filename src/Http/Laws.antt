-- ===== src/Http/Laws.antt =====
-- One request and what is made of its answer.
use sa_builder.Base.{
  ◌≡◌, ◌≢◌, refl, sym, ◌∙◌, ap, ◌⊎◌, inl, inr, Bytes, ◌∷◌, true, false, Outcome, ok, err, M, ◌>>=◌,
  ◌>>◌, bind-ok, bind-err, Bool-cases,
}
use sa_builder.Base.Int.{ℤ, eqb_ℤ, eqb_ℤ_iff}
use sa_builder.System.{Call, History, HttpRequest, Answer, got, failed}
use sa_builder.Http.{Response, Client, or_error, send, closing_body}

-- An answer as a result.
abbrev pub outcome : {A : Type 0} → Answer A → Outcome A
outcome (got a) = ok a
outcome (failed e) = err e

pub or_error_lem : {A : Type 0} (a : Answer A) (h : History) → or_error a h ≡ (outcome a, h)
or_error_lem (got a) h = refl
or_error_lem (failed e) h = refl

-- One request, and the response that it got, if any: it was closed behind its reading.
abbrev pub Exchanged :
    {A : Type 0}
    → Client
    → HttpRequest
    → ℤ
    → (Response → Bytes)
    → (Response → Outcome A)
    → History
    → Outcome A × History
    → Type 0
Exchanged {A} client req expected refusal read h r =
    ((e : Bytes) × (client.answers h req ≡ failed e) × (r ≡ (err e, Call.http_do req ∷ h)))
    ⊎ ((res : Response) × (client.answers h req ≡ got res)
        × (((res.status ≡ expected) × (r ≡ (read res, Call.close_body ∷ Call.http_do req ∷ h)))
            ⊎ ((res.status ≢ expected)
                × (r ≡ (err (refusal res), Call.close_body ∷ Call.http_do req ∷ h)))))

pub Answer-cases :
    {A : Type 0} (a : Answer A) → ((e : Bytes) × (a ≡ failed e)) ⊎ ((v : A) × (a ≡ got v))
Answer-cases (failed e) = inl (e, refl)
Answer-cases (got v) = inr (v, refl)

module _ (client : Client) (req : HttpRequest) (h : History) where
  send_failed :
      {e : Bytes}
      → client.answers h req ≡ failed e
      → send client req h ≡ (err e, Call.http_do req ∷ h)
  send_failed a = ap (λ r. or_error r (Call.http_do req ∷ h)) a

  send_got :
      {res : Response}
      → client.answers h req ≡ got res
      → send client req h ≡ (ok res, Call.http_do req ∷ h)
  send_got a = ap (λ r. or_error r (Call.http_do req ∷ h)) a

closing_body_lem :
    {A : Type 0} (m : M Call A) (h : History) {r : Outcome A} {h1 : History}
    → m h ≡ (r, h1)
    → closing_body m h ≡ (r, Call.close_body ∷ h1)
closing_body_lem m h e = ap (λ (x : Outcome _ × History). (x.0, Call.close_body ∷ x.1)) e

-- A test of the status, with the error for every other one.
abbrev pub Checks : ℤ → (Response → Bytes) → (Response → M Call (Unit {0})) → Type 0
Checks expected refusal check =
    (res : Response) (h : History)
    → (eqb_ℤ res.status expected ≡ true → check res h ≡ (ok tt, h))
      × (eqb_ℤ res.status expected ≡ false → check res h ≡ (err (refusal res), h))

-- A request and the reading of its response.
abbrev pub exchange :
    {A : Type 0}
    → Client
    → HttpRequest
    → (Response → M Call (Unit {0}))
    → (Response → M Call A)
    → M Call A
exchange client req check f = send client req >>= (λ res. closing_body (check res >> f res))

pub exchange_lem :
    {A : Type 0} (client : Client) (req : HttpRequest) (expected : ℤ) (refusal : Response → Bytes)
    (check : Response → M Call (Unit {0})) (f : Response → M Call A) (read : Response → Outcome A)
    (h : History)
    → Checks expected refusal check
    → ((res : Response) (h' : History) → f res h' ≡ (read res, h'))
    → Exchanged client req expected refusal read h (exchange client req check f h)
exchange_lem {A} client req expected refusal check f read h guard quiet =
    elim (Answer-cases (client.answers h req)) [
      | inl (e, a) ↦ inl (e, a, bind-err (send client req) (next) h (send_failed client req h a))
      | inr (res, a) ↦
          let sent = bind-ok (send client req) (next) h (send_got client req h a) in
          let h1 = Call.http_do req ∷ h in
          inr (
            res,
            a,
            elim (Bool-cases (eqb_ℤ res.status expected)) [
              | inl same ↦ inl (
                (eqb_ℤ_iff res.status expected).0 same,
                sent
                    ∙ closing_body_lem (check res >> f res) h1 (
                        bind-ok (check res) (λ _. f res) h1 ((guard res h1).0 same) ∙ quiet res h1),
              )
              | inr other ↦ inr (
                (λ e. cc (sym other ∙ (eqb_ℤ_iff res.status expected).1 e)),
                sent
                    ∙ closing_body_lem (check res >> f res) h1
                        (bind-err (check res) (λ _. f res) h1 ((guard res h1).1 other)),
              )
            ],
          )
    ]
  where
    next : Response → M Call A
    next res = closing_body (check res >> f res)
