-- ===== src/Http.antt =====
-- What the code uses of net/http as a client: `NewRequest`, which may refuse a method or an address, and
-- `DefaultClient.Do`. A response is open until its body is closed.
pub mod Laws
use sa_builder.Base.{
  Bytes, List, [], ◌∷◌, Option, Outcome, ok, err, M, ◌>>=◌, ◌>>◌, pure, call, guard_nil,
}
use sa_builder.Base.Int.{ℤ}
use sa_builder.System.{Call, History, HttpRequest, Answer, got, failed}

pub record Response : Type 0 where
  pub status : ℤ
  pub body : Bytes

pub record Client : Type 0 where
  pub refuses : Bytes → Bytes → Option Bytes
  pub answers : History → HttpRequest → Answer Response

-- `return nil, err`, or the value.
abbrev pub or_error : {A : Type 0} → Answer A → M Call A
or_error (got a) h = (ok a, h)
or_error (failed e) h = (err e, h)

-- A value or an error from outside, with what it is asked for.
abbrev pub send : Client → HttpRequest → M Call Response
send client req = do res ← call (Call.http_do req) (λ h. Client.answers client h req); or_error res

-- `defer res.Body.Close()`: what comes behind it, and the close.
abbrev pub closing_body : {A : Type 0} → M Call A → M Call A
closing_body m h = let (r, h') = m h in (r, Call.close_body ∷ h')
