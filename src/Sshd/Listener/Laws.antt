-- ===== src/Sshd/Listener/Laws.antt =====
-- The server ends once nothing more is accepted, and has handled every connection.
use sa_builder.Base.{
  ℕ, zero, suc, ◌-◌, ◌≤◌, ◌<◌, ◌≡◌, ◌≢◌, refl, ◌⊎◌, inl, inr, Bytes, List, [], ◌∷◌, true, false,
  none, some, Outcome, ok, err, panic, arith, Bool-cases, Option-cases,
}
use native.Mathlib.Decide.{dec_lt}
use sa_builder.System.{Call, accept_conn, History}
use sa_builder.Sshd.Listener.{
  Network, Run, closing_listener, dropping_error, add_host_keys, accepting, listen_loop, listen,
  listening, serve,
}

-- The calls of `Accept`.
abbrev pub taken : History → ℕ
taken [] = 0
taken (accept_conn ∷ h) = suc (taken h)
taken (_ ∷ h) = taken h

-- The result of a loop that ended.
abbrev pub Ends : Run → (Outcome (Unit {0}) → History → Type 0) → Type 0
Ends none P = ⊥
Ends (some (r, h)) P = P r h

-- Behind `n` calls of `Accept` the closer is full or `Accept` fails.
abbrev pub Finite : Network → ℕ → Type 0
Finite net n =
    (h : History)
    → n ≤ taken h
    → (Network.closer_full net h ≡ true)
      ⊎ ((e : Bytes) × (Network.accept_error net (Call.check_closer ∷ h) ≡ some e))

-- The rounds from one history to another: in each the closer was looked at and empty, a connection
-- was accepted, and its handling was started, before the next round.
pub data Rounds (net : Network) (h0 : History) : History → Type 0 where
  start : Rounds net h0 h0
  round :
      {h : History}
      → Rounds net h0 h
      → Network.closer_full net h ≡ false
      → Network.accept_error net (Call.check_closer ∷ h) ≡ none
      → Rounds net h0 (Call.spawn_conn ∷ Call.accept_conn ∷ Call.check_closer ∷ h)

-- The loop stopped behind such rounds, at a full closer or where `Accept` failed.
abbrev pub Stopped : Network → History → History → Type 0
Stopped net h0 h' =
    (h1 : History) × Rounds net h0 h1
    × (((h' ≡ Call.take_closer ∷ Call.check_closer ∷ h1) × (Network.closer_full net h1 ≡ true))
        ⊎ ((h' ≡ Call.accept_conn ∷ Call.check_closer ∷ h1)
            × ((e : Bytes) × (Network.accept_error net (Call.check_closer ∷ h1) ≡ some e))))

-- No error, and the listener was closed last, behind a loop that stopped one way or the other.
abbrev pub IsClosed : Network → History → Outcome (Unit {0}) → History → Type 0
IsClosed net h0 r h' =
    (r ≡ ok tt) × ((h1 : History) × (h' ≡ Call.close_listener ∷ h1) × Stopped net h0 h1)

abbrev StoppedCalmly : Network → History → Outcome (Unit {0}) → History → Type 0
StoppedCalmly net h0 r h' = (r ≢ panic) × Stopped net h0 h'

module _ (net : Network) (n : ℕ) (finite : Finite net n) where
  listen_loop-Ends :
      (fuel : ℕ) (h0 h : History)
      → n - taken h < fuel
      → Rounds net h0 h
      → Ends (listen_loop net fuel h) (StoppedCalmly net h0)
  unfolding listen_loop accepting
  listen_loop-Ends zero h0 h bound rounds = elim bound [ ]
  listen_loop-Ends (suc fuel) h0 h bound rounds = elim (Bool-cases (net.closer_full h)) [
    | inl full ↦ rw full ((λ q. cc), (h, rounds, inl (refl, full)))
    | inr open' ↦ rw open' (elim (Option-cases (net.accept_error (Call.check_closer ∷ h))) [
      | inr (m, e) ↦ rw e ((λ q. cc), (h, rounds, inr (refl, (m, e))))
      | inl e ↦ rw e (elim (dec_lt (taken h) n) [
        | yes more ↦
            listen_loop-Ends fuel h0 (Call.spawn_conn ∷ Call.accept_conn ∷ Call.check_closer ∷ h)
              (omega arith) (round rounds open' e)
        | no enough ↦ elim (finite h (omega arith)) [
          | inl full ↦ absurd (cc)
          | inr (m, f) ↦ absurd (cc)
        ]
      ])
    ])
  ]

  closing-Ends :
      (run : Run) (h0 : History)
      → Ends run (StoppedCalmly net h0)
      → Ends (dropping_error (closing_listener run)) (IsClosed net h0)
  unfolding closing_listener dropping_error
  closing-Ends none h0 e = e
  closing-Ends (some (ok a, h)) h0 (calm, e) = (refl, (h, refl, e))
  closing-Ends (some (err m, h)) h0 (calm, e) = (refl, (h, refl, e))
  closing-Ends (some (panic, h)) h0 (calm, e) = absurd (calm refl)

  -- `Serve` terminates if, behind `n` calls of `Accept`, the closer is full or `Accept` fails: fuel for
  -- `n + 1` rounds is enough. It returns an error exactly where `net.Listen` does. Else it returns
  -- none, not even that of `Accept`. It has closed the listener last, at a full closer or where
  -- `Accept` failed, and from the start of listening to there each connection that was accepted had
  -- its handling started before the next was.
  pub serve-Ends :
      (keys : List Bytes) (addr : Bytes) (h : History)
      → let keyed = add_host_keys keys h in
        ((e : Bytes)
          → net.listen_error keyed addr ≡ some e
          → serve net (suc n) keys addr h ≡ some (err e, Call.listen addr ∷ keyed))
        × (net.listen_error keyed addr ≡ none
            → Ends (serve net (suc n) keys addr h) (IsClosed net (Call.listen addr ∷ keyed)))
  unfolding serve listening listen
  serve-Ends keys addr h = (
    (λ e f. rw f refl),
    (λ f. rw f (
        closing-Ends _ (Call.listen addr ∷ add_host_keys keys h)
          (listen_loop-Ends (suc n) _ _ (omega arith) start))),
  )
