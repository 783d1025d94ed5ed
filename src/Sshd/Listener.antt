-- ===== src/Sshd/Listener.antt =====
-- `Serve` and `listen` of pkg/sshd/server.go. The loop of `listen` has no bound of its own: it takes
-- fuel, none where the fuel runs out. Handling a connection is started and not followed.
pub mod Laws
use sa_builder.Base.{
  ℕ, zero, suc, Bytes, codes, List, [], ◌∷◌, Bool, true, false, Option, none, some, Outcome, ok,
  err, panic, if◌then◌else◌,
}
use sa_builder.System.{Call, History}

-- What comes from outside: `len(closer) > 0`, the error of `net.Listen` and that of `Accept`.
pub record Network : Type 0 where
  pub closer_full : History → Bool
  pub listen_error : History → Bytes → Option Bytes
  pub accept_error : History → Option Bytes

-- How a loop ended, none if it still runs.
abbrev pub Run : Type 0
Run = Option (Outcome (Unit {0}) × History)

-- `defer l.Close()`
unfoldable pub closing_listener : Run → Run
closing_listener none = none
closing_listener (some (r, h)) = some (r, Call.close_listener ∷ h)

-- `return nil`, whatever `listen` returned
unfoldable pub dropping_error : Run → Run
dropping_error none = none
dropping_error (some (panic, h)) = some (panic, h)
dropping_error (some (_, h)) = some (ok tt, h)

-- `cfg.AddHostKey(hk)` for each key
unfoldable pub add_host_keys : List Bytes → History → History
add_host_keys [] h = h
add_host_keys (key ∷ keys) h = add_host_keys keys (Call.add_host_key key ∷ h)

module _ (net : Network) where
  -- What follows the look at the closer and `Accept`.
  unfoldable pub accepting : Option Bytes → History → Run → Run
  accepting (some e) h rest = some (err e, h)
  accepting none h rest = rest

  unfoldable pub listen_loop : ℕ → History → Run
  listen_loop zero h = none
  listen_loop (suc fuel) h =
      let looked = Call.check_closer ∷ h in
      let rest = listen_loop fuel (Call.spawn_conn ∷ Call.accept_conn ∷ looked) in
      if net.closer_full h
      then some (ok tt, Call.take_closer ∷ looked)
      else accepting (net.accept_error looked) (Call.accept_conn ∷ looked) rest

  unfoldable pub listen : ℕ → History → Run
  listen fuel h = closing_listener (listen_loop fuel h)

  -- What follows `net.Listen`.
  unfoldable pub listening : ℕ → Option Bytes → History → Run
  listening fuel (some e) h = some (err e, h)
  listening fuel none h = dropping_error (listen fuel h)

  unfoldable pub serve : ℕ → List Bytes → Bytes → History → Run
  serve fuel host_keys addr h =
      let keyed = add_host_keys host_keys h in
      listening fuel (net.listen_error keyed addr) (Call.listen addr ∷ keyed)
