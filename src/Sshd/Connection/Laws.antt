-- ===== src/Sshd/Connection/Laws.antt =====
-- Which channels of a connection are answered.
use sa_builder.Base.{ℕ, suc, ◌+◌, ◌≤◌, ◌≡◌, Bytes, codes, [], ◌∷◌, Option, some}
use sa_builder.System.{accept_channel, spawn_answer, reject_channel, History}

-- The number of channels accepted, answered and rejected.
abbrev pub accepted : History → ℕ
accepted [] = 0
accepted (accept_channel ∷ h) = suc (accepted h)
accepted (_ ∷ h) = accepted h

abbrev pub answered : History → ℕ
answered [] = 0
answered (spawn_answer ∷ h) = suc (answered h)
answered (_ ∷ h) = answered h

abbrev pub rejected : History → ℕ
rejected [] = 0
rejected (reject_channel ∷ h) = suc (rejected h)
rejected (_ ∷ h) = rejected h

-- What is documented of a channel: behind its rejection no other method may be called, and `Accept`
-- gives an error.
pub record IsRejecting (accept_error : History → Option Bytes) : Type 0 where
  pub after_reject : (h : History) → (e : Bytes) × (accept_error (reject_channel ∷ h) ≡ some e)

abbrev pub IsSession : Bytes → Type 0
IsSession kind = kind ≡ codes "session"

-- Of `n` channels offered, each was accepted and answered, and none rejected.
abbrev pub Served : ℕ → History → History → Type 0
Served n h h' =
    (accepted h' ≡ n + accepted h) × (answered h' ≡ n + answered h) × (rejected h' ≡ rejected h)

-- The channels accepted were answered, but for the last, whose `Accept` failed; no other was rejected.
abbrev pub Broken : History → History → Type 0
Broken h h' =
    (accepted h' + answered h ≡ suc (answered h' + accepted h))
    × (rejected h ≤ rejected h')
    × (rejected h' ≤ suc (rejected h))
