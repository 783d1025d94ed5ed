-- ===== src/Sshd/Connection.antt =====
-- `handleConn`, `sshConnection` and `Ping` of pkg/sshd/server.go. The handshake and the acceptance
-- of a channel are parameters; an answer or the discarding of requests is started and not followed.
pub mod Laws
use sa_builder.Base.{
  ℕ, Bytes, codes, List, [], ◌∷◌, ◌++◌, Bool, true, false, Option, none, some, Outcome, M, ◌>>=◌,
  ◌>>◌, pure, crash, call, eqb,
}
use sa_builder.System.{Call, History, System}
use sa_builder.Sshd.Server.{Routes, reply, send_exit_status}

-- `net.SplitHostPort`: the host and the port, both empty on an error.
abbrev pub SplitHostPort : Type 0
SplitHostPort = Bytes → Bytes × Bytes

unfoldable pub ssh_connection_of : SplitHostPort → Bytes → Bytes → Bytes
ssh_connection_of split_host_port remote local =
    let (rhost, rport) = split_host_port remote in
    let (lhost, lport) = split_host_port local in
    rhost ++ (codes " " ++ (rport ++ (codes " " ++ (lhost ++ (codes " " ++ lport)))))

-- `safely.GoDo`
abbrev pub spawn : Call → M Call (Unit {0})
spawn c = call c (λ h. tt)

-- The test of the channel's type; it does not leave the round.
unfoldable pub reject_other : Bytes → M Call (Unit {0})
reject_other kind = elim (eqb kind (codes "session")) [
  | true ↦ pure tt
  | false ↦ call Call.reject_channel (λ h. tt)
]

-- What follows `Accept`.
unfoldable pub on_accept : Option Bytes → M Call (Unit {0})
on_accept (some e) = crash
on_accept none = spawn Call.spawn_answer

module _ (accept_error : History → Option Bytes) where
  unfoldable pub handle_channel : Bytes → M Call (Unit {0})
  handle_channel kind = do reject_other kind; e ← call Call.accept_channel accept_error; on_accept e

  -- The loop over the channels, by their types.
  unfoldable pub handle_channels : List Bytes → M Call (Unit {0})
  handle_channels [] = pure tt
  handle_channels (kind ∷ kinds) = do handle_channel kind; handle_channels kinds

  -- `defer conn.Close()`
  unfoldable pub closing_conn : M Call (Unit {0}) → M Call (Unit {0})
  closing_conn m h = let (r, h') = m h in (r, Call.close_conn ∷ h')

  -- The error is that of the handshake.
  unfoldable pub handle_conn : Option Bytes → List Bytes → M Call (Unit {0})
  handle_conn (some e) kinds = closing_conn (pure tt)
  handle_conn none kinds =
      closing_conn do spawn Call.spawn_discard; handle_channels kinds; spawn Call.close_conn

module _ (sys : System) (exec_value : Bytes → Bytes) (marshal : ℕ → Bytes) (routes : Routes) where
  -- The errors of the write and of the two answers are dropped.
  unfoldable pub ping : M Call (Unit {0})
  ping = do
    call {A = Unit {0}} (Call.channel_write (codes "pong")) (λ h. tt)
    _ ← send_exit_status sys exec_value marshal routes 0
    reply true
