-- ===== src/Sshd.antt =====
-- Package sshd, the SSH server.
pub mod Fingerprint
pub mod Keys
pub mod Server
pub mod Connection
pub mod HostKeys
pub mod Listener
