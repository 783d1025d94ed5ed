-- ===== src/Git.antt =====
-- pkg/git/git.go, the Git side of the SSH server.
pub mod RepoName
pub mod Repo
pub mod Receive
