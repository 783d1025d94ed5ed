-- ===== src/Gitreceive.antt =====
-- Package gitreceive, the hook that builds and launches an application.
pub mod Sha
pub mod Config
pub mod Pods
pub mod Wait
pub mod Storage
pub mod Prepare
pub mod Build
pub mod Run
pub mod Controller
