-- ===== src/Config.antt =====
-- internal/config/config.go: the configuration of a process, from its environment.
pub mod Reading
pub mod Loading
pub mod Accepting
pub mod Sound
pub mod Valid
pub mod Secrets
