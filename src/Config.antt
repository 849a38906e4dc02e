-- ===== src/Config.antt =====
-- internal/config/config.go: the settings and their validation.
pub mod Mode
pub mod Runtime
pub mod Validate
pub mod Loader
pub mod Tests
