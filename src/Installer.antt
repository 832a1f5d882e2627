-- ===== src/Installer.antt =====
-- The installer's versions (installer/version.go).
pub mod Version
