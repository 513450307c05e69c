-- ===== src/Platform.antt =====
-- internal/platform: the macOS calls. `Script` is notify_darwin.go.
pub mod Sysctl
pub mod Libproc
pub mod Readings
pub mod Script
