-- ===== src/RemoteWrite.antt =====
-- internal/metrics/remote_write.go
pub mod Encode
pub mod Series
pub mod Request
pub mod Range
pub mod Window
pub mod Control
mod Tests
