-- ===== src/Worker.antt =====
-- internal/daemon/worker.go, with state.go and verify.go, and internal/proto/drive.go: the worker that
-- owns a drive, from an event of its monitor to the end of a disc.
pub mod Status
pub mod World
pub mod Scan
pub mod Source
pub mod Rip
pub mod Handle
mod Tests
