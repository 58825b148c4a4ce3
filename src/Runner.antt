-- ===== src/Runner.antt =====
-- internal/daemon/transcode.go and internal/daemon/library.go: the runner of the transcode queue, round
-- by round, and the filing of what it encodes.
mod Tables
mod File
mod Encode
mod Requeue
pub mod Filing
pub mod Catching
pub mod Drain
pub mod Ends
mod Tests
unfoldable pub use Tables.*
unfoldable pub use File.*
unfoldable pub use Encode.*
unfoldable pub use Requeue.*
