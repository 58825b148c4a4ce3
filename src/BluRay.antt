-- ===== src/BluRay.antt =====
-- internal/bluray/bluray.go: what a Blu-ray holds, told from the output of libbluray's tools.
mod Playlists
mod Parse
mod Reports
pub mod Content
mod Tests
unfoldable pub use Playlists.*
unfoldable pub use Parse.*
unfoldable pub use Reports.*
