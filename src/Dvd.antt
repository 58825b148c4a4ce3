-- ===== src/Dvd.antt =====
-- internal/dvd/ifo.go: the search for the Video Manager of a disc and the name that it holds. A source is
-- its bytes; a read at an offset gives the bytes that are there.
mod Vmg
mod Name
pub mod Search
mod Tests
unfoldable pub use Vmg.*
unfoldable pub use Name.*
