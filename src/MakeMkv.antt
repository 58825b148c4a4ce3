-- ===== src/MakeMkv.antt =====
-- internal/makemkv: what the program reads from makemkvcon's robot output, and the timer that stops a
-- rip without progress. The process, the files it writes and the clock are arguments.
pub mod Lines
pub mod Messages
pub mod Stall
pub mod Rip
pub mod Fields
pub mod Durations
pub mod Watch
pub mod Silence
pub mod Keys
mod Tests
