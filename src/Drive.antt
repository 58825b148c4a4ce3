-- ===== src/Drive.antt =====
-- internal/drive: what a drive and its disc answer, and what that means. The bytes that the SCSI
-- commands return are an input; a byte is a number below 256.
pub mod Sense
pub mod Region
pub mod Profile
pub mod Monitor
mod Tests
