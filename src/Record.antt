-- ===== src/Record.antt =====
-- The recording side: src/record/ of the repository.
pub mod Recorder
pub mod H264
pub mod Session
pub mod Tests
pub mod EncoderTests
pub mod SessionTests
