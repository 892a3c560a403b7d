-- ===== src/Stream.antt =====
-- The streaming side: src/stream/ of the repository.
pub mod Source
pub mod Nv12
pub mod Mjpeg
pub mod JpegMt
pub mod JpegHw
pub mod Tests
pub mod EncoderTests
