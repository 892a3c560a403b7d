-- ===== src/Codec.antt =====
-- The pattern that src/record/h264_hw_encoder.cpp and src/stream/jpeg_hw_encoder.cpp share: input
-- slots that wander between a queue of free slots, the caller of `encode`, and the V4L2 driver.
pub mod Pool
pub mod Device
pub mod Opening
