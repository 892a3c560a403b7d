-- ===== src/Camera.antt =====
-- The capture side: src/camera/ of the repository (resolution presets, the frame queue and the
-- libcamera wrapper).
pub mod Resolution
pub mod Frame
pub mod FrameQueue
pub mod Manager
pub mod Tests
