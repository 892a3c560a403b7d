-- ===== src/Camera/Frame.antt =====
-- src/camera/frame_buffer.h: the frame handle that moves through the queues.
use ras_pi_zero_cam.Prelude.{ℕ, Bool, true, false, Option, none, some}

pub data StreamType : Type 0 where
  video still : StreamType

pub data PixelFormat : Type 0 where
  yuyv nv12 rgb888 mjpeg : PixelFormat

-- The FourCC value of a format.
abbrev pub fourcc : PixelFormat → ℕ
fourcc PixelFormat.yuyv = 0x56595559
fourcc PixelFormat.nv12 = 0x3231564E
fourcc PixelFormat.rgb888 = 0x33424752
fourcc PixelFormat.mjpeg = 0x47504A4D

-- The closures that the program stores in `Frame::release`: a capture request to hand back to the
-- camera, or a GStreamer sample to unmap and release.
pub data Release : Type 0 where
  requeue : ℕ → Release
  unmap : ℕ → Release

-- `data` is an address, `none` for a null pointer; `dma_fd` is `none` for -1.
pub record Frame : Type 0 where
  pub address : Option ℕ
  pub data_size : ℕ
  pub width : ℕ
  pub height : ℕ
  pub stride : ℕ
  pub format : PixelFormat
  pub sequence : ℕ
  pub timestamp : ℕ
  pub stream_type : StreamType
  pub dma_fd : Option ℕ
  pub release : Option Release

-- A default-constructed `Frame`.
abbrev pub empty_frame : Frame
empty_frame = record {
  address = none;
  data_size = 0;
  width = 0;
  height = 0;
  stride = 0;
  format = PixelFormat.nv12;
  sequence = 0;
  timestamp = 0;
  stream_type = StreamType.video;
  dma_fd = none;
  release = none;
}

abbrev is_some {ℓ} : {A : Type ℓ} → Option A → Bool
is_some none = false
is_some (some a) = true

pub valid : Frame → Bool
valid f = is_some f.address

pub bytes : Frame → ℕ
bytes f = f.data_size
