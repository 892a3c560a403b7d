-- ===== src/Camera/Resolution/Laws.antt =====
-- What the presets of src/camera/resolution.h guarantee to their users.
use ras_pi_zero_cam.Prelude.{◌*◌, ◌/◌, ◌%◌, ◌<◌, ◌^◌, ◌≡◌, arith}
use ras_pi_zero_cam.Camera.Resolution.{Resolution, ResolutionConfig, config_of}

-- An NV12 frame of the preset has whole chroma samples, and its byte count fits 32 bits.
pub record IsNv12 (c : ResolutionConfig) : Type 0 where
  pub even_width : c.width % 2 ≡ 0
  pub even_height : c.height % 2 ≡ 0
  pub fits : c.width * c.height * 3 / 2 < 2 ^ 32
  pub timed : 0 < c.fps

-- Every preset has even sides, a positive frame rate, and an NV12 frame whose byte count fits 32 bits.
pub config_of-IsNv12 : (r : Resolution) → IsNv12 (config_of r)
config_of-IsNv12 Resolution.low = omega arith
config_of-IsNv12 Resolution.medium = omega arith
config_of-IsNv12 Resolution.high = omega arith
