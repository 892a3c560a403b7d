-- ===== src/Camera/Resolution.antt =====
-- src/camera/resolution.h: the video and still presets and how a preset is looked up.
pub mod Laws
use Prim.Native.String.{String}
use text.Mathlib.Text.{◌==◌ as str_eq}
use ras_pi_zero_cam.Prelude.{ℕ, ◌||◌, if◌then◌else◌}

pub data Resolution : Type 0 where
  low medium high : Resolution

pub record ResolutionConfig : Type 0 where
  pub width : ℕ
  pub height : ℕ
  pub fps : ℕ
  pub bitrate_kbps : ℕ
  pub label : String

-- The row of RESOLUTION_TABLE that the enumerator indexes.
abbrev pub config_of : Resolution → ResolutionConfig
config_of Resolution.low = record {
  width = 640;
  height = 480;
  fps = 30;
  bitrate_kbps = 500;
  label = "640x480@30";
}
config_of Resolution.medium = record {
  width = 1280;
  height = 720;
  fps = 30;
  bitrate_kbps = 1500;
  label = "1280x720@30";
}
config_of Resolution.high = record {
  width = 1920;
  height = 1080;
  fps = 25;
  bitrate_kbps = 3000;
  label = "1920x1080@25";
}

unfoldable pub resolution_from_string : String → Resolution
resolution_from_string s =
    if str_eq s "640x480" || str_eq s "low"
    then Resolution.low
    else if str_eq s "1920x1080" || str_eq s "high"
    then Resolution.high
    else Resolution.medium

pub data StillResolution : Type 0 where
  full medium_4k3 widescreen : StillResolution

pub record StillResolutionConfig : Type 0 where
  pub width : ℕ
  pub height : ℕ
  pub label : String

abbrev pub still_config_of : StillResolution → StillResolutionConfig
still_config_of StillResolution.full = record {
  width = 2592;
  height = 1944;
  label = "2592x1944 (5 MP)";
}
still_config_of StillResolution.medium_4k3 = record {
  width = 1296;
  height = 972;
  label = "1296x972 (1.3 MP)";
}
still_config_of StillResolution.widescreen = record {
  width = 2592;
  height = 1458;
  label = "2592x1458 (4 MP)";
}
