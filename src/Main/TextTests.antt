-- ===== src/Main/TextTests.antt =====
-- Names and launch lines of the whole program at concrete inputs.
use ras_pi_zero_cam.Prelude.{
  ◌<◌, ◌≡◌, refl, true, false, none, some, [], ◌∷◌, ◌++◌, map, length, arith,
}
use ras_pi_zero_cam.Prelude.Text.{codes}
use ras_pi_zero_cam.Prelude.Decimal.{print}
use ras_pi_zero_cam.Prelude.Strftime.{Tm, strftime}
use ras_pi_zero_cam.Camera.Resolution.{Resolution, ResolutionConfig, config_of}
use ras_pi_zero_cam.Gst.{elements, setting_of, factory}
use ras_pi_zero_cam.Gst.Caps.{says_size, raw_caps}
use ras_pi_zero_cam.Record.Recorder
use ras_pi_zero_cam.Record.Recorder.{Launch}
use ras_pi_zero_cam.Record.Recorder.Pipeline.{build_pipeline_str}
use ras_pi_zero_cam.Stream.Source
use ras_pi_zero_cam.Stream.Source.Pipeline.{
  build_pipeline, branches, kinds, sink_name, sink_names, quality, camera_caps,
  camera_line_reads_back,
}
use ras_pi_zero_cam.Stream.Tests.{live}
use ras_pi_zero_cam.Stream.Mjpeg.Viewers
use ras_pi_zero_cam.Main.Files.{FileSystem, delete_recording_file}
use ras_pi_zero_cam.Main.Names.{next_name, next_filename, format, named_file_is_deletable}
use ras_pi_zero_cam.Main.Names.Stamps.{next_name-injective, name_fits_buffer}
use ras_pi_zero_cam.Main.Commands.{App, file_is, record_start}
use ras_pi_zero_cam.Main.Commands.Launching.{elements_of, line_of, client_name_adds_elements}

abbrev medium : ResolutionConfig
medium = config_of Resolution.medium

camera_text :
    build_pipeline medium 85
    ≡ codes
        "libcamerasrc ! video/x-raw,format=NV12,width=1280,height=720,framerate=30/1 ! tee name=t t. ! queue max-size-buffers=2 leaky=downstream ! v4l2jpegenc extra-controls=\"controls,compression_quality=85\" ! appsink name=mjpeg_sink emit-signals=false sync=false max-buffers=2 drop=true t. ! queue max-size-buffers=4 leaky=downstream ! appsink name=rec_sink emit-signals=false sync=false max-buffers=2 drop=true"
unfolding build_pipeline print
camera_text = refl

camera_line_reads_back_example :
    let bs = branches (build_pipeline medium 85) in
    (map (map factory) bs ≡ kinds medium)
    × (map sink_name bs ≡ sink_names)
    × (map quality bs ≡ none ∷ some 85 ∷ none ∷ [])
    × (says_size (raw_caps medium) ≡ (some 1280, some 720, some 30))
    × (camera_caps bs
        ≡ setting_of (elements (build_pipeline_str true medium (codes "a.mp4"))) "appsrc" "caps")
camera_line_reads_back_example = camera_line_reads_back medium 85 (codes "a.mp4") refl

abbrev noon : Tm
noon = record { tm_year = 125; tm_mon = 2; tm_mday = 9; tm_hour = 12; tm_min = 0; tm_sec = 7 }

noon_name :
    next_name (codes "recordings") (format true) noon ≡ codes "recordings/rec_20250309_120007.mp4"
unfolding next_name print
noon_name = refl

abbrev disk : FileSystem
disk = record { exists = λ p. true; is_regular_file = λ p. true; remove = λ p. true }

named_file_is_deletable_example :
    (delete_recording_file disk (codes "recordings") (strftime (format true) noon)
      ≡ (true, some (next_name (codes "recordings") (format true) noon)))
    × (next_filename (codes "recordings") noon ≡ next_name (codes "recordings") (format true) noon)
named_file_is_deletable_example = named_file_is_deletable disk (codes "recordings") true noon

next_name-injective_example :
    (noon.tm_year ≡ noon.tm_year)
    × (noon.tm_mon ≡ noon.tm_mon)
    × (noon.tm_mday ≡ noon.tm_mday)
    × (noon.tm_hour ≡ noon.tm_hour)
    × (noon.tm_min ≡ noon.tm_min)
    × (noon.tm_sec ≡ noon.tm_sec)
next_name-injective_example =
    next_name-injective false (codes "recordings") noon noon (omega arith) (omega arith) refl

name_fits_buffer_example : length (strftime (format false) noon) < 64
name_fits_buffer_example = name_fits_buffer false noon (omega arith)

abbrev camera_app : App
camera_app = record { cfg = medium; gst_cam = live; streamer = Viewers.fresh medium }

abbrev comes_up : Launch
comes_up = record {
  hw_ok = true;
  parsed = true;
  parse_error = false;
  appsrc_found = true;
  bus_found = true;
  plays = true;
  clock_name = "recordings/rec_20250309_120007.mp4";
}

started :
    (record_start camera_app (some "a ! filesink location=b") "" comes_up 0).1
    ≡ file_is "a ! filesink location=b"
unfolding record_start Source.start_recording Recorder.start
started = refl

client_name_adds_elements_example :
    elements_of (
      line_of
        (record_start camera_app (some "a ! filesink location=b") "" comes_up 0).0.gst_cam.recorder)
    ≡ some (
        elements (build_pipeline_str true camera_app.gst_cam.cfg (codes "a"))
        ++ elements (codes "filesink location=b"))
client_name_adds_elements_example =
    client_name_adds_elements camera_app "" "a ! filesink location=b" comes_up 0 (codes "a")
      (codes "filesink location=b") refl refl started
