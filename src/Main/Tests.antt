-- ===== src/Main/Tests.antt =====
-- The commands and the main loop at concrete inputs.

use ras_pi_zero_cam.Prelude.{ℕ, ◌≡◌, ◌≢◌, refl, true, false, some, none, List, [], ◌∷◌, arith}
use ras_pi_zero_cam.Camera.Resolution.{Resolution, config_of}
use ras_pi_zero_cam.Record.Recorder
use ras_pi_zero_cam.Record.Recorder.{Launch, fresh_recorder}
use ras_pi_zero_cam.Stream.Source
use ras_pi_zero_cam.Stream.Source.{Source, Built}
use ras_pi_zero_cam.Stream.Tests.{live}
use ras_pi_zero_cam.Stream.Mjpeg.Viewers
use ras_pi_zero_cam.Main.Files
use ras_pi_zero_cam.Main.Files.{FileSystem, parts, delete_recording_file, delete_stays_in_directory}
use ras_pi_zero_cam.Main.Loop.{Pass, began, loop, Spaced, SpacedLow, loop_is_paced}
use ras_pi_zero_cam.Main.Commands.{App, file_is, record_start}

abbrev all_there : FileSystem
all_there = record { exists = λ p. true; is_regular_file = λ p. true; remove = λ p. true }

abbrev name : List ℕ
name = 97 ∷ 46 ∷ 98 ∷ []

removed :
    (delete_recording_file all_there (114 ∷ []) (97 ∷ 46 ∷ 98 ∷ [])).1
    ≡ some (114 ∷ 47 ∷ 97 ∷ 46 ∷ 98 ∷ [])
unfolding delete_recording_file Files.refused Files.has_slash Files.has_dots
removed = refl

delete_stays_in_directory_example :
    (parts (114 ∷ 47 ∷ 97 ∷ 46 ∷ 98 ∷ []) ≡ (114 ∷ []) ∷ (97 ∷ 46 ∷ 98 ∷ []) ∷ [])
    × ((name ≢ [])
        × ((name ≢ 46 ∷ 46 ∷ [])
            × ((true ≡ true)
                × ((delete_recording_file all_there (114 ∷ []) (97 ∷ 46 ∷ 98 ∷ [])).0 ≡ true))))
delete_stays_in_directory_example =
    delete_stays_in_directory all_there (114 ∷ []) (97 ∷ 46 ∷ 98 ∷ [])
      (114 ∷ 47 ∷ 97 ∷ 46 ∷ 98 ∷ []) removed

abbrev two_passes : List Pass
two_passes =
    record { now = 11000; recording = true; free_mb = 400 }
    ∷ record { now = 11250; recording = true; free_mb = 400 }
    ∷ []

loop_is_paced_example :
    let t = loop (began 0) two_passes in
    Spaced 1000 t.next_rec_push t.rec_pushes
    × (SpacedLow 10000 t.next_storage_check t.storage_warnings × Spaced 60000 t.next_stat t.stats)
loop_is_paced_example = loop_is_paced 0 two_passes (omega arith, (omega arith, tt))

abbrev app : App
app = record {
  cfg = config_of Resolution.medium;
  gst_cam = live;
  streamer = Viewers.fresh (config_of Resolution.medium);
}

abbrev granted : Launch
granted = record {
  hw_ok = true;
  parsed = true;
  parse_error = false;
  appsrc_found = true;
  bus_found = true;
  plays = true;
  clock_name = "recordings/rec_20250309_120007.mp4";
}

begins : (record_start app none "recordings/a.mp4" granted 5000).1 ≡ file_is "recordings/a.mp4"
unfolding record_start Source.start_recording Recorder.start Recorder.launch
begins = refl
