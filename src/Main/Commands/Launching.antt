-- ===== src/Main/Commands/Launching.antt =====
-- The file name of a `record_start` message of src/main.cpp on its way into the launch line of
-- src/record/recorder.cpp.
use Prim.Native.String.{String}
use text.Mathlib.Text.{◌==◌ as str_eq}
use ras_pi_zero_cam.Prelude.{ℕ, ◌≡◌, ap, ◌∙◌, true, false, Option, none, some, List, ◌++◌, arith}
use ras_pi_zero_cam.Prelude.Text.{Bytes, codes}
use ras_pi_zero_cam.Gst.{elements}
use ras_pi_zero_cam.Record.Recorder
use ras_pi_zero_cam.Record.Recorder.{Recorder, Launch, fresh_recorder}
use ras_pi_zero_cam.Record.Recorder.Pipeline.{
  build_pipeline_str, launch_line, started_line, path_adds_elements,
}
use ras_pi_zero_cam.Stream.Source
use ras_pi_zero_cam.Stream.Source.{Source}
use ras_pi_zero_cam.Main.Commands.{App, file_is, record_start}

abbrev pub line_of : Option Recorder → Option Bytes
line_of none = none
line_of (some r) = some (launch_line r)

start_recording_line :
    (s : Source) (file : String) (l : Launch) (now : ℕ)
    → str_eq file "" ≡ false
    → (Source.start_recording s file l now).1 ≡ true
    → line_of (Source.start_recording s file l now).0.recorder
      ≡ some (build_pipeline_str true s.cfg (codes file))
unfolding Source.start_recording
start_recording_line s file l now h k =
    ground (arith, started_line (fresh_recorder s.cfg) s.cfg file l.clock_name true l h)

record_start_line :
    (a : App) (next_name file : String) (l : Launch) (now : ℕ)
    → str_eq file "" ≡ false
    → (record_start a (some file) next_name l now).1 ≡ file_is file
    → line_of (record_start a (some file) next_name l now).0.gst_cam.recorder
      ≡ some (build_pipeline_str true a.gst_cam.cfg (codes file))
unfolding record_start
record_start_line a next_name file l now h k =
    ground (arith, start_recording_line a.gst_cam file l now h)

abbrev pub elements_of : Option Bytes → Option (List (List Bytes))
elements_of none = none
elements_of (some line) = some (elements line)

-- When `record_start` answers with a file name of the message that holds ` ! `, the recorder that it
-- leaves was launched with a line that has the elements for the part of the name before it, and then
-- the elements that the rest of the name spells.
pub client_name_adds_elements :
    (a : App) (next_name file : String) (l : Launch) (now : ℕ) (path more : Bytes)
    → str_eq file "" ≡ false
    → codes file ≡ path ++ (codes " ! " ++ more)
    → (record_start a (some file) next_name l now).1 ≡ file_is file
    → elements_of (line_of (record_start a (some file) next_name l now).0.gst_cam.recorder)
      ≡ some (elements (build_pipeline_str true a.gst_cam.cfg path) ++ elements more)
client_name_adds_elements a next_name file l now path more h e k =
    ap elements_of (record_start_line a next_name file l now h k)
    ∙ ap (λ name. some (elements (build_pipeline_str true a.gst_cam.cfg name))) e
    ∙ ap some (path_adds_elements true a.gst_cam.cfg path more)

abbrev pub file_of : Option Recorder → Option String
file_of none = none
file_of (some r) = some r.current_file

-- A message with an empty file name starts a recording into the recorder's own default file, while the
-- answer, and what the camera says of its recording, is the empty name.
pub empty_name_hides_file :
    (a : App) (next_name : String) (l : Launch) (now : ℕ)
    → (record_start a (some "") next_name l now).1 ≡ file_is ""
    → let cam = (record_start a (some "") next_name l now).0.gst_cam in
      (file_of cam.recorder ≡ some l.clock_name) × (cam.current_file ≡ "")
unfolding record_start Source.start_recording Recorder.start
empty_name_hides_file a next_name l now h = ground arith
