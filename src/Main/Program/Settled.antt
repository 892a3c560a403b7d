-- ===== src/Main/Program/Settled.antt =====
-- The threads and the recording of the camera source under the calls of src/main.cpp.
use Prim.Native.String.{String}
use ras_pi_zero_cam.Prelude.{ℕ, ◌≡◌, Bool, true, false, List, [], ◌∷◌, ◌&&◌, not, arith}
use ras_pi_zero_cam.Camera.Resolution.{ResolutionConfig}
use ras_pi_zero_cam.Camera.Frame.{Frame}
use ras_pi_zero_cam.Record.Recorder.{Launch}
use ras_pi_zero_cam.Stream.Source
use ras_pi_zero_cam.Stream.Source.{Source, Built, Sample, BusMessage}

-- The threads of the camera source are joinable exactly while it runs, it records only then, and its
-- JPEG callback is set.
pub record IsSettled (s : Source) : Type 0 where
  pub bus_thread : s.bus_thread ≡ s.running
  pub rec_thread : s.rec_thread ≡ s.running
  pub alive : s.terminated ≡ false
  pub recording : (s.recording && not s.running) ≡ false
  pub calls_back : s.jpeg_cb ≡ true

pub set_resolution-IsSettled :
    (s : Source) (cfg : ResolutionConfig) (b : Built)
    → IsSettled s
    → IsSettled (Source.set_resolution s cfg b).0
unfolding Source.set_resolution
set_resolution-IsSettled s cfg b v = ground arith

pub start_recording-IsSettled :
    (s : Source) (path : String) (l : Launch) (now : ℕ)
    → IsSettled s
    → IsSettled (Source.start_recording s path l now).0
unfolding Source.start_recording
start_recording-IsSettled s path l now v = ground arith

pub stop_recording-IsSettled : (s : Source) → IsSettled s → IsSettled (Source.stop_recording s).0
unfolding Source.stop_recording
stop_recording-IsSettled s v = ground arith

pub on_jpeg_sample-IsSettled :
    (s : Source) (sample : Sample) → IsSettled s → IsSettled (Source.on_jpeg_sample s sample)
unfolding Source.on_jpeg_sample
on_jpeg_sample-IsSettled s sample v = ground arith

pub on_jpeg_samples-IsSettled :
    (s : Source) (samples : List Sample)
    → IsSettled s
    → IsSettled (Source.on_jpeg_samples s samples)
unfolding Source.on_jpeg_samples
on_jpeg_samples-IsSettled s [] v = v
on_jpeg_samples-IsSettled s (sample ∷ rest) v =
    on_jpeg_samples-IsSettled (Source.on_jpeg_sample s sample) rest
      (on_jpeg_sample-IsSettled s sample v)

pub drain_sample-IsSettled :
    (s : Source) (frame : Frame) (maps accepted : Bool)
    → IsSettled s
    → IsSettled (Source.drain_sample s frame maps accepted).0
unfolding Source.drain_sample
drain_sample-IsSettled s frame maps accepted v = ground arith
