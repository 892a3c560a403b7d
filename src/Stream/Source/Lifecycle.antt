-- ===== src/Stream/Source/Lifecycle.antt =====
-- Starting, stopping and losing the live pipeline of src/stream/gst_camera_source.cpp.

use ras_pi_zero_cam.Prelude.{◌≡◌, ◌≢◌, refl, Bool, true, false, ◌++◌, not, ◌&&◌, arith}
use ras_pi_zero_cam.Camera.Resolution.{ResolutionConfig}
use ras_pi_zero_cam.Stream.Source.{
  Source, Built, BusMessage, error, eos, warning, finish, start, stop, set_resolution, destroy,
  on_bus_message,
}

-- A running source holds its whole pipeline and both threads; one that was stopped holds nothing.
pub record IsLive (s : Source) : Type 0 where
  pub running : s.running ≡ true
  pub pipeline : s.pipeline ≡ true
  pub appsink : s.appsink ≡ true
  pub rec_sink : s.rec_sink ≡ true
  pub bus : s.bus ≡ true
  pub bus_thread : s.bus_thread ≡ true
  pub rec_thread : s.rec_thread ≡ true
  pub alive : s.terminated ≡ false

pub record IsStopped (s : Source) : Type 0 where
  pub running : s.running ≡ false
  pub pipeline : s.pipeline ≡ false
  pub appsink : s.appsink ≡ false
  pub rec_sink : s.rec_sink ≡ false
  pub bus : s.bus ≡ false
  pub bus_thread : s.bus_thread ≡ false
  pub rec_thread : s.rec_thread ≡ false
  pub alive : s.terminated ≡ false

-- The pipeline parses without an error object, has its named elements, and plays.
abbrev pub comes_up : Built → Bool
comes_up b =
    b.parsed
    && (not b.parse_error && (b.appsink_found && (b.rec_sink_found && (b.bus_found && b.plays))))

-- `start` on a stopped source answers whether the pipeline comes up, and makes the source live then.
pub source_start_outcome :
    (s : Source) (b : Built)
    → IsStopped s
    → let (s', ok) = start s b in (ok ≡ comes_up b) × (ok ≡ true → IsLive s')
unfolding start
source_start_outcome s b v = ground arith

-- `stop` on a live source releases and joins everything, and finishes a recording that runs.
pub source_stop_outcome :
    (s : Source)
    → IsLive s
    → IsStopped (stop s)
      × (s.recording ≡ true → (stop s).finished ≡ s.finished ++ finish s.recorder)
      × (s.recording ≡ false → (stop s).finished ≡ s.finished)
unfolding stop
source_stop_outcome s v = ground arith

-- `set_resolution` on a live source finishes the recording, and is live with the new preset exactly
-- when the new pipeline comes up.
pub set_resolution_outcome :
    (s : Source) (cfg : ResolutionConfig) (b : Built)
    → IsLive s
    → let (s', ok) = set_resolution s cfg b in
      (ok ≡ comes_up b)
      × (ok ≡ true → IsLive s')
      × (s'.cfg ≡ cfg)
      × (s'.terminated ≡ false)
      × (s.recording ≡ true
          → (s'.recording ≡ false) × (s'.finished ≡ s.finished ++ finish s.recorder))
unfolding set_resolution
set_resolution_outcome s cfg b v = ground arith

-- After an error or the end of the stream `stop` does nothing: the threads stay joinable, a running
-- recording is never finished, and the destructor then ends the process, as does a change of
-- resolution whose pipeline comes up.
pub lost_pipeline_terminates :
    (s : Source) (msg : BusMessage) (cfg : ResolutionConfig) (b : Built)
    → IsLive s
    → msg ≢ warning
    → comes_up b ≡ true
    → let lost = on_bus_message s msg in
      (stop lost ≡ lost)
      × (lost.recording ≡ s.recording)
      × (lost.finished ≡ s.finished)
      × ((destroy lost).terminated ≡ true)
      × ((set_resolution lost cfg b).0.terminated ≡ true)
unfolding set_resolution destroy on_bus_message
lost_pipeline_terminates s error cfg b v w up = ground arith
lost_pipeline_terminates s eos cfg b v w up = ground arith
lost_pipeline_terminates s warning cfg b v w up = absurd (w refl)
