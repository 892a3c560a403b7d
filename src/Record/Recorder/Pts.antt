-- ===== src/Record/Recorder/Pts.antt =====
-- The presentation times of a session of src/record/recorder.cpp in the software mode.
use ras_pi_zero_cam.Prelude.{
  ℕ, ◌-◌, ◌*◌, ◌/◌, ◌^◌, ◌≤◌, ◌<◌, ◌≡◌, refl, true, false, none, List, [], ◌∷◌, ◌++◌, map, ap, ◌∙◌,
  arith,
}
use mathlib.Core.List.{append_assoc, append-nil}
use ras_pi_zero_cam.Camera.Frame.{Frame}
use ras_pi_zero_cam.Record.Recorder.{
  Recorder, RecorderState, Pushed, elapsed_ns, gst_second, push_frame,
}

-- The frames of a session, in order, all accepted by the pipeline.
unfoldable pub push_all : Recorder → List Frame → Recorder
push_all r [] = r
push_all r (f ∷ fs) = push_all (push_frame r f true).0 fs

-- The recorder takes system-memory frames.
pub record TakesFrames (r : Recorder) : Type 0 where
  pub recording : r.state ≡ RecorderState.recording
  pub software : r.sw_encoder ≡ true
  pub source : r.appsrc ≡ true

-- System-memory frames no older than `t` microseconds, of a clock below 2^54 microseconds.
abbrev pub After : ℕ → List Frame → Type 0
After t [] = Unit {0}
After t (f ∷ fs) =
    (f.dma_fd ≡ none) × (t ≤ f.timestamp / 1000) × (f.timestamp / 1000 < 2 ^ 54) × After t fs

-- What a frame is pushed as, in a session whose first frame is of microsecond `t`.
abbrev pub stamped : Recorder → ℕ → Frame → Pushed
stamped r t f = record { pts = (f.timestamp / 1000 - t) * 1000; duration = gst_second / r.cfg.fps }

elapsed_exact : (ts base : ℕ) → base ≤ ts → ts < 2 ^ 54 → elapsed_ns ts base ≡ (ts - base) * 1000
elapsed_exact ts base h k = omega arith

abbrev append_pushed : Recorder → Pushed → Recorder
append_pushed r p = record r { pushed = r.pushed ++ p ∷ [] }

push_frame_later :
    (r : Recorder) (f : Frame)
    → TakesFrames r
    → r.first_output ≡ false
    → f.dma_fd ≡ none
    → r.base_ts_us ≤ f.timestamp / 1000
    → f.timestamp / 1000 < 2 ^ 54
    → (push_frame r f true).0 ≡ append_pushed r (stamped r r.base_ts_us f)
unfolding push_frame
push_frame_later r f t b d h k =
    ground (arith, t, elapsed_exact (f.timestamp / 1000) r.base_ts_us h k)

push_frame_first :
    (r : Recorder) (f : Frame)
    → TakesFrames r
    → r.first_output ≡ true
    → r.pushed ≡ []
    → f.dma_fd ≡ none
    → f.timestamp / 1000 < 2 ^ 54
    → (push_frame r f true).0 ≡ record r {
      pushed = record { pts = 0; duration = gst_second / r.cfg.fps } ∷ [];
      base_ts_us = f.timestamp / 1000;
      first_output = false;
    }
unfolding push_frame
push_frame_first r f t b e d k =
    ground (arith, t, elapsed_exact (f.timestamp / 1000) (f.timestamp / 1000))

-- Once the zero of the session is fixed.
push_all_from :
    (r : Recorder) (fs : List Frame)
    → TakesFrames r
    → r.first_output ≡ false
    → After r.base_ts_us fs
    → (push_all r fs).pushed ≡ r.pushed ++ map (stamped r r.base_ts_us) fs
unfolding push_all
push_all_from r [] t b h = ground (arith, append-nil r.pushed)
push_all_from r (f ∷ fs) t b h =
    let p = stamped r r.base_ts_us f in
    let r' = append_pushed r p in
    let ih =
      push_all_from r' fs
        (record { recording = t.recording; software = t.software; source = t.source }) b h.3 in
    ap (λ s. (push_all s fs).pushed) (push_frame_later r f t b h.0 h.1 h.2)
    ∙ ih
    ∙ append_assoc r.pushed (p ∷ []) (map (stamped r r.base_ts_us) fs)

-- A session of system-memory frames that starts at microsecond `t` pushes each frame with the time
-- since the first in nanoseconds and the duration of one frame at the preset's rate, in order; the
-- first is pushed at 0. The clock runs forward and stays below 2^54 microseconds.
pub push_all_pts :
    (r : Recorder) (f : Frame) (fs : List Frame)
    → TakesFrames r
    → r.first_output ≡ true
    → r.pushed ≡ []
    → After (f.timestamp / 1000) (f ∷ fs)
    → (push_all r (f ∷ fs)).pushed
      ≡ record { pts = 0; duration = gst_second / r.cfg.fps }
        ∷ map (stamped r (f.timestamp / 1000)) fs
unfolding push_all
push_all_pts r f fs t b e h =
    let first : Pushed = record { pts = 0; duration = gst_second / r.cfg.fps } in
    let r' = record r {
      pushed = first ∷ [];
      base_ts_us = f.timestamp / 1000;
      first_output = false;
    } in
    ap (λ s. (push_all s fs).pushed) {y = r'} (push_frame_first r f t b e h.0 h.2)
    ∙ push_all_from r' fs
        (record { recording = t.recording; software = t.software; source = t.source }) refl h.3
