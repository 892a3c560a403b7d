-- ===== src/Stream/Tests.antt =====
-- The streaming side at concrete inputs.

use mathlib.Core.Bool.{false≢true}
use ras_pi_zero_cam.Prelude.{
  ℕ, ◌+◌, ◌*◌, ◌/◌, ◌%◌, ◌≡◌, ◌≢◌, ◌<◌, ◌≤◌, refl, true, false, none, List, [], ◌∷◌, ◌++◌, length,
  get_or, arith,
}
use ras_pi_zero_cam.Camera.Resolution.{Resolution, config_of}
use ras_pi_zero_cam.Record.Recorder.{Launch}
use ras_pi_zero_cam.Stream.Source.{Source, Built, Sample, eos}
use ras_pi_zero_cam.Stream.Source.Recording
use ras_pi_zero_cam.Stream.Source.Recording.{
  IsSound, Call, records, hears, stops_recording, run-IsSound,
}
use ras_pi_zero_cam.Stream.JpegMt
use ras_pi_zero_cam.Stream.JpegMt.{Event, arrives, takes, finishes, delivers}
use ras_pi_zero_cam.Stream.JpegMt.Order.{take, outputs}
use ras_pi_zero_cam.Stream.JpegMt.Delivery.{run_delivers_prefix}
use ras_pi_zero_cam.Stream.Nv12.{y_buf, uv_bufs, do_encode}
use ras_pi_zero_cam.Stream.Nv12.Bounds.{planes_hold_frame}
use ras_pi_zero_cam.Stream.Nv12.Blocks.{no_block, do_encode_feeds_rows}
use ras_pi_zero_cam.Stream.Mjpeg
use ras_pi_zero_cam.Stream.Mjpeg.{publishes, provides, handle_stream, provide}
use ras_pi_zero_cam.Stream.Mjpeg.Viewers.{Rising, fresh, no_viewer, viewer_gets_published}

abbrev stopped : Source
stopped = record {
  cfg = config_of Resolution.medium;
  jpeg_cb = true;
  pipeline = false;
  appsink = false;
  rec_sink = false;
  bus = false;
  bus_thread = false;
  rec_thread = false;
  abort_bus = false;
  abort_rec = false;
  running = false;
  recording = false;
  recorder = none;
  current_file = "";
  rec_start = 0;
  snapshot_pending = false;
  snapshot_path = "";
  terminated = false;
  delivered = [];
  saved = [];
  finished = [];
}

abbrev pub live : Source
live = record stopped {
  pipeline = true;
  appsink = true;
  rec_sink = true;
  bus = true;
  bus_thread = true;
  rec_thread = true;
  running = true;
}

abbrev pub built : Built
built = record {
  parsed = true;
  parse_error = false;
  appsink_found = true;
  rec_sink_found = true;
  bus_found = true;
  plays = true;
}

abbrev unmapped : Sample
unmapped = record { bytes = []; maps = false; opens = true }

abbrev sample : Sample
sample = record { bytes = 255 ∷ 216 ∷ []; maps = true; opens = true }

live-IsSound : IsSound live
live-IsSound = record { active = λ e. absurd (false≢true e); none_left = λ e. refl; final = tt }

abbrev granted : Launch
granted = record {
  hw_ok = true;
  parsed = true;
  parse_error = false;
  appsrc_found = true;
  bus_found = true;
  plays = true;
  clock_name = "recordings/rec_20250309_120007.mp4";
}

run-IsSound_example :
    IsSound (Recording.run live (records "a.mp4" granted 0 ∷ hears eos ∷ stops_recording ∷ []))
run-IsSound_example =
    run-IsSound live (records "a.mp4" granted 0 ∷ hears eos ∷ stops_recording ∷ []) live-IsSound

abbrev compress : ℕ → List ℕ
compress f = f ∷ []

-- The second frame is ready before the first one.
abbrev crossing : List Event
crossing = arrives 10 ∷ arrives 20 ∷ takes 0 ∷ takes 1 ∷ finishes 1 ∷ delivers ∷ finishes 0 ∷ []

run_delivers_prefix_example :
    let e = JpegMt.run compress JpegMt.fresh crossing in
    (e.sent ≡ outputs compress [] (take e.expected e.accepted)) × (e.expected ≤ length e.accepted)
run_delivers_prefix_example = run_delivers_prefix compress crossing

-- Two rows of two pixels, with a stride of 3.
abbrev pixels : List ℕ
pixels = 1 ∷ 2 ∷ 0 ∷ 3 ∷ 4 ∷ 0 ∷ 5 ∷ 6 ∷ 0 ∷ []

planes_hold_frame_example :
    (length (y_buf 2 2 3 pixels) ≡ 4)
    × ((length (uv_bufs 2 2 3 pixels).0 ≡ 1)
        × (((r c : ℕ)
              → r < 2
              → c < 2
              → get_or (y_buf 2 2 3 pixels) (r * 2 + c) 0 ≡ get_or pixels (r * 3 + c) 0)
            × ((r c : ℕ)
                → r < 1
                → c < 1
                → (get_or (uv_bufs 2 2 3 pixels).0 (r * 1 + c) 0
                    ≡ get_or pixels (6 + r * 3 + c * 2) 0)
                  × (get_or (uv_bufs 2 2 3 pixels).1 (r * 1 + c) 0
                      ≡ get_or pixels (6 + r * 3 + (c * 2 + 1)) 0))))
planes_hold_frame_example =
    planes_hold_frame 2 2 3 pixels
      (record { width = omega arith; image = omega arith; source = omega arith })

do_encode_feeds_rows_example :
    let fed = do_encode 4 18 in
    (length fed ≡ 2)
    × (((r : ℕ) → r < 18 → get_or (get_or fed (r / 16) no_block).y_rows (r % 16) 0 ≡ r * 4)
        × (((r : ℕ)
              → r < 9
              → (get_or (get_or fed (r / 8) no_block).cb_rows (r % 8) 0 ≡ r * 2)
                × (get_or (get_or fed (r / 8) no_block).cr_rows (r % 8) 0 ≡ r * 2))
            × ((b i : ℕ)
                → b < length fed
                → ((i < 16 → get_or (get_or fed b no_block).y_rows i 0 + 4 ≤ 18 * 4)
                    × ((i < 8 → get_or (get_or fed b no_block).cb_rows i 0 + 2 ≤ 9 * 2)
                        × (i < 8 → get_or (get_or fed b no_block).cr_rows i 0 + 2 ≤ 9 * 2))))))
do_encode_feeds_rows_example = do_encode_feeds_rows 4 18 (omega arith) (omega arith) (omega arith)

viewer_gets_published_example :
    let joined =
      handle_stream
        (Mjpeg.run (fresh (config_of Resolution.low), no_viewer) (publishes (7 ∷ []) ∷ [])).0 in
    let s = (Mjpeg.run joined (provides true ∷ publishes (8 ∷ []) ∷ [])).0 in
    let v = (Mjpeg.run joined (provides true ∷ publishes (8 ∷ []) ∷ [])).1 in
    Rising s.published 0 v.prev_seq v.written
    × ((v.prev_seq ≤ s.latest_seq)
        × (v.prev_seq < s.latest_seq
            → s.latest_jpeg ≢ []
            → (provide s v true).0.written ≡ v.written ++ (s.latest_seq, s.latest_jpeg) ∷ []))
viewer_gets_published_example =
    viewer_gets_published (config_of Resolution.low) (publishes (7 ∷ []) ∷ [])
      (provides true ∷ publishes (8 ∷ []) ∷ []) true
