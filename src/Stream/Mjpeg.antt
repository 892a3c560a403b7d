-- ===== src/Stream/Mjpeg.antt =====
-- `MjpegServer` of src/stream/mjpeg_server.cpp: the latest JPEG, the clients of the stream, and the
-- three handlers. The HTTP library calls the content provider; its `sink` is given by the Booleans
-- that its three writes return. `published` records the JPEGs that `on_jpeg_ready` got.
pub mod Viewers
use ras_pi_zero_cam.Prelude.{
  ℕ, ◌+◌, ◌-◌, Bool, true, false, List, [], ◌∷◌, ◌++◌, leb, ltb, if◌then◌else◌,
}
use ras_pi_zero_cam.Camera.Resolution.{ResolutionConfig}

pub record Mjpeg : Type 0 where
  pub running : Bool
  pub cfg : ResolutionConfig
  pub latest_jpeg : List ℕ
  pub latest_seq : ℕ
  pub client_count : ℕ
  pub published : List (List ℕ)

-- A stream response: `prev_seq` of its provider, and what it wrote to its sink.
pub record Viewer : Type 0 where
  pub prev_seq : ℕ
  pub written : List (ℕ × List ℕ)

pub data Response : Type 0 where
  unavailable : Response
  image : List ℕ → Response

unfoldable pub start : Mjpeg → ResolutionConfig → Mjpeg × Bool
start s cfg = if s.running then (s, false) else (record s { cfg = cfg; running = true }, true)

unfoldable pub stop : Mjpeg → Mjpeg
stop s = record s { running = false }

unfoldable pub on_jpeg_ready : Mjpeg → List ℕ → Mjpeg
on_jpeg_ready s jpeg = record s {
  latest_jpeg = jpeg;
  latest_seq = s.latest_seq + 1;
  published = s.published ++ jpeg ∷ [];
}

-- The state is the one in which the wait ends, by a notification or by its timeout.
unfoldable pub wait_for_jpeg : Mjpeg → ℕ → List ℕ × ℕ
wait_for_jpeg s current_seq =
    if leb s.latest_seq current_seq then ([], current_seq) else (s.latest_jpeg, s.latest_seq)

unfoldable pub handle_stream : Mjpeg → Mjpeg × Viewer
handle_stream s =
    (record s { client_count = s.client_count + 1 }, record { prev_seq = 0; written = [] })

unfoldable pub release_stream : Mjpeg → Mjpeg
release_stream s = record s { client_count = s.client_count - 1 }

-- One call of the content provider: the result is `false` when a write failed.
abbrev pub send_part : Viewer → Bool → List ℕ × ℕ → Viewer × Bool
send_part v ok ([], seq) = (v, true)
send_part v ok (b ∷ jpeg, seq) =
    (record { prev_seq = seq; written = v.written ++ (seq, b ∷ jpeg) ∷ [] }, ok)

unfoldable pub provide : Mjpeg → Viewer → Bool → Viewer × Bool
unfolding wait_for_jpeg
provide s v ok = send_part v ok (wait_for_jpeg s v.prev_seq)

abbrev pub respond : List ℕ → Response
respond [] = unavailable
respond (b ∷ jpeg) = image (b ∷ jpeg)

unfoldable pub handle_snapshot : Mjpeg → Response
handle_snapshot s = respond s.latest_jpeg

pub record Status : Type 0 where
  pub resolution : ℕ × ℕ
  pub fps : ℕ
  pub clients : ℕ

unfoldable pub handle_status : Mjpeg → Status
handle_status s = record {
  resolution = (s.cfg.width, s.cfg.height);
  fps = s.cfg.fps;
  clients = s.client_count;
}

pub data Event : Type 0 where
  publishes : List ℕ → Event
  provides : Bool → Event

-- One viewer beside the encoder.
unfoldable pub step : Mjpeg × Viewer → Event → Mjpeg × Viewer
unfolding on_jpeg_ready provide
step (s, v) (publishes jpeg) = (on_jpeg_ready s jpeg, v)
step (s, v) (provides ok) = (s, (provide s v ok).0)

unfoldable pub run : Mjpeg × Viewer → List Event → Mjpeg × Viewer
unfolding step
run p [] = p
run p (e ∷ es) = run (step p e) es
