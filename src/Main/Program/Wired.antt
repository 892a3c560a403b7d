-- ===== src/Main/Program/Wired.antt =====
-- What the camera source shows and the HTTP server publishes while the program of src/main.cpp runs.
use Prim.Native.String.{String}
use ras_pi_zero_cam.Prelude.{
  ℕ, ◌≡◌, refl, sym, ap, subst, ◌∙◌, Bool, true, false, Option, List, [], ◌∷◌, ◌++◌, ◌&&◌, not,
  if◌then◌else◌, arith,
}
use ras_pi_zero_cam.Camera.Resolution.{ResolutionConfig, config_of}
use ras_pi_zero_cam.Camera.Frame.{Frame}
use ras_pi_zero_cam.Record.Recorder.{Launch}
use ras_pi_zero_cam.Stream.Source
use ras_pi_zero_cam.Stream.Source.{Source, Built, Sample, BusMessage}
use ras_pi_zero_cam.Stream.Mjpeg.{Mjpeg, on_jpeg_ready}
use ras_pi_zero_cam.Main.Commands
use ras_pi_zero_cam.Main.Commands.{App}
use ras_pi_zero_cam.Main.Program.{
  Program, Event, serve, serve_all, receive, take_snapshot, step, run,
}
use ras_pi_zero_cam.Main.Program.Settled.{
  IsSettled, set_resolution-IsSettled, start_recording-IsSettled, stop_recording-IsSettled,
  on_jpeg_sample-IsSettled, on_jpeg_samples-IsSettled, drain_sample-IsSettled,
}

-- What the camera callback has shown was published in the same order.
pub record IsWired (a : App) : Type 0 where
  pub settled : IsSettled a.gst_cam
  pub shown : a.streamer.published ≡ a.gst_cam.delivered

-- A command that changes the source only.
abbrev Quietly : Source → Source → Type 0
Quietly s s' = s'.delivered ≡ s.delivered

set_resolution_quiet :
    (s : Source) (cfg : ResolutionConfig) (b : Built) → Quietly s (Source.set_resolution s cfg b).0
unfolding Source.set_resolution
set_resolution_quiet s cfg b = ground arith

start_recording_quiet :
    (s : Source) (path : String) (l : Launch) (now : ℕ)
    → Quietly s (Source.start_recording s path l now).0
unfolding Source.start_recording
start_recording_quiet s path l now = ground arith

stop_recording_quiet : (s : Source) → Quietly s (Source.stop_recording s).0
unfolding Source.stop_recording
stop_recording_quiet s = ground arith

drain_sample_quiet :
    (s : Source) (frame : Frame) (maps accepted : Bool)
    → Quietly s (Source.drain_sample s frame maps accepted).0
unfolding Source.drain_sample
drain_sample_quiet s frame maps accepted = ground arith

sample_delivers :
    (s : Source) (sample : Sample)
    → ((Source.on_jpeg_sample s sample).delivered
        ≡ (if sample.maps && s.jpeg_cb then s.delivered ++ sample.bytes ∷ [] else s.delivered))
      × ((Source.on_jpeg_sample s sample).jpeg_cb ≡ s.jpeg_cb)
unfolding Source.on_jpeg_sample
sample_delivers s sample = ground arith

serve_publishes :
    (m : Mjpeg) (jpeg_cb : Bool) (sample : Sample)
    → (serve m jpeg_cb sample).published
      ≡ (if sample.maps && jpeg_cb then m.published ++ sample.bytes ∷ [] else m.published)
unfolding serve on_jpeg_ready
serve_publishes m jpeg_cb sample = ground arith

-- A sample that maps is the next one that the server publishes.
pub receive_publishes :
    (a : App) (sample : Sample)
    → IsWired a
    → sample.maps ≡ true
    → (receive a sample).streamer.published ≡ a.streamer.published ++ sample.bytes ∷ []
unfolding receive
receive_publishes a sample w h =
    serve_publishes a.streamer a.gst_cam.jpeg_cb sample ∙ rw (h, w.settled.calls_back) refl

-- A sample reaches the server as it reaches the callback.
serve_shown :
    (m : Mjpeg) (s : Source) (sample : Sample)
    → m.published ≡ s.delivered
    → (serve m s.jpeg_cb sample).published ≡ (Source.on_jpeg_sample s sample).delivered
serve_shown m s sample h =
    serve_publishes m s.jpeg_cb sample
    ∙ ap (λ seen. if sample.maps && s.jpeg_cb then seen ++ sample.bytes ∷ [] else seen) h
    ∙ sym (sample_delivers s sample).0

serve_all_shown :
    (m : Mjpeg) (s : Source) (samples : List Sample)
    → m.published ≡ s.delivered
    → (serve_all m s.jpeg_cb samples).published ≡ (Source.on_jpeg_samples s samples).delivered
unfolding serve_all Source.on_jpeg_samples
serve_all_shown m s [] h = h
serve_all_shown m s (sample ∷ rest) h =
    ap (λ cb. (serve_all (serve m s.jpeg_cb sample) cb rest).published)
      (sym (sample_delivers s sample).1)
    ∙ serve_all_shown (serve m s.jpeg_cb sample) (Source.on_jpeg_sample s sample) rest
        (serve_shown m s sample h)

pub receive-IsWired : (a : App) (sample : Sample) → IsWired a → IsWired (receive a sample)
unfolding receive
receive-IsWired a sample v = record {
  settled = on_jpeg_sample-IsSettled a.gst_cam sample v.settled;
  shown = serve_shown a.streamer a.gst_cam sample v.shown;
}

-- What `take_snapshot` returns, after the samples that arrive while it waits led to `after`.
abbrev answered : Source → Source → Source × Bool
answered s after =
    if not s.running
    then (s, false)
    else if after.snapshot_pending
    then (record after { snapshot_pending = false }, false)
    else (after, true)

answered-IsSettled :
    (s after : Source) → IsSettled s → IsSettled after → IsSettled (answered s after).0
answered-IsSettled s after v w = ground arith

answered_delivered :
    (s after : Source)
    → (answered s after).0.delivered ≡ (if s.running then after.delivered else s.delivered)
answered_delivered s after = ground arith

either :
    (b : Bool) (m m' : Mjpeg) (x y : List (List ℕ))
    → m.published ≡ x
    → m'.published ≡ y
    → (if b then m else m').published ≡ (if b then x else y)
either true m m' x y p q = p
either false m m' x y p q = q

take_snapshot-IsWired :
    (a : App) (filename : Option String) (next_name : String) (samples : List Sample)
    → IsWired a
    → IsWired (take_snapshot a filename next_name samples)
unfolding take_snapshot Commands.snapshot Source.take_snapshot
take_snapshot-IsWired a filename next_name samples v = record {
  settled = answered-IsSettled s after v.settled (on_jpeg_samples-IsSettled waiting samples calm);
  shown =
      either s.running (serve_all a.streamer s.jpeg_cb samples) a.streamer after.delivered
        s.delivered (serve_all_shown a.streamer waiting samples v.shown) v.shown
      ∙ sym (answered_delivered s after);
}
  where
    s : Source
    s = a.gst_cam

    waiting : Source
    waiting = record s {
      snapshot_path = Commands.name_or filename next_name;
      snapshot_pending = true;
    }

    after : Source
    after = Source.on_jpeg_samples waiting samples

    calm : IsSettled waiting
    calm = record {
      bus_thread = v.settled.bus_thread;
      rec_thread = v.settled.rec_thread;
      alive = v.settled.alive;
      recording = v.settled.recording;
      calls_back = v.settled.calls_back;
    }

picked-IsWired :
    (b : Bool) (x y : App × Commands.Reply)
    → IsWired x.0
    → IsWired y.0
    → IsWired (if b then x else y).0
picked-IsWired true x y v w = v
picked-IsWired false x y v w = w

moved-IsWired :
    (a : App) (cam : Source) (cfg : ResolutionConfig)
    → IsWired a
    → IsSettled cam
    → Quietly a.gst_cam cam
    → IsWired (record a { cfg = cfg; gst_cam = cam })
moved-IsWired a cam cfg v k q = record { settled = k; shown = v.shown ∙ sym q }

record_start-IsWired :
    (a : App) (filename : Option String) (next_name : String) (l : Launch) (now : ℕ)
    → IsWired a
    → IsWired (Commands.record_start a filename next_name l now).0
unfolding Commands.record_start
record_start-IsWired a filename next_name l now v =
    let file = Commands.name_or filename next_name in
    picked-IsWired a.gst_cam.recording _ _ v (
      moved-IsWired a (Source.start_recording a.gst_cam file l now).0 a.cfg v
        (start_recording-IsSettled a.gst_cam file l now v.settled)
        (start_recording_quiet a.gst_cam file l now))

record_stop-IsWired : (a : App) (now : ℕ) → IsWired a → IsWired (Commands.record_stop a now).0
unfolding Commands.record_stop
record_stop-IsWired a now v = picked-IsWired (not a.gst_cam.recording) _ _ v (
    moved-IsWired a (Source.stop_recording a.gst_cam).0 a.cfg v
      (stop_recording-IsSettled a.gst_cam v.settled) (stop_recording_quiet a.gst_cam))

record_restart-IsWired :
    (a : App) (next_name : String) (l : Launch) (now : ℕ)
    → IsWired a
    → IsWired (Commands.record_restart a next_name l now).0
unfolding Commands.record_restart
record_restart-IsWired a next_name l now v =
    let idle = (Source.stop_recording a.gst_cam).0 in
    moved-IsWired a (Source.start_recording idle next_name l now).0 a.cfg v
      (start_recording-IsSettled idle next_name l now
        (stop_recording-IsSettled a.gst_cam v.settled))
      (start_recording_quiet idle next_name l now ∙ stop_recording_quiet a.gst_cam)

-- The bus reported neither an error nor the end of the stream.
abbrev pub Harmless : Event → Type 0
Harmless (Event.bus_message msg) = msg ≡ BusMessage.warning
Harmless v = Unit {0}

abbrev pub AllHarmless : List Event → Type 0
AllHarmless [] = Unit {0}
AllHarmless (v ∷ vs) = Harmless v × AllHarmless vs

warned :
    (s : Source) (msg : BusMessage) → msg ≡ BusMessage.warning → Source.on_bus_message s msg ≡ s
unfolding Source.on_bus_message
warned s msg e = ap (Source.on_bus_message s) e

step-IsWired : (p : Program) (v : Event) → Harmless v → IsWired p.app → IsWired (step p v).app
unfolding step Commands.set_resolution
step-IsWired p Event.signal h w = w
step-IsWired p (Event.set_resolution x y b) h w =
    let cfg = config_of (Commands.preset x y) in
    moved-IsWired p.app (Source.set_resolution p.app.gst_cam cfg b).0 cfg w
      (set_resolution-IsSettled p.app.gst_cam cfg b w.settled)
      (set_resolution_quiet p.app.gst_cam cfg b)
step-IsWired p (Event.record_start filename next_name l now) h w =
    record_start-IsWired p.app filename next_name l now w
step-IsWired p (Event.record_stop now) h w = record_stop-IsWired p.app now w
step-IsWired p (Event.record_restart next_name l now) h w =
    record_restart-IsWired p.app next_name l now w
step-IsWired p (Event.snapshot filename next_name samples) h w =
    take_snapshot-IsWired p.app filename next_name samples w
step-IsWired p (Event.sample_arrives sample) h w = receive-IsWired p.app sample w
step-IsWired p (Event.drain frame maps accepted) h w =
    moved-IsWired p.app (Source.drain_sample p.app.gst_cam frame maps accepted).0 p.app.cfg w
      (drain_sample-IsSettled p.app.gst_cam frame maps accepted w.settled)
      (drain_sample_quiet p.app.gst_cam frame maps accepted)
step-IsWired p (Event.bus_message msg) h w =
    let same = warned p.app.gst_cam msg h in
    moved-IsWired p.app (Source.on_bus_message p.app.gst_cam msg) p.app.cfg w
      (subst IsSettled (sym same) w.settled) (ap (λ s. s.delivered) same)

pub run-IsWired :
    (p : Program) (vs : List Event) → AllHarmless vs → IsWired p.app → IsWired (run p vs).app
unfolding run
run-IsWired p [] h w = w
run-IsWired p (v ∷ vs) h w = run-IsWired (step p v) vs h.1 (step-IsWired p v h.0 w)
