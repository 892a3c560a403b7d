-- ===== src/Record/Session/Outputs.antt =====
-- The encoded buffers of a hardware session of src/record/recorder.cpp, on their way into the pipeline.
use ras_pi_zero_cam.Prelude.{
  ℕ, ◌≡◌, refl, sym, ap, subst, ◌∙◌, Bool, true, false, Bool-cases, inl, inr, not, ◌&&◌, Option,
  none, some, List, [], ◌∷◌, ◌++◌, ◌/◌, if◌then◌else◌, arith,
}
use ras_pi_zero_cam.Camera.Frame.{Frame}
use ras_pi_zero_cam.Record.Recorder.{
  Recorder, Pushed, BusMessage, error, warning, elapsed_ns, gst_second, is_recording_state,
  push_frame, on_output,
}
use ras_pi_zero_cam.Record.H264.{OutputItem, encode, handed_on, deliver, streaming}
use ras_pi_zero_cam.Record.Session.{
  Session, encodes, push, calls_back, Event, pushes, polls, takes, outputs, stops_polling,
  stops_output, step, run,
}
use ras_pi_zero_cam.Record.Session.Order.{
  encode-outputs, poll_pass-delivered, next_output-delivered,
}

-- What the buffers of a session are pushed as, with the rate `fps`: the time of each since the first
-- one, and the duration of a frame.
abbrev pub stamps_from : ℕ → ℕ → List OutputItem → List Pushed
stamps_from fps base [] = []
stamps_from fps base (item ∷ items) =
    record { pts = elapsed_ns item.timestamp_us base; duration = gst_second / fps }
    ∷ stamps_from fps base items

abbrev pub stamps : ℕ → List OutputItem → List Pushed
stamps fps [] = []
stamps fps (item ∷ items) = stamps_from fps item.timestamp_us (item ∷ items)

-- The zero of the session is that of the first buffer.
abbrev pub HasZero : Recorder → List OutputItem → Type 0
HasZero r [] = r.first_output ≡ true
HasZero r (item ∷ items) = (r.first_output ≡ false) × (r.base_ts_us ≡ item.timestamp_us)

pub record IsInStep (r : Recorder) (items : List OutputItem) : Type 0 where
  pub pushed : r.pushed ≡ stamps r.cfg.fps items
  pub zero : HasZero r items

stamps_from-append :
    (fps base : ℕ) (xs ys : List OutputItem)
    → stamps_from fps base (xs ++ ys) ≡ stamps_from fps base xs ++ stamps_from fps base ys
stamps_from-append fps base [] ys = refl
stamps_from-append fps base (x ∷ xs) ys =
    ap (◌∷◌ (record { pts = elapsed_ns x.timestamp_us base; duration = gst_second / fps }))
      (stamps_from-append fps base xs ys)

-- The callback stamps the buffer and touches no preset.
on_output-pushed :
    (r : Recorder) (msg : Option BusMessage) (ts : ℕ)
    → let base = if r.first_output then ts else r.base_ts_us in
      let out = on_output r msg ts in
      (out.pushed
        ≡ r.pushed ++ record { pts = elapsed_ns ts base; duration = gst_second / r.cfg.fps } ∷ [])
      × (out.first_output ≡ false)
      × (out.base_ts_us ≡ base)
      × (out.cfg ≡ r.cfg)
unfolding on_output
on_output-pushed r none ts = ground arith
on_output-pushed r (some warning) ts = ground arith
on_output-pushed r (some error) ts = ground arith

-- A frame with a descriptor leaves the recorder as it is.
pub push_frame_dma :
    (r : Recorder) (frame : Frame) (fd : ℕ) (accepted : Bool)
    → frame.dma_fd ≡ some fd
    → (push_frame r frame accepted).0 ≡ r
unfolding push_frame
push_frame_dma r frame fd accepted h =
    rw h (go (not (is_recording_state r.state)) (not r.sw_encoder && not r.hw_encoder))
  where
    go :
        (a b : Bool)
        → (let out : Recorder × Bool =
              if a then (r, false) else if b then (r, false) else (r, accepted) in
            out.0)
          ≡ r
    go true b = refl
    go false true = refl
    go false false = refl

-- The frames of the session have descriptors.
abbrev pub HasDma : Event → Type 0
HasDma (pushes frame id ok) = (fd : ℕ) × (frame.dma_fd ≡ some fd)
HasDma e = Unit {0}

abbrev pub AllDma : List Event → Type 0
AllDma [] = Unit {0}
AllDma (e ∷ es) = HasDma e × AllDma es

moved :
    {r r' : Recorder} {items items' : List OutputItem}
    → r' ≡ r
    → items' ≡ items
    → IsInStep r items
    → IsInStep r' items'
moved {r} {r'} {items} {items'} e d v =
    subst (λ x. IsInStep x items') (sym e) (subst (IsInStep r) (sym d) v)

stamped_next :
    (r : Recorder) (msg : Option BusMessage) (item : OutputItem) (items : List OutputItem)
    → IsInStep r items
    → IsInStep (on_output r msg item.timestamp_us) (items ++ item ∷ [])
stamped_next r msg item [] v =
    let out = on_output-pushed r msg item.timestamp_us in
    record { pushed = ground (arith, v.pushed, v.zero); zero = ground (arith, v.zero) }
stamped_next r msg item (x ∷ items) v =
    let out = on_output-pushed r msg item.timestamp_us in
    let fps : (on_output r msg item.timestamp_us).cfg.fps ≡ r.cfg.fps = ap (λ c. c.fps) out.3 in
    record {
      pushed =
          out.0
          ∙ (λ i.
              v.pushed i
              ++ record {
                pts =
                    elapsed_ns item.timestamp_us
                      (if v.zero.0 i then item.timestamp_us else v.zero.1 i);
                duration = gst_second / r.cfg.fps;
              }
                ∷ [])
          ∙ sym (stamps_from-append r.cfg.fps x.timestamp_us (x ∷ items) (item ∷ []))
          ∙ ap (λ f. stamps_from f x.timestamp_us (x ∷ items ++ item ∷ [])) (sym fps);
      zero = ground (arith, v.zero);
    }

calls_back-IsInStep :
    (s : Session) (held : Option OutputItem) (msg : Option BusMessage) (ok : Bool)
    → s.encoder.delivering ≡ held
    → IsInStep s.recorder s.encoder.delivered
    → IsInStep (calls_back s held msg ok).recorder (calls_back s held msg ok).encoder.delivered
unfolding deliver
calls_back-IsInStep s none msg ok h v = v
calls_back-IsInStep s (some item) msg ok h v =
    moved refl (ap (λ held. (handed_on s.encoder held ok).delivered) h)
      (stamped_next s.recorder msg item s.encoder.delivered v)

step-IsInStep :
    (s : Session) (e : Event)
    → HasDma e
    → IsInStep s.recorder s.encoder.delivered
    → IsInStep (step s e).recorder (step s e).encoder.delivered
unfolding step
step-IsInStep s (pushes frame id ok) (fd, h) v = elim (Bool-cases (encodes s.recorder frame)) [
  | inl q ↦
      rw (q, step, push)
        (moved (push_frame_dma s.recorder frame fd (encode s.encoder id ok).1 h)
          (ap (λ o. o.1) (encode-outputs s.encoder id ok)) v)
  | inr q ↦ rw (q, step, push) (moved (push_frame_dma s.recorder frame fd ok h) refl v)
]
step-IsInStep s (polls p) h v = moved refl (poll_pass-delivered s.encoder p) v
step-IsInStep s takes h v = moved refl (next_output-delivered s.encoder s.encoder.delivering) v
step-IsInStep s (outputs msg ok) h v = calls_back-IsInStep s s.encoder.delivering msg ok refl v
step-IsInStep s stops_polling h v = v
step-IsInStep s stops_output h v = v

pub run-IsInStep :
    (s : Session) (es : List Event)
    → AllDma es
    → IsInStep s.recorder s.encoder.delivered
    → IsInStep (run s es).recorder (run s es).encoder.delivered
unfolding run
run-IsInStep s [] h v = v
run-IsInStep s (e ∷ es) h v = run-IsInStep (step s e) es h.1 (step-IsInStep s e h.0 v)

pub begun-IsInStep :
    (r : Recorder) (inputs captures : ℕ)
    → r.pushed ≡ []
    → r.first_output ≡ true
    → IsInStep r (streaming inputs captures).delivered
unfolding streaming
begun-IsInStep r inputs captures p f = record { pushed = p; zero = f }

-- At any time of a session of frames with descriptors, whatever the order of the calls and the answers
-- of the driver and the bus, the pipeline has got one buffer for each one that the encoder handed to
-- the callback, in order.
pub session_pushes_outputs :
    (r : Recorder) (inputs captures : ℕ) (es : List Event)
    → r.pushed ≡ []
    → r.first_output ≡ true
    → AllDma es
    → let s = run (record { recorder = r; encoder = streaming inputs captures }) es in
      IsInStep s.recorder s.encoder.delivered
session_pushes_outputs r inputs captures es p f h =
    run-IsInStep (record { recorder = r; encoder = streaming inputs captures }) es h
      (begun-IsInStep r inputs captures p f)
