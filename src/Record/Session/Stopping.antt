-- ===== src/Record/Session/Stopping.antt =====
-- The end of a hardware session of src/record/recorder.cpp: `stop` while the encoder still works.
use ras_pi_zero_cam.Prelude.{
  ℕ, ◌+◌, ◌≡◌, refl, sym, ap, subst, ◌∙◌, Bool, true, false, Bool-cases, inl, inr, ◌&&◌, Option,
  none, some, List, [], ◌∷◌, ◌++◌, arith,
}
use mathlib.Core.List.{append-nil}
use ras_pi_zero_cam.Record.Recorder.{
  Recorder, RecorderState, BusMessage, error, warning, teardown_gst, end_of_stream,
  is_recording_state, on_output,
}
use ras_pi_zero_cam.Record.H264.{Encoder, OutputItem, encode, streaming, output_ends}
use ras_pi_zero_cam.Record.Session.{
  Session, encodes, push, calls_back, Event, pushes, polls, takes, outputs, stops_polling,
  stops_output, step, run, stop,
}
use ras_pi_zero_cam.Record.Session.Order.{Ordered, run-Ordered}
use ras_pi_zero_cam.Record.Session.Outputs.{
  stamps, IsInStep, AllDma, HasDma, push_frame_dma, run-IsInStep, session_pushes_outputs,
}

-- The zero and the stamps say nothing of the state.
any_state :
    (r : Recorder) (state : RecorderState) (items : List OutputItem)
    → IsInStep r items
    → IsInStep (record r { state = state }) items
any_state r state [] v = record { pushed = v.pushed; zero = v.zero }
any_state r state (x ∷ xs) v = record { pushed = v.pushed; zero = v.zero }

-- The ends of stream of a recorder.
abbrev SameEnds : Recorder → Recorder → Type 0
SameEnds r r' = (r'.eos_sent ≡ r.eos_sent) × (r'.ended ≡ r.ended)

on_output-eos : (r : Recorder) (msg : Option BusMessage) (ts : ℕ) → SameEnds r (on_output r msg ts)
unfolding on_output
on_output-eos r none ts = ground arith
on_output-eos r (some warning) ts = ground arith
on_output-eos r (some error) ts = ground arith

same_ends : (r r' : Recorder) → r' ≡ r → SameEnds r r'
same_ends r r' e = (ap (λ r. r.eos_sent) e, ap (λ r. r.ended) e)

step-eos : (s : Session) (e : Event) → HasDma e → SameEnds s.recorder (step s e).recorder
unfolding step
step-eos s (pushes frame id ok) (fd, h) = elim (Bool-cases (encodes s.recorder frame)) [
  | inl q ↦
      rw (q, step, push)
        (same_ends s.recorder _ (push_frame_dma s.recorder frame fd (encode s.encoder id ok).1 h))
  | inr q ↦ rw (q, step, push) (same_ends s.recorder _ (push_frame_dma s.recorder frame fd ok h))
]
step-eos s (polls p) h = (refl, refl)
step-eos s takes h = (refl, refl)
step-eos s (outputs msg ok) h = go s.encoder.delivering
  where
    go : (held : Option OutputItem) → SameEnds s.recorder (calls_back s held msg ok).recorder
    go none = (refl, refl)
    go (some item) = on_output-eos s.recorder msg item.timestamp_us
step-eos s stops_polling h = (refl, refl)
step-eos s stops_output h = (refl, refl)

run-eos : (s : Session) (es : List Event) → AllDma es → SameEnds s.recorder (run s es).recorder
unfolding run
run-eos s [] h = (refl, refl)
run-eos s (e ∷ es) h =
    let rest = run-eos (step s e) es h.1 in
    let first = step-eos s e h.0 in (rest.0 ∙ first.0, rest.1 ∙ first.1)

begun-Ordered : (inputs captures : ℕ) → Ordered (streaming inputs captures)
unfolding streaming
begun-Ordered inputs captures = refl

ended_output :
    (e : Encoder)
    → Ordered e
    → output_ends e ≡ true
    → e.delivering ≡ none
    → e.captured ≡ e.delivered
unfolding output_ends
ended_output e o h d = go e.output_queue refl
  where
    full : (b : Bool) → (b && false) ≡ true → ⊥
    full true k = cc
    full false k = cc

    go : (q : List OutputItem) → e.output_queue ≡ q → e.captured ≡ e.delivered
    go [] k = ground (arith, o, d, k, append-nil e.delivered)
    go (x ∷ xs) k = absurd (full e.abort_output (rw k at h))

-- The session when the encoder's threads are joined.
joined : Session → List Event → Session
joined s during =
    run (record s { recorder = record s.recorder { state = RecorderState.stopping } }) during

abbrev finished : Session → Session
finished s = record s {
  recorder = record (teardown_gst (end_of_stream (record s.recorder { hw_encoder = false }))) {
    state = RecorderState.idle;
  };
}

stop_lem :
    (s : Session) (during : List Event)
    → s.recorder.state ≡ RecorderState.recording
    → stop s during ≡ (finished (joined s during), true)
unfolding stop joined
stop_lem s during h = rw (ap is_recording_state h) refl

module _ (s : Session) (during : List Event) (dma : AllDma during) where
  joined-IsInStep :
      IsInStep s.recorder s.encoder.delivered
      → IsInStep (joined s during).recorder (joined s during).encoder.delivered
  unfolding joined
  joined-IsInStep v =
      run-IsInStep (record s { recorder = record s.recorder { state = RecorderState.stopping } })
        during dma (any_state s.recorder RecorderState.stopping s.encoder.delivered v)

  joined-Ordered : Ordered s.encoder → Ordered (joined s during).encoder
  unfolding joined
  joined-Ordered o =
      run-Ordered (record s { recorder = record s.recorder { state = RecorderState.stopping } })
        during o

  joined-eos : SameEnds s.recorder (joined s during).recorder
  unfolding joined
  joined-eos =
      run-eos (record s { recorder = record s.recorder { state = RecorderState.stopping } }) during
        dma

-- What a stopped session has done.
abbrev pub HasFinished : Session → Session × Bool → Type 0
HasFinished s (t, ok) =
    (ok ≡ true)
    × (t.recorder.pushed ≡ stamps t.recorder.cfg.fps t.encoder.captured)
    × (t.recorder.eos_sent ≡ s.recorder.eos_sent + 1)
    × (t.recorder.ended ≡ s.recorder.ended ++ stamps t.recorder.cfg.fps t.encoder.captured ∷ [])
    × (t.recorder.state ≡ RecorderState.idle)
    × (t.recorder.pipeline ≡ false)

finished-HasFinished :
    (s t : Session)
    → IsInStep t.recorder t.encoder.delivered
    → SameEnds s.recorder t.recorder
    → t.encoder.captured ≡ t.encoder.delivered
    → HasFinished s (finished t, true)
unfolding teardown_gst end_of_stream
finished-HasFinished s t v e same =
    let all = v.pushed ∙ ap (stamps t.recorder.cfg.fps) (sym same) in
    (refl, all, ap (λ n. n + 1) e.0, (λ i. e.1 i ++ all i ∷ []), refl, refl)

-- A recorder that records and has pushed nothing, with an encoder that streams, gets frames with
-- descriptors, in any order of the calls and with any answers of the driver and the bus, and is then
-- stopped while it records; by the time that the encoder's threads are joined the output thread has
-- ended and holds no item. Then `stop` answers true; the pipeline has got every buffer that the
-- encoder dequeued, once and in order, with the time since the first of them and the duration of a
-- frame at the recorder's rate; one end of stream is signalled, and when it was, all of these buffers
-- had been pushed already; and the recorder is idle with no pipeline.
pub stop_pushes_outputs :
    (r : Recorder) (inputs captures : ℕ) (es during : List Event)
    → r.pushed ≡ []
    → r.first_output ≡ true
    → AllDma es
    → AllDma during
    → let s = run (record { recorder = r; encoder = streaming inputs captures }) es in
      let out = stop s during in
      s.recorder.state ≡ RecorderState.recording
      → output_ends out.0.encoder ≡ true
      → out.0.encoder.delivering ≡ none
      → (out.1 ≡ true)
        × (out.0.recorder.pushed ≡ stamps out.0.recorder.cfg.fps out.0.encoder.captured)
        × (out.0.recorder.eos_sent ≡ s.recorder.eos_sent + 1)
        × (out.0.recorder.ended
            ≡ s.recorder.ended ++ stamps out.0.recorder.cfg.fps out.0.encoder.captured ∷ [])
        × (out.0.recorder.state ≡ RecorderState.idle)
        × (out.0.recorder.pipeline ≡ false)
stop_pushes_outputs r inputs captures es during p f h k recording ended empty =
    let begun : Session = record { recorder = r; encoder = streaming inputs captures } in
    let s = run begun es in
    let path = stop_lem s during recording in
    let order = joined-Ordered s during k (run-Ordered begun es (begun-Ordered inputs captures)) in
    subst (HasFinished s) (sym path) (
      finished-HasFinished s (joined s during)
        (joined-IsInStep s during k (session_pushes_outputs r inputs captures es p f h))
        (joined-eos s during k)
        (ended_output (joined s during).encoder order
          (subst (λ o. output_ends o.0.encoder ≡ true) path ended)
          (subst (λ o. o.0.encoder.delivering ≡ none) path empty)))
