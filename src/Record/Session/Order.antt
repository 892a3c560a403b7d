-- ===== src/Record/Session/Order.antt =====
-- What the events of a session of src/record/recorder.cpp do to the outputs of its encoder.
use mathlib.Core.List.{append_assoc}
use ras_pi_zero_cam.Prelude.{
  ℕ, ◌≡◌, refl, sym, ap, subst, ◌∙◌, Bool, true, false, Bool-cases, inl, inr, Option, none, some,
  List, [], ◌∷◌, ◌++◌, arith,
}
use ras_pi_zero_cam.Codec.Pool.{Pool, take_slot}
use ras_pi_zero_cam.Record.Recorder.{BusMessage}
use ras_pi_zero_cam.Record.H264
use ras_pi_zero_cam.Record.H264.{
  Encoder, OutputItem, Captured, Polled, item_of, claimed, claim, submit, emptied, encode,
  return_input, take_capture, returned, after_poll, drained, poll_pass, popped, take_output,
  handed_on, deliver, streaming,
}
use ras_pi_zero_cam.Record.H264.Buffers.{in_hand}
use ras_pi_zero_cam.Record.Session.{
  Session, encodes, push, calls_back, next_output, Event, pushes, polls, takes, outputs,
  stops_polling, stops_output, step, run,
}

-- Dequeued, handed to the callback, in the thread's hand, and waiting.
abbrev pub Outputs : Type 0
Outputs = List OutputItem × List OutputItem × Option OutputItem × List OutputItem

abbrev pub outputs_of : Encoder → Outputs
outputs_of e = (e.captured, e.delivered, e.delivering, e.output_queue)

claimed-outputs :
    (e : Encoder) (id : ℕ) (o : Option (ℕ × Pool)) → outputs_of (claimed e id o).0 ≡ outputs_of e
claimed-outputs e id none = refl
claimed-outputs e id (some (slot, pool)) = refl

emptied-outputs : (e : Encoder) (o : Option ℕ) → outputs_of (emptied e o) ≡ outputs_of e
emptied-outputs e none = refl
emptied-outputs e (some slot) = refl

submit-outputs : (e : Encoder) (ok : Bool) → outputs_of (submit e ok).0 ≡ outputs_of e
unfolding submit
submit-outputs e true = refl
submit-outputs e false = emptied-outputs e e.pool.filling

claim-outputs : (e : Encoder) (id : ℕ) → outputs_of (claim e id).0 ≡ outputs_of e
unfolding claim
claim-outputs e id = claimed-outputs e id (take_slot e.pool)

pub encode-outputs :
    (e : Encoder) (id : ℕ) (ok : Bool) → outputs_of (encode e id ok).0 ≡ outputs_of e
unfolding encode
encode-outputs e id ok = elim (Bool-cases (claim e id).1) [
  | inl q ↦ rw q (submit-outputs (claim e id).0 ok ∙ claim-outputs e id)
  | inr q ↦ rw q (claim-outputs e id)
]

returned-outputs : (e : Encoder) (o : Option ℕ) → outputs_of (returned e o) ≡ outputs_of e
unfolding return_input
returned-outputs e none = refl
returned-outputs e (some slot) = refl

-- The callback saw all that was dequeued, in order, but for what is still on its way.
abbrev pub InOrder : Outputs → Type 0
InOrder o = o.0 ≡ o.1 ++ (in_hand o.2 ++ o.3)

abbrev pub Ordered : Encoder → Type 0
Ordered e = InOrder (outputs_of e)

same_outputs : {o o' : Outputs} → o' ≡ o → InOrder o → InOrder o'
same_outputs e v = subst InOrder (sym e) v

taken-Ordered : (e : Encoder) (o : Option Captured) → Ordered e → Ordered (H264.taken e o)
unfolding take_capture
taken-Ordered e none v = v
taken-Ordered e (some b) v =
    ap (λ xs. xs ++ item_of b ∷ []) v
    ∙ append_assoc e.delivered (in_hand e.delivering ++ e.output_queue) (item_of b ∷ [])
    ∙ ap (◌++◌ e.delivered) (append_assoc (in_hand e.delivering) e.output_queue (item_of b ∷ []))

after_poll-Ordered : (e : Encoder) (p : Polled) → Ordered e → Ordered (after_poll e p).0
after_poll-Ordered e Polled.interrupted v = v
after_poll-Ordered e Polled.failed v = v
after_poll-Ordered e Polled.idle v = v
after_poll-Ordered e (Polled.readable input capture) v =
    taken-Ordered (returned e input) capture (same_outputs (returned-outputs e input) v)

poll_pass-Ordered : (e : Encoder) (p : Polled) → Ordered e → Ordered (poll_pass e p).0
unfolding poll_pass
poll_pass-Ordered e p v = elim (Bool-cases (drained e)) [
  | inl q ↦ rw q v
  | inr q ↦ rw q (after_poll-Ordered e p v)
]

next_output-Ordered :
    (e : Encoder) (held : Option OutputItem)
    → e.delivering ≡ held
    → Ordered e
    → Ordered (next_output e held)
unfolding take_output
next_output-Ordered e (some item) h v = v
next_output-Ordered e none h v = go e.output_queue refl
  where
    go : (q : List OutputItem) → e.output_queue ≡ q → Ordered (popped e q)
    go [] d = v
    go (item ∷ q) d = ground (arith, v, h, d)

handed_on-Ordered :
    (e : Encoder) (held : Option OutputItem) (ok : Bool)
    → e.delivering ≡ held
    → Ordered e
    → Ordered (handed_on e held ok)
handed_on-Ordered e none ok h v = v
handed_on-Ordered e (some item) ok h v =
    v
    ∙ ap (λ held. e.delivered ++ (in_hand held ++ e.output_queue)) h
    ∙ sym (append_assoc e.delivered (item ∷ []) e.output_queue)

calls_back-Ordered :
    (s : Session) (held : Option OutputItem) (msg : Option BusMessage) (ok : Bool)
    → s.encoder.delivering ≡ held
    → Ordered s.encoder
    → Ordered (calls_back s held msg ok).encoder
unfolding deliver
calls_back-Ordered s none msg ok h v = v
calls_back-Ordered s (some item) msg ok h v =
    handed_on-Ordered s.encoder s.encoder.delivering ok refl v

step-Ordered : (s : Session) (e : Event) → Ordered s.encoder → Ordered (step s e).encoder
unfolding step
step-Ordered s (pushes frame id ok) v = elim (Bool-cases (encodes s.recorder frame)) [
  | inl q ↦ rw (q, step, push) (same_outputs (encode-outputs s.encoder id ok) v)
  | inr q ↦ rw (q, step, push) v
]
step-Ordered s (polls p) v = poll_pass-Ordered s.encoder p v
step-Ordered s takes v = next_output-Ordered s.encoder s.encoder.delivering refl v
step-Ordered s (outputs msg ok) v = calls_back-Ordered s s.encoder.delivering msg ok refl v
step-Ordered s stops_polling v = v
step-Ordered s stops_output v = v

pub run-Ordered : (s : Session) (es : List Event) → Ordered s.encoder → Ordered (run s es).encoder
unfolding run
run-Ordered s [] v = v
run-Ordered s (e ∷ es) v = run-Ordered (step s e) es (step-Ordered s e v)

-- Only the callback hands anything over.
taken-delivered : (e : Encoder) (o : Option Captured) → (H264.taken e o).delivered ≡ e.delivered
unfolding take_capture
taken-delivered e none = refl
taken-delivered e (some b) = refl

after_poll-delivered : (e : Encoder) (p : Polled) → (after_poll e p).0.delivered ≡ e.delivered
after_poll-delivered e Polled.interrupted = refl
after_poll-delivered e Polled.failed = refl
after_poll-delivered e Polled.idle = refl
after_poll-delivered e (Polled.readable input capture) =
    taken-delivered (returned e input) capture ∙ ap (λ o. o.1) (returned-outputs e input)

pub poll_pass-delivered : (e : Encoder) (p : Polled) → (poll_pass e p).0.delivered ≡ e.delivered
unfolding poll_pass
poll_pass-delivered e p = elim (Bool-cases (drained e)) [
  | inl q ↦ rw q refl
  | inr q ↦ rw q (after_poll-delivered e p)
]

pub next_output-delivered :
    (e : Encoder) (held : Option OutputItem) → (next_output e held).delivered ≡ e.delivered
unfolding take_output
next_output-delivered e (some item) = refl
next_output-delivered e none = go e.output_queue
  where
    go : (q : List OutputItem) → (popped e q).delivered ≡ e.delivered
    go [] = refl
    go (item ∷ q) = refl
