-- ===== src/Record/H264/Passes.antt =====
-- Whole calls and passes of src/record/h264_hw_encoder.cpp as steps: `encode`, one pass of
-- `poll_thread_fn`, and one of `output_thread_fn`.
use ras_pi_zero_cam.Prelude.{
  ℕ, ◌≡◌, refl, sym, ap, ◌∙◌, Bool, true, false, Bool-cases, inl, inr, ◌&&◌, Option, none, some,
  List, [], ◌∷◌,
}
use ras_pi_zero_cam.Prelude.Counts.{is_in}
use ras_pi_zero_cam.Codec.Pool.{taken, take_slot}
use ras_pi_zero_cam.Record.H264
use ras_pi_zero_cam.Record.H264.{
  Encoder, OutputItem, Captured, Polled, claimed, claim, submit, encode, return_input, take_capture,
  returned, after_poll, drained, poll_pass, take_output, deliver, output_ends,
}
use ras_pi_zero_cam.Record.H264.Steps.{
  claims, submits, returns, captures, takes, delivers, Reach, later,
}

-- Is a slot free?
abbrev pub some_free : List ℕ → Bool
some_free [] = false
some_free (slot ∷ rest) = true

claim_answers : (e : Encoder) (frame : ℕ) → (claim e frame).1 ≡ some_free e.pool.free
unfolding claim take_slot
claim_answers e frame = go e.pool.free
  where
    go : (fs : List ℕ) → (claimed e frame (taken e.pool fs)).1 ≡ some_free fs
    go [] = refl
    go (slot ∷ rest) = refl

-- While no other call is under way, `encode` is a path of steps, and it answers `true` exactly when a
-- slot is free and VIDIOC_QBUF succeeds.
pub encode-Reach :
    {n m : ℕ} {e : Encoder}
    → Reach n m e
    → e.pool.filling ≡ none
    → (frame : ℕ) (ok : Bool)
    → Reach n m (encode e frame ok).0 × ((encode e frame ok).1 ≡ (some_free e.pool.free && ok))
unfolding encode
encode-Reach {n} {m} {e} r idle frame ok =
    let mid = later r (claims e frame idle) in
    elim (Bool-cases (claim e frame).1) [
      | inl e1 ↦ rw e1 (
        later mid (submits (claim e frame).0 ok),
        sym (ap (λ b. b && ok) (sym (claim_answers e frame) ∙ e1)),
      )
      | inr e1 ↦ rw e1 (mid, sym (ap (λ b. b && ok) (sym (claim_answers e frame) ∙ e1)))
    ]

-- What `poll` and the driver may answer: only buffers that the driver has.
abbrev pub Answers : Encoder → Polled → Type 0
Answers e (Polled.readable input capture) =
    ((slot : ℕ) → input ≡ some slot → is_in slot e.pool.driver ≡ true)
    × ((b : Captured) → capture ≡ some b → is_in b.index e.capturing ≡ true)
Answers e p = Unit {0}

module _ {n m : ℕ} where
  returned-Reach :
      {e : Encoder} (input : Option ℕ)
      → Reach n m e
      → ((slot : ℕ) → input ≡ some slot → is_in slot e.pool.driver ≡ true)
      → Reach n m (returned e input) × ((returned e input).capturing ≡ e.capturing)
  unfolding return_input
  returned-Reach none r h = (r, refl)
  returned-Reach {e} (some slot) r h = (later r (returns e slot (h slot refl)), refl)

  taken-Reach :
      {e : Encoder} (capture : Option Captured)
      → Reach n m e
      → ((b : Captured) → capture ≡ some b → is_in b.index e.capturing ≡ true)
      → Reach n m (H264.taken e capture)
  taken-Reach none r h = r
  taken-Reach {e} (some b) r h = later r (captures e b (h b refl))

  after_poll-Reach :
      {e : Encoder} (p : Polled) → Reach n m e → Answers e p → Reach n m (after_poll e p).0
  after_poll-Reach Polled.interrupted r h = r
  after_poll-Reach Polled.failed r h = r
  after_poll-Reach Polled.idle r h = r
  after_poll-Reach {e} (Polled.readable input capture) r h =
      let back = returned-Reach input r h.0 in
      taken-Reach capture back.0 (λ b q. ap (is_in b.index) back.1 ∙ h.1 b q)

  -- A pass of the poll thread is a path of steps, when the driver returns only buffers that it has.
  pub poll_pass-Reach :
      {e : Encoder} (p : Polled) → Reach n m e → Answers e p → Reach n m (poll_pass e p).0
  unfolding poll_pass
  poll_pass-Reach {e} p r h = elim (Bool-cases (drained e)) [
    | inl stop ↦ rw stop r
    | inr on ↦ rw on (after_poll-Reach p r h)
  ]

  -- A pass of the output thread, which holds no item between its passes, is a path of steps.
  pub output_pass-Reach :
      {e : Encoder} (ok : Bool)
      → e.delivering ≡ none
      → Reach n m e
      → Reach n m (deliver (take_output e) ok)
  output_pass-Reach {e} ok empty r = later (later r (takes e empty)) (delivers (take_output e) ok)
