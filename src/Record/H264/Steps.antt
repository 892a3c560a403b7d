-- ===== src/Record/H264/Steps.antt =====
-- The steps of the threads of src/record/h264_hw_encoder.cpp: the caller of `encode`, the poll
-- thread and the output thread, in any order. The driver chooses what VIDIOC_DQBUF returns, and
-- returns only buffers that VIDIOC_QBUF gave to it.
use ras_pi_zero_cam.Prelude.{ℕ, ◌≡◌, Bool, true, none}
use ras_pi_zero_cam.Prelude.Counts.{is_in}
use ras_pi_zero_cam.Record.H264.{
  Encoder, Captured, claim, submit, return_input, take_capture, take_output, deliver, streaming,
}

pub data Step : Encoder → Encoder → Type 0 where
  claims : (e : Encoder) (frame : ℕ) → e.pool.filling ≡ none → Step e (claim e frame).0
  submits : (e : Encoder) (ok : Bool) → Step e (submit e ok).0
  returns :
      (e : Encoder) (slot : ℕ) → is_in slot e.pool.driver ≡ true → Step e (return_input e slot)
  captures :
      (e : Encoder) (b : Captured) → is_in b.index e.capturing ≡ true → Step e (take_capture e b)
  takes : (e : Encoder) → e.delivering ≡ none → Step e (take_output e)
  delivers : (e : Encoder) (ok : Bool) → Step e (deliver e ok)
  stops_polling : (e : Encoder) → Step e (record e { abort_poll = true })
  stops_output : (e : Encoder) → Step e (record e { abort_output = true })

-- What the encoder comes to after the driver granted the two numbers of buffers.
pub data Reach (inputs captures : ℕ) : Encoder → Type 0 where
  start : Reach inputs captures (streaming inputs captures)
  later : {e f : Encoder} → Reach inputs captures e → Step e f → Reach inputs captures f
