-- ===== src/Stream/JpegHw.antt =====
-- `JpegHwEncoder` of src/stream/jpeg_hw_encoder.cpp while it streams: the copy of an NV12 frame into
-- the memory of a free slot, `encode`, and the passes of the poll thread. A memory is a list of
-- bytes. `capturing`, the capture buffers that the driver has, is not a variable of the program, and
-- `shown` lists what the callback was given. Offsets are computed on 32 bits and added to a pointer.
pub mod Plain
pub mod Planes
pub mod Bounds
pub mod Slots
pub mod Encoding
pub mod Opening
use ras_pi_zero_cam.Prelude.{
  ℕ, zero, suc, ◌+◌, ◌*◌, ◌/◌, ltb, Bool, true, false, Option, none, some, List, [], ◌∷◌, ◌++◌,
  ◌&&◌, length, get_or, set, if◌then◌else◌,
}
use ras_pi_zero_cam.Prelude.Counts.{erase}
use ras_pi_zero_cam.Codec.Pool.{Pool, take_slot, settle, give_back}
use ras_pi_zero_cam.Stream.Nv12.{memcpy, u32}

pub record JpegHw : Type 0 where
  pub width : ℕ
  pub height : ℕ
  pub stride : ℕ
  pub pool : Pool
  pub output_bufs : List (List ℕ)
  pub output_ready_cb : Bool
  pub capturing : List ℕ
  pub abort : Bool
  pub shown : List (List ℕ)

module _ (w h s : ℕ) (frame_data : List ℕ) where
  -- The memory after `n` rounds of the loop over the luma rows.
  unfoldable pub fill_luma : List ℕ → ℕ → List ℕ
  fill_luma dst zero = dst
  fill_luma dst (suc r) = memcpy (fill_luma dst r) (u32 (r * w)) frame_data (u32 (r * s)) w

  -- `cb` starts after the luma bytes, and `cr` after a quarter of as many places.
  unfoldable pub fill_columns : List ℕ → ℕ → ℕ → List ℕ
  fill_columns dst r zero = dst
  fill_columns dst r (suc c) =
      let before = fill_columns dst r c in
      let cb = get_or frame_data (u32 (s * h) + u32 (r * s) + u32 (c * 2)) 0 in
      let cr = get_or frame_data (u32 (s * h) + u32 (r * s) + u32 (c * 2 + 1)) 0 in
      set (set before (u32 (w * h) + u32 (r * (w / 2) + c)) cb)
        (u32 (w * h) + u32 ((w / 2) * (h / 2)) + u32 (r * (w / 2) + c)) cr

  unfoldable pub fill_chroma : List ℕ → ℕ → List ℕ
  fill_chroma dst zero = dst
  fill_chroma dst (suc r) = fill_columns (fill_chroma dst r) r (w / 2)

  unfoldable pub fill : List ℕ → List ℕ
  unfolding fill_luma fill_chroma
  fill dst = fill_chroma (fill_luma dst h) (h / 2)

-- The critical section of `encode`.
abbrev pub claimed : JpegHw → Option (ℕ × Pool) → JpegHw × Bool
claimed e none = (e, false)
claimed e (some (slot, pool)) = (record e { pool = pool }, true)

unfoldable pub claim : JpegHw → JpegHw × Bool
claim e = claimed e (take_slot e.pool)

-- The copy into the slot that `encode` holds.
abbrev pub copied : JpegHw → Option ℕ → List ℕ → JpegHw
copied e none frame_data = e
copied e (some slot) frame_data = record e {
  output_bufs =
      set e.output_bufs slot
        (fill e.width e.height e.stride frame_data (get_or e.output_bufs slot []));
}

unfoldable pub copy_in : JpegHw → List ℕ → JpegHw
copy_in e frame_data = copied e e.pool.filling frame_data

-- VIDIOC_QBUF and what `encode` does with its answer.
unfoldable pub submit : JpegHw → Bool → JpegHw × Bool
submit e ok = (record e { pool = settle e.pool ok }, ok)

unfoldable pub encode : JpegHw → List ℕ → Bool → JpegHw × Bool
unfolding claim copy_in submit
encode e frame_data ok =
    let first = claim e in
    if first.1 then submit (copy_in first.0 frame_data) ok else (first.0, false)

-- The OUTPUT part of `poll_thread_fn`.
unfoldable pub return_slot : JpegHw → ℕ → JpegHw
return_slot e slot = record e { pool = give_back e.pool slot }

-- A dequeued capture buffer: its index, the bytes that the driver used, and whether VIDIOC_QBUF
-- takes it again.
pub record Captured : Type 0 where
  pub index : ℕ
  pub jpeg : List ℕ
  pub requeued : Bool

-- The CAPTURE part.
unfoldable pub deliver : JpegHw → Captured → JpegHw
deliver e b = record e {
  capturing =
      let rest = erase b.index e.capturing in if b.requeued then rest ++ b.index ∷ [] else rest;
  shown = if e.output_ready_cb && ltb 0 (length b.jpeg) then e.shown ++ b.jpeg ∷ [] else e.shown;
}

-- What one pass of the poll thread sees: the result of `poll`, and the two VIDIOC_DQBUF.
pub data Polled : Type 0 where
  interrupted : Polled
  failed : Polled
  idle : Polled
  readable : Option ℕ → Option Captured → Polled

abbrev pub returned : JpegHw → Option ℕ → JpegHw
returned e none = e
returned e (some slot) = return_slot e slot

abbrev pub taken : JpegHw → Option Captured → JpegHw
taken e none = e
taken e (some b) = deliver e b

abbrev pub after_poll : JpegHw → Polled → JpegHw × Bool
after_poll e interrupted = (e, true)
after_poll e failed = (e, false)
after_poll e idle = (e, true)
after_poll e (readable slot capture) = (taken (returned e slot) capture, true)

-- The Boolean says whether the loop goes on.
unfoldable pub poll_pass : JpegHw → Polled → JpegHw × Bool
unfolding return_slot deliver
poll_pass e p = if e.abort then (e, false) else after_poll e p
