-- ===== src/Stream/JpegHw/Plain.antt =====
-- The copy of src/stream/jpeg_hw_encoder.cpp with offsets that never wrap: what the 32-bit offsets of
-- the parent module are compared with.
use ras_pi_zero_cam.Prelude.{ℕ, zero, suc, ◌+◌, ◌*◌, ◌/◌, List, get_or, set}
use ras_pi_zero_cam.Stream.Nv12.{memcpy}

module _ (w h s : ℕ) (frame_data : List ℕ) where
  -- The memory after `n` rounds of the loop over the luma rows.
  unfoldable pub fill_luma : List ℕ → ℕ → List ℕ
  fill_luma dst zero = dst
  fill_luma dst (suc r) = memcpy (fill_luma dst r) (r * w) frame_data (r * s) w

  -- `cb` starts after the luma bytes, and `cr` after a quarter of as many places.
  unfoldable pub fill_columns : List ℕ → ℕ → ℕ → List ℕ
  fill_columns dst r zero = dst
  fill_columns dst r (suc c) =
      let before = fill_columns dst r c in
      set (set before (w * h + (r * (w / 2) + c)) (get_or frame_data (s * h + r * s + c * 2) 0))
        (w * h + (w / 2) * (h / 2) + (r * (w / 2) + c))
        (get_or frame_data (s * h + r * s + (c * 2 + 1)) 0)

  unfoldable pub fill_chroma : List ℕ → ℕ → List ℕ
  fill_chroma dst zero = dst
  fill_chroma dst (suc r) = fill_columns (fill_chroma dst r) r (w / 2)

  unfoldable pub fill : List ℕ → List ℕ
  unfolding fill_luma fill_chroma
  fill dst = fill_chroma (fill_luma dst h) (h / 2)
