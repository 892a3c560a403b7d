-- ===== src/Stream/Nv12/Plain.antt =====
-- The copy of src/stream/jpeg_mt_encoder.cpp with offsets that never wrap: what the 32-bit offsets of
-- the parent module are compared with.
use ras_pi_zero_cam.Prelude.{ℕ, zero, suc, ◌+◌, ◌*◌, ◌/◌, List, get_or, set, replicate}
use ras_pi_zero_cam.Stream.Nv12.{memcpy}

module _ (w h s : ℕ) (frame_data : List ℕ) where
  -- The luma plane after `n` rows: stride padding is stripped.
  unfoldable pub luma_rows : ℕ → List ℕ
  luma_rows zero = replicate (w * h) 0
  luma_rows (suc r) = memcpy (luma_rows r) (r * w) frame_data (r * s) w

  -- The columns of one chroma row: `row[c * 2]` to Cb, `row[c * 2 + 1]` to Cr.
  unfoldable pub chroma_columns : List ℕ × List ℕ → ℕ → ℕ → List ℕ × List ℕ
  chroma_columns planes r zero = planes
  chroma_columns planes r (suc c) =
      let before = chroma_columns planes r c in
      (
        set before.0 (r * (w / 2) + c) (get_or frame_data (s * h + r * s + c * 2) 0),
        set before.1 (r * (w / 2) + c) (get_or frame_data (s * h + r * s + (c * 2 + 1)) 0),
      )

  unfoldable pub chroma_rows : ℕ → List ℕ × List ℕ
  chroma_rows zero = (replicate ((w / 2) * (h / 2)) 0, replicate ((w / 2) * (h / 2)) 0)
  chroma_rows (suc r) = chroma_columns (chroma_rows r) r (w / 2)

  unfoldable pub y_buf : List ℕ
  unfolding luma_rows
  y_buf = luma_rows h

  unfoldable pub uv_bufs : List ℕ × List ℕ
  unfolding chroma_rows
  uv_bufs = chroma_rows (h / 2)
