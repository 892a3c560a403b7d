-- ===== src/Stream/Nv12.antt =====
-- The copy of an NV12 frame of src/stream/jpeg_mt_encoder.cpp (`encode_thread_fn`) into a packed
-- luma plane and two chroma planes, and the 16-row blocks of `do_encode`. A buffer is a list of
-- bytes; a function of a count `n` is the state after `n` rounds of its loop.
-- Offsets are computed on 32 bits and added to a pointer.
pub mod Plain
pub mod Planes
pub mod Bounds
pub mod Blocks
use ras_pi_zero_cam.Prelude.{
  ℕ, zero, suc, ◌+◌, ◌-◌, ◌*◌, ◌/◌, ◌%◌, ◌^◌, min, List, [], ◌∷◌, ◌++◌, get_or, set, replicate,
}

-- `memcpy` of `n` bytes of `src` from place `s` to place `d` of `dst`.
unfoldable pub memcpy : List ℕ → ℕ → List ℕ → ℕ → ℕ → List ℕ
memcpy dst d src s zero = dst
memcpy dst d src s (suc n) = set (memcpy dst d src s n) (d + n) (get_or src (s + n) 0)

-- One 16-row block as `jpeg_write_raw_data` receives it: the offsets of its row pointers.
pub record Block : Type 0 where
  pub y_rows : List ℕ
  pub cb_rows : List ℕ
  pub cr_rows : List ℕ

-- The value of a `uint32_t` expression.
unfoldable pub u32 : ℕ → ℕ
u32 n = n % 2 ^ 32

module _ (w h s : ℕ) (frame_data : List ℕ) where
  -- The luma plane after `n` rows: stride padding is stripped.
  unfoldable pub luma_rows : ℕ → List ℕ
  luma_rows zero = replicate (u32 (w * h)) 0
  luma_rows (suc r) = memcpy (luma_rows r) (u32 (r * w)) frame_data (u32 (r * s)) w

  -- The columns of one chroma row: `row[c * 2]` to Cb, `row[c * 2 + 1]` to Cr.
  unfoldable pub chroma_columns : List ℕ × List ℕ → ℕ → ℕ → List ℕ × List ℕ
  chroma_columns planes r zero = planes
  chroma_columns planes r (suc c) =
      let before = chroma_columns planes r c in
      (
        set before.0 (u32 (r * (w / 2) + c))
            (get_or frame_data (u32 (s * h) + u32 (r * s) + u32 (c * 2)) 0),
        set before.1 (u32 (r * (w / 2) + c))
            (get_or frame_data (u32 (s * h) + u32 (r * s) + u32 (c * 2 + 1)) 0),
      )

  unfoldable pub chroma_rows : ℕ → List ℕ × List ℕ
  chroma_rows zero = (replicate (u32 ((w / 2) * (h / 2))) 0, replicate (u32 ((w / 2) * (h / 2))) 0)
  chroma_rows (suc r) = chroma_columns (chroma_rows r) r (w / 2)

  unfoldable pub y_buf : List ℕ
  unfolding luma_rows
  y_buf = luma_rows h

  unfoldable pub uv_bufs : List ℕ × List ℕ
  unfolding chroma_rows
  uv_bufs = chroma_rows (h / 2)

-- `n` row pointers from row `first` on.
unfoldable pub pointers : (ℕ → ℕ) → ℕ → ℕ → List ℕ
pointers row first zero = []
pointers row first (suc n) = row first ∷ pointers row (suc first) n

-- `n - 1` on 32 bits.
unfoldable pub last_row : ℕ → ℕ
last_row n = (n + (2 ^ 32 - 1)) % 2 ^ 32

-- The row pointer of row `i` of a plane of `n` rows of `w` bytes, clamped to the last row.
unfoldable pub clamped_row : ℕ → ℕ → ℕ → ℕ
clamped_row w n i = min (u32 (min (u32 i) (last_row n) * w)) (u32 (last_row n * w))

module _ (w h : ℕ) where
  abbrev pub y_row : ℕ → ℕ
  y_row i = clamped_row w h i

  abbrev pub uv_row : ℕ → ℕ
  uv_row i = clamped_row (w / 2) (h / 2) i

  unfoldable pub block : ℕ → Block
  unfolding pointers
  block row = record {
    y_rows = pointers y_row row 16;
    cb_rows = pointers uv_row (row / 2) 8;
    cr_rows = pointers uv_row (row / 2) 8;
  }

  -- The blocks after `n` rounds of the loop over the rows.
  unfoldable pub blocks : ℕ → List Block
  unfolding block
  blocks zero = []
  blocks (suc n) = blocks n ++ block (n * 16) ∷ []

  -- The loop runs while `row < H`, in steps of 16, where `row` does not wrap (`h` below 2 ^ 32 - 15).
  unfoldable pub do_encode : List Block
  unfolding blocks
  do_encode = blocks ((h + 15) / 16)
