-- ===== src/Stream/Nv12/Bounds.antt =====
-- When the 32-bit offsets of the copy of src/stream/jpeg_mt_encoder.cpp do not wrap.
use native.Mathlib.Nat.{mul-le-mul, mul_comm}
use ras_pi_zero_cam.Prelude.{
  ℕ, zero, suc, ◌+◌, ◌*◌, ◌/◌, ◌^◌, ◌≡◌, ◌<◌, ◌≤◌, refl, sym, ap, subst, ◌∙◌, List, length, get_or,
  set, replicate, arith,
}
use ras_pi_zero_cam.Stream.Nv12.{
  memcpy, u32, luma_rows, chroma_columns, chroma_rows, y_buf, uv_bufs,
}
use ras_pi_zero_cam.Stream.Nv12.Plain
use ras_pi_zero_cam.Stream.Nv12.Planes.{row_lt, plain_planes}

-- The width is a `uint32_t`, and the luma planes of the image and of the frame have fewer than 2 ^ 32
-- bytes.
pub record Fits (w h s : ℕ) : Type 0 where
  pub width : w < 2 ^ 32
  pub image : w * h < 2 ^ 32
  pub source : s * h < 2 ^ 32

pub u32_small : (n : ℕ) → n < 2 ^ 32 → u32 n ≡ n
unfolding u32
u32_small n h = omega (arith, h)

quarter : (w h : ℕ) → (w / 2) * (h / 2) ≤ w * h
quarter w h = mul-le-mul {n₁ = w / 2} {m₁ = h / 2} {n₂ = w} {m₂ = h} (omega arith) (omega arith)

module _ (w h s : ℕ) (fits : Fits w h s) where
  pub image_small : u32 (w * h) ≡ w * h
  image_small = u32_small (w * h) fits.image

  pub quarter_small : u32 ((w / 2) * (h / 2)) ≡ (w / 2) * (h / 2)
  quarter_small = u32_small ((w / 2) * (h / 2)) (omega (arith, quarter w h, fits.image))

  pub source_small : u32 (s * h) ≡ s * h
  source_small = u32_small (s * h) fits.source

  pub row_small : (r : ℕ) → r < h → u32 (r * w) ≡ r * w
  row_small r lt = u32_small (r * w) (omega (arith, row_lt r h w lt, mul_comm w h, fits.image))

  pub source_row_small : (r : ℕ) → r < h → u32 (r * s) ≡ r * s
  source_row_small r lt =
      u32_small (r * s) (omega (arith, row_lt r h s lt, mul_comm s h, fits.source))

  pub place_small : (r c : ℕ) → r < h / 2 → c < w / 2 → u32 (r * (w / 2) + c) ≡ r * (w / 2) + c
  place_small r c row col = u32_small (r * (w / 2) + c) (
      omega
        (arith, row_lt r (h / 2) (w / 2) row, mul_comm (w / 2) (h / 2), quarter w h, fits.image))

  pub even_small : (c : ℕ) → c < w / 2 → u32 (c * 2) ≡ c * 2
  even_small c col = u32_small (c * 2) (omega (arith, col, fits.width))

  pub odd_small : (c : ℕ) → c < w / 2 → u32 (c * 2 + 1) ≡ c * 2 + 1
  odd_small c col = u32_small (c * 2 + 1) (omega (arith, col, fits.width))

  -- The byte of the frame that each of the two chroma planes gets.
  pub cb_byte :
      (frame_data : List ℕ) (r c : ℕ)
      → r < h / 2
      → c < w / 2
      → get_or frame_data (u32 (s * h) + u32 (r * s) + u32 (c * 2)) 0
        ≡ get_or frame_data (s * h + r * s + c * 2) 0
  cb_byte frame_data r c row col = λ i.
      get_or frame_data (source_small i + source_row_small r (omega arith) i + even_small c col i) 0

  pub cr_byte :
      (frame_data : List ℕ) (r c : ℕ)
      → r < h / 2
      → c < w / 2
      → get_or frame_data (u32 (s * h) + u32 (r * s) + u32 (c * 2 + 1)) 0
        ≡ get_or frame_data (s * h + r * s + (c * 2 + 1)) 0
  cr_byte frame_data r c row col = λ i.
      get_or frame_data (source_small i + source_row_small r (omega arith) i + odd_small c col i) 0

  module _ (frame_data : List ℕ) where
    luma_rows_plain :
        (n : ℕ) → n ≤ h → luma_rows w h s frame_data n ≡ Plain.luma_rows w h s frame_data n
    unfolding luma_rows Plain.luma_rows
    luma_rows_plain zero le = ap (λ n. replicate n 0) image_small
    luma_rows_plain (suc r) le = λ i.
        memcpy (luma_rows_plain r (omega arith) i) (row_small r (omega arith) i) frame_data
          (source_row_small r (omega arith) i) w

    chroma_columns_plain :
        (planes : List ℕ × List ℕ) (r n : ℕ)
        → r < h / 2
        → n ≤ w / 2
        → chroma_columns w h s frame_data planes r n
          ≡ Plain.chroma_columns w h s frame_data planes r n
    unfolding chroma_columns Plain.chroma_columns
    chroma_columns_plain planes r zero row le = refl
    chroma_columns_plain planes r (suc c) row le =
        let before = chroma_columns_plain planes r c row (omega arith) in
        let place = place_small r c row (omega arith) in
        λ i. (
          set (before i).0 (place i) (cb_byte frame_data r c row (omega arith) i),
          set (before i).1 (place i) (cr_byte frame_data r c row (omega arith) i),
        )

    chroma_rows_plain :
        (n : ℕ) → n ≤ h / 2 → chroma_rows w h s frame_data n ≡ Plain.chroma_rows w h s frame_data n
    unfolding chroma_rows Plain.chroma_rows
    chroma_rows_plain zero le = ap (λ n. (replicate n 0, replicate n 0)) quarter_small
    chroma_rows_plain (suc r) le =
        ap (λ planes. chroma_columns w h s frame_data planes r (w / 2))
          (chroma_rows_plain r (omega arith))
        ∙ chroma_columns_plain (Plain.chroma_rows w h s frame_data r) r (w / 2) (omega arith)
            (omega arith)

    pub y_buf_plain : y_buf w h s frame_data ≡ Plain.y_buf w h s frame_data
    unfolding y_buf Plain.y_buf
    y_buf_plain = luma_rows_plain h (omega arith)

    pub uv_bufs_plain : uv_bufs w h s frame_data ≡ Plain.uv_bufs w h s frame_data
    unfolding uv_bufs Plain.uv_bufs
    uv_bufs_plain = chroma_rows_plain (h / 2) (omega arith)

-- What the planes hold of a frame.
abbrev pub HoldFrame : ℕ → ℕ → ℕ → List ℕ → List ℕ → List ℕ × List ℕ → Type 0
HoldFrame w h s frame_data y uv =
    (length y ≡ w * h)
    × ((length uv.0 ≡ (w / 2) * (h / 2))
        × (((r c : ℕ) → r < h → c < w → get_or y (r * w + c) 0 ≡ get_or frame_data (r * s + c) 0)
            × ((r c : ℕ)
                → r < h / 2
                → c < w / 2
                → (get_or uv.0 (r * (w / 2) + c) 0 ≡ get_or frame_data (s * h + r * s + c * 2) 0)
                  × (get_or uv.1 (r * (w / 2) + c) 0
                      ≡ get_or frame_data (s * h + r * s + (c * 2 + 1)) 0))))

-- When the width is below 2 ^ 32 and so are `width * height` and `stride * height`, then within the
-- image the packed luma plane holds the luma byte of each row and column of the frame
-- whatever its stride, the two chroma planes hold the even and the odd bytes of the interleaved
-- chroma rows that follow the `stride * height` luma bytes, and the planes have `width * height`
-- and a quarter of this many places.
pub planes_hold_frame :
    (w h s : ℕ) (frame_data : List ℕ)
    → Fits w h s
    → (length (y_buf w h s frame_data) ≡ w * h)
      × ((length (uv_bufs w h s frame_data).0 ≡ (w / 2) * (h / 2))
          × (((r c : ℕ)
                → r < h
                → c < w
                → get_or (y_buf w h s frame_data) (r * w + c) 0 ≡ get_or frame_data (r * s + c) 0)
              × ((r c : ℕ)
                  → r < h / 2
                  → c < w / 2
                  → (get_or (uv_bufs w h s frame_data).0 (r * (w / 2) + c) 0
                      ≡ get_or frame_data (s * h + r * s + c * 2) 0)
                    × (get_or (uv_bufs w h s frame_data).1 (r * (w / 2) + c) 0
                        ≡ get_or frame_data (s * h + r * s + (c * 2 + 1)) 0))))
planes_hold_frame w h s frame_data fits =
    subst (λ y. HoldFrame w h s frame_data y (uv_bufs w h s frame_data))
      (sym (y_buf_plain w h s fits frame_data))
      (subst (HoldFrame w h s frame_data (Plain.y_buf w h s frame_data))
        (sym (uv_bufs_plain w h s fits frame_data)) (plain_planes w h s frame_data))
