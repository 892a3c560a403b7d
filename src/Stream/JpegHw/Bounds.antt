-- ===== src/Stream/JpegHw/Bounds.antt =====
-- When the 32-bit offsets of the copy of src/stream/jpeg_hw_encoder.cpp do not wrap, and that its
-- copy keeps the size of the memory in any case.
use ras_pi_zero_cam.Prelude.{
  ℕ, zero, suc, ◌+◌, ◌*◌, ◌/◌, ◌≡◌, ◌<◌, ◌≤◌, refl, ap, ◌∙◌, List, length, length-set, get_or, set,
  arith,
}
use ras_pi_zero_cam.Stream.Nv12.{memcpy, u32}
use ras_pi_zero_cam.Stream.Nv12.Planes.{length-memcpy}
use ras_pi_zero_cam.Stream.Nv12.Bounds.{
  Fits, image_small, quarter_small, row_small, source_row_small, place_small, cb_byte, cr_byte,
}
use ras_pi_zero_cam.Stream.JpegHw.{fill_luma, fill_columns, fill_chroma, fill}
use ras_pi_zero_cam.Stream.JpegHw.Plain

module _ (w h s : ℕ) (frame_data : List ℕ) where
  length-fill_luma : (dst : List ℕ) (n : ℕ) → length (fill_luma w h s frame_data dst n) ≡ length dst
  unfolding fill_luma
  length-fill_luma dst zero = refl
  length-fill_luma dst (suc n) =
      length-memcpy (fill_luma w h s frame_data dst n) (u32 (n * w)) frame_data (u32 (n * s)) w
      ∙ length-fill_luma dst n

  length-fill_columns :
      (dst : List ℕ) (r n : ℕ) → length (fill_columns w h s frame_data dst r n) ≡ length dst
  unfolding fill_columns
  length-fill_columns dst r zero = refl
  length-fill_columns dst r (suc n) =
      let before = fill_columns w h s frame_data dst r n in
      let at = u32 (w * h) + u32 (r * (w / 2) + n) in
      let cb = get_or frame_data (u32 (s * h) + u32 (r * s) + u32 (n * 2)) 0 in
      length-set (set before at cb) (u32 (w * h) + u32 ((w / 2) * (h / 2)) + u32 (r * (w / 2) + n))
        (get_or frame_data (u32 (s * h) + u32 (r * s) + u32 (n * 2 + 1)) 0)
      ∙ length-set before at cb
      ∙ length-fill_columns dst r n

  length-fill_chroma :
      (dst : List ℕ) (n : ℕ) → length (fill_chroma w h s frame_data dst n) ≡ length dst
  unfolding fill_chroma
  length-fill_chroma dst zero = refl
  length-fill_chroma dst (suc n) =
      length-fill_columns (fill_chroma w h s frame_data dst n) n (w / 2) ∙ length-fill_chroma dst n

  pub length-fill : (dst : List ℕ) → length (fill w h s frame_data dst) ≡ length dst
  unfolding fill
  length-fill dst =
      length-fill_chroma (fill_luma w h s frame_data dst h) (h / 2) ∙ length-fill_luma dst h

  module _ (fits : Fits w h s) where
    fill_luma_plain :
        (dst : List ℕ) (n : ℕ)
        → n ≤ h
        → fill_luma w h s frame_data dst n ≡ Plain.fill_luma w h s frame_data dst n
    unfolding fill_luma Plain.fill_luma
    fill_luma_plain dst zero le = refl
    fill_luma_plain dst (suc r) le = λ i.
        memcpy (fill_luma_plain dst r (omega arith) i) (row_small w h s fits r (omega arith) i)
          frame_data (source_row_small w h s fits r (omega arith) i) w

    fill_columns_plain :
        (dst : List ℕ) (r n : ℕ)
        → r < h / 2
        → n ≤ w / 2
        → fill_columns w h s frame_data dst r n ≡ Plain.fill_columns w h s frame_data dst r n
    unfolding fill_columns Plain.fill_columns
    fill_columns_plain dst r zero row le = refl
    fill_columns_plain dst r (suc c) row le =
        let before = fill_columns_plain dst r c row (omega arith) in
        let place = place_small w h s fits r c row (omega arith) in
        λ i.
          set
            (set (before i) (image_small w h s fits i + place i)
              (cb_byte w h s fits frame_data r c row (omega arith) i))
            (image_small w h s fits i + quarter_small w h s fits i + place i)
            (cr_byte w h s fits frame_data r c row (omega arith) i)

    fill_chroma_plain :
        (dst : List ℕ) (n : ℕ)
        → n ≤ h / 2
        → fill_chroma w h s frame_data dst n ≡ Plain.fill_chroma w h s frame_data dst n
    unfolding fill_chroma Plain.fill_chroma
    fill_chroma_plain dst zero le = refl
    fill_chroma_plain dst (suc r) le =
        ap (λ mem. fill_columns w h s frame_data mem r (w / 2))
          (fill_chroma_plain dst r (omega arith))
        ∙ fill_columns_plain (Plain.fill_chroma w h s frame_data dst r) r (w / 2) (omega arith)
            (omega arith)

    pub fill_plain : (dst : List ℕ) → fill w h s frame_data dst ≡ Plain.fill w h s frame_data dst
    unfolding fill Plain.fill
    fill_plain dst =
        ap (λ mem. fill_chroma w h s frame_data mem (h / 2)) (fill_luma_plain dst h (omega arith))
        ∙ fill_chroma_plain (Plain.fill_luma w h s frame_data dst h) (h / 2) (omega arith)
