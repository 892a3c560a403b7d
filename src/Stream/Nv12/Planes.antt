-- ===== src/Stream/Nv12/Planes.antt =====
-- What the copy of src/stream/jpeg_mt_encoder.cpp puts at each place of the three planes.
use native.Mathlib.Nat.{mul-le-mul_right, suc-mul, mul_comm}
use ras_pi_zero_cam.Prelude.{
  ℕ, zero, suc, ◌+◌, ◌*◌, ◌/◌, ◌≡◌, ◌<◌, ◌≤◌, ◌⊎◌, inl, inr, refl, sym, subst, ◌∙◌, List, get_or,
  set, length, length-set, length-replicate, get_or-set_self, get_or-set_ne, arith,
}
use ras_pi_zero_cam.Stream.Nv12.{memcpy}
use ras_pi_zero_cam.Stream.Nv12.Plain.{luma_rows, chroma_columns, chroma_rows, y_buf, uv_bufs}

pub row_lt : (r n w : ℕ) → r < n → r * w + w ≤ n * w
row_lt r n w h = omega (arith, mul-le-mul_right {m = suc r} {n = n} w (omega arith), suc-mul r w)

pub length-memcpy :
    (dst : List ℕ) (d : ℕ) (src : List ℕ) (s n : ℕ) → length (memcpy dst d src s n) ≡ length dst
unfolding memcpy
length-memcpy dst d src s zero = refl
length-memcpy dst d src s (suc n) =
    length-set (memcpy dst d src s n) (d + n) (get_or src (s + n) 0) ∙ length-memcpy dst d src s n

pub split_lt : (k n : ℕ) → k < suc n → (k < n) ⊎ (k ≡ n)
split_lt k n h = ground arith

-- Inside the copied range stand the source's bytes, and elsewhere the old ones.
memcpy_inside :
    (dst : List ℕ) (d : ℕ) (src : List ℕ) (s n k : ℕ)
    → k < n
    → d + n ≤ length dst
    → get_or (memcpy dst d src s n) (d + k) 0 ≡ get_or src (s + k) 0
unfolding memcpy
memcpy_inside dst d src s zero k h fits = absurd (omega arith)
memcpy_inside dst d src s (suc n) k h fits = elim (split_lt k n h) [
  | inl lt ↦
      get_or-set_ne (memcpy dst d src s n) {i = d + n} {j = d + k} (get_or src (s + n) 0) 0
        (λ e. omega arith)
      ∙ memcpy_inside dst d src s n k lt (omega arith)
  | inr eq ↦
      subst
        (λ m.
          get_or (set (memcpy dst d src s n) (d + n) (get_or src (s + n) 0)) (d + m) 0
          ≡ get_or src (s + m) 0)
        (sym eq)
        (get_or-set_self (memcpy dst d src s n) (d + n) (get_or src (s + n) 0) 0
          (omega (arith, length-memcpy dst d src s n)))
]

memcpy_below :
    (dst : List ℕ) (d : ℕ) (src : List ℕ) (s n k : ℕ)
    → k < d
    → get_or (memcpy dst d src s n) k 0 ≡ get_or dst k 0
unfolding memcpy
memcpy_below dst d src s zero k h = refl
memcpy_below dst d src s (suc n) k h =
    get_or-set_ne (memcpy dst d src s n) {i = d + n} {j = k} (get_or src (s + n) 0) 0
      (λ e. omega arith)
    ∙ memcpy_below dst d src s n k h

module _ (w h s : ℕ) (frame_data : List ℕ) where
  pub length-luma_rows : (n : ℕ) → length (luma_rows w h s frame_data n) ≡ w * h
  unfolding luma_rows
  length-luma_rows zero = length-replicate (w * h) 0
  length-luma_rows (suc n) =
      length-memcpy (luma_rows w h s frame_data n) (n * w) frame_data (n * s) w ∙ length-luma_rows n

  luma_rows_at :
      (n r c : ℕ)
      → n ≤ h
      → r < n
      → c < w
      → get_or (luma_rows w h s frame_data n) (r * w + c) 0 ≡ get_or frame_data (r * s + c) 0
  unfolding luma_rows
  luma_rows_at zero r c le lt col = absurd (omega arith)
  luma_rows_at (suc n) r c le lt col = elim (split_lt r n lt) [
    | inl before ↦
        memcpy_below (luma_rows w h s frame_data n) (n * w) frame_data (n * s) w (r * w + c)
          (omega (arith, row_lt r n w before))
        ∙ luma_rows_at n r c (omega arith) before col
    | inr eq ↦
        subst
          (λ m.
            get_or (memcpy (luma_rows w h s frame_data n) (n * w) frame_data (n * s) w) (m * w + c)
              0
            ≡ get_or frame_data (m * s + c) 0)
          (sym eq)
          (memcpy_inside (luma_rows w h s frame_data n) (n * w) frame_data (n * s) w c col
            (omega (arith, length-luma_rows n, row_lt n h w (omega arith), mul_comm w h)))
  ]

  -- The two chroma planes keep their lengths, and the columns of one row change only that row.
  pub length-chroma_columns :
      (planes : List ℕ × List ℕ) (r n : ℕ)
      → (length (chroma_columns w h s frame_data planes r n).0 ≡ length planes.0)
        × (length (chroma_columns w h s frame_data planes r n).1 ≡ length planes.1)
  unfolding chroma_columns
  length-chroma_columns planes r zero = (refl, refl)
  length-chroma_columns planes r (suc n) =
      let before = chroma_columns w h s frame_data planes r n in
      let ih = length-chroma_columns planes r n in
      (
        length-set before.0 (r * (w / 2) + n) (get_or frame_data (s * h + r * s + n * 2) 0) ∙ ih.0,
        length-set before.1 (r * (w / 2) + n) (get_or frame_data (s * h + r * s + (n * 2 + 1)) 0)
            ∙ ih.1,
      )

  -- What the columns of one row write.
  abbrev Written : List ℕ × List ℕ → ℕ → ℕ → Type 0
  Written planes r c =
      (get_or planes.0 (r * (w / 2) + c) 0 ≡ get_or frame_data (s * h + r * s + c * 2) 0)
      × (get_or planes.1 (r * (w / 2) + c) 0 ≡ get_or frame_data (s * h + r * s + (c * 2 + 1)) 0)

  columns_below :
      (planes : List ℕ × List ℕ) (r n k : ℕ)
      → k < r * (w / 2)
      → (get_or (chroma_columns w h s frame_data planes r n).0 k 0 ≡ get_or planes.0 k 0)
        × (get_or (chroma_columns w h s frame_data planes r n).1 k 0 ≡ get_or planes.1 k 0)
  unfolding chroma_columns
  columns_below planes r zero k lt = (refl, refl)
  columns_below planes r (suc n) k lt =
      let before = chroma_columns w h s frame_data planes r n in
      let ih = columns_below planes r n k lt in
      (
        get_or-set_ne before.0 {i = r * (w / 2) + n} {j = k}
              (get_or frame_data (s * h + r * s + n * 2) 0) 0 (λ e. omega arith)
            ∙ ih.0,
        get_or-set_ne before.1 {i = r * (w / 2) + n} {j = k}
              (get_or frame_data (s * h + r * s + (n * 2 + 1)) 0) 0 (λ e. omega arith)
            ∙ ih.1,
      )

  columns_at :
      (planes : List ℕ × List ℕ) (r n c : ℕ)
      → c < n
      → r * (w / 2) + n ≤ length planes.0
      → r * (w / 2) + n ≤ length planes.1
      → Written (chroma_columns w h s frame_data planes r n) r c
  unfolding chroma_columns
  columns_at planes r zero c lt p q = absurd (omega arith)
  columns_at planes r (suc n) c lt p q =
      let before = chroma_columns w h s frame_data planes r n in
      let len = length-chroma_columns planes r n in
      let cb = get_or frame_data (s * h + r * s + n * 2) 0 in
      let cr = get_or frame_data (s * h + r * s + (n * 2 + 1)) 0 in
      elim (split_lt c n lt) [
        | inl earlier ↦
            let ih = columns_at planes r n c earlier (omega arith) (omega arith) in
            (
              get_or-set_ne before.0 {i = r * (w / 2) + n} {j = r * (w / 2) + c} cb 0
                    (λ e. omega arith)
                  ∙ ih.0,
              get_or-set_ne before.1 {i = r * (w / 2) + n} {j = r * (w / 2) + c} cr 0
                    (λ e. omega arith)
                  ∙ ih.1,
            )
        | inr eq ↦
            subst (Written (set before.0 (r * (w / 2) + n) cb, set before.1 (r * (w / 2) + n) cr) r)
              (sym eq)
              (
                get_or-set_self before.0 (r * (w / 2) + n) cb 0 (omega (arith, len.0)),
                get_or-set_self before.1 (r * (w / 2) + n) cr 0 (omega (arith, len.1)),
              )
      ]

  pub length-chroma_rows :
      (n : ℕ)
      → (length (chroma_rows w h s frame_data n).0 ≡ (w / 2) * (h / 2))
        × (length (chroma_rows w h s frame_data n).1 ≡ (w / 2) * (h / 2))
  unfolding chroma_rows
  length-chroma_rows zero =
      (length-replicate ((w / 2) * (h / 2)) 0, length-replicate ((w / 2) * (h / 2)) 0)
  length-chroma_rows (suc n) =
      let len = length-chroma_columns (chroma_rows w h s frame_data n) n (w / 2) in
      let ih = length-chroma_rows n in (len.0 ∙ ih.0, len.1 ∙ ih.1)

  chroma_rows_at :
      (n r c : ℕ) → n ≤ h / 2 → r < n → c < w / 2 → Written (chroma_rows w h s frame_data n) r c
  unfolding chroma_rows
  chroma_rows_at zero r c le lt col = absurd (omega arith)
  chroma_rows_at (suc n) r c le lt col =
      let before = chroma_rows w h s frame_data n in
      let len = length-chroma_rows n in
      let room : n * (w / 2) + w / 2 ≤ (w / 2) * (h / 2) =
        omega (arith, row_lt n (h / 2) (w / 2) (omega arith), mul_comm (w / 2) (h / 2)) in
      elim (split_lt r n lt) [
        | inl earlier ↦
            let ih = chroma_rows_at n r c (omega arith) earlier col in
            let kept =
              columns_below before n (w / 2) (r * (w / 2) + c)
                (omega (arith, row_lt r n (w / 2) earlier)) in
            (kept.0 ∙ ih.0, kept.1 ∙ ih.1)
        | inr eq ↦
            subst (λ m. Written (chroma_columns w h s frame_data before n (w / 2)) m c) (sym eq)
              (columns_at before n (w / 2) c col (omega (arith, len.0)) (omega (arith, len.1)))
      ]

-- Where the bytes of the frame stand in the planes of the copy whose offsets never wrap.
pub plain_planes :
    (w h s : ℕ) (frame_data : List ℕ)
    → (length (y_buf w h s frame_data) ≡ w * h)
      × ((length (uv_bufs w h s frame_data).0 ≡ (w / 2) * (h / 2))
          × (((r c : ℕ)
                → r < h
                → c < w
                → get_or (y_buf w h s frame_data) (r * w + c) 0 ≡ get_or frame_data (r * s + c) 0)
              × ((r c : ℕ)
                  → r < h / 2
                  → c < w / 2
                  → (get_or (uv_bufs w h s frame_data).0 (r * (w / 2) + c) 0
                      ≡ get_or frame_data (s * h + r * s + c * 2) 0)
                    × (get_or (uv_bufs w h s frame_data).1 (r * (w / 2) + c) 0
                        ≡ get_or frame_data (s * h + r * s + (c * 2 + 1)) 0))))
unfolding y_buf uv_bufs
plain_planes w h s frame_data = (
  length-luma_rows w h s frame_data h,
  (
    (length-chroma_rows w h s frame_data (h / 2)).0,
    (
      (λ r c row col. luma_rows_at w h s frame_data h r c (omega arith) row col),
      (λ r c row col. chroma_rows_at w h s frame_data (h / 2) r c (omega arith) row col),
    ),
  ),
)
