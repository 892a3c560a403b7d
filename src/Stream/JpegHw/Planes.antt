-- ===== src/Stream/JpegHw/Planes.antt =====
-- Without wrapping offsets: the planes that src/stream/jpeg_hw_encoder.cpp lays out in one memory, against the separate planes
-- of src/stream/jpeg_mt_encoder.cpp.
use native.Mathlib.Nat.{mul_comm, suc-mul, mul-le-mul}
use ras_pi_zero_cam.Prelude.{
  ℕ, zero, suc, ◌+◌, ◌*◌, ◌/◌, ◌≡◌, ◌≢◌, ◌<◌, ◌≤◌, inl, inr, refl, sym, subst, ◌∙◌, List, get_or,
  set, length, length-set, get_or-set_self, get_or-set_ne, arith,
}
use ras_pi_zero_cam.Stream.Nv12.{memcpy}
use ras_pi_zero_cam.Stream.Nv12.Plain.{luma_rows, chroma_columns, chroma_rows, y_buf, uv_bufs}
use ras_pi_zero_cam.Stream.Nv12.Planes.{
  length-memcpy, split_lt, row_lt, length-luma_rows, length-chroma_columns, length-chroma_rows,
}
use ras_pi_zero_cam.Stream.JpegHw.Plain.{fill_luma, fill_columns, fill_chroma, fill}

-- The `n` bytes from place `base` of a memory are the first `n` of a plane.
abbrev pub Holds : ℕ → ℕ → List ℕ → List ℕ → Type 0
Holds base n mem plane = (k : ℕ) → k < n → get_or mem (base + k) 0 ≡ get_or plane k 0

-- The next byte of both, at place `p` of the memory.
Holds-set :
    (base n p v : ℕ) (mem plane : List ℕ)
    → p ≡ base + n
    → p < length mem
    → n < length plane
    → Holds base n mem plane
    → Holds base (n + 1) (set mem p v) (set plane n v)
Holds-set base n p v mem plane at room inside h k lt = elim (split_lt k n (omega arith)) [
  | inl before ↦
      get_or-set_ne mem {i = p} {j = base + k} v 0 (λ e. omega arith)
      ∙ h k before
      ∙ sym (get_or-set_ne plane {i = n} {j = k} v 0 (λ e. omega arith))
  | inr now ↦
      subst (λ m. get_or (set mem p v) m 0 ≡ get_or (set plane n v) k 0) (omega arith)
        (subst (λ m. get_or (set mem p v) p 0 ≡ get_or (set plane n v) m 0) (sym now)
          (get_or-set_self mem p v 0 room ∙ sym (get_or-set_self plane n v 0 inside)))
]

-- A byte elsewhere in the memory.
Holds-set_off :
    (base n at v : ℕ) (mem plane : List ℕ)
    → ((k : ℕ) → k < n → at ≢ base + k)
    → Holds base n mem plane
    → Holds base n (set mem at v) plane
Holds-set_off base n at v mem plane off h k lt =
    get_or-set_ne mem {i = at} {j = base + k} v 0 (off k lt) ∙ h k lt

Holds-memcpy :
    (d s n : ℕ) (src mem plane : List ℕ)
    → d + n ≤ length mem
    → d + n ≤ length plane
    → Holds 0 d mem plane
    → Holds 0 (d + n) (memcpy mem d src s n) (memcpy plane d src s n)
unfolding memcpy
Holds-memcpy d s zero src mem plane room inside h = λ k lt. h k (omega (arith, lt))
Holds-memcpy d s (suc n) src mem plane room inside h = λ k lt.
    Holds-set 0 (d + n) (d + n) (get_or src (s + n) 0) (memcpy mem d src s n)
      (memcpy plane d src s n) (omega arith) (omega (arith, length-memcpy mem d src s n))
      (omega (arith, length-memcpy plane d src s n))
      (Holds-memcpy d s n src mem plane (omega arith) (omega arith) h) k (omega arith)

Holds-less :
    (base n : ℕ) (mem plane : List ℕ)
    → Holds base n mem plane
    → (m : ℕ) → m ≤ n
    → Holds base m mem plane
Holds-less base n mem plane h m le k lt = h k (omega arith)

module _ (w h s : ℕ) (frame_data : List ℕ) where
  length-fill_luma : (dst : List ℕ) (n : ℕ) → length (fill_luma w h s frame_data dst n) ≡ length dst
  unfolding fill_luma
  length-fill_luma dst zero = refl
  length-fill_luma dst (suc n) =
      length-memcpy (fill_luma w h s frame_data dst n) (n * w) frame_data (n * s) w
      ∙ length-fill_luma dst n

  length-fill_columns :
      (dst : List ℕ) (r n : ℕ) → length (fill_columns w h s frame_data dst r n) ≡ length dst
  unfolding fill_columns
  length-fill_columns dst r zero = refl
  length-fill_columns dst r (suc n) = omega (
    arith,
    length-fill_columns dst r n,
    length-set (fill_columns w h s frame_data dst r n) (w * h + (r * (w / 2) + n))
        (get_or frame_data (s * h + r * s + n * 2) 0),
    length-set
        (set (fill_columns w h s frame_data dst r n) (w * h + (r * (w / 2) + n))
          (get_or frame_data (s * h + r * s + n * 2) 0))
        (w * h + (w / 2) * (h / 2) + (r * (w / 2) + n))
        (get_or frame_data (s * h + r * s + (n * 2 + 1)) 0),
  )

  length-fill_chroma :
      (dst : List ℕ) (n : ℕ) → length (fill_chroma w h s frame_data dst n) ≡ length dst
  unfolding fill_chroma
  length-fill_chroma dst zero = refl
  length-fill_chroma dst (suc n) =
      length-fill_columns (fill_chroma w h s frame_data dst n) n (w / 2) ∙ length-fill_chroma dst n

  luma_agrees :
      (dst : List ℕ) (n : ℕ)
      → n ≤ h
      → w * h ≤ length dst
      → Holds 0 (n * w) (fill_luma w h s frame_data dst n) (luma_rows w h s frame_data n)
  unfolding fill_luma luma_rows
  luma_agrees dst zero le room = λ k lt. absurd (omega (arith, lt))
  luma_agrees dst (suc n) le room =
      let full : n * w + w ≤ w * h = omega (arith, row_lt n h w (omega arith), mul_comm w h) in
      Holds-less 0 (n * w + w) (fill_luma w h s frame_data dst (suc n))
        (luma_rows w h s frame_data (suc n))
        (Holds-memcpy (n * w) (n * s) w frame_data (fill_luma w h s frame_data dst n)
          (luma_rows w h s frame_data n) (omega (arith, length-fill_luma dst n))
          (omega (arith, length-luma_rows w h s frame_data n))
          (luma_agrees dst n (omega arith) room))
        (suc n * w) (omega (arith, suc-mul n w))

  -- The three parts of the memory while the chroma rows are copied, after `n` places of each plane.
  record Parts (n : ℕ) (mem : List ℕ) (planes : List ℕ × List ℕ) : Type 0 where
    luma : Holds 0 (w * h) mem (y_buf w h s frame_data)
    cb : Holds (w * h) n mem planes.0
    cr : Holds (w * h + (w / 2) * (h / 2)) n mem planes.1

  -- One round of the inner loop writes the next place of both chroma parts.
  Parts-column :
      (n x y : ℕ) (mem : List ℕ) (planes : List ℕ × List ℕ)
      → n < (w / 2) * (h / 2)
      → w * h + (w / 2) * (h / 2) + (w / 2) * (h / 2) ≤ length mem
      → length planes.0 ≡ (w / 2) * (h / 2)
      → length planes.1 ≡ (w / 2) * (h / 2)
      → Parts n mem planes
      → Parts
          (n + 1)
          (set (set mem (w * h + n) x) (w * h + (w / 2) * (h / 2) + n) y)
          (set planes.0 n x, set planes.1 n y)
  Parts-column n x y mem planes lt room len0 len1 p =
      let quarter : ℕ = (w / 2) * (h / 2) in
      let mid : List ℕ = set mem (w * h + n) x in
      record {
        luma =
            Holds-set_off 0 (w * h) (w * h + quarter + n) y mid (y_buf w h s frame_data)
              (λ k m e. omega arith)
              (Holds-set_off 0 (w * h) (w * h + n) x mem (y_buf w h s frame_data)
                (λ k m e. omega arith) p.luma);
        cb =
            Holds-set_off (w * h) (n + 1) (w * h + quarter + n) y mid (set planes.0 n x)
              (λ k m e. omega arith)
              (Holds-set (w * h) n (w * h + n) x mem planes.0 refl (omega arith) (omega arith)
                p.cb);
        cr =
            Holds-set (w * h + quarter) n (w * h + quarter + n) y mid planes.1 refl
              (omega (arith, length-set mem (w * h + n) x)) (omega arith)
              (Holds-set_off (w * h + quarter) n (w * h + n) x mem planes.1 (λ k m e. omega arith)
                p.cr);
      }

  module _ (dst : List ℕ) (room : w * h + (w / 2) * (h / 2) + (w / 2) * (h / 2) ≤ length dst) where
    Parts-columns :
        (r n : ℕ) (mem : List ℕ) (planes : List ℕ × List ℕ)
        → r < h / 2
        → n ≤ w / 2
        → length mem ≡ length dst
        → length planes.0 ≡ (w / 2) * (h / 2)
        → length planes.1 ≡ (w / 2) * (h / 2)
        → Parts (r * (w / 2)) mem planes
        → Parts
            (r * (w / 2) + n)
            (fill_columns w h s frame_data mem r n)
            (chroma_columns w h s frame_data planes r n)
    unfolding fill_columns chroma_columns
    Parts-columns r zero mem planes row col len len0 len1 p =
        subst (λ k. Parts k mem planes) (omega arith) p
    Parts-columns r (suc n) mem planes row col len len0 len1 p =
        let inside : r * (w / 2) + w / 2 ≤ (w / 2) * (h / 2) =
          omega (arith, row_lt r (h / 2) (w / 2) row, mul_comm (w / 2) (h / 2)) in
        let before : List ℕ × List ℕ = chroma_columns w h s frame_data planes r n in
        let lens = length-chroma_columns w h s frame_data planes r n in
        subst
          (λ k.
            Parts k (fill_columns w h s frame_data mem r (suc n))
              (chroma_columns w h s frame_data planes r (suc n)))
          (omega arith)
          (Parts-column (r * (w / 2) + n) (get_or frame_data (s * h + r * s + n * 2) 0)
            (get_or frame_data (s * h + r * s + (n * 2 + 1)) 0)
            (fill_columns w h s frame_data mem r n) before (omega arith)
            (omega (arith, length-fill_columns mem r n)) (lens.0 ∙ len0) (lens.1 ∙ len1)
            (Parts-columns r n mem planes row (omega arith) len len0 len1 p))

    Parts-rows :
        (n : ℕ)
        → n ≤ h / 2
        → Parts
            (n * (w / 2))
            (fill_chroma w h s frame_data (fill_luma w h s frame_data dst h) n)
            (chroma_rows w h s frame_data n)
    unfolding fill_chroma chroma_rows y_buf
    Parts-rows zero le = record {
      luma = λ k lt. luma_agrees dst h (omega arith) (omega arith) k (omega (arith, mul_comm w h));
      cb = λ k lt. absurd (omega (arith, lt));
      cr = λ k lt. absurd (omega (arith, lt));
    }
    Parts-rows (suc n) le =
        let lens = length-chroma_rows w h s frame_data n in
        let mem : List ℕ = fill_chroma w h s frame_data (fill_luma w h s frame_data dst h) n in
        subst
          (λ k.
            Parts k (fill_columns w h s frame_data mem n (w / 2))
              (chroma_columns w h s frame_data (chroma_rows w h s frame_data n) n (w / 2)))
          (omega (arith, suc-mul n (w / 2)))
          (Parts-columns n (w / 2) mem (chroma_rows w h s frame_data n) (omega arith) (omega arith)
            (length-fill_chroma (fill_luma w h s frame_data dst h) n ∙ length-fill_luma dst h)
            lens.0 lens.1 (Parts-rows n (omega arith)))

-- A YU12 image has place for the two chroma planes.
chroma_fits : (w h : ℕ) → w * h + (w / 2) * (h / 2) + (w / 2) * (h / 2) ≤ w * h * 3 / 2
chroma_fits w h = omega (
  arith,
  mul-le-mul {n₁ = (w / 2) * 2} {m₁ = (h / 2) * 2} {n₂ = w} {m₂ = h} (omega arith) (omega arith),
)

-- When the memory of the slot has place for a YU12 image, then whatever stood in it `fill` makes its
-- first `width * height` bytes the luma plane of the threaded encoder's copy, and the two quarters
-- after them its Cb and its Cr plane.
pub fill_agrees_with_planes :
    (w h s : ℕ) (frame_data dst : List ℕ)
    → w * h * 3 / 2 ≤ length dst
    → Holds 0 (w * h) (fill w h s frame_data dst) (y_buf w h s frame_data)
      × Holds (w * h) ((w / 2) * (h / 2)) (fill w h s frame_data dst) (uv_bufs w h s frame_data).0
      × Holds
          (w * h + (w / 2) * (h / 2))
          ((w / 2) * (h / 2))
          (fill w h s frame_data dst)
          (uv_bufs w h s frame_data).1
unfolding fill uv_bufs
fill_agrees_with_planes w h s frame_data dst room =
    let p =
      Parts-rows w h s frame_data dst (omega (arith, chroma_fits w h)) (h / 2) (omega arith) in
    (
      p.luma,
      (λ k lt. p.cb k (omega (arith, mul_comm (w / 2) (h / 2)))),
      (λ k lt. p.cr k (omega (arith, mul_comm (w / 2) (h / 2)))),
    )
