-- ===== src/Stream/Nv12/Blocks.antt =====
-- The row pointers of `do_encode` of src/stream/jpeg_mt_encoder.cpp.
use native.Mathlib.Nat.{mul-le-mul, mul-le-mul_right, suc-mul}
use ras_pi_zero_cam.Prelude.{
  ℕ, zero, suc, ◌+◌, ◌-◌, ◌*◌, ◌/◌, ◌%◌, ◌^◌, min, ◌≡◌, ◌<◌, ◌≤◌, ◌⊎◌, inl, inr, refl, ap, subst,
  sym, ◌∙◌, List, [], ◌∷◌, ◌++◌, get_or, length, length-append, get_or-append_left, arith,
}
use ras_pi_zero_cam.Stream.Nv12.{
  Block, u32, last_row, clamped_row, y_row, uv_row, pointers, block, blocks, do_encode,
}
use ras_pi_zero_cam.Stream.Nv12.Bounds.{u32_small}

abbrev pub no_block : Block
no_block = record { y_rows = []; cb_rows = []; cr_rows = [] }

get_or-append_at {ℓ} :
    {A : Type ℓ} (xs : List A) (x d : A) (i : ℕ) → i ≡ length xs → get_or (xs ++ x ∷ []) i d ≡ x
get_or-append_at [] x d zero h = refl
get_or-append_at [] x d (suc i) h = absurd (omega (arith, h))
get_or-append_at (y ∷ xs) x d zero h = absurd (omega (arith, h))
get_or-append_at (y ∷ xs) x d (suc i) h = get_or-append_at xs x d i (omega (arith, h))

length-pointers : (row : ℕ → ℕ) (first n : ℕ) → length (pointers row first n) ≡ n
unfolding pointers
length-pointers row first zero = refl
length-pointers row first (suc n) = ap suc (length-pointers row (suc first) n)

pointers_at :
    (row : ℕ → ℕ) (first n i : ℕ) → i < n → get_or (pointers row first n) i 0 ≡ row (first + i)
unfolding pointers
pointers_at row first zero i h = absurd (omega arith)
pointers_at row first (suc n) zero h = ap row {x = first} (omega arith)
pointers_at row first (suc n) (suc i) h =
    pointers_at row (suc first) n i (omega arith) ∙ ap row {x = suc first + i} (omega arith)

module _ (w h : ℕ) where
  length-blocks : (n : ℕ) → length (blocks w h n) ≡ n
  unfolding blocks
  length-blocks zero = refl
  length-blocks (suc n) =
      omega (arith, length-append (blocks w h n) (block w h (n * 16) ∷ []), length-blocks n)

  blocks_at : (n b : ℕ) → b < n → get_or (blocks w h n) b no_block ≡ block w h (b * 16)
  unfolding blocks
  blocks_at zero b lt = absurd (omega arith)
  blocks_at (suc n) b lt = elim (last b n lt) [
    | inl before ↦
        get_or-append_left (blocks w h n) (block w h (n * 16) ∷ []) b no_block
          (omega (arith, length-blocks n))
        ∙ blocks_at n b before
    | inr eq ↦
        get_or-append_at (blocks w h n) (block w h (n * 16)) no_block b
          (omega (arith, length-blocks n, eq))
        ∙ ap (λ m. block w h (m * 16)) (sym eq)
  ]
    where
      last : (b n : ℕ) → b < suc n → (b < n) ⊎ (b ≡ n)
      last b n lt = ground arith

clamped : (i last w : ℕ) → i ≤ last → min (min i last * w) (last * w) ≡ i * w
clamped i last w h =
    ap (λ m. min (m * w) (last * w)) {x = min i last} {y = i} (omega arith)
    ∙ omega (arith, mul-le-mul_right {m = i} {n = last} w h)

clamped_fits : (i n w : ℕ) → 0 < n → min (min i (n - 1) * w) ((n - 1) * w) + w ≤ n * w
clamped_fits i n w h =
    omega (arith, suc-mul (n - 1) w, ap (λ m. m * w) {x = suc (n - 1)} {y = n} (omega arith))

-- The 32-bit row pointer is the unbounded one when the plane has fewer than 2 ^ 32 bytes.
clamped_row-exact :
    (w n i : ℕ)
    → 0 < n
    → n < 2 ^ 32
    → n * w < 2 ^ 32
    → i < 2 ^ 32
    → clamped_row w n i ≡ min (min i (n - 1) * w) ((n - 1) * w)
unfolding clamped_row
clamped_row-exact w n i some_row rows plane small = λ j. min (product j) (whole j)
  where
    last : last_row n ≡ n - 1
    last = unfold last_row in omega (arith, some_row, rows)

    fits : (m : ℕ) → m < n → m * w < 2 ^ 32
    fits m lt = omega (arith, mul-le-mul_right {m = m} {n = n} w (omega (arith, lt)), plane)

    whole : u32 (last_row n * w) ≡ (n - 1) * w
    whole =
        ap (λ m. u32 (m * w)) last
        ∙ u32_small ((n - 1) * w) (fits (n - 1) (omega (arith, some_row)))

    product : u32 (min (u32 i) (last_row n) * w) ≡ min i (n - 1) * w
    product =
        (λ j. u32 (min (u32_small i small j) (last j) * w))
        ∙ u32_small (min i (n - 1) * w) (fits (min i (n - 1)) (omega (arith, some_row)))

-- For an image of at least two and at most 2 ^ 32 - 16 rows, with `width * height` below 2 ^ 32:
-- `do_encode` feeds one block for each 16 rows begun, of 16 luma
-- and 8 rows of each chroma plane; luma row `r` is row `r % 16` of block `r / 16`, chroma row `r` is
-- row `r % 8` of block `r / 8`; and every row that it feeds lies wholly inside its plane.
pub do_encode_feeds_rows :
    (w h : ℕ)
    → 2 ≤ h
    → h + 16 ≤ 2 ^ 32
    → h * w < 2 ^ 32
    → let fed = do_encode w h in
      (length fed ≡ (h + 15) / 16)
      × (((r : ℕ) → r < h → get_or (get_or fed (r / 16) no_block).y_rows (r % 16) 0 ≡ r * w)
          × (((r : ℕ)
                → r < h / 2
                → (get_or (get_or fed (r / 8) no_block).cb_rows (r % 8) 0 ≡ r * (w / 2))
                  × (get_or (get_or fed (r / 8) no_block).cr_rows (r % 8) 0 ≡ r * (w / 2)))
              × ((b i : ℕ)
                  → b < length fed
                  → ((i < 16 → get_or (get_or fed b no_block).y_rows i 0 + w ≤ h * w)
                      × ((i < 8
                            → get_or (get_or fed b no_block).cb_rows i 0 + w / 2 ≤ h / 2 * (w / 2))
                          × (i < 8
                              → get_or (get_or fed b no_block).cr_rows i 0 + w / 2
                                ≤ h / 2 * (w / 2)))))))
unfolding do_encode block
do_encode_feeds_rows w h tall rows plane =
    (length-blocks w h ((h + 15) / 16), (luma, (chroma, inside)))
  where
    n : ℕ
    n = (h + 15) / 16

    y_exact : (i : ℕ) → i < h + 15 → y_row w h i ≡ min (min i (h - 1) * w) ((h - 1) * w)
    y_exact i lt = clamped_row-exact w h i (omega arith) (omega arith) plane (omega arith)

    uv_exact :
        (i : ℕ)
        → i < h + 15
        → uv_row w h i ≡ min (min i (h / 2 - 1) * (w / 2)) ((h / 2 - 1) * (w / 2))
    uv_exact i lt =
        clamped_row-exact (w / 2) (h / 2) i (omega arith) (omega arith)
          (omega (
            arith,
            plane,
            mul-le-mul {n₁ = h / 2} {m₁ = w / 2} {n₂ = h} {m₂ = w} (omega arith) (omega arith),
          ))
          (omega arith)

    luma :
        (r : ℕ) → r < h → get_or (get_or (blocks w h n) (r / 16) no_block).y_rows (r % 16) 0 ≡ r * w
    luma r lt =
        ap (λ b. get_or b.y_rows (r % 16) 0) (blocks_at w h n (r / 16) (omega arith))
        ∙ pointers_at (y_row w h) (r / 16 * 16) 16 (r % 16) (omega arith)
        ∙ ap (y_row w h) {x = r / 16 * 16 + r % 16} {y = r} (omega arith)
        ∙ y_exact r (omega arith)
        ∙ clamped r (h - 1) w (omega arith)

    chroma_row :
        (r : ℕ)
        → r < h / 2
        → get_or (pointers (uv_row w h) (r / 8 * 16 / 2) 8) (r % 8) 0 ≡ r * (w / 2)
    chroma_row r lt =
        pointers_at (uv_row w h) (r / 8 * 16 / 2) 8 (r % 8) (omega arith)
        ∙ ap (uv_row w h) {x = r / 8 * 16 / 2 + r % 8} {y = r} (omega arith)
        ∙ uv_exact r (omega arith)
        ∙ clamped r (h / 2 - 1) (w / 2) (omega arith)

    chroma :
        (r : ℕ)
        → r < h / 2
        → (get_or (get_or (blocks w h n) (r / 8) no_block).cb_rows (r % 8) 0 ≡ r * (w / 2))
          × (get_or (get_or (blocks w h n) (r / 8) no_block).cr_rows (r % 8) 0 ≡ r * (w / 2))
    chroma r lt =
        let at = blocks_at w h n (r / 8) (omega arith) in
        (
          ap (λ b. get_or b.cb_rows (r % 8) 0) at ∙ chroma_row r lt,
          ap (λ b. get_or b.cr_rows (r % 8) 0) at ∙ chroma_row r lt,
        )

    uv_inside :
        (b i : ℕ)
        → b < n
        → i < 8
        → get_or (pointers (uv_row w h) (b * 16 / 2) 8) i 0 + w / 2 ≤ h / 2 * (w / 2)
    uv_inside b i inside lt = omega (
      arith,
      uv_exact (b * 16 / 2 + i) (omega (arith, inside)),
      pointers_at (uv_row w h) (b * 16 / 2) 8 i lt,
      clamped_fits (b * 16 / 2 + i) (h / 2) (w / 2) (omega arith),
    )

    y_inside :
        (b i : ℕ) → b < n → i < 16 → get_or (pointers (y_row w h) (b * 16) 16) i 0 + w ≤ h * w
    y_inside b i inside lt = omega (
      arith,
      y_exact (b * 16 + i) (omega (arith, inside)),
      pointers_at (y_row w h) (b * 16) 16 i lt,
      clamped_fits (b * 16 + i) h w (omega arith),
    )

    inside :
        (b i : ℕ)
        → b < length (blocks w h n)
        → ((i < 16 → get_or (get_or (blocks w h n) b no_block).y_rows i 0 + w ≤ h * w)
            × ((i < 8
                  → get_or (get_or (blocks w h n) b no_block).cb_rows i 0 + w / 2 ≤ h / 2 * (w / 2))
                × (i < 8
                    → get_or (get_or (blocks w h n) b no_block).cr_rows i 0 + w / 2
                      ≤ h / 2 * (w / 2))))
    inside b i lt =
        let below : b < n = omega (arith, length-blocks w h n) in
        let at = blocks_at w h n b below in
        (
          (λ k. subst (λ x. get_or x.y_rows i 0 + w ≤ h * w) (sym at) (y_inside b i below k)),
          (
            (λ k.
                subst (λ x. get_or x.cb_rows i 0 + w / 2 ≤ h / 2 * (w / 2)) (sym at)
                  (uv_inside b i below k)),
            (λ k.
                subst (λ x. get_or x.cr_rows i 0 + w / 2 ≤ h / 2 * (w / 2)) (sym at)
                  (uv_inside b i below k)),
          ),
        )
