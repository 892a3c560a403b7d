-- ===== src/Stream/JpegHw/Encoding.antt =====
-- What `encode` of src/stream/jpeg_hw_encoder.cpp hands to the driver, and that nothing writes to it
-- there.
use ras_pi_zero_cam.Prelude.{
  ℕ, ◌+◌, ◌*◌, ◌/◌, ◌≡◌, ◌≢◌, ◌<◌, ◌≤◌, length, refl, sym, ap, subst, Bool, true, false, Option,
  none, some, List, [], ◌∷◌, ◌++◌, get_or, set, get_or-set_self, get_or-set_ne, arith,
}
use ras_pi_zero_cam.Prelude.Counts.{count, count_some, is_in, count_of_is_in, once_self}
use ras_pi_zero_cam.Codec.Pool.{Pool, take_slot, settle}
use ras_pi_zero_cam.Stream.Nv12.{y_buf, uv_bufs}
use ras_pi_zero_cam.Stream.JpegHw.{
  JpegHw, claimed, claim, copied, copy_in, submit, encode, return_slot, deliver, fill,
}
use ras_pi_zero_cam.Stream.Nv12.Bounds.{Fits, y_buf_plain, uv_bufs_plain}
use ras_pi_zero_cam.Stream.JpegHw.Plain
use ras_pi_zero_cam.Stream.JpegHw.Planes.{Holds, fill_agrees_with_planes}
use ras_pi_zero_cam.Stream.JpegHw.Bounds.{fill_plain}
use ras_pi_zero_cam.Stream.JpegHw.Slots.{
  Step, claims, copies, submits, returns, delivers, stops, IsBacked, slot_lt, Reach, Reach-IsBacked,
}

-- The memory holds the frame as a YU12 image, the planes of the threaded encoder one after another.
pub record IsYu12 (w h s : ℕ) (frame_data mem : List ℕ) : Type 0 where
  pub luma : Holds 0 (w * h) mem (y_buf w h s frame_data)
  pub cb : Holds (w * h) ((w / 2) * (h / 2)) mem (uv_bufs w h s frame_data).0
  pub cr : Holds (w * h + (w / 2) * (h / 2)) ((w / 2) * (h / 2)) mem (uv_bufs w h s frame_data).1

-- An image whose offsets fit 32 bits is copied into a memory with room for it.
fill_image :
    (w h s : ℕ) (frame_data dst : List ℕ)
    → Fits w h s
    → w * h * 3 / 2 ≤ length dst
    → IsYu12 w h s frame_data (fill w h s frame_data dst)
fill_image w h s frame_data dst fits room =
    let planes = fill_agrees_with_planes w h s frame_data dst room in
    let mem = fill_plain w h s frame_data fits dst in
    let y = y_buf_plain w h s fits frame_data in
    let uv = uv_bufs_plain w h s fits frame_data in
    let quarter : ℕ = (w / 2) * (h / 2) in
    record {
      luma =
          subst (λ m. Holds 0 (w * h) m (y_buf w h s frame_data)) (sym mem)
            (subst (Holds 0 (w * h) (Plain.fill w h s frame_data dst)) (sym y) planes.0);
      cb =
          subst (λ m. Holds (w * h) quarter m (uv_bufs w h s frame_data).0) (sym mem)
            (subst (λ p. Holds (w * h) quarter (Plain.fill w h s frame_data dst) p.0) (sym uv)
              planes.1);
      cr =
          subst (λ m. Holds (w * h + quarter) quarter m (uv_bufs w h s frame_data).1) (sym mem)
            (subst (λ p. Holds (w * h + quarter) quarter (Plain.fill w h s frame_data dst) p.1)
              (sym uv) planes.2);
    }

claimed_memories :
    (e : JpegHw) (o : Option (ℕ × Pool)) → (claimed e o).0.output_bufs ≡ e.output_bufs
claimed_memories e none = refl
claimed_memories e (some x) = refl

elsewhere :
    (e : JpegHw) (o : Option ℕ) (frame_data : List ℕ) (i : ℕ)
    → e.pool.filling ≡ o
    → count_some i o ≡ 0
    → get_or (copied e o frame_data).output_bufs i [] ≡ get_or e.output_bufs i []
elsewhere e none frame_data i eq off = refl
elsewhere e (some slot) frame_data i eq off =
    get_or-set_ne e.output_bufs {i = slot} {j = i}
      (fill e.width e.height e.stride frame_data (get_or e.output_bufs slot [])) []
      (λ same. ground (arith, off, same))

-- From every state that the two threads reach, no step of them changes the memory of a slot that the
-- driver has.
pub driver_memory_kept :
    {n : ℕ} {e f : JpegHw}
    → Step e f
    → Reach n e
    → (i : ℕ) → is_in i e.pool.driver ≡ true
    → get_or f.output_bufs i [] ≡ get_or e.output_bufs i []
unfolding claim copy_in submit return_slot deliver
driver_memory_kept {n} (claims e idle) r i h =
    ap (λ bufs. get_or bufs i []) (claimed_memories e (take_slot e.pool))
driver_memory_kept {n} (copies e frame_data) r i h =
    elsewhere e e.pool.filling frame_data i refl
      (ground (arith, (Reach-IsBacked r).slots i, count_of_is_in i e.pool.driver h))
driver_memory_kept {n} (submits e ok) r i h = refl
driver_memory_kept {n} (returns e slot g) r i h = refl
driver_memory_kept {n} (delivers e b g) r i h = refl
driver_memory_kept {n} (stops e) r i h = refl

-- The memories when the slot is filled.
filled : JpegHw → List ℕ → ℕ → List (List ℕ)
filled e frame_data slot =
    set e.output_bufs slot
      (fill e.width e.height e.stride frame_data (get_or e.output_bufs slot []))

filled_image :
    (n : ℕ) (e : JpegHw) (frame_data : List ℕ) (slot : ℕ)
    → Fits e.width e.height e.stride
    → IsBacked n e
    → slot < n
    → IsYu12 e.width e.height e.stride frame_data (get_or (filled e frame_data slot) slot [])
unfolding filled
filled_image n e frame_data slot fits v inside =
    subst (IsYu12 e.width e.height e.stride frame_data)
      (sym (
        get_or-set_self e.output_bufs slot
          (fill e.width e.height e.stride frame_data (get_or e.output_bufs slot [])) []
          (omega (arith, inside, v.mapped))))
      (fill_image e.width e.height e.stride frame_data (get_or e.output_bufs slot []) fits
        (v.room slot inside))

filled_others :
    (e : JpegHw) (frame_data : List ℕ) (slot i : ℕ)
    → i ≢ slot
    → get_or (filled e frame_data slot) i [] ≡ get_or e.output_bufs i []
unfolding filled
filled_others e frame_data slot i off =
    get_or-set_ne e.output_bufs {i = slot} {j = i}
      (fill e.width e.height e.stride frame_data (get_or e.output_bufs slot [])) []
      (λ same. off (sym same))

-- The pool after `encode` with `slot` the first free one, and the answer of VIDIOC_QBUF.
abbrev pub answered : Pool → ℕ → List ℕ → Bool → Pool
answered p slot rest true = record { free = rest; filling = none; driver = p.driver ++ slot ∷ [] }
answered p slot rest false = record { free = rest ++ slot ∷ []; filling = none; driver = p.driver }

-- In every state that the two threads reach, when `slot` is the first free one, the granted slots
-- have room for a YU12 image, and the width, `width * height` and `stride * height` are below 2 ^ 32,
-- `encode` answers what VIDIOC_QBUF answered, leaves the frame as a YU12 image in the memory
-- of `slot`, keeps the other memories, and puts `slot` behind those of the driver, or, when
-- VIDIOC_QBUF failed, behind the free ones.
pub encode_hands_image :
    {n : ℕ} {e : JpegHw} (frame_data : List ℕ) (ok : Bool) (slot : ℕ) (rest : List ℕ)
    → Fits e.width e.height e.stride
    → Reach n e
    → e.pool.free ≡ slot ∷ rest
    → ((encode e frame_data ok).1 ≡ ok)
      × IsYu12 e.width e.height e.stride frame_data
          (get_or (encode e frame_data ok).0.output_bufs slot [])
      × ((i : ℕ)
          → i ≢ slot
          → get_or (encode e frame_data ok).0.output_bufs i [] ≡ get_or e.output_bufs i [])
      × ((encode e frame_data ok).0.pool ≡ answered e.pool slot rest ok)
unfolding encode claim take_slot copy_in submit settle filled
encode_hands_image {n} {e} frame_data true slot rest fits r eq =
    let inside : slot < n =
      slot_lt n slot e (Reach-IsBacked r) (omega (arith, ap (count slot) eq, once_self slot)) in
    rw eq (
      refl,
      filled_image n e frame_data slot fits (Reach-IsBacked r) inside,
      filled_others e frame_data slot,
      refl,
    )
encode_hands_image {n} {e} frame_data false slot rest fits r eq =
    let inside : slot < n =
      slot_lt n slot e (Reach-IsBacked r) (omega (arith, ap (count slot) eq, once_self slot)) in
    rw eq (
      refl,
      filled_image n e frame_data slot fits (Reach-IsBacked r) inside,
      filled_others e frame_data slot,
      refl,
    )
