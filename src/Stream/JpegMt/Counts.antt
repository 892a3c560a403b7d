-- ===== src/Stream/JpegMt/Counts.antt =====
-- Where each frame index stands in src/stream/jpeg_mt_encoder.cpp: every accepted frame that was not
-- yet delivered is in one place, and each output queue is sorted.
use ras_pi_zero_cam.Prelude.{
  ℕ, zero, suc, ◌+◌, ◌≡◌, ◌<◌, ◌≤◌, refl, Option, none, some, List, [], ◌∷◌, ◌++◌, ◌==◌,
  if◌then◌else◌, arith,
}
use ras_pi_zero_cam.Stream.JpegMt.{
  EncodeItem, OutputItem, Lane, lane, start_lane, encoded, finish_lane,
}

abbrev pub hit : ℕ → ℕ → ℕ
hit n k = if k == n then 1 else 0

-- How many items of index `n` wait, are being encoded, or are encoded.
abbrev pub count_queue : ℕ → List EncodeItem → ℕ
count_queue n [] = 0
count_queue n (x ∷ q) = hit n x.index + count_queue n q

abbrev pub count_busy : ℕ → Option EncodeItem → ℕ
count_busy n none = 0
count_busy n (some x) = hit n x.index

abbrev pub count_out : ℕ → List OutputItem → ℕ
count_out n [] = 0
count_out n (x ∷ q) = hit n x.index + count_out n q

abbrev pub count_lanes : ℕ → List Lane → ℕ
count_lanes n [] = 0
count_lanes n (lane busy out ∷ ls) = count_busy n busy + count_out n out + count_lanes n ls

-- Indices that rise from `lo` on and stay below `hi`.
abbrev pub Rises : ℕ → ℕ → List OutputItem → Type 0
Rises lo hi [] = lo ≤ hi
Rises lo hi (x ∷ q) = (lo ≤ x.index) × Rises (suc x.index) hi q

abbrev pub Sorted : ℕ → List Lane → Type 0
Sorted m [] = Unit {0}
Sorted m (lane none out ∷ ls) = Rises 0 m out × Sorted m ls
Sorted m (lane (some x) out ∷ ls) = Rises 0 x.index out × (x.index < m) × Sorted m ls

pub Rises-lower : (l lo hi : ℕ) (q : List OutputItem) → l ≤ lo → Rises lo hi q → Rises l hi q
Rises-lower l lo hi [] h r = omega arith
Rises-lower l lo hi (x ∷ q) h r = (omega arith, r.1)

Rises-raise : (lo hi h : ℕ) (q : List OutputItem) → hi ≤ h → Rises lo hi q → Rises lo h q
Rises-raise lo hi h [] k r = omega arith
Rises-raise lo hi h (x ∷ q) k r = (r.0, Rises-raise (suc x.index) hi h q k r.1)

Rises-snoc :
    (lo hi m : ℕ) (q : List OutputItem) (x : OutputItem)
    → x.index ≡ hi
    → hi < m
    → Rises lo hi q
    → Rises lo m (q ++ x ∷ [])
Rises-snoc lo hi m [] x e h r = omega arith
Rises-snoc lo hi m (y ∷ q) x e h r = (r.0, Rises-snoc (suc y.index) hi m q x e h r.1)

pub count_out-Rises :
    (n lo hi : ℕ) (q : List OutputItem) → n < lo → Rises lo hi q → count_out n q ≡ 0
count_out-Rises n lo hi [] h r = refl
count_out-Rises n lo hi (x ∷ q) h r =
    ground (arith, count_out-Rises n (suc x.index) hi q (omega arith) r.1)

pub Sorted-raise : (m : ℕ) (ls : List Lane) → Sorted m ls → Sorted (suc m) ls
Sorted-raise m [] h = tt
Sorted-raise m (lane none out ∷ ls) h =
    (Rises-raise 0 m (suc m) out (omega arith) h.0, Sorted-raise m ls h.1)
Sorted-raise m (lane (some x) out ∷ ls) h = (h.0, omega arith, Sorted-raise m ls h.2)

count_out-snoc :
    (n : ℕ) (q : List OutputItem) (x : OutputItem)
    → count_out n (q ++ x ∷ []) ≡ count_out n q + hit n x.index
count_out-snoc n [] x = omega arith
count_out-snoc n (y ∷ q) x = omega (arith, count_out-snoc n q x)

pub count_queue-snoc :
    (n : ℕ) (q : List EncodeItem) (x : EncodeItem)
    → count_queue n (q ++ x ∷ []) ≡ count_queue n q + hit n x.index
count_queue-snoc n [] x = omega arith
count_queue-snoc n (y ∷ q) x = omega (arith, count_queue-snoc n q x)

-- Taking the item of index `m` keeps the lanes sorted, and adds it to them.
abbrev pub Started : ℕ → ℕ → EncodeItem → List Lane → Option (List Lane) → Type 0
Started m n x ls none = Unit {0}
Started m n x ls (some ls') =
    Sorted (suc m) ls' × (count_lanes n ls' ≡ count_lanes n ls + hit n x.index)

start_cons :
    (m n : ℕ) (x : EncodeItem) (l : Lane) (ls : List Lane) (o : Option (List Lane))
    → Sorted m (l ∷ [])
    → Started m n x ls o
    → Started m n x (l ∷ ls) (elim o [ none ↦ none | some ls' ↦ some (l ∷ ls') ])
start_cons m n x l ls none h k = tt
start_cons m n x (lane none out) ls (some ls') h k =
    ((Rises-raise 0 m (suc m) out (omega arith) h.0, k.0), omega (arith, k.1))
start_cons m n x (lane (some y) out) ls (some ls') h k =
    ((h.0, omega arith, k.0), omega (arith, k.1))

pub start_lane-Started :
    (m n i : ℕ) (x : EncodeItem) (ls : List Lane)
    → x.index ≡ m
    → Sorted m ls
    → Started m n x ls (start_lane i x ls)
unfolding start_lane
start_lane-Started m n i x [] e h = tt
start_lane-Started m n zero x (lane none out ∷ ls) e h = (
  (Rises-raise 0 m x.index out (omega arith) h.0, omega arith, Sorted-raise m ls h.1),
  omega arith,
)
start_lane-Started m n zero x (lane (some y) out ∷ ls) e h = tt
start_lane-Started m n (suc i) x (lane none out ∷ ls) e h =
    start_cons m n x (lane none out) ls (start_lane i x ls) (h.0, tt)
      (start_lane-Started m n i x ls e h.1)
start_lane-Started m n (suc i) x (lane (some y) out ∷ ls) e h =
    start_cons m n x (lane (some y) out) ls (start_lane i x ls) (h.0, h.1, tt)
      (start_lane-Started m n i x ls e h.2)

module _ (compress : ℕ → List ℕ) where
  pub finish_lane-Sorted :
      (m i : ℕ) (ls : List Lane) → Sorted m ls → Sorted m (finish_lane compress i ls)
  unfolding finish_lane
  finish_lane-Sorted m i [] h = tt
  finish_lane-Sorted m zero (lane none out ∷ ls) h = h
  finish_lane-Sorted m zero (lane (some x) out ∷ ls) h =
      (Rises-snoc 0 x.index m out (encoded compress x) refl h.1 h.0, h.2)
  finish_lane-Sorted m (suc i) (lane none out ∷ ls) h = (h.0, finish_lane-Sorted m i ls h.1)
  finish_lane-Sorted m (suc i) (lane (some x) out ∷ ls) h =
      (h.0, h.1, finish_lane-Sorted m i ls h.2)

  pub count_lanes-finish_lane :
      (n i : ℕ) (ls : List Lane) → count_lanes n (finish_lane compress i ls) ≡ count_lanes n ls
  unfolding finish_lane
  count_lanes-finish_lane n i [] = refl
  count_lanes-finish_lane n zero (lane none out ∷ ls) = refl
  count_lanes-finish_lane n zero (lane (some x) out ∷ ls) =
      omega (arith, count_out-snoc n out (encoded compress x))
  count_lanes-finish_lane n (suc i) (lane busy out ∷ ls) =
      omega (arith, count_lanes-finish_lane n i ls)
