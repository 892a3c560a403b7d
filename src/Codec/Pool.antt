-- ===== src/Codec/Pool.antt =====
-- The input slots of a V4L2 encoder, src/record/h264_hw_encoder.cpp and
-- src/stream/jpeg_hw_encoder.cpp. `free` is the queue of the program. `filling` is the slot that
-- `encode` holds between its critical sections, and `driver` lists the slots that VIDIOC_QBUF gave to
-- the driver: the program keeps neither in a variable.
use ras_pi_zero_cam.Prelude.{
  ℕ, ◌+◌, ◌≡◌, refl, ap, Bool, true, false, Option, none, some, List, [], ◌∷◌, ◌++◌, length,
  length-append, arith,
}
use ras_pi_zero_cam.Prelude.Counts.{
  count, count_some, is_in, erase, count-append, count-erase, length-erase,
}

pub record Pool : Type 0 where
  pub free : List ℕ
  pub filling : Option ℕ
  pub driver : List ℕ

-- `free.front()` and `free.pop()`, when a slot is free.
abbrev pub taken : Pool → List ℕ → Option (ℕ × Pool)
taken p [] = none
taken p (slot ∷ rest) = some (slot, record p { free = rest; filling = some slot })

unfoldable pub take_slot : Pool → Option (ℕ × Pool)
take_slot p = taken p p.free

-- What VIDIOC_QBUF answers for the slot: it is the driver's, or free again.
abbrev pub settled : Pool → Option ℕ → Bool → Pool
settled p none ok = p
settled p (some slot) true = record p { filling = none; driver = p.driver ++ slot ∷ [] }
settled p (some slot) false = record p { filling = none; free = p.free ++ slot ∷ [] }

unfoldable pub settle : Pool → Bool → Pool
settle p ok = settled p p.filling ok

-- VIDIOC_DQBUF hands a slot back.
unfoldable pub give_back : Pool → ℕ → Pool
give_back p slot = record p { free = p.free ++ slot ∷ []; driver = erase slot p.driver }

-- How often a slot stands in the pool, and how many there are.
abbrev pub places : ℕ → Pool → ℕ
places i p = count i p.free + count_some i p.filling + count i p.driver

abbrev pub some_one : Option ℕ → ℕ
some_one none = 0
some_one (some x) = 1

abbrev pub total : Pool → ℕ
total p = length p.free + some_one p.filling + length p.driver

pub places-settle : (i : ℕ) (p : Pool) (ok : Bool) → places i (settle p ok) ≡ places i p
unfolding settle
places-settle i p ok = go p.filling ok refl
  where
    go : (o : Option ℕ) (ok : Bool) → p.filling ≡ o → places i (settled p o ok) ≡ places i p
    go none ok e = refl
    go (some slot) true e = omega (arith, ap (count_some i) e, count-append i p.driver (slot ∷ []))
    go (some slot) false e = omega (arith, ap (count_some i) e, count-append i p.free (slot ∷ []))

pub total-settle : (p : Pool) (ok : Bool) → total (settle p ok) ≡ total p
unfolding settle
total-settle p ok = go p.filling ok refl
  where
    go : (o : Option ℕ) (ok : Bool) → p.filling ≡ o → total (settled p o ok) ≡ total p
    go none ok e = refl
    go (some slot) true e = omega (arith, ap some_one e, length-append p.driver (slot ∷ []))
    go (some slot) false e = omega (arith, ap some_one e, length-append p.free (slot ∷ []))

pub places-give_back :
    (i slot : ℕ) (p : Pool) → is_in slot p.driver ≡ true → places i (give_back p slot) ≡ places i p
unfolding give_back
places-give_back i slot p h =
    omega (arith, count-append i p.free (slot ∷ []), count-erase i slot p.driver h)

pub total-give_back :
    (slot : ℕ) (p : Pool) → is_in slot p.driver ≡ true → total (give_back p slot) ≡ total p
unfolding give_back
total-give_back slot p h =
    omega (arith, length-append p.free (slot ∷ []), length-erase slot p.driver h)

-- A slot that the driver takes leaves the free ones alone.
pub free-settle : (p : Pool) → (settle p true).free ≡ p.free
unfolding settle
free-settle p = go p.filling
  where
    go : (o : Option ℕ) → (settled p o true).free ≡ p.free
    go none = refl
    go (some slot) = refl
