-- ===== src/Stream/JpegMt/Order.antt =====
-- The output of src/stream/jpeg_mt_encoder.cpp follows the order of its input, whatever the threads
-- do.

use ras_pi_zero_cam.Prelude.{
  ==_iff, Bool-cases, inl, inr, ℕ, zero, suc, ◌≡◌, ◌<◌, ◌≤◌, refl, ap, Option, none, some, List, [],
  ◌∷◌, ◌++◌, length, ◌==◌, arith,
}
use ras_pi_zero_cam.Stream.JpegMt.{
  EncodeItem, OutputItem, Lane, lane, start_lane, fire, skip, pop_expected, encoded, finish_lane,
}

-- The first `n` of a list, and the item at a place.
abbrev pub take {ℓ} : {A : Type ℓ} → ℕ → List A → List A
take zero xs = []
take (suc n) [] = []
take (suc n) (x ∷ xs) = x ∷ take n xs

-- `At n x xs`: the item at place `n` is `x`.
abbrev pub At : ℕ → ℕ → List ℕ → Type 0
At n x [] = ⊥
At zero x (y ∷ ys) = y ≡ x
At (suc n) x (y ∷ ys) = At n x ys

At-append : (n x y : ℕ) (xs : List ℕ) → At n x xs → At n x (xs ++ y ∷ [])
At-append n x y [] h = absurd h
At-append zero x y (z ∷ zs) h = h
At-append (suc n) x y (z ∷ zs) h = At-append n x y zs h

At-last : (x : ℕ) (xs : List ℕ) → At (length xs) x (xs ++ x ∷ [])
At-last x [] = refl
At-last x (y ∷ ys) = At-last x ys

pub At-lt : (n x : ℕ) (xs : List ℕ) → At n x xs → n < length xs
At-lt n x [] h = absurd h
At-lt zero x (y ∷ ys) h = omega arith
At-lt (suc n) x (y ∷ ys) h = omega (arith, At-lt n x ys h)

pub take-At : (n x : ℕ) (xs : List ℕ) → At n x xs → take (suc n) xs ≡ take n xs ++ x ∷ []
take-At n x [] h = absurd h
take-At zero x (y ∷ ys) h = ap (λ z. z ∷ []) h
take-At (suc n) x (y ∷ ys) h = ap (◌∷◌ y) (take-At n x ys h)

pub take-append : (n y : ℕ) (xs : List ℕ) → n ≤ length xs → take n (xs ++ y ∷ []) ≡ take n xs
take-append zero y xs h = refl
take-append (suc n) y [] h = absurd (omega arith)
take-append (suc n) y (x ∷ xs) h = ap (◌∷◌ x) (take-append n y xs (omega arith))

module _ (compress : ℕ → List ℕ) where
  -- What the callback sees of a list of frames: the JPEGs, but for empty ones.
  abbrev pub outputs : List (List ℕ) → List ℕ → List (List ℕ)
  outputs sent [] = sent
  outputs sent (f ∷ fs) = outputs (fire sent (compress f)) fs

  pub outputs-snoc :
      (sent : List (List ℕ)) (fs : List ℕ) (f : ℕ)
      → outputs sent (fs ++ f ∷ []) ≡ fire (outputs sent fs) (compress f)
  outputs-snoc sent [] f = refl
  outputs-snoc sent (g ∷ gs) f = outputs-snoc (fire sent (compress g)) gs f

  module _ (accepted : List ℕ) where
    -- An item stands for the accepted frame of its index.
    abbrev pub Waits : List EncodeItem → Type 0
    Waits [] = Unit {0}
    Waits (x ∷ q) = At x.index x.frame accepted × Waits q

    abbrev pub Encoded : OutputItem → Type 0
    Encoded x = (f : ℕ) × At x.index f accepted × (x.jpeg ≡ compress f)

    abbrev pub Done : List OutputItem → Type 0
    Done [] = Unit {0}
    Done (x ∷ q) = Encoded x × Done q

    abbrev pub Busy : Option EncodeItem → Type 0
    Busy none = Unit {0}
    Busy (some x) = At x.index x.frame accepted

    abbrev pub Lanes : List Lane → Type 0
    Lanes [] = Unit {0}
    Lanes (lane busy out ∷ ls) = Busy busy × Done out × Lanes ls

    abbrev pub LanesIf : Option (List Lane) → Type 0
    LanesIf none = Unit {0}
    LanesIf (some ls) = Lanes ls

    abbrev pub Popped : ℕ → Option (OutputItem × List Lane) → Type 0
    Popped n none = Unit {0}
    Popped n (some (x, ls)) = Encoded x × (x.index ≡ n) × Lanes ls

    start_cons :
        (l : Lane) (o : Option (List Lane))
        → Lanes (l ∷ [])
        → LanesIf o
        → LanesIf (elim o [ none ↦ none | some ls ↦ some (l ∷ ls) ])
    start_cons (lane busy out) none h k = tt
    start_cons (lane busy out) (some ls) h k = (h.0, h.1, k)

    pub start_lane-Lanes :
        (i : ℕ) (x : EncodeItem) (ls : List Lane)
        → Busy (some x)
        → Lanes ls
        → LanesIf (start_lane i x ls)
    unfolding start_lane
    start_lane-Lanes i x [] b h = tt
    start_lane-Lanes zero x (lane none out ∷ ls) b h = (b, h.1, h.2)
    start_lane-Lanes zero x (lane (some y) out ∷ ls) b h = tt
    start_lane-Lanes (suc i) x (lane busy out ∷ ls) b h =
        start_cons (lane busy out) (start_lane i x ls) (h.0, h.1, tt)
          (start_lane-Lanes i x ls b h.2)

    Done-snoc :
        (out : List OutputItem) (x : OutputItem) → Done out → Encoded x → Done (out ++ x ∷ [])
    Done-snoc [] x h k = (k, tt)
    Done-snoc (y ∷ out) x h k = (h.0, Done-snoc out x h.1 k)

    pub finish_lane-Lanes : (i : ℕ) (ls : List Lane) → Lanes ls → Lanes (finish_lane compress i ls)
    unfolding finish_lane
    finish_lane-Lanes i [] h = tt
    finish_lane-Lanes zero (lane none out ∷ ls) h = h
    finish_lane-Lanes zero (lane (some x) out ∷ ls) h =
        (tt, Done-snoc out (encoded compress x) h.1 (x.frame, h.0, refl), h.2)
    finish_lane-Lanes (suc i) (lane busy out ∷ ls) h = (h.0, h.1, finish_lane-Lanes i ls h.2)

    skip-Popped :
        (n : ℕ) (l : Lane) (o : Option (OutputItem × List Lane))
        → Lanes (l ∷ [])
        → Popped n o
        → Popped n (skip l o)
    skip-Popped n (lane busy out) none h k = tt
    skip-Popped n (lane busy out) (some (x, ls)) h k = (k.0, k.1, (h.0, h.1, k.2))

    pub pop_expected-Popped : (n : ℕ) (ls : List Lane) → Lanes ls → Popped n (pop_expected n ls)
    unfolding pop_expected
    pop_expected-Popped n [] h = tt
    pop_expected-Popped n (lane busy [] ∷ ls) h =
        skip-Popped n (lane busy []) (pop_expected n ls) (h.0, tt, tt)
          (pop_expected-Popped n ls h.2)
    pop_expected-Popped n (lane busy (x ∷ out) ∷ ls) h = elim (Bool-cases (x.index == n)) [
      | inl e ↦ rw e (h.1.0, (==_iff x.index n).0 e, (h.0, h.1.1, h.2))
      | inr e ↦ rw e (
          skip-Popped n (lane busy (x ∷ out)) (pop_expected n ls) (h.0, h.1, tt)
            (pop_expected-Popped n ls h.2))
    ]

  -- A new frame keeps what is known of the others.
  module _ (accepted : List ℕ) (f : ℕ) where
    Waits-grow : (q : List EncodeItem) → Waits accepted q → Waits (accepted ++ f ∷ []) q
    Waits-grow [] h = tt
    Waits-grow (x ∷ q) h = (At-append x.index x.frame f accepted h.0, Waits-grow q h.1)

    pub Waits-push :
        (q : List EncodeItem) (n : ℕ)
        → n ≡ length accepted
        → Waits accepted q
        → Waits (accepted ++ f ∷ []) (q ++ record { frame = f; index = n } ∷ [])
    Waits-push [] n e h = (rw e (At-last f accepted), tt)
    Waits-push (x ∷ q) n e h = (At-append x.index x.frame f accepted h.0, Waits-push q n e h.1)

    Done-grow : (q : List OutputItem) → Done accepted q → Done (accepted ++ f ∷ []) q
    Done-grow [] h = tt
    Done-grow (x ∷ q) h =
        ((h.0.0, At-append x.index h.0.0 f accepted h.0.1, h.0.2), Done-grow q h.1)

    pub Lanes-grow : (ls : List Lane) → Lanes accepted ls → Lanes (accepted ++ f ∷ []) ls
    Lanes-grow [] h = tt
    Lanes-grow (lane none out ∷ ls) h = (tt, Done-grow out h.1, Lanes-grow ls h.2)
    Lanes-grow (lane (some x) out ∷ ls) h =
        (At-append x.index x.frame f accepted h.0, Done-grow out h.1, Lanes-grow ls h.2)
