-- ===== src/Power/Tests.antt =====
-- The power monitor at concrete inputs.
use ras_pi_zero_cam.Prelude.{
  ℕ, ◌+◌, ◌-◌, ◌*◌, ◌/◌, ◌%◌, ◌^◌, ◌≡◌, ◌≢◌, ◌<◌, refl, sym, subst, true, false, Option, none, some,
  List, [], ◌∷◌, inl, inr, ◌==◌, ltb, if◌then◌else◌, arith,
}
use ras_pi_zero_cam.Power.Ina219.{
  Register, calibration, address, Bus, Floats, Ina219, ℤ, pos, negsuc, calibrated, initialize,
}
use ras_pi_zero_cam.Power.Ina219.Chip.{Keeps, IsChip, IsSetUp, initialize_succeeds}
use ras_pi_zero_cam.Power.Battery.{Monitor, head, ended, napping, poll, thread_fn}
use ras_pi_zero_cam.Power.Battery.Polling.{rounds, thread_fn_outcome}

-- A chip: its pointer, CONFIG, CALIBRATION, and zeros elsewhere.
pub record Cells : Type 0 where
  pub at : ℕ
  pub conf : ℕ
  pub cal : ℕ

abbrev pub reg_of : Cells → ℕ → ℕ
reg_of c k = if k == 0 then c.conf else (if k == 5 then c.cal else 0)

abbrev pub store : Cells → ℕ → ℕ → Cells
store c k v =
    if k == 0
    then record c { conf = if v == 32768 then 14751 else v }
    else (if k == 5 then record c { cal = v } else c)

abbrev pub cells_write : Cells → List ℕ → Cells × Option ℕ
cells_write c [] = (c, some 0)
cells_write c (k ∷ []) = (record c { at = k }, some 1)
cells_write c (k ∷ hi ∷ []) = (c, none)
cells_write c (k ∷ hi ∷ lo ∷ []) = (store c k (hi * 256 + lo), some 3)
cells_write c (k ∷ hi ∷ lo ∷ x ∷ xs) = (c, none)

abbrev pub cells_read : Cells → ℕ → Cells × Option (List ℕ)
cells_read c n = (c, some (reg_of c c.at / 2 ^ 8 ∷ reg_of c c.at % 2 ^ 8 ∷ []))

abbrev pub cells_bus : Bus Cells
cells_bus = record { write = cells_write; read = cells_read }

word_bytes : (v : ℕ) → v < 2 ^ 16 → v / 256 % 256 * 256 + v % 256 ≡ v
word_bytes v h = omega arith

differ : (k n : ℕ) → k ≢ n → (k == n) ≡ false
differ k n h = ground arith

other_conf : (b : Cells) (w k : ℕ) → k ≢ 0 → reg_of (store b 0 w) k ≡ reg_of b k
other_conf b w k h = rw (differ k 0 h) refl

other_cal : (b : Cells) (w k : ℕ) → k ≢ 5 → reg_of (store b 5 w) k ≡ reg_of b k
other_cal b w k h = rw (differ k 5 h) refl

conf_stores :
    (b : Cells) (v : ℕ) → v < 2 ^ 15 → reg_of (store b 0 (v / 256 % 256 * 256 + v % 256)) 0 ≡ v
conf_stores b v h = rw (word_bytes v (omega arith)) (rw (ordinary v h) refl)
  where
    ordinary : (v : ℕ) → v < 2 ^ 15 → (v == 32768) ≡ false
    ordinary v h = ground arith

cells_store :
    (b : Cells) (reg : Register) (v : ℕ)
    → Keeps reg v
    → reg_of (store b (address reg) (v / 256 % 256 * 256 + v % 256)) (address reg) ≡ v
cells_store b reg v (inl (e, lt)) =
    subst (λ r. reg_of (store b (address r) (v / 256 % 256 * 256 + v % 256)) (address r) ≡ v)
      (sym e) (conf_stores b v lt)
cells_store b reg v (inr (e, (lt, even))) =
    subst (λ r. reg_of (store b (address r) (v / 256 % 256 * 256 + v % 256)) (address r) ≡ v)
      (sym e) (word_bytes v lt)

cells_spare :
    (b : Cells) (reg : Register) (v k : ℕ)
    → Keeps reg v
    → k ≢ address reg
    → reg_of (store b (address reg) (v / 256 % 256 * 256 + v % 256)) k ≡ reg_of b k
cells_spare b reg v k (inl (e, lt)) ne =
    subst
      (λ r.
        k ≢ address r → reg_of (store b (address r) (v / 256 % 256 * 256 + v % 256)) k ≡ reg_of b k)
      (sym e) (λ h. other_conf b (v / 256 % 256 * 256 + v % 256) k h) ne
cells_spare b reg v k (inr (e, (lt, even))) ne =
    subst
      (λ r.
        k ≢ address r → reg_of (store b (address r) (v / 256 % 256 * 256 + v % 256)) k ≡ reg_of b k)
      (sym e) (λ h. other_cal b (v / 256 % 256 * 256 + v % 256) k h) ne

cells-IsChip : IsChip cells_bus reg_of (λ c. c.at)
cells-IsChip = record {
  stores = cells_store;
  spares = cells_spare;
  resets = λ b. refl;
  points = λ b r. (refl, (refl, λ k. refl));
  reads = λ b. (refl, λ k. refl);
}

abbrev pub blank : Cells
blank = record { at = 0; conf = 0; cal = 0 }

-- Whole millionths in place of `float`; the quotients of the calibration are rounded down.
abbrev pub int_to : ℤ → ℕ
int_to (pos n) = n
int_to (negsuc n) = 0

abbrev pub micro : Floats ℕ
micro = record {
  literal = λ n d. n * 1000000 / d;
  of_int = λ i. int_to i * 1000000;
  sub = λ a b. a - b;
  mul = λ a b. a * b / 1000000;
  div = λ a b. a * 1000000 / b;
  truncate = λ a. pos (a / 1000000);
  truncate_u16 = λ a. a / 1000000 / 2 * 2 % 2 ^ 16;
  above = λ a b. ltb b a;
}

abbrev pub sensor : Ina219 ℕ
sensor = record { fd_open = true; current_lsb_ma = 0; power_lsb_mw = 0; calibration_value = 0 }

sensor-Keeps : Keeps calibration (calibrated cells_bus micro sensor).calibration_value
unfolding calibrated
sensor-Keeps = inr (refl, (omega arith, refl))

initialize_succeeds_example :
    let after = initialize cells_bus micro sensor blank in
    (after.1.1 ≡ true)
    × ((after.0 ≡ calibrated cells_bus micro sensor)
        × IsSetUp cells_bus reg_of
            (λ c. c.at)
            cells-IsChip
            micro
            (calibrated cells_bus micro sensor)
            after.1.0)
initialize_succeeds_example =
    initialize_succeeds cells_bus reg_of (λ c. c.at) cells-IsChip micro sensor blank refl
      sensor-Keeps

abbrev pub monitor : Monitor ℕ Cells
monitor = record {
  bus_state = blank;
  reading = record {
    voltage = 0;
    current_ma = 0;
    power_mw = 0;
    percentage = 0;
    charging = false;
    low_battery = false;
  };
  running = false;
  sent = [];
}

thread_fn_outcome_example :
    (thread_fn cells_bus micro sensor (head, monitor) (rounds cells_bus micro sensor 1)
      ≡ (head, poll cells_bus micro sensor monitor))
    × (thread_fn cells_bus micro sensor (napping 7, monitor) (true ∷ true ∷ []) ≡ (ended, monitor))
thread_fn_outcome_example = thread_fn_outcome cells_bus micro sensor 1 (napping 7) monitor []
