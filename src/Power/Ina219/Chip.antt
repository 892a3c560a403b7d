-- ===== src/Power/Ina219/Chip.antt =====
-- The driver of src/power/ina219.cpp on a chip that keeps its registers.
use Prim.Native.Nat.{bit_or}
use ras_pi_zero_cam.Prelude.{
  ℕ, ◌*◌, ◌/◌, ◌%◌, ◌^◌, ◌≡◌, ◌≢◌, ◌<◌, ◌⊎◌, inl, inr, Bool-cases, refl, sym, ap, ◌∙◌, true, false,
  Option, none, some, List, [], ◌∷◌, ◌==◌, arith,
}
use ras_pi_zero_cam.Prelude.Bits.{bit_or-shifted}
use ras_pi_zero_cam.Power.Ina219.{
  Register, config, calibration, address, Bus, Floats, Ina219, write_register, read_register,
  joined, after_pointer, configure, calibrated, calibrate, setup, initialize, config_word,
  config_reset_value, config_rst_bit, range_16v, div_2_80mv, adcres_12bit_32s,
  shunt_and_bus_continuous,
}
use ras_pi_zero_cam.Power.Ina219.Config.{config_word_fields}

-- The words that a register keeps: CONFIG without its reset bit, CALIBRATION with bit 0 clear.
abbrev pub Keeps : Register → ℕ → Type 0
Keeps reg v = ((reg ≡ config) × (v < 2 ^ 15)) ⊎ ((reg ≡ calibration) × ((v < 2 ^ 16) × (v % 2 ≡ 0)))

-- The behaviour that the INA219's data sheet documents, as far as the driver relies on it: `regs`
-- are the registers of the chip and `pointer` its register pointer.
pub record IsChip {B : Type 0} (bus : Bus B) (regs : B → ℕ → ℕ) (pointer : B → ℕ) : Type 0 where
  pub stores :
      (b : B) (reg : Register) (v : ℕ)
      → Keeps reg v
      → regs (bus.write b (address reg ∷ (v / 2 ^ 8) % 2 ^ 8 ∷ v % 2 ^ 8 ∷ [])).0 (address reg) ≡ v
  pub spares :
      (b : B) (reg : Register) (v k : ℕ)
      → Keeps reg v
      → k ≢ address reg
      → regs (bus.write b (address reg ∷ (v / 2 ^ 8) % 2 ^ 8 ∷ v % 2 ^ 8 ∷ [])).0 k ≡ regs b k
  pub resets : (b : B) → regs (bus.write b (0 ∷ 128 ∷ 0 ∷ [])).0 0 ≡ 14751
  pub points :
      (b : B) (r : ℕ)
      → ((bus.write b (r ∷ [])).1 ≡ some 1)
        × ((pointer (bus.write b (r ∷ [])).0 ≡ r)
            × ((k : ℕ) → regs (bus.write b (r ∷ [])).0 k ≡ regs b k))
  pub reads :
      (b : B)
      → ((bus.read b 2).1 ≡ some (regs b (pointer b) / 2 ^ 8 ∷ regs b (pointer b) % 2 ^ 8 ∷ []))
        × ((k : ℕ) → regs (bus.read b 2).0 k ≡ regs b k)

word_again : (v : ℕ) → bit_or (v / 2 ^ 8 * 2 ^ 8) (v % 2 ^ 8) ≡ v
word_again v = omega (arith, bit_or-shifted 8 (v / 2 ^ 8) (v % 2 ^ 8) (omega arith))

joined_word :
    {B : Type 0} (bus : Bus B) (b : B) (o : Option (List ℕ)) (v : ℕ)
    → o ≡ some (v / 2 ^ 8 ∷ v % 2 ^ 8 ∷ [])
    → joined bus (b, o) ≡ (b, v)
joined_word bus b o v e = rw e (ap (λ w. (b, w)) (word_again v))

pointed :
    {B : Type 0} (bus : Bus B) (b : B) (o : Option ℕ)
    → o ≡ some 1
    → after_pointer bus (b, o) ≡ joined bus (bus.read b 2)
pointed bus b o e = rw e refl

module _ {B : Type 0} (bus : Bus B) (regs : B → ℕ → ℕ) (pointer : B → ℕ)
    (chip : IsChip bus regs pointer) where
  -- A read gives the register's word, and changes no register.
  read_register_at :
      (b : B) (reg : Register)
      → ((read_register bus b reg).1 ≡ regs b (address reg))
        × ((k : ℕ) → regs (read_register bus b reg).0 k ≡ regs b k)
  unfolding read_register
  read_register_at b reg =
      let p = bus.write b (address reg ∷ []) in
      let r = bus.read p.0 2 in
      let at = chip.points b (address reg) in
      let got = chip.reads p.0 in
      let path =
        pointed bus p.0 p.1 at.0 ∙ joined_word bus r.0 r.1 (regs p.0 (pointer p.0)) got.0 in
      (
        ap (λ x. x.1) path ∙ ap (regs p.0) at.1.0 ∙ at.1.1 (address reg),
        λ k. ap (λ x. regs x.0 k) path ∙ got.1 k ∙ at.1.1 k,
      )

  write_register_at :
      (b : B) (reg : Register) (v : ℕ)
      → Keeps reg v
      → regs (write_register bus b reg v) (address reg) ≡ v
  unfolding write_register
  write_register_at b reg v h = chip.stores b reg v h

  write_register_elsewhere :
      (b : B) (reg : Register) (v k : ℕ)
      → Keeps reg v
      → k ≢ address reg
      → regs (write_register bus b reg v) k ≡ regs b k
  unfolding write_register
  write_register_elsewhere b reg v k h ne = chip.spares b reg v k h ne

  -- On a chip, a word that CONFIG or CALIBRATION keeps is read back after it was written, whatever
  -- was in the registers before.
  pub read_register-write_register :
      (b : B) (reg : Register) (v : ℕ)
      → Keeps reg v
      → (read_register bus (write_register bus b reg v) reg).1 ≡ v
  read_register-write_register b reg v h =
      (read_register_at (write_register bus b reg v) reg).0 ∙ write_register_at b reg v h

  module _ {F : Type 0} (floats : Floats F) where
    -- What `calibrate` and `configure` leave.
    abbrev pub IsSetUp : Ina219 F → B → Type 0
    IsSetUp s b =
        (regs b 0
          ≡ config_word range_16v div_2_80mv adcres_12bit_32s adcres_12bit_32s
              shunt_and_bus_continuous)
        × (regs b 5 ≡ s.calibration_value)

    setup_at :
        (s : Ina219 F) (b : B)
        → Keeps calibration (calibrated bus floats s).calibration_value
        → ((setup bus floats s b).0 ≡ calibrated bus floats s)
          × IsSetUp (calibrated bus floats s) (setup bus floats s b).1
    unfolding setup calibrate configure
    setup_at s b h =
        let v = (calibrated bus floats s).calibration_value in
        let c = write_register bus b calibration v in
        let w =
          config_word range_16v div_2_80mv adcres_12bit_32s adcres_12bit_32s
            shunt_and_bus_continuous in
        let k : Keeps config w = inl (
          refl,
          (config_word_fields range_16v div_2_80mv adcres_12bit_32s adcres_12bit_32s
              shunt_and_bus_continuous).0,
        ) in
        (
          refl,
          (
            write_register_at c config w k,
            write_register_elsewhere c config w 5 k (λ e. omega arith)
                ∙ write_register_at b calibration v h,
          ),
        )

    reset_read :
        (b : B)
        → (read_register bus (write_register bus b config config_rst_bit) config).1
          ≡ config_reset_value
    unfolding write_register
    reset_read b =
        (read_register_at (write_register bus b config config_rst_bit) config).0 ∙ chip.resets b

    test_same : (m n : ℕ) → m ≡ n → (m == n) ≡ true
    test_same m n e = ground arith

    back_same :
        (s : Ina219 F) (b : B)
        → Keeps calibration (calibrated bus floats s).calibration_value
        → ((read_register bus (setup bus floats s b).1 calibration).1
            ≡ (setup bus floats s b).0.calibration_value)
          × IsSetUp
              (calibrated bus floats s)
              (read_register bus (setup bus floats s b).1 calibration).0
    back_same s b h =
        let at = setup_at s b h in
        let got = read_register_at (setup bus floats s b).1 calibration in
        (
          got.0 ∙ at.1.1 ∙ ap (λ x. x.calibration_value) (sym at.0),
          (got.1 0 ∙ at.1.0, got.1 5 ∙ at.1.1),
        )

    -- On a chip, with the device open and a calibration word that the chip keeps, `initialize`
    -- succeeds whatever the registers held before, the driver's scale factors are those of
    -- `calibrate`, and the chip holds the configuration of `initialize` and the calibration word.
    pub initialize_succeeds :
        (s : Ina219 F) (b : B)
        → s.fd_open ≡ true
        → Keeps calibration (calibrated bus floats s).calibration_value
        → let after = initialize bus floats s b in
          (after.1.1 ≡ true)
          × ((after.0 ≡ calibrated bus floats s) × IsSetUp (calibrated bus floats s) after.1.0)
    unfolding initialize
    initialize_succeeds s b o h =
        let found = read_register bus (write_register bus b config config_rst_bit) config in
        let same = test_same found.1 config_reset_value (reset_read b) in
        let back = back_same s found.0 h in
        let agree =
          test_same (read_register bus (setup bus floats s found.0).1 calibration).1
            (setup bus floats s found.0).0.calibration_value back.0 in
        rw (o, same) (agree, (refl, back.1))

dead_read :
    {B : Type 0} (bus : Bus B) (b : B) (o : Option ℕ) → o ≡ none → (after_pointer bus (b, o)).1 ≡ 0
dead_read bus b o e = rw e refl

module _ {B F : Type 0} (bus : Bus B) (floats : Floats F) where
  -- When every write to the device fails, `initialize` reports failure, and leaves the driver's scale
  -- factors as they were.
  pub initialize_refuses :
      (s : Ina219 F) (b : B)
      → ((c : B) (bytes : List ℕ) → (bus.write c bytes).1 ≡ none)
      → ((initialize bus floats s b).0 ≡ s) × ((initialize bus floats s b).1.1 ≡ false)
  unfolding initialize read_register
  initialize_refuses s b h =
      let w = write_register bus b config config_rst_bit in
      let p = bus.write w (0 ∷ []) in
      let differs : ((after_pointer bus p).1 == config_reset_value) ≡ false =
        rw (dead_read bus p.0 p.1 (h w (0 ∷ []))) refl in
      elim (Bool-cases s.fd_open) [
        | inl o ↦ simp (o, differs) (refl, refl)
        | inr o ↦ simp o (refl, refl)
      ]
