-- ===== src/Power/Ina219.antt =====
-- The INA219 driver of src/power/ina219.cpp. The I2C device is the parameter `bus`: `write` and
-- `read` of the device file on an abstract state, where `none` is the result -1. The arithmetic on
-- `float` is the parameter `floats`.
pub mod Config
pub mod Chip
use Prim.Native.Nat.{bit_or, bit_and}
use ras_pi_zero_cam.Prelude.{
  ℕ, zero, suc, ◌+◌, ◌-◌, ◌*◌, ◌/◌, ◌%◌, ◌^◌, Bool, true, false, Option, none, some, List, [], ◌∷◌,
  ltb, ◌==◌, not, if◌then◌else◌,
}

pub data Register : Type 0 where
  config : Register
  shunt_voltage : Register
  bus_voltage : Register
  power : Register
  current : Register
  calibration : Register

abbrev pub address : Register → ℕ
address config = 0
address shunt_voltage = 1
address bus_voltage = 2
address power = 3
address current = 4
address calibration = 5

pub data BusVoltageRange : Type 0 where
  range_16v : BusVoltageRange
  range_32v : BusVoltageRange

abbrev pub range_code : BusVoltageRange → ℕ
range_code range_16v = 0
range_code range_32v = 1

pub data Gain : Type 0 where
  div_1_40mv : Gain
  div_2_80mv : Gain
  div_4_160mv : Gain
  div_8_320mv : Gain

abbrev pub gain_code : Gain → ℕ
gain_code div_1_40mv = 0
gain_code div_2_80mv = 1
gain_code div_4_160mv = 2
gain_code div_8_320mv = 3

pub data AdcResolution : Type 0 where
  adcres_9bit_1s : AdcResolution
  adcres_10bit_1s : AdcResolution
  adcres_11bit_1s : AdcResolution
  adcres_12bit_1s : AdcResolution
  adcres_12bit_2s : AdcResolution
  adcres_12bit_4s : AdcResolution
  adcres_12bit_8s : AdcResolution
  adcres_12bit_16s : AdcResolution
  adcres_12bit_32s : AdcResolution
  adcres_12bit_64s : AdcResolution
  adcres_12bit_128s : AdcResolution

abbrev pub adc_code : AdcResolution → ℕ
adc_code adcres_9bit_1s = 0
adc_code adcres_10bit_1s = 1
adc_code adcres_11bit_1s = 2
adc_code adcres_12bit_1s = 3
adc_code adcres_12bit_2s = 9
adc_code adcres_12bit_4s = 10
adc_code adcres_12bit_8s = 11
adc_code adcres_12bit_16s = 12
adc_code adcres_12bit_32s = 13
adc_code adcres_12bit_64s = 14
adc_code adcres_12bit_128s = 15

pub data OperatingMode : Type 0 where
  power_down : OperatingMode
  shunt_voltage_triggered : OperatingMode
  bus_voltage_triggered : OperatingMode
  shunt_and_bus_triggered : OperatingMode
  adc_off : OperatingMode
  shunt_voltage_continuous : OperatingMode
  bus_voltage_continuous : OperatingMode
  shunt_and_bus_continuous : OperatingMode

abbrev pub mode_code : OperatingMode → ℕ
mode_code power_down = 0
mode_code shunt_voltage_triggered = 1
mode_code bus_voltage_triggered = 2
mode_code shunt_and_bus_triggered = 3
mode_code adc_off = 4
mode_code shunt_voltage_continuous = 5
mode_code bus_voltage_continuous = 6
mode_code shunt_and_bus_continuous = 7

abbrev pub config_reset_value : ℕ
config_reset_value = 14751

abbrev pub config_rst_bit : ℕ
config_rst_bit = 32768

-- The word that `configure` writes, before it is written.
unfoldable pub config_word :
    BusVoltageRange → Gain → AdcResolution → AdcResolution → OperatingMode → ℕ
config_word bus_range gain bus_adc shunt_adc mode =
    bit_or
      (bit_or
        (bit_or (bit_or (range_code bus_range * 2 ^ 13) (gain_code gain * 2 ^ 11))
          (adc_code bus_adc * 2 ^ 7))
        (adc_code shunt_adc * 2 ^ 3))
      (mode_code mode)

pub data ℤ : Type 0 where
  pos : ℕ → ℤ
  negsuc : ℕ → ℤ

-- `static_cast<int16_t>` of a 16-bit word.
abbrev pub int16 : ℕ → ℤ
int16 raw = if ltb raw (2 ^ 15) then pos raw else negsuc (2 ^ 16 - 1 - raw)

abbrev pub clamp : ℤ → ℕ
clamp (pos p) = if ltb 100 p then 100 else p
clamp (negsuc p) = 0

pub record Bus (B : Type 0) : Type 0 where
  pub write : B → List ℕ → B × Option ℕ
  pub read : B → ℕ → B × Option (List ℕ)

-- `literal n d` is the constant n / d.
pub record Floats (F : Type 0) : Type 0 where
  pub literal : ℕ → ℕ → F
  pub of_int : ℤ → F
  pub sub : F → F → F
  pub mul : F → F → F
  pub div : F → F → F
  pub truncate : F → ℤ
  pub truncate_u16 : F → ℕ
  pub above : F → F → Bool

pub record Ina219 (F : Type 0) : Type 0 where
  pub fd_open : Bool
  pub current_lsb_ma : F
  pub power_lsb_mw : F
  pub calibration_value : ℕ

module _ {B : Type 0} (bus : Bus B) where
  unfoldable pub write_register : B → Register → ℕ → B
  write_register b reg value =
      (bus.write b (address reg ∷ (value / 2 ^ 8) % 2 ^ 8 ∷ value % 2 ^ 8 ∷ [])).0

  abbrev pub joined : B × Option (List ℕ) → B × ℕ
  joined (b, some (hi ∷ lo ∷ [])) = (b, bit_or (hi * 2 ^ 8) lo)
  joined (b, some (hi ∷ lo ∷ more ∷ bytes)) = (b, 0)
  joined (b, some (hi ∷ [])) = (b, 0)
  joined (b, some []) = (b, 0)
  joined (b, none) = (b, 0)

  abbrev pub after_pointer : B × Option ℕ → B × ℕ
  after_pointer (b, none) = (b, 0)
  after_pointer (b, some n) = if n == 1 then joined (bus.read b 2) else (b, 0)

  -- Zero stands for a failed transaction.
  unfoldable pub read_register : B → Register → B × ℕ
  read_register b reg = after_pointer (bus.write b (address reg ∷ []))

  unfoldable pub configure :
      B → BusVoltageRange → Gain → AdcResolution → AdcResolution → OperatingMode → B
  unfolding write_register
  configure b bus_range gain bus_adc shunt_adc mode =
      write_register b config (config_word bus_range gain bus_adc shunt_adc mode)

  module _ {F : Type 0} (floats : Floats F) where
    unfoldable pub calibrated : Ina219 F → Ina219 F
    calibrated s =
        let lsb = floats.div (floats.literal 5000 1) (floats.of_int (pos 32767)) in
        record s {
          current_lsb_ma = lsb;
          power_lsb_mw = floats.mul lsb (floats.literal 20 1);
          calibration_value = floats.truncate_u16 (
              floats.div (floats.literal 4096 100000)
                (floats.mul (floats.div lsb (floats.literal 1000 1)) (floats.literal 1 100)));
        }

    unfoldable pub calibrate : Ina219 F → B → Ina219 F × B
    unfolding calibrated
    calibrate s b = (calibrated s, write_register b calibration (calibrated s).calibration_value)

    unfoldable pub setup : Ina219 F → B → Ina219 F × B
    unfolding calibrate configure
    setup s b =
        let c = calibrate s b in
        (
          c.0,
          configure c.1 range_16v div_2_80mv adcres_12bit_32s adcres_12bit_32s
              shunt_and_bus_continuous,
        )

    -- The constructor: `opened` and `addressed` are the results of `open` and of `ioctl`.
    unfoldable pub construct : Bool → Bool → B → Ina219 F × B
    unfolding setup
    construct opened addressed b =
        let zero_f = floats.literal 0 1 in
        let s : Bool → Ina219 F = λ o. record {
          fd_open = o;
          current_lsb_ma = zero_f;
          power_lsb_mw = zero_f;
          calibration_value = 0;
        } in
        if opened then (if addressed then setup (s true) b else (s false, b)) else (s false, b)

    unfoldable pub initialize : Ina219 F → B → Ina219 F × (B × Bool)
    unfolding write_register read_register setup
    initialize s b =
        if s.fd_open
        then (let found = read_register (write_register b config config_rst_bit) config in
            if found.1 == config_reset_value
            then (let c = setup s found.0 in
                let back = read_register c.1 calibration in
                (c.0, (back.0, back.1 == c.0.calibration_value)))
            else (s, (found.0, false)))
        else (s, (b, false))

    unfoldable pub read_bus_voltage_v : Ina219 F → B → B × F
    unfolding write_register read_register
    read_bus_voltage_v s b =
        let r = read_register (write_register b calibration s.calibration_value) bus_voltage in
        (r.0, floats.mul (floats.of_int (pos (r.1 / 2 ^ 3))) (floats.literal 4 1000))

    unfoldable pub read_current_ma : Ina219 F → B → B × F
    unfolding read_register
    read_current_ma s b =
        let r = read_register b current in
        (r.0, floats.mul (floats.of_int (int16 r.1)) s.current_lsb_ma)

    unfoldable pub read_power_mw : Ina219 F → B → B × F
    unfolding write_register read_register
    read_power_mw s b =
        let r = read_register (write_register b calibration s.calibration_value) power in
        (r.0, floats.mul (floats.of_int (int16 r.1)) s.power_lsb_mw)

    unfoldable pub read_shunt_voltage_mv : Ina219 F → B → B × F
    unfolding write_register read_register
    read_shunt_voltage_mv s b =
        let r = read_register (write_register b calibration s.calibration_value) shunt_voltage in
        (r.0, floats.mul (floats.of_int (int16 r.1)) (floats.literal 1 100))

    unfoldable pub is_charging : Ina219 F → B → B × Bool
    unfolding read_current_ma
    is_charging s b = let r = read_current_ma s b in (r.0, floats.above r.1 (floats.literal 0 1))

    unfoldable pub read_percentage : Ina219 F → B → B × ℕ
    unfolding read_bus_voltage_v
    read_percentage s b =
        let r = read_bus_voltage_v s b in
        (
          r.0,
          clamp (
              floats.truncate (
                floats.mul (floats.div (floats.sub r.1 (floats.literal 3 1)) (floats.literal 12 10))
                  (floats.literal 100 1))),
        )
