-- ===== src/Power/Ina219/Config.antt =====
-- The configuration word of src/power/ina219.cpp.
use Prim.Native.Nat.{bit_or}
use ras_pi_zero_cam.Prelude.{ℕ, ◌+◌, ◌*◌, ◌/◌, ◌%◌, ◌^◌, ◌≡◌, ◌<◌, ap, ◌∙◌, refl, arith}
use ras_pi_zero_cam.Prelude.Bits.{bit_or-shifted}
use ras_pi_zero_cam.Power.Ina219.{
  BusVoltageRange, Gain, AdcResolution, OperatingMode, range_code, gain_code, adc_code, mode_code,
  config_word, range_32v, div_8_320mv, adcres_12bit_1s, shunt_and_bus_continuous,
  config_reset_value,
}

shifted : (k n a b : ℕ) → n ≡ a * 2 ^ k → b < 2 ^ k → bit_or n b ≡ n + b
shifted k n a b e h =
    ap (λ x. bit_or x b) e
    ∙ bit_or-shifted k a b h
    ∙ ap (λ x. x + b) {x = a * 2 ^ k} {y = n} (omega (arith, e))

packed :
    (r g b s m : ℕ)
    → g < 4
    → b < 16
    → s < 16
    → m < 8
    → bit_or (bit_or (bit_or (bit_or (r * 2 ^ 13) (g * 2 ^ 11)) (b * 2 ^ 7)) (s * 2 ^ 3)) m
      ≡ r * 8192 + g * 2048 + b * 128 + s * 8 + m
packed r g b s m hg hb hs hm =
    let e1 = shifted 13 (r * 2 ^ 13) r (g * 2 ^ 11) refl (omega arith) in
    let x1 = bit_or (r * 2 ^ 13) (g * 2 ^ 11) in
    let e2 = shifted 11 x1 (r * 4 + g) (b * 2 ^ 7) (omega (arith, e1)) (omega arith) in
    let x2 = bit_or x1 (b * 2 ^ 7) in
    let e3 = shifted 7 x2 (r * 64 + g * 16 + b) (s * 2 ^ 3) (omega (arith, e1, e2)) (omega arith) in
    let x3 = bit_or x2 (s * 2 ^ 3) in
    let e4 =
      shifted 3 x3 (r * 1024 + g * 256 + b * 16 + s) m (omega (arith, e1, e2, e3)) (omega arith) in
    omega (arith, e1, e2, e3, e4)

range_lt : (r : BusVoltageRange) → range_code r < 2
range_lt r = ground arith

gain_lt : (g : Gain) → gain_code g < 4
gain_lt g = ground arith

adc_lt : (a : AdcResolution) → adc_code a < 16
adc_lt a = ground arith

mode_lt : (m : OperatingMode) → mode_code m < 8
mode_lt m = ground arith

-- For all settings the configuration word fits in 15 bits, so that the reset bit is clear, and the
-- chip's fields hold the codes: bit 13 the bus range, bits 12 and 11 the gain, bits 10 to 7 the bus
-- ADC, bits 6 to 3 the shunt ADC, bits 2 to 0 the mode.
pub config_word_fields :
    (r : BusVoltageRange) (g : Gain) (b s : AdcResolution) (m : OperatingMode)
    → let w = config_word r g b s m in
      (w < 2 ^ 15)
      × ((w / 2 ^ 13 ≡ range_code r)
          × ((w / 2 ^ 11 % 4 ≡ gain_code g)
              × ((w / 2 ^ 7 % 16 ≡ adc_code b)
                  × ((w / 2 ^ 3 % 16 ≡ adc_code s) × (w % 8 ≡ mode_code m)))))
unfolding config_word
config_word_fields r g b s m =
    let e =
      packed (range_code r) (gain_code g) (adc_code b) (adc_code s) (mode_code m) (gain_lt g)
        (adc_lt b) (adc_lt s) (mode_lt m) in
    let hr = range_lt r in
    let hg = gain_lt g in
    let hb = adc_lt b in
    let hs = adc_lt s in
    let hm = mode_lt m in
    (
      omega (arith, e, hr, hg, hb, hs, hm),
      (
        omega (arith, e, hr, hg, hb, hs, hm),
        (
          omega (arith, e, hr, hg, hb, hs, hm),
          (
            omega (arith, e, hr, hg, hb, hs, hm),
            (omega (arith, e, hr, hg, hb, hs, hm), omega (arith, e, hr, hg, hb, hs, hm)),
          ),
        ),
      ),
    )

-- The reset value is the word of the settings that the header names for it.
reset_word :
    config_word range_32v div_8_320mv adcres_12bit_1s adcres_12bit_1s shunt_and_bus_continuous
    ≡ config_reset_value
unfolding config_word
reset_word = refl
