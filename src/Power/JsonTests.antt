-- ===== src/Power/JsonTests.antt =====
-- The battery's JSON text at a concrete reading.
use ras_pi_zero_cam.Prelude.{ℕ, ◌≡◌, refl, true, false, some, [], arith}
use ras_pi_zero_cam.Prelude.Text.{Bytes, codes}
use ras_pi_zero_cam.Prelude.Decimal.{print, any_digits}
use ras_pi_zero_cam.Power.Battery.{Monitor}
use ras_pi_zero_cam.Power.Battery.Json.{
  is_comma, is_brace, IsNumeral, bool_text, get_json, read_update, get_json_reads_back,
}

-- Floats as whole numbers.
abbrev whole : ℕ → Bytes
whole n = print n

whole-IsNumeral : IsNumeral whole
whole-IsNumeral = record {
  commas = λ x. any_digits is_comma (λ d lt. ground arith) x;
  braces = λ x. any_digits is_brace (λ d lt. ground arith) x;
}

abbrev charged : Monitor ℕ ℕ
charged = record {
  bus_state = 0;
  reading = record {
    voltage = 4;
    current_ma = 120;
    power_mw = 480;
    percentage = 83;
    charging = true;
    low_battery = false;
  };
  running = true;
  sent = [];
}

charged_text :
    get_json whole charged
    ≡ codes
        "{\"type\":\"battery_update\",\"voltage_v\":4,\"current_ma\":120,\"power_mw\":480,\"percentage\":83,\"charging\":true,\"low_battery_warning\":false}"
unfolding get_json print
charged_text = refl

get_json_reads_back_example : read_update (get_json whole charged) ≡ record {
  kind = some (codes "\"battery_update\"");
  voltage_v = some (whole 4);
  current_ma = some (whole 120);
  power_mw = some (whole 480);
  percentage = some 83;
  charging = some (bool_text true);
  low_battery_warning = some (bool_text false);
}
get_json_reads_back_example = get_json_reads_back whole whole-IsNumeral charged
