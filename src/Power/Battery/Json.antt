-- ===== src/Power/Battery/Json.antt =====
-- `BatteryMonitor::build_json` and `get_json` of src/power/battery_monitor.cpp, and a reader of such
-- flat objects. `fixed3` is what `operator<<` writes for a `float` after `std::fixed` and
-- `std::setprecision(3)`.
use Prim.Native.String.{String}
use mathlib.Core.List.{append-nil}
use ras_pi_zero_cam.Prelude.{
  ℕ, ◌≡◌, refl, ap, ◌∙◌, Bool, true, false, Option, none, some, List, [], ◌∷◌, ◌++◌, map, ◌==◌,
  ◌||◌, if◌then◌else◌, arith,
}
use ras_pi_zero_cam.Prelude.Text
use ras_pi_zero_cam.Prelude.Text.{
  Bytes, codes, Piece, lit, val, write, split_by, any, glue_all, find_prefix,
}
use ras_pi_zero_cam.Prelude.Decimal.{print, read, any_digits, read-print_end}
use ras_pi_zero_cam.Power.Battery.{Reading, Monitor}

abbrev pub bool_text : Bool → Bytes
bool_text charging = if charging then codes "true" else codes "false"

module _ {F : Type 0} (fixed3 : F → Bytes) where
  -- What stands between the braces.
  abbrev pub members : Reading F → List Piece
  members r =
      lit "\"type\":\"battery_update\","
      ∷ lit "\"voltage_v\":"
      ∷ val (fixed3 r.voltage)
      ∷ lit ","
      ∷ lit "\"current_ma\":"
      ∷ val (fixed3 r.current_ma)
      ∷ lit ","
      ∷ lit "\"power_mw\":"
      ∷ val (fixed3 r.power_mw)
      ∷ lit ","
      ∷ lit "\"percentage\":"
      ∷ val (print r.percentage)
      ∷ lit ","
      ∷ lit "\"charging\":"
      ∷ val (bool_text r.charging)
      ∷ lit ","
      ∷ lit "\"low_battery_warning\":"
      ∷ val (bool_text r.low_battery)
      ∷ []

  unfoldable pub build_json : Reading F → Bytes
  build_json r = write (lit "{" ∷ (members r ++ lit "}" ∷ []))

  unfoldable pub get_json : {B : Type 0} → Monitor F B → Bytes
  unfolding build_json
  get_json m = build_json m.reading

abbrev pub is_brace : ℕ → Bool
is_brace c = (c == b'{') || (c == b'}')

abbrev pub is_comma : ℕ → Bool
is_comma c = c == b','

-- The parts of a flat object, and the text behind a key.
abbrev inside : List Bytes → List Bytes
inside (a ∷ body ∷ c ∷ []) = split_by is_comma body
inside parts = []

abbrev pub member : String → List Bytes → Option Bytes
member key parts = find_prefix (codes key) parts

abbrev number : Option Bytes → Option ℕ
number none = none
number (some s) = read s

-- What the members of an update say.
pub record Update : Type 0 where
  pub kind : Option Bytes
  pub voltage_v : Option Bytes
  pub current_ma : Option Bytes
  pub power_mw : Option Bytes
  pub percentage : Option ℕ
  pub charging : Option Bytes
  pub low_battery_warning : Option Bytes

abbrev update_in : List Bytes → Update
update_in parts = record {
  kind = member "\"type\":" parts;
  voltage_v = member "\"voltage_v\":" parts;
  current_ma = member "\"current_ma\":" parts;
  power_mw = member "\"power_mw\":" parts;
  percentage = number (member "\"percentage\":" parts);
  charging = member "\"charging\":" parts;
  low_battery_warning = member "\"low_battery_warning\":" parts;
}

abbrev pub read_update : Bytes → Update
read_update json = update_in (inside (split_by is_brace json))

-- A float is written with no comma and no brace.
pub record IsNumeral {F : Type 0} (fixed3 : F → Bytes) : Type 0 where
  pub commas : (x : F) → any is_comma (fixed3 x) ≡ false
  pub braces : (x : F) → any is_brace (fixed3 x) ≡ false

any_bool :
    (p : ℕ → Bool) (b : Bool)
    → any p (codes "true") ≡ false
    → any p (codes "false") ≡ false
    → any p (bool_text b) ≡ false
any_bool p true h k = h
any_bool p false h k = k

module _ {F : Type 0} (fixed3 : F → Bytes) (h : IsNumeral fixed3) (r : Reading F) where
  braces_cut :
      split_by is_brace (build_json fixed3 r)
      ≡ glue_all (map (Text.cut is_brace) (lit "{" ∷ (members fixed3 r ++ lit "}" ∷ [])))
  unfolding build_json
  braces_cut = Text.split_by-write is_brace (lit "{" ∷ (members fixed3 r ++ lit "}" ∷ [])) (
    h.braces r.voltage,
    (
      h.braces r.current_ma,
      (
        h.braces r.power_mw,
        (
          any_digits is_brace (λ d lt. ground arith) r.percentage,
          (any_bool is_brace r.charging refl refl, (any_bool is_brace r.low_battery refl refl, tt)),
        ),
      ),
    ),
  )

  commas_cut :
      split_by is_comma (write (members fixed3 r ++ lit "" ∷ []))
      ≡ glue_all (map (Text.cut is_comma) (members fixed3 r ++ lit "" ∷ []))
  commas_cut = Text.split_by-write is_comma (members fixed3 r ++ lit "" ∷ []) (
    h.commas r.voltage,
    (
      h.commas r.current_ma,
      (
        h.commas r.power_mw,
        (
          any_digits is_comma (λ d lt. ground arith) r.percentage,
          (any_bool is_comma r.charging refl refl, (any_bool is_comma r.low_battery refl refl, tt)),
        ),
      ),
    ),
  )

  parts_of :
      inside (split_by is_brace (build_json fixed3 r))
      ≡ glue_all (map (Text.cut is_comma) (members fixed3 r ++ lit "" ∷ []))
  parts_of = ap inside braces_cut ∙ commas_cut

  update_reads :
      update_in (glue_all (map (Text.cut is_comma) (members fixed3 r ++ lit "" ∷ []))) ≡ record {
        kind = some (codes "\"battery_update\"");
        voltage_v = some (fixed3 r.voltage);
        current_ma = some (fixed3 r.current_ma);
        power_mw = some (fixed3 r.power_mw);
        percentage = some r.percentage;
        charging = some (bool_text r.charging);
        low_battery_warning = some (bool_text r.low_battery);
      }
  update_reads = λ i. record {
    kind = some (codes "\"battery_update\"");
    voltage_v = some (append-nil (fixed3 r.voltage) i);
    current_ma = some (append-nil (fixed3 r.current_ma) i);
    power_mw = some (append-nil (fixed3 r.power_mw) i);
    percentage = read-print_end r.percentage i;
    charging = some (append-nil (bool_text r.charging) i);
    low_battery_warning = some (append-nil (bool_text r.low_battery) i);
  }

-- Where floats are written with no comma and no brace, `get_json` is an object whose members read
-- back as the reading that the monitor holds: the floats as they are written, the percentage as the
-- number, and the two flags as `true` or `false`.
pub get_json_reads_back :
    {B F : Type 0} (fixed3 : F → Bytes)
    → IsNumeral fixed3
    → (m : Monitor F B)
    → let r = m.reading in
      read_update (get_json fixed3 m) ≡ record {
        kind = some (codes "\"battery_update\"");
        voltage_v = some (fixed3 r.voltage);
        current_ma = some (fixed3 r.current_ma);
        power_mw = some (fixed3 r.power_mw);
        percentage = some r.percentage;
        charging = some (bool_text r.charging);
        low_battery_warning = some (bool_text r.low_battery);
      }
unfolding get_json
get_json_reads_back fixed3 h m =
    ap update_in (parts_of fixed3 h m.reading) ∙ update_reads fixed3 h m.reading
