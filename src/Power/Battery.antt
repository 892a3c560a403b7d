-- ===== src/Power/Battery.antt =====
-- `BatteryMonitor` of src/power/battery_monitor.cpp. A reading of the INA219 is an item of a
-- list of readings, so that the floats stay opaque; `sent` records what the push callback got.
pub mod Polling
pub mod Json
use ras_pi_zero_cam.Prelude.{
  ℕ, zero, suc, ◌+◌, ◌*◌, Bool, true, false, List, [], ◌∷◌, ◌++◌, ltb, not, if◌then◌else◌,
}
use ras_pi_zero_cam.Power.Ina219.{
  Bus, Floats, Ina219, read_bus_voltage_v, read_current_ma, read_power_mw, read_percentage,
  is_charging,
}

abbrev pub poll_interval_s : ℕ
poll_interval_s = 5

abbrev pub low_battery_pct : ℕ
low_battery_pct = 20

pub record Reading (F : Type 0) : Type 0 where
  pub voltage : F
  pub current_ma : F
  pub power_mw : F
  pub percentage : ℕ
  pub charging : Bool
  pub low_battery : Bool

pub record Monitor (F B : Type 0) : Type 0 where
  pub bus_state : B
  pub reading : Reading F
  pub running : Bool
  pub sent : List (Reading F)

-- Where the thread stands: at the head of its loop, or with `n` naps of 100 ms left.
pub data Phase : Type 0 where
  head : Phase
  napping : ℕ → Phase
  ended : Phase

module _ {B F : Type 0} (bus : Bus B) (floats : Floats F) (sensor : Ina219 F) where
  unfoldable pub read_and_store : Monitor F B → Monitor F B
  read_and_store m =
      let v = read_bus_voltage_v bus floats sensor m.bus_state in
      let i = read_current_ma bus floats sensor v.0 in
      let p = read_power_mw bus floats sensor i.0 in
      let pct = read_percentage bus floats sensor p.0 in
      let chg = is_charging bus floats sensor pct.0 in
      record m {
        bus_state = chg.0;
        reading = record {
          voltage = v.1;
          current_ma = i.1;
          power_mw = p.1;
          percentage = pct.1;
          charging = chg.1;
          low_battery = ltb pct.1 low_battery_pct;
        };
      }

  -- `start` before the thread runs.
  unfoldable pub start : Monitor F B → Monitor F B
  unfolding read_and_store
  start m = read_and_store (record m { running = true })

  -- A poll: a new reading, which the callback gets.
  unfoldable pub poll : Monitor F B → Monitor F B
  unfolding read_and_store
  poll m = let n = read_and_store m in record n { sent = n.sent ++ n.reading ∷ [] }

  -- One test of `abort_` by the thread, with the value that it saw.
  unfoldable pub tick : Phase × Monitor F B → Bool → Phase × Monitor F B
  unfolding poll
  tick (head, m) abort = if abort then (ended, m) else (napping (poll_interval_s * 10), m)
  tick (napping (suc n), m) abort = if abort then (napping zero, m) else (napping n, m)
  tick (napping zero, m) abort = if abort then (ended, m) else (head, poll m)
  tick (ended, m) abort = (ended, m)

  unfoldable pub thread_fn : Phase × Monitor F B → List Bool → Phase × Monitor F B
  unfolding tick
  thread_fn t [] = t
  thread_fn t (a ∷ aborts) = thread_fn (tick t a) aborts

-- `stop` sets the flag that the thread tests, and waits for the thread; `running` is that `abort_` is
-- not set.
unfoldable pub stop : {F B : Type 0} → Monitor F B → Monitor F B
stop m = record m { running = false }

-- `~BatteryMonitor`.
unfoldable pub destroy : {F B : Type 0} → Monitor F B → Monitor F B
unfolding stop
destroy m = if m.running then stop m else m
