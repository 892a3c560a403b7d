-- ===== src/Power/Battery/Polling.antt =====
-- What the polling thread of src/power/battery_monitor.cpp reads and pushes.
use ras_pi_zero_cam.Prelude.{
  ℕ, zero, suc, ◌≡◌, ◌≤◌, refl, sym, subst, ◌∙◌, Bool, true, false, List, [], ◌∷◌, ◌++◌, replicate,
  ltb, arith,
}
use ras_pi_zero_cam.Power.Ina219.{
  Bus, Floats, Ina219, ℤ, pos, negsuc, clamp, read_percentage, read_bus_voltage_v, read_current_ma,
  read_power_mw,
}
use ras_pi_zero_cam.Power.Battery.{
  Reading, Monitor, Phase, head, napping, ended, read_and_store, start, poll, tick, thread_fn,
  low_battery_pct,
}

clamp-le : (p : ℤ) → clamp p ≤ 100
clamp-le (pos p) = ground arith
clamp-le (negsuc p) = omega arith

module _ {B F : Type 0} (bus : Bus B) (floats : Floats F) (sensor : Ina219 F) where
  abbrev pub IsSound : Reading F → Type 0
  IsSound r = (r.percentage ≤ 100) × (r.low_battery ≡ ltb r.percentage low_battery_pct)

  abbrev pub AllSound : List (Reading F) → Type 0
  AllSound [] = Unit {0}
  AllSound (r ∷ rs) = IsSound r × AllSound rs

  AllSound-snoc :
      (rs : List (Reading F)) (r : Reading F) → AllSound rs → IsSound r → AllSound (rs ++ r ∷ [])
  AllSound-snoc [] r h k = (k, tt)
  AllSound-snoc (x ∷ rs) r h k = (h.0, AllSound-snoc rs r h.1 k)

  abbrev Sound : Monitor F B → Type 0
  Sound m = IsSound m.reading × AllSound m.sent

  read_percentage-le : (b : B) → (read_percentage bus floats sensor b).1 ≤ 100
  unfolding read_percentage
  read_percentage-le b =
      let v = read_bus_voltage_v bus floats sensor b in
      clamp-le (
        floats.truncate (
          floats.mul (floats.div (floats.sub v.1 (floats.literal 3 1)) (floats.literal 12 10))
            (floats.literal 100 1)))

  read_and_store-IsSound : (m : Monitor F B) → IsSound (read_and_store bus floats sensor m).reading
  unfolding read_and_store
  read_and_store-IsSound m =
      let v = read_bus_voltage_v bus floats sensor m.bus_state in
      let p = read_power_mw bus floats sensor (read_current_ma bus floats sensor v.0).0 in
      (read_percentage-le p.0, refl)

  poll-Sound : (m : Monitor F B) → Sound m → Sound (poll bus floats sensor m)
  unfolding poll
  poll-Sound m h = (
    read_and_store-IsSound m,
    AllSound-snoc m.sent (read_and_store bus floats sensor m).reading h.1
        (read_and_store-IsSound m),
  )

  tick-Sound :
      (t : Phase × Monitor F B) (a : Bool) → Sound t.1 → Sound (tick bus floats sensor t a).1
  unfolding tick
  tick-Sound (head, m) true h = h
  tick-Sound (head, m) false h = h
  tick-Sound (napping zero, m) true h = h
  tick-Sound (napping zero, m) false h = poll-Sound m h
  tick-Sound (napping (suc n), m) true h = h
  tick-Sound (napping (suc n), m) false h = h
  tick-Sound (ended, m) a h = h

  thread_fn-Sound :
      (t : Phase × Monitor F B) (aborts : List Bool)
      → Sound t.1
      → Sound (thread_fn bus floats sensor t aborts).1
  unfolding thread_fn
  thread_fn-Sound t [] h = h
  thread_fn-Sound t (a ∷ aborts) h =
      thread_fn-Sound (tick bus floats sensor t a) aborts (tick-Sound t a h)

  -- From `start` on and for any run of the thread, the stored reading and every reading that was
  -- pushed have a percentage of at most 100, and warn of a low battery exactly below 20 percent.
  pub readings_are-IsSound :
      (m : Monitor F B) (aborts : List Bool)
      → m.sent ≡ []
      → let after = (thread_fn bus floats sensor (head, start bus floats sensor m) aborts).1 in
        IsSound after.reading × AllSound after.sent
  unfolding start
  readings_are-IsSound m aborts e =
      thread_fn-Sound (head, read_and_store bus floats sensor (record m { running = true })) aborts
        (read_and_store-IsSound (record m { running = true }), subst AllSound (sym e) tt)

  naps :
      (n : ℕ) (m : Monitor F B) (rest : List Bool)
      → thread_fn bus floats sensor (napping n, m) (replicate (suc n) false ++ rest)
        ≡ thread_fn bus floats sensor (head, poll bus floats sensor m) rest
  unfolding thread_fn tick
  naps zero m rest = refl
  naps (suc n) m rest = naps n m rest

  abbrev pub polls : ℕ → Monitor F B → Monitor F B
  polls zero m = m
  polls (suc n) m = polls n (poll bus floats sensor m)

  -- The tests of the abort flag in `n` rounds of the loop: its head, the 50 naps, and the last test.
  abbrev pub rounds : ℕ → List Bool
  rounds zero = []
  rounds (suc n) = false ∷ (replicate 51 false ++ rounds n)

  rounds_poll :
      (n : ℕ) (m : Monitor F B)
      → thread_fn bus floats sensor (head, m) (rounds n) ≡ (head, polls n m)
  unfolding thread_fn tick
  rounds_poll zero m = refl
  rounds_poll (suc n) m = naps 50 m (rounds n) ∙ rounds_poll n (poll bus floats sensor m)

  ended_stays :
      (m : Monitor F B) (rest : List Bool)
      → thread_fn bus floats sensor (ended, m) rest ≡ (ended, m)
  unfolding thread_fn tick
  ended_stays m [] = refl
  ended_stays m (a ∷ rest) = ended_stays m rest

  abort_ends :
      (p : Phase) (m : Monitor F B) (rest : List Bool)
      → thread_fn bus floats sensor (p, m) (true ∷ true ∷ rest) ≡ (ended, m)
  unfolding thread_fn tick
  abort_ends head m rest = ended_stays m rest
  abort_ends (napping zero) m rest = ended_stays m rest
  abort_ends (napping (suc n)) m rest = ended_stays m rest
  abort_ends ended m rest = ended_stays m rest

  -- While no stop is asked for, the thread makes one poll after every 50 naps of 100 ms, and pushes
  -- each reading; two tests of the flag after a stop the thread has ended, without a further poll,
  -- whatever it was doing.
  pub thread_fn_outcome :
      (n : ℕ) (p : Phase) (m : Monitor F B) (rest : List Bool)
      → (thread_fn bus floats sensor (head, m) (rounds n) ≡ (head, polls n m))
        × (thread_fn bus floats sensor (p, m) (true ∷ true ∷ rest) ≡ (ended, m))
  thread_fn_outcome n p m rest = (rounds_poll n m, abort_ends p m rest)
