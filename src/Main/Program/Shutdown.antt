-- ===== src/Main/Program/Shutdown.antt =====
-- How the program of src/main.cpp ends.

use ras_pi_zero_cam.Prelude.{
  ◌≡◌, ◌≢◌, refl, sym, ap, ◌∙◌, Bool, true, false, List, [], ◌∷◌, ◌++◌, ◌&&◌, if◌then◌else◌, arith,
}
use ras_pi_zero_cam.Camera.Resolution.{Resolution, config_of}
use ras_pi_zero_cam.Stream.Source
use ras_pi_zero_cam.Stream.Source.{Source, Built, Sample, BusMessage}
use ras_pi_zero_cam.Stream.Source.Lifecycle.{comes_up}
use ras_pi_zero_cam.Stream.Mjpeg
use ras_pi_zero_cam.Control.WsServer
use ras_pi_zero_cam.Stream.Mjpeg.{Mjpeg, on_jpeg_ready}
use ras_pi_zero_cam.Main.Program.{
  Program, Event, step, run, new_streamer, new_cam, launched, goes_on, launch, shut_down,
}
use ras_pi_zero_cam.Main.Program.Settled.{IsSettled}
use ras_pi_zero_cam.Main.Program.Wired.{
  IsWired, AllHarmless, receive-IsWired, receive_publishes, run-IsWired,
}

-- The first start of the camera source.
first_start :
    (b : Built)
    → comes_up b ≡ true
    → ((Source.start new_cam b).1 ≡ true)
      × IsSettled (Source.start new_cam b).0
      × ((Source.start new_cam b).0.delivered ≡ [])
unfolding Source.start
first_start b up = ground arith

launched-IsWired :
    (power_ok : Bool) (m : Mjpeg) (cam : Source) (ok : Bool)
    → ok ≡ true
    → m.published ≡ cam.delivered
    → IsSettled cam
    → IsWired (launched power_ok m (cam, ok)).app
      × ((launched power_ok m (cam, ok)).power_ok ≡ power_ok)
      × ((launched power_ok m (cam, ok)).battery_running ≡ power_ok)
launched-IsWired power_ok m cam true up shown k =
    (record { settled = k; shown = shown }, refl, refl)
launched-IsWired power_ok m cam false up shown k = cc

launch-IsWired :
    (power_ok : Bool) (b : Built)
    → comes_up b ≡ true
    → IsWired (launch power_ok b).app
      × ((launch power_ok b).power_ok ≡ power_ok)
      × ((launch power_ok b).battery_running ≡ power_ok)
unfolding launch
launch-IsWired power_ok b up =
    let first = first_start b up in
    launched-IsWired power_ok (Mjpeg.start new_streamer (config_of Resolution.medium)).0
      (Source.start new_cam b).0 (Source.start new_cam b).1 first.0
      (unfold Mjpeg.start in sym first.2) first.1

-- No event touches the battery monitor.
run_power :
    (p : Program) (vs : List Event)
    → ((run p vs).power_ok ≡ p.power_ok) × ((run p vs).battery_running ≡ p.battery_running)
unfolding run
run_power p [] = (refl, refl)
run_power p (v ∷ vs) =
    let rest = run_power (step p v) vs in (rest.0 ∙ (one p v).0, rest.1 ∙ (one p v).1)
  where
    one :
        (p : Program) (v : Event)
        → ((step p v).power_ok ≡ p.power_ok) × ((step p v).battery_running ≡ p.battery_running)
    one p Event.signal = unfold step in (refl, refl)
    one p (Event.set_resolution w h b) = unfold step in (refl, refl)
    one p (Event.record_start filename next_name l now) = unfold step in (refl, refl)
    one p (Event.record_stop now) = unfold step in (refl, refl)
    one p (Event.record_restart next_name l now) = unfold step in (refl, refl)
    one p (Event.snapshot filename next_name samples) = unfold step in (refl, refl)
    one p (Event.sample_arrives sample) = unfold step in (refl, refl)
    one p (Event.drain frame maps accepted) = unfold step in (refl, refl)
    one p (Event.bus_message msg) = unfold step in (refl, refl)

ended_source :
    (s : Source)
    → IsSettled s
    → let done = Source.destroy (Source.stop s) in
      (done.running ≡ false) × (done.recording ≡ false) × (done.terminated ≡ false)
unfolding Source.destroy
ended_source s v = ground arith

-- When the first pipeline comes up, then over any commands, signals, samples and warnings of the bus
-- the HTTP server has published exactly what the camera delivered, in its order; a JPEG sample that
-- arrives then and maps is delivered and published next; and the shutdown after the loop leaves the
-- camera source, its recording, both servers and the battery monitor stopped, without ending the
-- process by `std::terminate`.
pub program_shuts_down :
    (power_ok : Bool) (b : Built) (vs : List Event) (sample : Sample)
    → comes_up b ≡ true
    → AllHarmless vs
    → sample.maps ≡ true
    → let p = run (launch power_ok b) vs in
      let next = step p (Event.sample_arrives sample) in
      let q = shut_down p in
      (p.app.streamer.published ≡ p.app.gst_cam.delivered)
      × (next.app.streamer.published ≡ p.app.streamer.published ++ sample.bytes ∷ [])
      × (next.app.gst_cam.delivered ≡ p.app.gst_cam.delivered ++ sample.bytes ∷ [])
      × (q.app.gst_cam.running ≡ false)
      × (q.app.gst_cam.recording ≡ false)
      × (q.app.gst_cam.terminated ≡ false)
      × (q.app.streamer.running ≡ false)
      × (q.ws_server.running ≡ false)
      × (q.battery_running ≡ false)
unfolding step shut_down Mjpeg.stop WsServer.stop
program_shuts_down power_ok b vs sample up h maps =
    let first = launch-IsWired power_ok b up in
    let p = run (launch power_ok b) vs in
    let w = run-IsWired (launch power_ok b) vs h first.0 in
    let done = ended_source p.app.gst_cam w.settled in
    let power = run_power (launch power_ok b) vs in
    (
      w.shown,
      receive_publishes p.app sample w maps,
      sym (receive-IsWired p.app sample w).shown
          ∙ receive_publishes p.app sample w maps
          ∙ ap (λ seen. seen ++ sample.bytes ∷ []) w.shown,
      done.0,
      done.1,
      done.2,
      refl,
      refl,
      off p.power_ok p.battery_running (power.1 ∙ first.2 ∙ sym (power.0 ∙ first.1)),
    )
  where
    off : (ok on : Bool) → on ≡ ok → (if ok then false else on) ≡ false
    off true on e = refl
    off false on e = e

lost_source :
    (s : Source) (msg : BusMessage)
    → IsSettled s
    → s.running ≡ true
    → msg ≢ BusMessage.warning
    → ((Source.on_bus_message s msg).running ≡ false)
      × ((Source.destroy (Source.stop (Source.on_bus_message s msg))).terminated ≡ true)
unfolding Source.destroy Source.on_bus_message
lost_source s BusMessage.error v up w = ground arith
lost_source s BusMessage.eos v up w = ground arith
lost_source s BusMessage.warning v up w = absurd (w refl)

-- When the first pipeline comes up and, after any commands, signals, samples and warnings, the bus
-- reports an error or the end of the stream of the running pipeline, the main loop ends, and the
-- shutdown ends the process by `std::terminate`.
pub lost_pipeline_aborts_program :
    (power_ok : Bool) (b : Built) (vs : List Event) (msg : BusMessage)
    → comes_up b ≡ true
    → AllHarmless vs
    → msg ≢ BusMessage.warning
    → (run (launch power_ok b) vs).app.gst_cam.running ≡ true
    → let lost = step (run (launch power_ok b) vs) (Event.bus_message msg) in
      (goes_on lost ≡ false) × ((shut_down lost).app.gst_cam.terminated ≡ true)
unfolding goes_on shut_down step
lost_pipeline_aborts_program power_ok b vs msg up h w running =
    let p = run (launch power_ok b) vs in
    let out =
      lost_source p.app.gst_cam msg
        (run-IsWired (launch power_ok b) vs h (launch-IsWired power_ok b up).0).settled running w in
    (ends p.g_running (Source.on_bus_message p.app.gst_cam msg).running out.0, out.1)
  where
    ends : (a b : Bool) → b ≡ false → (a && b) ≡ false
    ends a b e = ground arith
