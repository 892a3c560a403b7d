-- ===== src/Main/Status.antt =====
-- The commands of src/main.cpp that only report: `ping`, `get_battery` and `get_status`. The parameter
-- `Reading` is what `BatteryMonitor::get_json` holds, and the steady and the system clock are
-- arguments in milliseconds.
use Prim.Native.String.{String}
use ras_pi_zero_cam.Prelude.{
  ℕ, ◌≡◌, Bool, true, false, Option, none, some, not, if◌then◌else◌, arith,
}
use ras_pi_zero_cam.Stream.Source
use ras_pi_zero_cam.Stream.Source.{Source, Built}
use ras_pi_zero_cam.Control.WsServer.{WsServer}
use ras_pi_zero_cam.Main.Commands
use ras_pi_zero_cam.Main.Commands.{App, Reply, stopped, error, preset}
use ras_pi_zero_cam.Main.Files.{StatVfs, storage_mb}

-- The answer to `ping`.
unfoldable pub ping : ℕ → ℕ
ping now_ms = now_ms

module _ (Reading : Type 0) where
  pub record Status : Type 0 where
    pub resolution : ℕ × ℕ
    pub fps : ℕ
    pub stream_clients : ℕ
    pub ws_clients : ℕ
    pub active : Bool
    pub file : String
    pub duration_s : ℕ
    pub free_mb : ℕ
    pub used_mb : ℕ
    pub battery : Option Reading

  -- `none` stands for the error reply.
  unfoldable pub get_battery : Bool → Reading → Option Reading
  get_battery power_ok reading = if not power_ok then none else some reading

  unfoldable pub get_status : App → WsServer → Option StatVfs → Bool → Reading → ℕ → Status
  get_status a ws_server st power_ok reading now = record {
    resolution = (a.cfg.width, a.cfg.height);
    fps = a.cfg.fps;
    stream_clients = a.streamer.client_count;
    ws_clients = ws_server.client_count;
    active = a.gst_cam.recording;
    file = a.gst_cam.current_file;
    duration_s = Source.recording_seconds a.gst_cam now;
    free_mb = (storage_mb st).0;
    used_mb = (storage_mb st).1;
    battery = if power_ok then some reading else none;
  }

  -- At each moment `record_stop` answers an error exactly when `get_status` shows no active recording,
  -- and otherwise the file and the seconds that `get_status` shows; after it no recording is active;
  -- and `get_battery` answers the reading of the status.
  pub get_status_foretells :
      (a : App) (ws_server : WsServer) (st : Option StatVfs) (power_ok : Bool) (reading : Reading)
      (now : ℕ)
      → let s = get_status a ws_server st power_ok reading now in
        let after = Commands.record_stop a now in
        (s.active ≡ false → after.1 ≡ error "not recording")
        × (s.active ≡ true → after.1 ≡ stopped s.file s.duration_s)
        × ((get_status after.0 ws_server st power_ok reading now).active ≡ false)
        × (get_battery power_ok reading ≡ s.battery)
  unfolding get_status get_battery Commands.record_stop Source.stop_recording
  get_status_foretells a ws_server st power_ok reading now = ground arith
