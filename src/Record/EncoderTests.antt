-- ===== src/Record/EncoderTests.antt =====
-- The H.264 hardware encoder at concrete inputs.
use ras_pi_zero_cam.Prelude.{ℕ, ◌≡◌, ◌≢◌, refl, true, false, Option, none, some, [], arith}
use ras_pi_zero_cam.Prelude.Counts.{erase, count}
use ras_pi_zero_cam.Camera.Resolution.{Resolution, ResolutionConfig, config_of}
use ras_pi_zero_cam.Codec.Pool.{take_slot, settle, give_back}
use ras_pi_zero_cam.Codec.Device.{Call, Session, unopened, threw}
use ras_pi_zero_cam.Record.H264.{
  Encoder, Captured, Polled, poll_pass, claim, submit, return_input, take_capture, take_output,
  deliver, streaming,
}
use ras_pi_zero_cam.Record.H264.Steps.{
  Reach, start, later, claims, submits, returns, captures, takes, delivers, stops_polling,
}
use ras_pi_zero_cam.Record.H264.Slots.{IsPooled, Reach-IsPooled}
use ras_pi_zero_cam.Record.H264.Frames.{Balanced, Reach-Balanced}
use ras_pi_zero_cam.Record.H264.Buffers.{IsOrdered, Reach-IsOrdered}
use ras_pi_zero_cam.Record.H264.Draining.{poll_thread_ends, short_grant_never_drains}
use ras_pi_zero_cam.Record.H264.Opening.{Accepts, construct}

-- Frame 7 goes to the driver in slot 0 and comes back, and its encoded buffer is delivered.
abbrev first : Encoder
first = streaming 6 12

abbrev filling : Encoder
filling = (claim first 7).0

abbrev busy : Encoder
busy = (submit filling true).0

abbrev freed : Encoder
freed = return_input busy 0

abbrev encoded : Captured
encoded = record {
  index = 3;
  bytes_used = 900;
  length = 524288;
  sec = 2;
  usec = 5;
  keyframe = true;
}

abbrev received : Encoder
received = take_capture freed encoded

abbrev shown : Encoder
shown = deliver (take_output received) true

abbrev closing : Encoder
closing = record shown { abort_poll = true }

busy-Reach : Reach 6 12 busy
unfolding streaming
busy-Reach = later (later start (claims first 7 refl)) (submits filling true)

shown-Reach : Reach 6 12 shown
unfolding streaming claim take_slot submit settle return_input take_capture
shown-Reach =
    later
      (later (later (later busy-Reach (returns busy 0 refl)) (captures freed encoded refl))
        (takes received refl))
      (delivers (take_output received) true)

closing-Reach : Reach 6 12 closing
closing-Reach = later shown-Reach (stops_polling shown)

closing_empty : (closing.pool.filling ≡ none) × (closing.pool.driver ≡ [])
unfolding streaming claim take_slot submit settle return_input give_back take_capture take_output
    deliver erase
closing_empty = (refl, refl)

Reach-IsPooled_example : IsPooled 6 busy
Reach-IsPooled_example = Reach-IsPooled 6 (omega arith) {m = 12} {e = busy} busy-Reach

Reach-Balanced_example : Balanced busy
Reach-Balanced_example = Reach-Balanced 6 (omega arith) {m = 12} {e = busy} busy-Reach

Reach-IsOrdered_example : IsOrdered 12 shown
Reach-IsOrdered_example = Reach-IsOrdered {n = 6} {m = 12} {e = shown} shown-Reach

poll_thread_ends_example :
    ((p : Polled) → (poll_pass closing p).1 ≡ false)
    × ((f : ℕ) → count f closing.released ≡ count f closing.accepted)
poll_thread_ends_example =
    poll_thread_ends {m = 12} {e = closing} closing-Reach refl closing_empty.0 closing_empty.1

abbrev short : Encoder
short = record (streaming 4 12) { abort_poll = true }

short-Reach : Reach 4 12 short
short-Reach = later start (stops_polling (streaming 4 12))

idle_passes : Polled.idle ≢ Polled.failed
idle_passes e = cc

short_grant_never_drains_example : (poll_pass short Polled.idle).1 ≡ true
short_grant_never_drains_example =
    short_grant_never_drains 4 (omega arith) {m = 12} {e = short} short-Reach Polled.idle
      idle_passes

abbrev cfg : ResolutionConfig
cfg = config_of Resolution.low

-- A driver that grants what it is asked for.
abbrev granting : Call → Option ℕ
granting (Call.request_buffers q n) = some n
granting c = some 1

granting-Accepts : Accepts granting cfg 6 12 12
granting-Accepts = record {
  fd = 1;
  done = 1;
  opened = refl;
  formatted_output = refl;
  formatted_capture = refl;
  granted_output = refl;
  granted_capture = refl;
  buffers = λ i lt. record {
    length = 1;
    place = 1;
    taken = 1;
    queried = refl;
    mapped = refl;
    queued = refl;
  };
  started_output = refl;
  started_capture = refl;
}

-- A driver that refuses every format.
abbrev refusing : Call → Option ℕ
refusing (Call.set_format q f) = none
refusing c = some 1

abbrev abandoned : Session
abandoned = record unopened { fd_open = true }

refused : construct refusing (λ c. false) cfg 500000 ≡ threw abandoned
unfolding construct
refused = refl
