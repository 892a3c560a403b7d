-- ===== src/Stream/JpegHw/Opening.antt =====
-- The constructor and the destructor of `JpegHwEncoder`, src/stream/jpeg_hw_encoder.cpp.
use ras_pi_zero_cam.Prelude.{
  ℕ, ◌*◌, ◌/◌, ◌≡◌, ◌<◌, ◌≤◌, refl, Bool, true, false, Option, some, [], ◌∷◌, arith,
}
use ras_pi_zero_cam.Prelude.Counts.{indices_from}
use ras_pi_zero_cam.Codec.Device.{
  Queue, PixelFormat, Format, Setting, Call, Session, unopened, Built, built, and_then, need,
  set_ctrl, open_buffers, unmap,
}
use ras_pi_zero_cam.Codec.Opening.{BufferServed, Returns, open_buffers-served, unmap_all}

abbrev pub num_output_buffers : ℕ
num_output_buffers = 3

abbrev pub num_capture_buffers : ℕ
num_capture_buffers = 3

abbrev pub output_format : ℕ → ℕ → Format
output_format width height = record {
  width = width;
  height = height;
  pixelformat = PixelFormat.yu12;
  bytesperline = width;
  sizeimage = width * height * 3 / 2;
}

-- 512 * 1024 bytes for each buffer.
abbrev pub capture_format : ℕ → ℕ → Format
capture_format width height = record {
  width = width;
  height = height;
  pixelformat = PixelFormat.jpeg;
  bytesperline = 0;
  sizeimage = 524288;
}

module _ (answer : Call → Option ℕ) (setting_taken : Setting → Bool) where
  -- STREAMON for both queues, and the thread.
  unfoldable pub start_streaming : Session → Built
  start_streaming s = need answer (Call.stream_on Queue.output) s (λ r t.
      need answer (Call.stream_on Queue.capture) t
        (λ q u. built (record u { streaming = Queue.output ∷ Queue.capture ∷ []; threads = 1 })))

  unfoldable pub request_outputs : Session → Built
  request_outputs s =
      need answer (Call.request_buffers Queue.output num_output_buffers) s
        (λ n. open_buffers answer Queue.output num_output_buffers 0 n)

  unfoldable pub request_captures : Session → Built
  request_captures s =
      need answer (Call.request_buffers Queue.capture num_capture_buffers) s (λ m t.
        open_buffers answer Queue.capture num_capture_buffers 0 m (record t { num_captures = m }))

  unfoldable pub construct : ℕ → ℕ → ℕ → Built
  unfolding start_streaming request_outputs request_captures
  construct width height quality = need answer Call.open_device unopened (λ fd s.
      need answer (Call.set_format Queue.output (output_format width height))
        (set_ctrl setting_taken (Setting.quality quality) (record s { fd_open = true }))
        (λ a t.
          need answer (Call.set_format Queue.capture (capture_format width height)) t
            (λ b u. and_then (and_then (request_outputs u) request_captures) start_streaming)))

-- The destructor after its `join`, from the first VIDIOC_STREAMOFF on: `output_bufs_` has
-- three places, of which the ones that were mapped are unmapped.
unfoldable pub destroy : Session → Session
destroy s = record s {
  streaming = [];
  queued = [];
  output_maps = unmap (indices_from 0 num_output_buffers) s.output_maps;
  capture_maps = unmap (indices_from 0 s.num_captures) s.capture_maps;
  fd_open = false;
}

-- The driver accepts the formats, grants `n` input slots and `m` capture buffers, and serves them.
pub record Accepts (answer : Call → Option ℕ) (width height n m : ℕ) : Type 0 where
  pub fd : ℕ
  pub done : ℕ
  pub opened : answer Call.open_device ≡ some fd
  pub formatted_output :
      answer (Call.set_format Queue.output (output_format width height)) ≡ some done
  pub formatted_capture :
      answer (Call.set_format Queue.capture (capture_format width height)) ≡ some done
  pub granted_output : answer (Call.request_buffers Queue.output num_output_buffers) ≡ some n
  pub granted_capture : answer (Call.request_buffers Queue.capture num_capture_buffers) ≡ some m
  pub outputs : (i : ℕ) → i < n → BufferServed answer Queue.output i
  pub captures : (i : ℕ) → i < m → BufferServed answer Queue.capture i
  pub started_output : answer (Call.stream_on Queue.output) ≡ some done
  pub started_capture : answer (Call.stream_on Queue.capture) ≡ some done

module _ (answer : Call → Option ℕ) (setting_taken : Setting → Bool)
    (width height quality : ℕ) where
  -- When the driver accepts the formats, grants at most three buffers for each queue and serves every
  -- call, the constructor returns with the granted slots mapped and free and the granted capture
  -- buffers mapped and queued, and when the three slots were granted the destructor, after its join, then leaves nothing
  -- mapped or open.
  pub construct_starts_destroy_frees :
      (m : ℕ)
      → m ≤ num_capture_buffers
      → Accepts answer width height num_output_buffers m
      → Returns (construct answer setting_taken width height quality) (λ s.
        (s.fd_open ≡ true)
        × (s.free_slots ≡ indices_from 0 num_output_buffers)
        × (s.output_maps ≡ indices_from 0 num_output_buffers)
        × (s.queued ≡ indices_from 0 m)
        × (s.capture_maps ≡ indices_from 0 m)
        × (s.threads ≡ 1)
        × ((destroy s).output_maps ≡ [])
        × ((destroy s).capture_maps ≡ [])
        × ((destroy s).fd_open ≡ false))
  unfolding construct request_outputs request_captures start_streaming destroy
  construct_starts_destroy_frees m fits a =
      rw (a.opened, a.formatted_output, a.formatted_capture, a.granted_output)
        (rw
          (open_buffers-served answer Queue.output num_output_buffers 0 num_output_buffers _
            (λ i lt. a.outputs i (omega (arith, lt))) (omega arith))
          (rw a.granted_capture (
            rw
              (open_buffers-served answer Queue.capture num_capture_buffers 0 m _
                (λ i lt. a.captures i (omega (arith, lt))) (omega arith))
              (rw (a.started_output, a.started_capture)
                (
                  refl,
                  refl,
                  refl,
                  refl,
                  refl,
                  refl,
                  unmap_all (indices_from 0 num_output_buffers),
                  unmap_all (indices_from 0 m),
                  refl,
                )))))
