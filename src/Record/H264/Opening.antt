-- ===== src/Record/H264/Opening.antt =====
-- The constructor and the destructor of `H264HardwareEncoder`, src/record/h264_hw_encoder.cpp.
use ras_pi_zero_cam.Prelude.{
  ℕ, ◌+◌, ◌≡◌, ◌<◌, ◌≤◌, refl, Bool, true, false, Option, some, [], ◌∷◌, ◌++◌, arith,
}
use ras_pi_zero_cam.Prelude.Counts.{indices_from}
use ras_pi_zero_cam.Camera.Resolution.{ResolutionConfig}
use ras_pi_zero_cam.Codec.Device.{
  Queue, PixelFormat, Format, Setting, Call, Session, unopened, Built, built, threw, and_then, need,
  set_ctrl, open_buffers, unmap,
}
use ras_pi_zero_cam.Codec.Opening.{
  BufferServed, IsAbandoned, Leaves, Returns, WritesPastEnd, open_buffers-served, open_buffers_past,
  need-Leaves, and_then-Leaves, open_buffers-Leaves, threw-IsAbandoned, unmap_all,
}
use ras_pi_zero_cam.Record.H264.{num_output_buffers, num_capture_buffers, streaming}

abbrev pub output_format : ResolutionConfig → Format
output_format cfg = record {
  width = cfg.width;
  height = cfg.height;
  pixelformat = PixelFormat.nv12;
  bytesperline = cfg.width;
  sizeimage = 0;
}

-- 512 << 10 bytes for each buffer.
abbrev pub capture_format : ResolutionConfig → Format
capture_format cfg = record {
  width = cfg.width;
  height = cfg.height;
  pixelformat = PixelFormat.h264;
  bytesperline = 0;
  sizeimage = 524288;
}

module _ (answer : Call → Option ℕ) (setting_taken : Setting → Bool) where
  -- The five controls.
  abbrev pub set_controls : ResolutionConfig → ℕ → Session → Session
  set_controls cfg bitrate_bps s =
      let s1 = set_ctrl setting_taken (Setting.bitrate bitrate_bps) s in
      let s2 = set_ctrl setting_taken Setting.profile_high s1 in
      let s3 = set_ctrl setting_taken Setting.level_4_1 s2 in
      let s4 = set_ctrl setting_taken Setting.inline_headers s3 in
      set_ctrl setting_taken (Setting.idr_period cfg.fps) s4

  -- STREAMON for both queues, and the two threads.
  unfoldable pub start_streaming : Session → Built
  start_streaming s = need answer (Call.stream_on Queue.output) s (λ r t.
      need answer (Call.stream_on Queue.capture) t
        (λ q u. built (record u { streaming = Queue.output ∷ Queue.capture ∷ []; threads = 2 })))

  -- VIDIOC_REQBUFS for both queues and the loop over the CAPTURE buffers.
  unfoldable pub request : Session → Built
  request s = need answer (Call.request_buffers Queue.output num_output_buffers) s (λ n t.
      need answer (Call.request_buffers Queue.capture num_capture_buffers)
        (record t { free_slots = t.free_slots ++ indices_from 0 n })
        (λ m u.
          open_buffers answer Queue.capture num_capture_buffers 0 m
            (record u { num_captures = m })))

  unfoldable pub construct : ResolutionConfig → ℕ → Built
  unfolding start_streaming request
  construct cfg bitrate_bps = need answer Call.open_device unopened (λ fd s.
      need answer (Call.set_format Queue.output (output_format cfg))
        (set_controls cfg bitrate_bps (record s { fd_open = true }))
        (λ a t. need answer (Call.set_format Queue.capture (capture_format cfg)) t (λ b u.
          and_then (request (set_ctrl setting_taken (Setting.framerate cfg.fps) u))
            start_streaming)))

-- The destructor after its two `join`, from the first VIDIOC_STREAMOFF on.
unfoldable pub destroy : Session → Session
destroy s = record s {
  streaming = [];
  queued = [];
  capture_maps = unmap (indices_from 0 s.num_captures) s.capture_maps;
  fd_open = false;
}

-- The driver accepts the formats, grants `n` input slots and `m` capture buffers, and serves the
-- buffers below `limit`.
pub record Accepts (answer : Call → Option ℕ) (cfg : ResolutionConfig) (n m limit : ℕ)
    : Type 0 where
  pub fd : ℕ
  pub done : ℕ
  pub opened : answer Call.open_device ≡ some fd
  pub formatted_output : answer (Call.set_format Queue.output (output_format cfg)) ≡ some done
  pub formatted_capture : answer (Call.set_format Queue.capture (capture_format cfg)) ≡ some done
  pub granted_output : answer (Call.request_buffers Queue.output num_output_buffers) ≡ some n
  pub granted_capture : answer (Call.request_buffers Queue.capture num_capture_buffers) ≡ some m
  pub buffers : (i : ℕ) → i < limit → BufferServed answer Queue.capture i
  pub started_output : answer (Call.stream_on Queue.output) ≡ some done
  pub started_capture : answer (Call.stream_on Queue.capture) ≡ some done

module _ (answer : Call → Option ℕ) (setting_taken : Setting → Bool) (cfg : ResolutionConfig)
    (bitrate_bps : ℕ) where
  -- When the driver accepts the formats, grants at most twelve capture buffers and serves every
  -- call, the constructor returns with the device open, the granted slots free and the granted capture
  -- buffers mapped and queued, as in the state `streaming` from which the threads start, and the
  -- destructor, once its joins are done, then leaves nothing mapped, queued or open.
  pub construct_streams_destroy_frees :
      (n m : ℕ)
      → m ≤ num_capture_buffers
      → Accepts answer cfg n m m
      → Returns (construct answer setting_taken cfg bitrate_bps) (λ s.
        (s.fd_open ≡ true)
        × (s.free_slots ≡ (streaming n m).pool.free)
        × (s.queued ≡ (streaming n m).capturing)
        × (s.capture_maps ≡ (streaming n m).capturing)
        × (s.threads ≡ 2)
        × ((destroy s).capture_maps ≡ [])
        × ((destroy s).queued ≡ [])
        × ((destroy s).fd_open ≡ false))
  unfolding construct request start_streaming streaming destroy
  construct_streams_destroy_frees n m fits a =
      rw (a.opened, a.formatted_output, a.formatted_capture, a.granted_output, a.granted_capture)
        (rw
          (open_buffers-served answer Queue.capture num_capture_buffers 0 m _
            (λ i lt. a.buffers i (omega (arith, lt))) (omega arith))
          (rw (a.started_output, a.started_capture)
            (refl, refl, refl, refl, refl, unmap_all (indices_from 0 m), refl, refl)))

  -- When the driver grants more than twelve capture buffers and serves the first thirteen, the
  -- constructor writes past the end of `capture_bufs_` once the first twelve are mapped and queued.
  pub construct_past_end :
      (n m : ℕ)
      → num_capture_buffers < m
      → Accepts answer cfg n m (num_capture_buffers + 1)
      → WritesPastEnd
          (construct answer setting_taken cfg bitrate_bps)
          (λ s. s.capture_maps ≡ indices_from 0 num_capture_buffers)
  unfolding construct request
  construct_past_end n m more a =
      rw (a.opened, a.formatted_output, a.formatted_capture, a.granted_output, a.granted_capture)
        (rw
          (open_buffers_past answer Queue.capture num_capture_buffers 0 num_capture_buffers m _
            a.buffers refl more)
          refl)

  start_streaming-Leaves :
      (s : Session) → IsAbandoned s → Leaves (λ t. ℕ) (start_streaming answer setting_taken s)
  unfolding start_streaming
  start_streaming-Leaves s a =
      need-Leaves answer (λ t. ℕ) (Call.stream_on Queue.output) s _ a
        (λ r. need-Leaves answer (λ t. ℕ) (Call.stream_on Queue.capture) s _ a (λ q. 0))

  request-Leaves :
      (s : Session) → IsAbandoned s → Leaves IsAbandoned (request answer setting_taken s)
  unfolding request
  request-Leaves s a =
      need-Leaves answer IsAbandoned (Call.request_buffers Queue.output num_output_buffers) s _ a
        (λ n.
          need-Leaves answer IsAbandoned (Call.request_buffers Queue.capture num_capture_buffers) _
            _ (record { fd_open = a.fd_open; threads = a.threads })
            (λ m.
              open_buffers-Leaves answer Queue.capture num_capture_buffers 0 m _
                (record { fd_open = a.fd_open; threads = a.threads })))

  construct-Leaves :
      (fd : ℕ)
      → answer Call.open_device ≡ some fd
      → Leaves (λ t. ℕ) (construct answer setting_taken cfg bitrate_bps)
  unfolding construct
  construct-Leaves fd opened = rw opened (
      need-Leaves answer (λ t. ℕ) (Call.set_format Queue.output (output_format cfg)) _ _
        (record { fd_open = refl; threads = refl })
        (λ a.
          need-Leaves answer (λ t. ℕ) (Call.set_format Queue.capture (capture_format cfg)) _ _
            (record { fd_open = refl; threads = refl })
            (λ b.
              and_then-Leaves answer (λ t. ℕ) _ (start_streaming answer setting_taken)
                (request-Leaves _ (record { fd_open = refl; threads = refl }))
                start_streaming-Leaves)))

  -- When the device opens and the constructor throws later, it throws with the device still open and
  -- without a thread: it closes nothing itself, and no destructor runs for the object.
  pub failed_construct_leaks :
      (fd : ℕ)
      → answer Call.open_device ≡ some fd
      → (s : Session) → construct answer setting_taken cfg bitrate_bps ≡ threw s
      → (s.fd_open ≡ true) × (s.threads ≡ 0)
  failed_construct_leaks fd opened s e =
      let left =
        threw-IsAbandoned (λ t. ℕ) (construct answer setting_taken cfg bitrate_bps) s
          (construct-Leaves fd opened) e in
      (left.fd_open, left.threads)
