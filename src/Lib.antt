-- ===== src/Lib.antt =====
-- Camera server for the Raspberry Pi Zero 2 W: capture, streaming, recording, control and power.
--
-- The program takes frames from a camera, streams them as MJPEG over HTTP, records them to MP4 on
-- demand, stores snapshots, and is controlled by JSON commands over a WebSocket. Each part stands in
-- a folder named for it, with the functions under their names in the source.
--
--   Camera/Resolution    src/camera/resolution.h: the presets.
--   Camera/Frame         src/camera/frame_buffer.h: `Frame`, with the closures that it may release.
--   Camera/FrameQueue    src/camera/frame_buffer.h: `FrameQueue<N>`; Queue is the bounded queue that
--                        it implements, Refine and Runs the refinement.
--   Camera/Manager       src/camera/camera_manager.cpp: `CameraManager`. Frames are cells with a
--                        reference count, so that sharing by the two queues is visible.
--   Codec                what the two V4L2 encoders share: Pool, the input slots that wander between
--                        the program and the driver, Device, the calls of a constructor, and Opening,
--                        the loops over the mmapped buffers.
--   Gst                  how GStreamer reads a launch line: its words, elements, settings and caps.
--   Record/Recorder      src/record/recorder.cpp: `Recorder`, a session over a GStreamer pipeline;
--                        Pipeline is its launch line.
--   Record/Session       `Recorder` with `H264HardwareEncoder`, whose callback it is.
--   Record/H264          src/record/h264_hw_encoder.cpp: `H264HardwareEncoder`, its threads as the
--                        relation Steps, of which Passes makes whole calls, its constructor and
--                        destructor in Opening.
--   Stream/Source        src/stream/gst_camera_source.cpp: `GstCameraSource`, which owns a recorder;
--                        Pipeline is its launch line, Plugins the environment that it sets.
--   Stream/JpegMt        src/stream/jpeg_mt_encoder.cpp: `JpegMtEncoder`, its threads as interleaved
--                        critical sections; Shutdown is the destructor.
--   Stream/JpegHw        src/stream/jpeg_hw_encoder.cpp: `JpegHwEncoder`, with the memories of its
--                        slots byte by byte.
--   Stream/Nv12          src/stream/jpeg_mt_encoder.cpp: the copy of a frame and the blocks of
--                        `do_encode`.
--   Stream/Mjpeg         src/stream/mjpeg_server.cpp: `MjpegServer`.
--   Control/Dispatcher   src/control/command_dispatcher.cpp: `CommandDispatcher`.
--   Control/WsServer     src/control/ws_server.cpp: `WsServer`.
--   Control/Messages     the message handler by which src/main.cpp joins these two.
--   Power/Ina219         src/power/ina219.cpp: `INA219`.
--   Power/Battery        src/power/battery_monitor.cpp: `BatteryMonitor`; Json is its text.
--   Main                 src/main.cpp: Files and Recordings (the file commands), Names (the
--                        time-stamped names, also those of the recorder), Commands, with Launching
--                        for the way of a client's file name, Status, Loop, Updates (the texts of
--                        the battery and of the main loop on their way to the clients), and Program, the start and the
--                        shutdown of the whole.
--   Prelude              shared names, Boolean tests, lists, texts that are written piece by piece and
--                        cut at separators, decimal numerals, `strftime`, and the laws of bit
--                        operations.
--
-- How the parts meet: `Stream.Source` calls the operations of `Record.Recorder`, `Main.Commands`
-- those of `Stream.Source` and reads `Stream.Mjpeg`, and `Power.Battery` those of `Power.Ina219`.
-- `Main.Program` hands what the camera source delivers to `Stream.Mjpeg`, and `Control.Messages` what
-- `Control.WsServer` reads to `Control.Dispatcher`. `Record.H264` and `Stream.JpegHw` share `Codec`,
-- and `Stream.JpegHw` is compared with `Stream.Nv12`. `Record.Session` drives `Record.H264` by the
-- calls of `Record.Recorder`. Texts are lists of code points; a text that a stream gets by `<<` is a
-- list of pieces, literals and values, and the readers in `Gst` and `Power/Battery/Json` are
-- independent of the writers.
-- What GStreamer, libcamera, the HTTP and JSON libraries, libjpeg, the I2C device, the V4L2 drivers
-- and the file system answer are arguments; the laws of the INA219 chip are the record
-- `Power.Ina219.Chip.IsChip`, and those of `std::sort` the record `Main.Recordings.StdSort`. A V4L2
-- driver hands back only buffers that VIDIOC_QBUF gave to it: a premise of the steps that dequeue.
--
-- Integers: the counters of the frame queue and the presentation times wrap at 2^64, the registers
-- are 16 bits wide. The frame numbers of the JPEG encoder and of the MJPEG server have 64 bits in the
-- source, and are unbounded here. All loops are structural recursion, but for
-- the decimal printer, which runs on fuel `n + 1`: `Prelude.Decimal.read-print` needs no bound.
-- Concurrency: one call or one critical section is one step, and a list of steps is an interleaving.
-- Memory order, timeouts of condition variables, and text output are not modelled.
--
-- The offsets of the JPEG encoders are 32-bit values and wrap; `Plain` under Stream/Nv12 and
-- Stream/JpegHw is the same copy without wrapping, and `Bounds` says when the two agree. The
-- destructors of the V4L2 encoders are modelled after their joins; when the H.264 poll thread ends
-- is a question of `Record.H264.Draining`.
--
-- A local time is what `localtime_r` gives, its year counted from 1900 and not negative; the text of a
-- float is the parameter `fixed3` of `Power/Battery/Json`; the JPEG quality is not negative.
--
-- Not modelled: GStreamer's quotes and escapes, but for the one quoted setting; the text of the JSON
-- and HTTP replies of the commands; the signal handlers and the output to the console; the bytes of
-- the H.264 stream, which the driver makes; `xioctl`, which only repeats an interrupted call; and
-- src/snapshot, which is empty.
pub mod Prelude
pub mod Camera
pub mod Codec
pub mod Gst
pub mod Record
pub mod Stream
pub mod Power
pub mod Control
pub mod Main
