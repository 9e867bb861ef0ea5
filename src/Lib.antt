-- ===== src/Lib.antt =====
-- CastMirror's streaming core (core/src, core/include/castcore) as definitions that run, with the
-- theorems that make it correct.
--
-- The program mirrors a screen to a Cast receiver. A session (core/src/cast_session.cc) moves through
-- the states of the state machine; encoded frames are encrypted, cut into RTP packets, paced and sent
-- over UDP by the transport, which keeps them for retransmission; the receiver answers with RTCP,
-- which the parser reads and the transport and the adaptive controller act on. The engine starts and
-- stops sessions with the settings of the user, which clients of the C interface read and change.
--
--   Prelude     shared names, and the helpers on lists, bytes, reads, maps and integers
--   Session     core/src/state_machine.cc: the session's states, transitions and callbacks
--   Rtp         core/src/rtp_packetizer.cc: a frame becomes RTP packets (`PacketizeFrame`)
--   Rtcp        core/src/rtcp_parser.cc: a datagram becomes feedback (`ParseInternal`), and the
--               datagrams of the test receiver (tools/fake-receiver/main.cc) that it has to read
--   Stream      core/include/castcore/types.h: the settings that the next two hand on
--   Adaptive    core/src/adaptive_controller.cc: bitrate, resolution, frame rate and playout delay from
--               the receiver's feedback (`OnFeedback`, `CheckAdaptation`)
--   Capability  core/src/capability_model.cc: what a device decodes, and the settings of a preset
--   Transport   core/src/cast_transport.cc: caching and sending a frame (`SendPackets`), retransmission
--               (`RetransmitPacket`), sender reports, and what a datagram brings about (`ReceiveLoop`
--               from the parse on)
--   Pacer       core/include/castcore/frame_pacer.h: captured frames at a steady rate, with stamps that
--               rise (`Tick`)
--   Recovery    core/src/session_recovery.cc: the window in which a dropped connection is tried again
--   Control     core/src/cast_session.cc: how a session begins (`Start`), drops (`RequestReconnect`), is
--               tried again (`AdaptationLoop`), fails and ends (`Stop`), on top of Session and Recovery, and
--               its handshake with the receiver (`NegotiateControlPlane`), on top of Negotiator
--   Media       core/src/cast_session.cc: the way of a frame from the encoder to the transport
--               (`ProcessVideoFrame`, `ProcessAudioFrameInternal`), on top of Crypto and Rtp, with the
--               stamps of core/src/audio_encoder.cc
--   Crypto      core/src/frame_crypto.cc: the encryption of frames and their nonces
--   Negotiator  core/src/mirroring_negotiator.cc: the offer of streams and what is taken from an answer
--   Channel     core/src/cast_channel.cc: messages over TLS (`SendCastMessage`, `ReceiveLoop`)
--   Auth        core/src/cast_channel.cc and core/src/device_auth.cc: the challenge to a receiver
--   Devices     core/src/device_discovery.cc: the list of devices, its updates and its expiry, and
--               core/include/castcore/device_selection.h
--   Mdns        core/src/device_discovery.cc: from a datagram of the network (`ProcessMdnsResponse`) to a
--               device of that list
--   Config      core/src/config.cc and core/include/castcore/config.h: the settings, their bounds
--               (`Validate`), the document they are saved as, its files (`Load`, `Save`) and the options of
--               a session (`BuildSessionOptions`)
--   Engine      core/src/cast_engine.cc: the starts and stops of sessions (`StartCasting`,
--               `StartCastingLastDevice`, `StopCasting`) and what they leave in the settings of Config
--   Client      core/src/c_api.cc: the settings as a client reads and merges them, on top of Engine
--   Pixels      core/src/pixel_convert.cc: the conversion of captured pixels (`ConvertToBgra8`)
--   Hud         core/src/latency_hud.cc: the badge drawn into a frame (`Render`), on top of Pixels
--
-- Conventions. A machine integer is a native number with its wrap written out where the code can
-- reach it; a byte list stands for a buffer, and a read past its end is a fault, `none`. Methods take
-- the object's record and give the new one. Locks are left out: a method that holds its object's lock
-- is one step. Where the lock is free between the parts of a method, as in `StartCasting`,
-- `StopCasting` and `RequestReconnect`, each part is a step. Clocks are arguments. Log lines are left
-- out. Floating-point numbers are a parameter of the definitions that compute with them
-- (Prelude/Double.antt), of which nothing is assumed, so the theorems hold whatever the rounding.
--
-- Bounds and fuel. `packetize_frame` takes fuel for its loop over packet ids; 65536 rounds are enough
-- wherever the loop ends at all. `parse_internal` counts its blocks, loss fields and octets down from
-- the bounds in the code and needs no fuel.
--
-- The rounds of `receive_loop` and of `skip_dns_name` are counts, the latter the code's own bound; the
-- parser of TXT records takes the record's length, which is enough as it advances at every string.
--
-- Settings. A JSON document is a value; what writes and parses its text is a parameter, and so is what
-- the file system answers to each call of a save. Theorems on a document that is read back assume
-- of the parser only that it gives a written document back, with its integers without a sign as
-- unsigned ones. Sessions of the engine are numbers, and its calls of them are recorded.
--
-- Not modelled: capture, encoders, GPU conversion, audio capture, logging and the user interfaces,
-- most of which are calls of the operating system and of libraries; the lists and callbacks of the C
-- interface; the JSON texts of the protocol, whose messages are values here; the floating-point
-- tables of the pixel conversion; sockets, TLS handshakes and the probes of discovery; the
-- transport's `Start`, `Stop` and `GetStats`; the audio checks of the adaptation loop, the live
-- settings and the statistics of the session.
mod Prelude
pub mod Session
pub mod Rtp
pub mod Rtcp
pub mod Stream
pub mod Adaptive
pub mod Capability
pub mod Transport
pub mod Pacer
pub mod Recovery
pub mod Crypto
pub mod Media
pub mod Devices
pub mod Mdns
pub mod Control
pub mod Auth
pub mod Channel
pub mod Negotiator
pub mod Config
pub mod Engine
pub mod Client
pub mod Pixels
pub mod Hud
