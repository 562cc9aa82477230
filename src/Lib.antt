-- ===== src/Lib.antt =====
-- DialF (server/crates/dialf) is a host daemon, dialfd, that drives phones which connect to it over
-- TCP, runs jobs of steps on calls (dial, play, record, wait for a turn of speech), and shares a
-- locally attached device with another machine through a gate in front of the adb server.
--
-- How the parts work together. A phone connects to transport/phone_server.rs, which checks the shared
-- key, puts the connection into the hub (hub.rs) and the device into the registry (registry.rs), and
-- then handles the phone's messages on the state of the daemon (daemon.rs). A call that rings may
-- start a job (jobs/), which sends commands through the hub and waits for their acks, and listens with
-- the turn detector (audio/vad.rs). A heartbeat may start a check that keeps the phone connected to
-- the host's adb server (adb_link.rs). A share (share/) takes adb connections from the network, asks
-- for the proof of a token when it has one, and lets through what its policy allows.
--
-- Files, and what of server/crates/dialf/src they model (functions keep their names):
--   Prelude           shared names: tests, lists, results, association lists; Prelude/Text is Rust's
--                     str as the list of its UTF-8 bytes, with trim, split_whitespace, parse and
--                     from_utf8_lossy as the standard library has them
--   Share/Adb         share/adb.rs. Adb itself is `decide` and its parts; Devices the device lists;
--                     Wire the message codec, `gate` and `relay_filtered_list`. A socket is the bytes
--                     that are still to be read from it and those that were written to it
--   Share/Handshake   share/handshake.rs: `hex`, `unhex`, `expected_auth`, `verify`. A slice that would
--                     panic is a result of its own
--   Share/Listener    share/server.rs: `authenticate`, `serve_conn` and the gate of the forwarded ports
--   Share/Client      share/client.rs: the address of a target, and `connect` as a function from the
--                     bytes that the share sends to its outcome and the bytes that it sends itself
--   Share/Config      share/mod.rs: ports, upstream addresses, `ShareConfig::resolve` and
--                     `resolve_targets` (Config/Resolved)
--   Audio/Turn        audio/vad.rs: `TurnDetector`
--   Audio/Record      audio/record.rs: the DuplexRecorder and its mix, over the WavFileSink of
--                     audio/backend.rs; a file is its path and its samples, as 16-bit patterns
--   Audio/Capture     audio/record.rs: the capture thread of a DuplexSession, as a run over its reads
--   Jobs              jobs/schema.rs (Schema) and jobs/runner.rs (Runner): `run_job` over a record of
--                     effects, the operations of the trait JobIo as functions on a state; phone.rs:
--                     the call of a job (Track, Call), and those effects on a phone (Phone), with the whole
--                     daemon as the world around them
--   Protocol          protocol.rs: the messages between phone and daemon
--   Phones/Hub        hub.rs. A connection stands in a store under its generation, so that a command
--                     can hold one that was replaced; Answers has the tasks of the daemon as a step
--                     relation on the hub
--   Phones/Registry   registry.rs
--   Phones/Server     transport/phone_server.rs: greeting, teardown and reaping
--   Phones/Messages   transport/phone_server.rs: `handle_phone_msg` and `trigger_autoanswer`, and
--                     `on_report` of adb_link.rs
--   AdbLink           adb_link.rs: the check (Checks), its delay, and what it reports
--   Daemon            daemon.rs: the state, the inboxes, the auto-answer lookup, the call markers, and
--                     the names of recordings (Labels)
--   Control           protocol.rs: the requests on the control socket, and daemon.rs: what answers them.
--                     A handler is a function on the state that may fail. Dispatch is `try_handle`; the
--                     requests stand in Overrides, Runs (`job.run`, with the checks of Requests and
--                     Validation), Devices and Shares. Inbound is the session of autoanswer.serve, from
--                     transport/control_server.rs, and AutoAnswer the task of an answered call, from
--                     transport/phone_server.rs
--   Reachability      reachability.rs: what firewall rules let through (nftables in Nftables), the
--                     findings and their fixes (Findings), the kinds of host and the report (Hosts)
-- The children of a module that are named for what they prove hold proofs; each Examples holds the
-- runs at concrete inputs.
--
-- Numbers. Counters and times are natural numbers. Generations and message ids of the hub wrap where
-- the source's integers do, as their definitions write out; a time is in milliseconds. The detector's
-- conversion of milliseconds to hops is done in f64 by the source; for the two hop sizes that the
-- detector's library has, 160 and 256 samples, it is exact and is the rounding that Turn writes out.
-- A signed number of seconds is n or -1 - n.
--
-- Loops. The lists, the steps of a job and the lines of a text are run through by structural
-- recursion. `relay_lists` takes fuel, more than there are bytes left to read, and each round reads
-- the four bytes of a length. A wait for an answer polls every 150 ms and takes a round for each
-- millisecond of its time and two more; a sleep takes one for each millisecond and one more. A share
-- that replaces another tries its port every 25 ms for three seconds, 121 rounds. A padding takes a
-- round for each sample and one more. What other tasks do while a command waits or time passes is an
-- argument, functions on the hub and on the daemon.
--
-- Arguments that stand for code outside the repository: the message authentication code, the nonce,
-- the parser of socket addresses, the new token, the voiced decision of each hop (ten-vad), what the
-- adb binary prints and returns, and the time at which a message is handled; files and the reader of
-- YAML (`Files`), the host's network (`Network`), and the uses of the disk that fail while a recording
-- is written (`Disk`). Code of the repository without a model here is an argument too: the audio
-- engine (`Engine`), the resampler (`Resampler`), and in Control the start and the end of a live
-- recording (`Recorder`).
--
-- Not modelled: sockets, processes, files (apart from the call markers as a list of names), JSON and
-- YAML (serde), logging; the end of a share at its time, and the local listener of its client; the
-- permissions of the control socket; the measures of loudness and of drift in a recording, which are
-- floating point, and playback; discovery, the command line, installation and host checks; the
-- Android app.
pub mod Prelude
pub mod Share
pub mod Audio
pub mod Jobs
pub mod Protocol
pub mod Phones
pub mod AdbLink
pub mod Daemon
pub mod Control
pub mod Reachability
