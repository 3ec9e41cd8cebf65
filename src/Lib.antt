-- ===== src/Lib.antt =====
-- RTDP, a real-time data platform: frames over UDP, with gap detection, replay and four delivery
-- modes. This library models the core crate (core/src), the publisher and the subscriber over UDP
-- (transports/udp/src), the interface for C (c-abi/src), the command line (cli/src) and the run of
-- the golden vectors (conformance/src), function by function.
--
-- How the parts interact. A publisher numbers its frames from 1 and keeps the last of them in a
-- ring. A frame is encoded to bytes with a checksum; a receiver decodes the bytes, asks its
-- tracker how the sequence of the frame stands to the one that it expects, drops duplicates by a
-- bounded filter, keeps frames that came too early in the recovery engine, and asks for the
-- missing range, which the publisher answers from its ring.
--
-- Error, Error/Code          core/src/error.rs: RtdpError, ErrorCode, Result and `?`
-- Wire                       the crates byteorder and crc32c, as an interface
-- Protocol/Header            core/src/protocol/header.rs: MessageType, FrameFlags, FixedHeader
-- Protocol/HeaderCodec       core/src/protocol/header.rs: FixedHeader::encode, decode
-- Protocol/Extensions        core/src/protocol/extensions.rs: HeaderExtension, ExtensionIterator
-- Protocol/Frame             core/src/protocol/frame.rs: FrameView, OwnedFrame
-- Serialization/Codec        core/src/serialization/codec.rs: FrameCodec::decode, encode
-- Sequence/Tracker           core/src/sequence/tracker.rs: StreamSequenceTracker (Tracker here)
-- Sequence/Dedup             core/src/sequence/dedup.rs: DuplicateFilter
-- Buffers/Ring               core/src/buffers/ring.rs: BoundedRingBuffer (RingBuffer here)
-- Recovery/Data, Engine      core/src/recovery/engine.rs: RecoveryEngine and its configuration
-- Recovery/Payloads          core/src/recovery/engine.rs: the payloads of the replay messages
-- Delivery/Receiver          core/src/delivery/modes.rs: StreamReceiver::process_data_frame
-- Transport/Publisher        transports/udp/src/publisher.rs: UdpPublisher, handle_replay_request
-- Transport/Subscriber       transports/udp/src/subscriber.rs: the worker of UdpSubscriber
-- Transport/Channel          the channels of the crate crossbeam_channel, as an interface
-- Transport/Application      transports/udp/src/subscriber.rs: UdpSubscriber with its channel
-- Transport/System           a publisher and a subscriber over a network, as a step relation
-- CAbi                       c-abi/src/lib.rs: rtdp_decode, rtdp_encode
-- Conformance                conformance/src/main.rs: the verdicts on the vectors, hex_to_bytes
-- Cli, Cli/Commands          cli/src/main.rs: the commands, their loops, and main
-- Base                       lists, byte slices and association lists over the native numbers
-- Tests                      concrete runs
--
-- The modules below these hold the proofs: HeaderCodec/RoundTrip, Extensions/Scan and RoundTrip,
-- Codec/Decode, Accepted, RoundTrip, Decoded, Encoded, Errors, HeaderBytes and Canonical,
-- Tracker/Status, Dedup/Keys and Window, Ring/Retention and Contents, Engine/Drain, Invariant,
-- Replay, Timeouts, Pending, Sources, Completion and InOrder, Receiver/Ordered with Cases, Step,
-- Runs, Next and Gap, Receiver/Latest, Sources and Every, Publisher/Replay and Opened,
-- Subscriber/Requests, Responses and Sources, System/Sent, Preserved, Genuine, Quiet, Hearing with
-- Answered, Recovered, Direct, Published, Ready, Gap, Stream, Behind and Reopened,
-- Application/Received, CAbi/Codes and RoundTrip, Conformance/Hex and Verdicts, Cli/Publish,
-- Subscribe, Inspect, Rounds, Texts, Pauses and Loopback.
--
-- A publisher and a subscriber (Transport/System) take steps in any order: the application
-- publishes, sends a frame of its own, stores or restarts, the replay thread answers a packet, and
-- the worker of the subscriber goes through its loop once, with any packet that was ever sent or
-- with none. So a packet may be lost, come late, come twice, or come before an earlier one.
-- Packets that nobody sent do not come to the subscriber; to the publisher any bytes may come.
--
-- Where a worker hears several packets (System/Hearing), each comes in a round of its loop, with
-- the timeout check before it; a clock gives the times of the rounds. System/Quiet says when these
-- checks find nothing due.
--
-- How the state is modelled. A `&mut self` method takes the record and gives the new one with its
-- result. A `&mut [u8]` is the list of its bytes, and a function that writes to it gives the list
-- as it is left. A HashMap and a BTreeMap are association lists, the latter in the order of its
-- keys; a HashSet and a VecDeque are lists. A HashMap is visited in the order of its list. A call
-- of `Instant::now()` is an argument `now`, a number of nanoseconds, as is a Duration.
--
-- Bounds and fuel. `x + 1` and `x - 1` on u64 wrap around, as they do in the release profile; usize
-- has 64 bits, and lengths in memory do not reach its end. An index or a slice out of range, which
-- panics in Rust, gives a default here, and a write out of range changes nothing; the guards of
-- the source stand before each of them. The loop of `drain_contiguous` has as many rounds as there
-- are buffered frames, and that of the extensions in `decode` as many as there are bytes; each
-- round uses up one of these. `collect` and `all_received` have as many rounds as their ranges have
-- sequences.
--
-- byteorder and crc32c are not part of the repository: the record Wire has their operations with
-- the laws that their documentation gives, that a number is read back from what was written, that
-- the bytes of a number are written back from what was read, how many bytes are written, and that
-- what is read and a checksum have the widths of their types. Tests/Bytes has an instance.
--
-- crossbeam_channel is not part of the repository either: the record Channel has the operations of
-- a bounded channel with the laws that its documentation gives, of how many frames a channel takes
-- and in which order it gives them. Tests/Application has an instance.
--
-- The rounds of `list_extensions` (Cli) are one more than there are bytes. The loops of the command
-- line over messages and events go through a number or a list of them.
--
-- Not modelled: the text of errors and Display; the opening of sockets and the starting of threads;
-- the parsing of arguments (clap) and of JSON (serde_json), and the wording of what is printed; the
-- benchmarks, which measure with floating-point numbers; the tests.
pub mod Base
pub mod Error
pub mod Wire
pub mod Protocol
pub mod Sequence
pub mod Buffers
pub mod Recovery
pub mod Serialization
pub mod CAbi
pub mod Cli
pub mod Conformance
pub mod Delivery
pub mod Transport
pub mod Tests
