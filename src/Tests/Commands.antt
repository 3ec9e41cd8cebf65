-- ===== src/Tests/Commands.antt =====
-- The C interface, the golden vectors and the commands at concrete inputs.
use real_time_data_platform.Base.{
  ℕ, ◌+◌, ◌≤◌, ◌<◌, ◌≡◌, ◌⊎◌, ◌↔◌, inl, inr, refl, true, none, some, List, [], ◌∷◌, arith, length,
  take, replicate, Each,
}
use real_time_data_platform.Error.{ErrorCode, RtdpError, Result, ok, err, error_as_u16}
use real_time_data_platform.Protocol.Header.{MessageType, message_from_u16}
use real_time_data_platform.Protocol.Frame.{FrameView}
use real_time_data_platform.Protocol.Extensions.{HeaderExtension}
use real_time_data_platform.Serialization.Codec.{default_codec_config, decode}
use real_time_data_platform.CAbi.{
  ℤ, neg, RtdpHeader, DecodeOut, store_view, rtdp_decode, rtdp_encode,
}
use real_time_data_platform.CAbi.Codes.{IsRefusal, rtdp_decode_branches}
use real_time_data_platform.CAbi.RoundTrip.{IsHeader, rtdp_decode-rtdp_encode}
use real_time_data_platform.Conformance.{
  GoldenVector, hex_to_bytes, byte_from_hex, hex_digit, run_vectors,
}
use real_time_data_platform.Conformance.Verdicts.{IsReadable, IsMet, run_vectors-IsMet}
use real_time_data_platform.Cli.{Event, message_text, subscribe_loop, publish_loop, inspect}
use real_time_data_platform.Cli.Subscribe.{limited, frames_before, subscribe_loop-limited}
use real_time_data_platform.Cli.Inspect.{IsListed, inspect_branches}
use real_time_data_platform.Cli.Publish.{count_up, publish_loop-count_up}
use real_time_data_platform.Transport.Publisher.{Publisher}
use real_time_data_platform.Tests.Bytes.{big_endian}
use real_time_data_platform.Tests.Frames.{request_packet, request_packet-AllBytes}
use real_time_data_platform.Tests.Ordered.{frame}
use real_time_data_platform.Tests.Publishing.{fresh}

-- A caller that wants the header and the length, and passes NULL for the payload.
abbrev wanted : DecodeOut
wanted = record {
  out_header = some (record {
    magic = 0;
    version = 0;
    flags = 0;
    message_type = 0;
    header_length = 0;
    stream_id = 0;
    sequence = 0;
    timestamp_ns = 0;
    publisher_id = 0;
    payload_length = 0;
    checksum = 0;
  });
  out_payload = none;
  out_payload_len = some 0;
}

rtdp_decode_branches_example :
    ((view : FrameView) × ((decode big_endian default_codec_config request_packet).1 ≡ ok view)
      × (rtdp_decode big_endian (some default_codec_config) (some request_packet) wanted
          ≡ (some request_packet, store_view wanted view, ℤ.pos 0)))
    ⊎ ((code : ErrorCode) × ((decode big_endian default_codec_config request_packet).1
          ≡ err (RtdpError.protocol code))
        × (rtdp_decode big_endian (some default_codec_config) (some request_packet) wanted
            ≡ (some request_packet, wanted, neg (error_as_u16 code)))
        × IsRefusal (neg (error_as_u16 code)))
rtdp_decode_branches_example =
    rtdp_decode_branches big_endian default_codec_config request_packet wanted
      request_packet-AllBytes

-- A heartbeat, its payload empty.
abbrev heartbeat : RtdpHeader
heartbeat = record {
  magic = 0x5254;
  version = 1;
  flags = 0;
  message_type = 2;
  header_length = 0;
  stream_id = 7;
  sequence = 3;
  timestamp_ns = 9;
  publisher_id = 10;
  payload_length = 99;
  checksum = 5;
}

heartbeat-IsHeader : IsHeader heartbeat MessageType.heartbeat
unfolding message_from_u16
heartbeat-IsHeader = record {
  is_rtdp = refl;
  is_version_1 = refl;
  known = refl;
  message_small = omega arith;
  header_length_small = omega arith;
  stream_id_small = omega arith;
  sequence_small = omega arith;
  timestamp_small = omega arith;
  publisher_id_small = omega arith;
  checksum_small = omega arith;
}

rtdp_decode-rtdp_encode_example :
    (written : List ℕ) × (sum : ℕ) × (rtdp_encode big_endian
        (some default_codec_config)
        (some heartbeat)
        (some [])
        0
        (some (replicate 60 0))
        (some 0)
      ≡ (some written, some 48, ℤ.pos 0))
    × ((rtdp_decode big_endian (some default_codec_config) (some (take 48 written)) wanted).1
        ≡ record {
          out_header =
              some (record heartbeat { header_length = 48; payload_length = 0; checksum = sum });
          out_payload = none;
          out_payload_len = some 0;
        })
    × ((rtdp_decode big_endian (some default_codec_config) (some (take 48 written)) wanted).2
        ≡ ℤ.pos 0)
rtdp_decode-rtdp_encode_example =
    rtdp_decode-rtdp_encode big_endian default_codec_config heartbeat MessageType.heartbeat []
      (replicate 60 0) 0 wanted heartbeat-IsHeader refl (omega arith) (omega arith) (omega arith)

-- The two bytes 5254, which are no frame.
abbrev short_frame : GoldenVector
short_frame = record {
  description = "Truncated";
  hex = b'5' ∷ b'2' ∷ b'5' ∷ b'4' ∷ [];
  expected_result = "ERROR";
  expected_error = some "MALFORMED_FRAME";
}

short_frame-IsReadable : IsReadable short_frame
unfolding hex_to_bytes byte_from_hex hex_digit
short_frame-IsReadable = refl

run_vectors-IsMet_example :
    (passed : ℕ) × (failed : ℕ) × (run_vectors big_endian default_codec_config (short_frame ∷ [])
      ≡ some (passed, failed))
    × (passed + failed ≡ 1)
    × ((failed ≡ 0) ↔ Each (IsMet big_endian default_codec_config) (short_frame ∷ []))
run_vectors-IsMet_example =
    run_vectors-IsMet big_endian default_codec_config (short_frame ∷ [])
      (short_frame-IsReadable, tt) (inr (inl refl), tt)

abbrev events : List Event
events =
    Event.timed_out ∷ Event.received (frame 1) ∷ Event.received (frame 2) ∷ Event.disconnected ∷ []

subscribe_loop-limited_example :
    (subscribe_loop (some 0) 0 events).0 ≡ limited (some 0) (frames_before events)
subscribe_loop-limited_example = subscribe_loop-limited (some 0) events

inspect_branches_example :
    ((view : FrameView) × (exts : List (Result HeaderExtension RtdpError)) × ((decode big_endian
          default_codec_config request_packet).1
        ≡ ok view)
      × (inspect big_endian request_packet ≡ ok (view, exts, true))
      × Each IsListed exts)
    ⊎ ((e : RtdpError) × ((decode big_endian default_codec_config request_packet).1 ≡ err e)
        × (inspect big_endian request_packet ≡ err e))
inspect_branches_example = inspect_branches big_endian request_packet request_packet-AllBytes

texts_fit : (j : ℕ) → 1 ≤ j → j < 1 + 2 → 48 + length (message_text (b'h' ∷ b'i' ∷ []) j) ≤ 1_472
unfolding message_text
texts_fit j lo hi =
    let one_or_two : (j ≡ 1) ⊎ (j ≡ 2) = omega arith in
    elim one_or_two [ inl first ↦ rw first (omega arith) | inr second ↦ rw second (omega arith) ]

publish_loop-count_up_example :
    (p' : Publisher) × (packets : List (List ℕ)) × (publish_loop big_endian
        (λ i. i)
        (λ j. true)
        (b'h' ∷ b'i' ∷ [])
        2
        1
        fresh
      ≡ (p', packets, some (count_up 2 1)))
    × (length packets ≡ 2)
    × (p'.sequence_counter ≡ 1 + 2)
publish_loop-count_up_example =
    publish_loop-count_up big_endian (λ i. i) (b'h' ∷ b'i' ∷ []) 2 1 fresh refl (omega arith)
      texts_fit
