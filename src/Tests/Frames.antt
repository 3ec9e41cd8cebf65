-- ===== src/Tests/Frames.antt =====
-- The codec at a concrete frame.
use real_time_data_platform.Base.{
  ℕ, ◌≡◌, ◌↔◌, refl, List, [], ◌∷◌, ◌++◌, arith, length, take, replicate, some,
}
use real_time_data_platform.Error.{ok, err, malformed}
use real_time_data_platform.Protocol.Header.{
  FixedHeader, MessageType, message_from_u16, message_as_u16, magic_rtdp, rtdp_version_1,
}
use real_time_data_platform.Protocol.Frame.{OwnedFrame}
use real_time_data_platform.Protocol.HeaderCodec.{decode_header}
use real_time_data_platform.Protocol.HeaderCodec.RoundTrip.{IsWellTyped}
use real_time_data_platform.Protocol.Extensions.{
  ExtensionIterator, new_iterator, next, scan_extensions, is_known_extension, is_critical_type,
}
use real_time_data_platform.Protocol.Extensions.Scan.{Tlvs, scan_extensions-Tlvs, next-stuck}
use real_time_data_platform.Serialization.Codec.{
  default_codec_config, encode, decode, validate, check_extensions, check_preamble, check_lengths,
  check_message, decode_validated, decode_checked,
}
use real_time_data_platform.Serialization.Codec.Decode.{decode-restores}
use real_time_data_platform.Serialization.Codec.Accepted.{IsDecoded, decode-IsDecoded}
use real_time_data_platform.Serialization.Codec.RoundTrip.{
  IsEncodable, frame_packet, checked_header,
}
use real_time_data_platform.Serialization.Codec.Decoded.{decoded_frame, decode-encode}
use real_time_data_platform.Transport.Publisher.{attempt}
use real_time_data_platform.Transport.Publisher.Replay.{attempt-decoded}
use real_time_data_platform.Tests.Bytes.{big_endian}
use real_time_data_platform.Wire.{AllBytes}

-- A request to replay 5 to 9.
abbrev pub request_header : FixedHeader
request_header = record {
  magic = magic_rtdp;
  version = rtdp_version_1;
  flags = 0;
  message_type = MessageType.replay_request;
  header_length = 0;
  stream_id = 7;
  sequence = 0;
  timestamp_ns = 1_000;
  publisher_id = 10;
  payload_length = 0;
  checksum = 0;
}

-- One extension, a correlation id of 2 bytes.
abbrev pub request : OwnedFrame
request = record {
  header = request_header;
  extension_bytes = 0 ∷ 2 ∷ 0 ∷ 2 ∷ 17 ∷ 18 ∷ 0 ∷ 0 ∷ [];
  payload = replicate 7 0 ++ (1 ∷ replicate 7 0 ++ (5 ∷ replicate 7 0 ++ 9 ∷ []));
}

request_header-IsWellTyped : IsWellTyped request_header
unfolding message_from_u16 message_as_u16
request_header-IsWellTyped = record {
  is_rtdp = refl;
  is_version_1 = refl;
  message = refl;
  message_small = omega arith;
  header_length_small = omega arith;
  stream_id_small = omega arith;
  sequence_small = omega arith;
  timestamp_small = omega arith;
  publisher_id_small = omega arith;
  payload_length_small = omega arith;
  checksum_small = omega arith;
}

request_scanned :
    scan_extensions big_endian
      (length request.extension_bytes)
      (new_iterator request.extension_bytes)
    ≡ ok tt
unfolding scan_extensions next new_iterator is_critical_type is_known_extension
request_scanned = refl

pub request-IsEncodable : IsEncodable big_endian default_codec_config request
request-IsEncodable = record {
  well_typed = request_header-IsWellTyped;
  aligned = refl;
  header_small = omega arith;
  payload_small = omega arith;
  fits = omega arith;
  extensions = (scan_extensions-Tlvs big_endian request.extension_bytes).0 request_scanned;
  message = (refl, omega arith);
}

abbrev buffer : List ℕ
buffer = replicate 90 0

-- The bytes of the request on the wire.
abbrev pub request_packet : List ℕ
request_packet = frame_packet big_endian (checked_header big_endian request) request

decode-encode_example :
    ((encode big_endian default_codec_config request buffer).1 ≡ ok 80)
    × ((decode big_endian default_codec_config
          (take 80 (encode big_endian default_codec_config request buffer).0)).1
        ≡ ok (decoded_frame big_endian default_codec_config request request-IsEncodable))
decode-encode_example =
    decode-encode big_endian default_codec_config request request-IsEncodable buffer (omega arith)

scan_extensions-Tlvs_example :
    (scan_extensions big_endian
        (length request.extension_bytes)
        (new_iterator request.extension_bytes)
      ≡ ok tt)
    ↔ Tlvs big_endian request.extension_bytes 0
scan_extensions-Tlvs_example = scan_extensions-Tlvs big_endian request.extension_bytes

pub request_packet-AllBytes : AllBytes request_packet
unfolding message_as_u16
request_packet-AllBytes = omega arith

pub request_decoded :
    (decode big_endian default_codec_config request_packet).1
    ≡ ok (decoded_frame big_endian default_codec_config request request-IsEncodable)
unfolding decode validate check_extensions check_preamble check_lengths check_message
    decode_validated decode_checked decode_header message_from_u16 message_as_u16 scan_extensions
    next new_iterator is_critical_type is_known_extension
request_decoded = refl

decode-IsDecoded_example :
    IsDecoded big_endian default_codec_config request_packet
      (decoded_frame big_endian default_codec_config request request-IsEncodable)
decode-IsDecoded_example =
    decode-IsDecoded big_endian default_codec_config request_packet
      (decoded_frame big_endian default_codec_config request request-IsEncodable)
      request_packet-AllBytes request_decoded

decode-restores_example : (decode big_endian default_codec_config request_packet).0 ≡ request_packet
decode-restores_example =
    decode-restores big_endian default_codec_config request_packet request_packet-AllBytes

-- An iterator before a record of two bytes.
abbrev truncated : ExtensionIterator
unfolding new_iterator
truncated = new_iterator (0 ∷ 2 ∷ [])

next-truncated : next big_endian truncated ≡ (truncated, some (err malformed))
unfolding next new_iterator
next-truncated = refl

next-stuck_example :
    (truncated ≡ truncated) × (next big_endian truncated ≡ (truncated, some (err malformed)))
unfolding new_iterator
next-stuck_example = next-stuck big_endian truncated truncated malformed next-truncated

attempt-decoded_example :
    (packet : List ℕ) × (attempt big_endian default_codec_config request ≡ packet ∷ [])
    × ((decode big_endian default_codec_config packet).1
        ≡ ok (decoded_frame big_endian default_codec_config request request-IsEncodable))
attempt-decoded_example =
    attempt-decoded big_endian default_codec_config request request-IsEncodable (omega arith)
