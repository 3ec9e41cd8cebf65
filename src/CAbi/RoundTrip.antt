-- ===== src/CAbi/RoundTrip.antt =====
-- Decoding what `rtdp_encode` wrote, by `rtdp_decode` (c-abi/src/lib.rs).
use real_time_data_platform.Base.{
  ℕ, ◌+◌, ◌%◌, ◌^◌, ◌≤◌, ◌<◌, ◌≡◌, refl, ap, some, List, [], arith, length, take, take_all,
}
use real_time_data_platform.Error.{ok}
use real_time_data_platform.Protocol.Header.{
  MessageType, magic_rtdp, rtdp_version_1, message_from_u16,
}
use real_time_data_platform.Protocol.Frame.{OwnedFrame}
use real_time_data_platform.Protocol.Extensions.Scan.{done}
use real_time_data_platform.Serialization.Codec.{FrameCodec, encode}
use real_time_data_platform.Serialization.Codec.HeaderBytes.{message_as_u16-message_from_u16}
use real_time_data_platform.Serialization.Codec.Accepted.{IsMessage}
use real_time_data_platform.Serialization.Codec.RoundTrip.{
  IsEncodable, frame_length, checked_header,
}
use real_time_data_platform.Serialization.Codec.Decoded.{decode-encode}
use real_time_data_platform.CAbi.{
  ℤ, RtdpHeader, DecodeOut, store, c_header, store_view, fixed_header, payload_slice, owned_frame,
  encode_into, rtdp_encode, rtdp_decode,
}
use real_time_data_platform.Wire.{Wire}

-- A header that a C caller may give: this protocol, a known type, and values of their C types.
pub record IsHeader (h : RtdpHeader) (msg_type : MessageType) : Type 0 where
  pub is_rtdp : h.magic ≡ magic_rtdp
  pub is_version_1 : h.version ≡ rtdp_version_1
  pub known : message_from_u16 h.message_type ≡ ok msg_type
  pub message_small : h.message_type < 2 ^ 16
  pub header_length_small : h.header_length < 2 ^ 16
  pub stream_id_small : h.stream_id < 2 ^ 64
  pub sequence_small : h.sequence < 2 ^ 64
  pub timestamp_small : h.timestamp_ns < 2 ^ 64
  pub publisher_id_small : h.publisher_id < 2 ^ 64
  pub checksum_small : h.checksum < 2 ^ 32

module _ (w : Wire) (codec : FrameCodec) (h : RtdpHeader) (type : MessageType)
    (payload : List ℕ) where
  abbrev the_frame : OwnedFrame
  the_frame = owned_frame h type (some payload) (length payload)

  payload_whole : payload_slice (some payload) (length payload) ≡ payload
  unfolding payload_slice
  payload_whole = take_all (length payload) payload (omega arith)

  the_frame-payload : the_frame.payload ≡ payload
  unfolding owned_frame
  the_frame-payload = payload_whole

  the_frame-IsEncodable :
      IsHeader h type
      → IsMessage w type payload
      → length payload < 2 ^ 32
      → 48 + length payload ≤ codec.max_frame_size
      → IsEncodable w codec the_frame
  unfolding owned_frame fixed_header
  the_frame-IsEncodable v rules small fits =
      let as_number = message_as_u16-message_from_u16 h.message_type type v.known in
      record {
        well_typed = record {
          is_rtdp = v.is_rtdp;
          is_version_1 = v.is_version_1;
          message = rw as_number v.known;
          message_small = rw as_number v.message_small;
          header_length_small = v.header_length_small;
          stream_id_small = v.stream_id_small;
          sequence_small = v.sequence_small;
          timestamp_small = v.timestamp_small;
          publisher_id_small = v.publisher_id_small;
          payload_length_small = omega arith;
          checksum_small = v.checksum_small;
        };
        aligned = refl;
        header_small = omega arith;
        payload_small = rw payload_whole small;
        fits = rw payload_whole fits;
        extensions = done (omega arith);
        message = rw payload_whole rules;
      }

  c_header-checked :
      IsHeader h type
      → length payload < 2 ^ 32
      → c_header (checked_header w the_frame) ≡ record h {
        header_length = 48;
        payload_length = length payload;
        checksum = (checked_header w the_frame).checksum;
      }
  unfolding c_header owned_frame fixed_header
  c_header-checked v small =
      let as_number = message_as_u16-message_from_u16 h.message_type type v.known in
      let whole : length (payload_slice (some payload) (length payload)) % 2 ^ 32 ≡ length payload =
        rw payload_whole (omega arith) in
      rw (as_number, whole) refl

  stored :
      (out : DecodeOut)
      → IsHeader h type
      → length payload < 2 ^ 32
      → store_view out (record {
        header = checked_header w the_frame;
        extension_bytes = [];
        payload = the_frame.payload;
      })
        ≡ record {
          out_header = store out.out_header (record h {
            header_length = 48;
            payload_length = length payload;
            checksum = (checked_header w the_frame).checksum;
          });
          out_payload = store out.out_payload payload;
          out_payload_len = store out.out_payload_len (length payload);
        }
  unfolding store_view
  stored out v small = rw (store_view, c_header-checked v small, the_frame-payload) refl

  -- A frame that a C program gives to rtdp_encode, with a header of this protocol, a known type,
  -- values of their C types, and a payload that follows the rules of the type and fits, is written
  -- with the return value 0 and its length; and rtdp_decode on the written bytes returns 0 and
  -- gives, through the pointers that are not NULL, the header with the lengths and the checksum
  -- filled in, the payload and its length.
  pub rtdp_decode-rtdp_encode :
      (buf : List ℕ) (len : ℕ) (out : DecodeOut)
      → IsHeader h type
      → IsMessage w type payload
      → length payload < 2 ^ 32
      → 48 + length payload ≤ codec.max_frame_size
      → 48 + length payload ≤ length buf
      → (written : List ℕ) × (sum : ℕ) × (rtdp_encode w
            (some codec)
            (some h)
            (some payload)
            (length payload)
            (some buf)
            (some len)
          ≡ (some written, some (48 + length payload), ℤ.pos 0))
        × ((rtdp_decode w (some codec) (some (take (48 + length payload) written)) out).1 ≡ record {
          out_header =
              store out.out_header
                (record h { header_length = 48; payload_length = length payload; checksum = sum });
          out_payload = store out.out_payload payload;
          out_payload_len = store out.out_payload_len (length payload);
        })
        × ((rtdp_decode w (some codec) (some (take (48 + length payload) written)) out).2 ≡ ℤ.pos 0)
  unfolding rtdp_encode encode_into rtdp_decode
  rtdp_decode-rtdp_encode buf len out v rules small fits room =
      let e = the_frame-IsEncodable v rules small fits in
      let n : frame_length w the_frame ≡ 48 + length payload =
        ap (λ bytes. 48 + length bytes) the_frame-payload in
      let (answer, decoded) = decode-encode w codec the_frame e buf (rw n room) in
      let written = (encode w codec the_frame buf).0 in
      let sum = (checked_header w the_frame).checksum in
      let decoded' = rw n at decoded in
      let answer' : (encode w codec the_frame buf).1 ≡ ok (48 + length payload) = rw n at answer in
      (
        written,
        sum,
        rw (rtdp_encode, encode_into, v.known, answer') refl,
        rw (rtdp_decode, decoded') (stored out v small),
        rw (rtdp_decode, decoded') refl,
      )
