-- ===== src/CAbi.antt =====
-- c-abi/src/lib.rs: the functions for C. A pointer is an option, `none` for NULL; what a caller
-- may read or write through it stands under `some`, a buffer as the list of its bytes. The result is
-- the memory as it is left and the return value. `rtdp_codec_create` and `rtdp_codec_destroy` are
-- the allocation of a codec.
pub mod Codes
pub mod RoundTrip
use real_time_data_platform.Base.{
  ℕ, zero, suc, ◌%◌, ◌^◌, Bool, Option, none, some, List, [], length, take,
}
use real_time_data_platform.Error.{ErrorCode, RtdpError, Result, ok, err, error_code, error_as_u16}
use real_time_data_platform.Protocol.Header.{
  FixedHeader, MessageType, message_from_u16, message_as_u16,
}
use real_time_data_platform.Protocol.Frame.{FrameView, OwnedFrame}
use real_time_data_platform.Serialization.Codec.{FrameCodec, decode, encode}
use real_time_data_platform.Wire.{Wire}

-- Signed integers over the native numbers; `negsuc n` is -(n + 1).
pub data ℤ : Type 0 where
  pos : ℕ → ℤ
  negsuc : ℕ → ℤ

abbrev pub neg : ℕ → ℤ
neg zero = pos 0
neg (suc n) = negsuc n

pub record RtdpHeader : Type 0 where
  pub magic : ℕ
  pub version : ℕ
  pub flags : ℕ
  pub message_type : ℕ
  pub header_length : ℕ
  pub stream_id : ℕ
  pub sequence : ℕ
  pub timestamp_ns : ℕ
  pub publisher_id : ℕ
  pub payload_length : ℕ
  pub checksum : ℕ

unfoldable pub rtdp_codec_create : ℕ → Bool → FrameCodec
rtdp_codec_create max_frame_size validate_checksum = record {
  max_frame_size = max_frame_size;
  validate_checksum = validate_checksum;
}

-- `-(code.as_u16() as i32)`, or `default` for an error without a code.
unfoldable pub error_result : ℕ → RtdpError → ℤ
error_result default e = elim (error_code e) [
  | some code ↦ neg (error_as_u16 code)
  | none ↦ neg default
]

-- The pointees of the results of `rtdp_decode`; `out_payload` points at the payload's bytes.
pub record DecodeOut : Type 0 where
  pub out_header : Option RtdpHeader
  pub out_payload : Option (List ℕ)
  pub out_payload_len : Option ℕ

-- `if !p.is_null() { *p = v }`
abbrev pub store {ℓ} : {A : Type ℓ} → Option A → A → Option A
store none v = none
store (some old) v = some v

unfoldable pub c_header : FixedHeader → RtdpHeader
c_header h = record {
  magic = h.magic;
  version = h.version;
  flags = h.flags;
  message_type = message_as_u16 h.message_type;
  header_length = h.header_length;
  stream_id = h.stream_id;
  sequence = h.sequence;
  timestamp_ns = h.timestamp_ns;
  publisher_id = h.publisher_id;
  payload_length = h.payload_length;
  checksum = h.checksum;
}

unfoldable pub store_view : DecodeOut → FrameView → DecodeOut
unfolding c_header
store_view out view = record {
  out_header = store out.out_header (c_header view.header);
  out_payload = store out.out_payload view.payload;
  out_payload_len = store out.out_payload_len (length view.payload);
}

-- `fixed_h`
unfoldable pub fixed_header : RtdpHeader → MessageType → ℕ → FixedHeader
fixed_header h msg_type payload_len = record {
  magic = h.magic;
  version = h.version;
  flags = h.flags;
  message_type = msg_type;
  header_length = h.header_length;
  stream_id = h.stream_id;
  sequence = h.sequence;
  timestamp_ns = h.timestamp_ns;
  publisher_id = h.publisher_id;
  payload_length = payload_len % 2 ^ 32;
  checksum = h.checksum;
}

-- `payload_slice`; the empty slice is the one of length 0, too.
unfoldable pub payload_slice : Option (List ℕ) → ℕ → List ℕ
payload_slice none payload_len = []
payload_slice (some bytes) payload_len = take payload_len bytes

-- `owned_frame`
unfoldable pub owned_frame : RtdpHeader → MessageType → Option (List ℕ) → ℕ → OwnedFrame
unfolding fixed_header payload_slice
owned_frame h msg_type payload payload_len = record {
  header = fixed_header h msg_type payload_len;
  extension_bytes = [];
  payload = payload_slice payload payload_len;
}

module _ (w : Wire) where
  unfoldable pub rtdp_decode :
      Option FrameCodec → Option (List ℕ) → DecodeOut → Option (List ℕ) × DecodeOut × ℤ
  unfolding store_view error_result
  rtdp_decode none buf out = (buf, out, neg 0x0002)
  rtdp_decode (some codec) none out = (none, out, neg 0x0002)
  rtdp_decode (some codec) (some buf) out =
      let (buf', answer) = decode w codec buf in
      elim answer [
        | ok view ↦ (some buf', store_view out view, pos 0)
        | err e ↦ (some buf', out, error_result 0x0002 e)
      ]

  -- What follows the tests for NULL.
  unfoldable pub encode_into :
      FrameCodec → RtdpHeader → Option (List ℕ) → ℕ → List ℕ → ℕ → List ℕ × ℕ × ℤ
  unfolding error_result owned_frame
  encode_into codec h payload payload_len buf len = elim (message_from_u16 h.message_type) [
    | err e ↦ (buf, len, error_result 0x0004 e)
    | ok msg_type ↦
        let (buf', answer) = encode w codec (owned_frame h msg_type payload payload_len) buf in
        elim answer [ ok len' ↦ (buf', len', pos 0) | err e ↦ (buf', len, error_result 0x0002 e) ]
  ]

  unfoldable pub rtdp_encode :
      Option FrameCodec
      → Option RtdpHeader
      → Option (List ℕ)
      → ℕ
      → Option (List ℕ)
      → Option ℕ
      → Option (List ℕ) × Option ℕ × ℤ
  unfolding encode_into
  rtdp_encode (some codec) (some h) payload payload_len (some buf) (some len) =
      let (buf', len', code) = encode_into codec h payload payload_len buf len in
      (some buf', some len', code)
  rtdp_encode _ _ payload payload_len buf len = (buf, len, neg 0x0002)
