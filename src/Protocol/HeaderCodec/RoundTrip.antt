-- ===== src/Protocol/HeaderCodec/RoundTrip.antt =====
-- The 48 bytes of a header, and reading them back.
use real_time_data_platform.Base.{
  ℕ, ◌+◌, ◌^◌, ◌≤◌, ◌<◌, ◌≡◌, refl, ap, ◌∙◌, List, [], ◌∷◌, ◌++◌, arith, length, slice, take, drop,
  write_at, concat, total, slice-concat, write_next, get_elem?-concat, length-append, length-concat,
}
use real_time_data_platform.Error.{ok, ◌>>=◌}
use real_time_data_platform.Protocol.Header.{
  FixedHeader, magic_rtdp, rtdp_version_1, message_from_u16, message_as_u16,
}
use real_time_data_platform.Protocol.HeaderCodec.{
  byte_at, write_fields, encode_header, decode_header,
}
use real_time_data_platform.Wire.{Wire, widths}

-- A header whose fields have the widths of the Rust type, of this protocol and version.
pub record IsWellTyped (h : FixedHeader) : Type 0 where
  pub is_rtdp : h.magic ≡ magic_rtdp
  pub is_version_1 : h.version ≡ rtdp_version_1
  pub message : message_from_u16 (message_as_u16 h.message_type) ≡ ok h.message_type
  pub message_small : message_as_u16 h.message_type < 2 ^ 16
  pub header_length_small : h.header_length < 2 ^ 16
  pub stream_id_small : h.stream_id < 2 ^ 64
  pub sequence_small : h.sequence < 2 ^ 64
  pub timestamp_small : h.timestamp_ns < 2 ^ 64
  pub publisher_id_small : h.publisher_id < 2 ^ 64
  pub payload_length_small : h.payload_length < 2 ^ 32
  pub checksum_small : h.checksum < 2 ^ 32

module _ (w : Wire) where
  open w use {write_u16, write_u32, write_u64, read_u16, read_u32, read_u64}

  -- The fields before the checksum, in order.
  abbrev pub leading_chunks : FixedHeader → List (List ℕ)
  leading_chunks h =
      write_u16 h.magic
      ∷ (h.version ∷ [])
      ∷ (h.flags ∷ [])
      ∷ write_u16 (message_as_u16 h.message_type)
      ∷ write_u16 h.header_length
      ∷ write_u64 h.stream_id
      ∷ write_u64 h.sequence
      ∷ write_u64 h.timestamp_ns
      ∷ write_u64 h.publisher_id
      ∷ write_u32 h.payload_length
      ∷ []

  total-leading_chunks : (h : FixedHeader) → total (leading_chunks h) ≡ 44
  total-leading_chunks h = omega widths

  abbrev all_chunks : FixedHeader → List (List ℕ)
  all_chunks h = leading_chunks h ++ write_u32 h.checksum ∷ []

  -- A write of the next field, behind the `n` fields that are there.
  field_written :
      (h : FixedHeader) (n : ℕ) (bs dst buf : List ℕ) (k m : ℕ)
      → k ≡ total (take n (all_chunks h))
      → m ≡ k + length bs
      → buf ≡ concat (take n (all_chunks h)) ++ drop k dst
      → write_at k bs buf ≡ concat (take n (all_chunks h) ++ bs ∷ []) ++ drop m dst
  field_written h n bs dst buf k m = write_next (take n (all_chunks h)) bs dst buf k m

  pub write_fields-concat :
      (h : FixedHeader) (dst : List ℕ)
      → write_fields w h dst ≡ concat (leading_chunks h ++ write_u32 h.checksum ∷ []) ++ drop 48 dst
  unfolding write_fields
  write_fields-concat h dst =
      field_written h 10 (write_u32 h.checksum) dst _ 44 48 (omega widths) (omega widths) (
        field_written h 9 (write_u32 h.payload_length) dst _ 40 44 (omega widths) (omega widths) (
          field_written h 8 (write_u64 h.publisher_id) dst _ 32 40 (omega widths) (omega widths) (
            field_written h 7 (write_u64 h.timestamp_ns) dst _ 24 32 (omega widths) (omega widths) (
              field_written h 6 (write_u64 h.sequence) dst _ 16 24 (omega widths) (omega widths) (
                field_written h 5 (write_u64 h.stream_id) dst _ 8 16 (omega widths) (omega widths) (
                  field_written h 4 (write_u16 h.header_length) dst _ 6 8 (omega widths)
                    (omega widths)
                    (field_written h 3 (write_u16 (message_as_u16 h.message_type)) dst _ 4 6
                      (omega widths) (omega widths)
                      (field_written h 2 (h.flags ∷ []) dst _ 3 4 (omega widths) (omega widths) (
                        field_written h 1 (h.version ∷ []) dst _ 2 3 (omega widths) (omega widths) (
                          field_written h 0 (write_u16 h.magic) dst _ 0 2 (omega widths)
                            (omega widths) refl))))))))))

  -- A packet that begins with the bytes of a header.
  abbrev pub header_packet : FixedHeader → List ℕ → List ℕ
  header_packet h tail = concat (leading_chunks h ++ write_u32 h.checksum ∷ []) ++ tail

  pub length-header_packet :
      (h : FixedHeader) (tail : List ℕ) → length (header_packet h tail) ≡ 48 + length tail
  length-header_packet h tail = omega (
    widths,
    length-append (concat (leading_chunks h ++ write_u32 h.checksum ∷ [])) tail,
    length-concat (leading_chunks h ++ write_u32 h.checksum ∷ []),
  )

  module _ (h : FixedHeader) (tail : List ℕ) where
    pub slice-magic : slice 0 2 (header_packet h tail) ≡ write_u16 h.magic
    slice-magic =
        slice-concat (take 0 (all_chunks h)) (write_u16 h.magic) (drop 1 (all_chunks h)) tail 0 2
          (omega widths) (omega widths)

    pub byte_at-version : byte_at 2 (header_packet h tail) ≡ h.version
    byte_at-version = rw (
      get_elem?-concat (take 1 (all_chunks h)) h.version (drop 2 (all_chunks h)) tail 2
          (omega widths),
      byte_at,
    )

    pub byte_at-flags : byte_at 3 (header_packet h tail) ≡ h.flags
    byte_at-flags = rw (
      get_elem?-concat (take 2 (all_chunks h)) h.flags (drop 3 (all_chunks h)) tail 3
          (omega widths),
      byte_at,
    )

    pub slice-message_type :
        slice 4 6 (header_packet h tail) ≡ write_u16 (message_as_u16 h.message_type)
    slice-message_type =
        slice-concat (take 3 (all_chunks h)) (write_u16 (message_as_u16 h.message_type))
          (drop 4 (all_chunks h)) tail 4 6 (omega widths) (omega widths)

    pub slice-header_length : slice 6 8 (header_packet h tail) ≡ write_u16 h.header_length
    slice-header_length =
        slice-concat (take 4 (all_chunks h)) (write_u16 h.header_length) (drop 5 (all_chunks h))
          tail 6 8 (omega widths) (omega widths)

    pub slice-stream_id : slice 8 16 (header_packet h tail) ≡ write_u64 h.stream_id
    slice-stream_id =
        slice-concat (take 5 (all_chunks h)) (write_u64 h.stream_id) (drop 6 (all_chunks h)) tail 8
          16 (omega widths) (omega widths)

    pub slice-sequence : slice 16 24 (header_packet h tail) ≡ write_u64 h.sequence
    slice-sequence =
        slice-concat (take 6 (all_chunks h)) (write_u64 h.sequence) (drop 7 (all_chunks h)) tail 16
          24 (omega widths) (omega widths)

    pub slice-timestamp_ns : slice 24 32 (header_packet h tail) ≡ write_u64 h.timestamp_ns
    slice-timestamp_ns =
        slice-concat (take 7 (all_chunks h)) (write_u64 h.timestamp_ns) (drop 8 (all_chunks h)) tail
          24 32 (omega widths) (omega widths)

    pub slice-publisher_id : slice 32 40 (header_packet h tail) ≡ write_u64 h.publisher_id
    slice-publisher_id =
        slice-concat (take 8 (all_chunks h)) (write_u64 h.publisher_id) (drop 9 (all_chunks h)) tail
          32 40 (omega widths) (omega widths)

    pub slice-payload_length : slice 40 44 (header_packet h tail) ≡ write_u32 h.payload_length
    slice-payload_length =
        slice-concat (take 9 (all_chunks h)) (write_u32 h.payload_length) (drop 10 (all_chunks h))
          tail 40 44 (omega widths) (omega widths)

    pub slice-checksum : slice 44 48 (header_packet h tail) ≡ write_u32 h.checksum
    slice-checksum =
        slice-concat (take 10 (all_chunks h)) (write_u32 h.checksum) (drop 11 (all_chunks h)) tail
          44 48 (omega widths) (omega widths)

  -- What the reads of `decode_header` give on a packet.
  pub record Reads (src : List ℕ) (h : FixedHeader) : Type 0 where
    pub long : 48 ≤ length src
    pub magic : read_u16 (slice 0 2 src) ≡ h.magic
    pub version : byte_at 2 src ≡ h.version
    pub flags : byte_at 3 src ≡ h.flags
    pub message_type : read_u16 (slice 4 6 src) ≡ message_as_u16 h.message_type
    pub header_length : read_u16 (slice 6 8 src) ≡ h.header_length
    pub stream_id : read_u64 (slice 8 16 src) ≡ h.stream_id
    pub sequence : read_u64 (slice 16 24 src) ≡ h.sequence
    pub timestamp_ns : read_u64 (slice 24 32 src) ≡ h.timestamp_ns
    pub publisher_id : read_u64 (slice 32 40 src) ≡ h.publisher_id
    pub payload_length : read_u32 (slice 40 44 src) ≡ h.payload_length
    pub checksum : read_u32 (slice 44 48 src) ≡ h.checksum

  pub header_packet-Reads :
      (h : FixedHeader) (tail : List ℕ) → IsWellTyped h → Reads (header_packet h tail) h
  header_packet-Reads h tail v = record {
    long = omega (arith, length-header_packet h tail);
    magic = ap read_u16 (slice-magic h tail) ∙ w.read-write_u16 h.magic (omega arith);
    version = byte_at-version h tail;
    flags = byte_at-flags h tail;
    message_type =
        ap read_u16 (slice-message_type h tail)
        ∙ w.read-write_u16 (message_as_u16 h.message_type) v.message_small;
    header_length =
        ap read_u16 (slice-header_length h tail)
        ∙ w.read-write_u16 h.header_length v.header_length_small;
    stream_id =
        ap read_u64 (slice-stream_id h tail) ∙ w.read-write_u64 h.stream_id v.stream_id_small;
    sequence = ap read_u64 (slice-sequence h tail) ∙ w.read-write_u64 h.sequence v.sequence_small;
    timestamp_ns =
        ap read_u64 (slice-timestamp_ns h tail) ∙ w.read-write_u64 h.timestamp_ns v.timestamp_small;
    publisher_id =
        ap read_u64 (slice-publisher_id h tail)
        ∙ w.read-write_u64 h.publisher_id v.publisher_id_small;
    payload_length =
        ap read_u32 (slice-payload_length h tail)
        ∙ w.read-write_u32 h.payload_length v.payload_length_small;
    checksum = ap read_u32 (slice-checksum h tail) ∙ w.read-write_u32 h.checksum v.checksum_small;
  }

  pub decode_header-Reads :
      (src : List ℕ) (h : FixedHeader) → IsWellTyped h → Reads src h → decode_header w src ≡ ok h
  unfolding decode_header
  decode_header-Reads src h v r = ground arith

  pub encode_header-header_packet :
      (h : FixedHeader) (dst : List ℕ)
      → 48 ≤ length dst
      → encode_header w h dst ≡ ok (header_packet h (drop 48 dst))
  encode_header-header_packet h dst long =
      rw (← write_fields-concat h dst) (unfold encode_header in ground arith)

  -- A header of this protocol and version, with values of the widths of its fields, that is
  -- encoded into a buffer of 48 bytes or more is decoded from it.
  pub decode_header-encode_header :
      (h : FixedHeader) (dst : List ℕ)
      → IsWellTyped h
      → 48 ≤ length dst
      → (encode_header w h dst >>= decode_header w) ≡ ok h
  decode_header-encode_header h dst v long = rw (encode_header-header_packet h dst long) (
      decode_header-Reads (header_packet h (drop 48 dst)) h v
        (header_packet-Reads h (drop 48 dst) v))
