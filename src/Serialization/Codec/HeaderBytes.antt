-- ===== src/Serialization/Codec/HeaderBytes.antt =====
-- The 48 bytes of a header that `decode_header` accepts (core/src/protocol/header.rs).
use real_time_data_platform.Base.{
  ℕ, zero, suc, ◌+◌, ◌-◌, ◌≤◌, ◌<◌, ◌≡◌, refl, sym, ap, ◌∙◌, List, [], ◌∷◌, ◌++◌, arith, length,
  take, drop, slice, take-append-drop, drop-drop, drop_all, length-take, length-drop,
}
use real_time_data_platform.Error.{ok}
use real_time_data_platform.Protocol.Header.{
  FixedHeader, MessageType, magic_rtdp, rtdp_version_1, message_from_u16, message_as_u16,
}
use real_time_data_platform.Protocol.HeaderCodec.{byte_at, decode_header}
use real_time_data_platform.Protocol.HeaderCodec.RoundTrip.{IsWellTyped}
use real_time_data_platform.Serialization.Codec.RoundTrip.{header_bytes}
use real_time_data_platform.Wire.{Wire, AllBytes, take-AllBytes, drop-AllBytes}

pub message_as_u16-message_from_u16 :
    (n : ℕ) (type : MessageType) → message_from_u16 n ≡ ok type → message_as_u16 type ≡ n
unfolding message_from_u16 message_as_u16
message_as_u16-message_from_u16 n type h = ground arith

slice-AllBytes : (a b : ℕ) (bs : List ℕ) → AllBytes bs → AllBytes (slice a b bs)
slice-AllBytes a b bs h = take-AllBytes (b - a) (drop a bs) (drop-AllBytes a bs h)

length-slice : (a b : ℕ) (bs : List ℕ) → a ≤ b → b ≤ length bs → length (slice a b bs) ≡ b - a
length-slice a b bs h k = omega (arith, length-take (b - a) (drop a bs), length-drop a bs)

-- A slice and what follows it.
slice_next : (a b : ℕ) (bs : List ℕ) → a ≤ b → slice a b bs ++ drop b bs ≡ drop a bs
slice_next a b bs h =
    rw (← drop-drop a (b - a) b bs (omega arith)) (take-append-drop (b - a) (drop a bs))

take-drop_one : (i : ℕ) (bs : List ℕ) → i < length bs → take 1 (drop i bs) ≡ byte_at i bs ∷ []
take-drop_one i [] h = absurd (omega arith)
take-drop_one zero (b ∷ bs) h = refl
take-drop_one (suc i) (b ∷ bs) h = take-drop_one i bs (omega arith)

byte_slice : (i : ℕ) (bs : List ℕ) → i < length bs → slice i (i + 1) bs ≡ byte_at i bs ∷ []
byte_slice i bs h = let one : i + 1 - i ≡ 1 = omega arith in rw one (take-drop_one i bs h)

take-take : (k n : ℕ) (bs : List ℕ) → k ≤ n → take k (take n bs) ≡ take k bs
take-take zero n bs h = refl
take-take (suc k) zero bs h = absurd (omega arith)
take-take (suc k) (suc n) [] h = refl
take-take (suc k) (suc n) (b ∷ bs) h = ap (λ t. b ∷ t) (take-take k n bs (omega arith))

take-drop-take :
    (k a n : ℕ) (bs : List ℕ) → a + k ≤ n → take k (drop a (take n bs)) ≡ take k (drop a bs)
take-drop-take k zero n bs h = take-take k n bs (omega arith)
take-drop-take k (suc a) zero bs h = absurd (omega arith)
take-drop-take k (suc a) (suc n) [] h = refl
take-drop-take k (suc a) (suc n) (b ∷ bs) h = take-drop-take k a n bs (omega arith)

pub slice-take : (a b n : ℕ) (bs : List ℕ) → a ≤ b → b ≤ n → slice a b (take n bs) ≡ slice a b bs
slice-take a b n bs h k = take-drop-take (b - a) a n bs (omega arith)

-- What the fields of a decoded header are.
pub record IsRead (w : Wire) (src : List ℕ) (h : FixedHeader) : Type 0 where
  pub magic : h.magic ≡ w.read_u16 (slice 0 2 src)
  pub is_rtdp : h.magic ≡ magic_rtdp
  pub version : h.version ≡ byte_at 2 src
  pub is_version_1 : h.version ≡ rtdp_version_1
  pub flags : h.flags ≡ byte_at 3 src
  pub message : message_from_u16 (w.read_u16 (slice 4 6 src)) ≡ ok h.message_type
  pub header_length : h.header_length ≡ w.read_u16 (slice 6 8 src)
  pub stream_id : h.stream_id ≡ w.read_u64 (slice 8 16 src)
  pub sequence : h.sequence ≡ w.read_u64 (slice 16 24 src)
  pub timestamp_ns : h.timestamp_ns ≡ w.read_u64 (slice 24 32 src)
  pub publisher_id : h.publisher_id ≡ w.read_u64 (slice 32 40 src)
  pub payload_length : h.payload_length ≡ w.read_u32 (slice 40 44 src)
  pub checksum : h.checksum ≡ w.read_u32 (slice 44 48 src)

pub decode_header-IsRead :
    (w : Wire) (src : List ℕ) (h : FixedHeader) → decode_header w src ≡ ok h → IsRead w src h
unfolding decode_header
decode_header-IsRead w src h e = ground arith

module _ (w : Wire) where
  open w use {write_u16, write_u32, write_u64, read_u16, read_u32, read_u64, crc32c}

  module _ (src : List ℕ) (bytes : AllBytes src) (exact : length src ≡ 48) where
    u16_slice :
        (a b : ℕ) → b ≡ a + 2 → b ≤ 48 → write_u16 (read_u16 (slice a b src)) ≡ slice a b src
    u16_slice a b e h =
        w.write-read_u16 (slice a b src)
          (length-slice a b src (omega arith) (omega arith) ∙ omega arith)
          (slice-AllBytes a b src bytes)

    u32_slice :
        (a b : ℕ) → b ≡ a + 4 → b ≤ 48 → write_u32 (read_u32 (slice a b src)) ≡ slice a b src
    u32_slice a b e h =
        w.write-read_u32 (slice a b src)
          (length-slice a b src (omega arith) (omega arith) ∙ omega arith)
          (slice-AllBytes a b src bytes)

    u64_slice :
        (a b : ℕ) → b ≡ a + 8 → b ≤ 48 → write_u64 (read_u64 (slice a b src)) ≡ slice a b src
    u64_slice a b e h =
        w.write-read_u64 (slice a b src)
          (length-slice a b src (omega arith) (omega arith) ∙ omega arith)
          (slice-AllBytes a b src bytes)

    -- One field and the fields that follow it.
    field :
        (a b : ℕ) (chunk rest : List ℕ)
        → a ≤ b
        → chunk ≡ slice a b src
        → rest ≡ drop b src
        → chunk ++ rest ≡ drop a src
    field a b chunk rest h e e' = rw (e, e') (slice_next a b src h)

    -- The header that was read is written as it was.
    pub header_bytes-IsRead : (h : FixedHeader) → IsRead w src h → header_bytes w h ≡ src
    header_bytes-IsRead h r =
        let number =
          message_as_u16-message_from_u16 (read_u16 (slice 4 6 src)) h.message_type r.message in
        field 0 2 _ _ (omega arith) (ap write_u16 r.magic ∙ u16_slice 0 2 refl (omega arith)) (
          field 2 3 _ _ (omega arith)
            (ap (λ b. b ∷ []) r.version ∙ sym (byte_slice 2 src (omega arith)))
            (field 3 4 _ _ (omega arith)
              (ap (λ b. b ∷ []) r.flags ∙ sym (byte_slice 3 src (omega arith)))
              (field 4 6 _ _ (omega arith) (ap write_u16 number ∙ u16_slice 4 6 refl (omega arith))
                (field 6 8 _ _ (omega arith)
                  (ap write_u16 r.header_length ∙ u16_slice 6 8 refl (omega arith))
                  (field 8 16 _ _ (omega arith)
                    (ap write_u64 r.stream_id ∙ u64_slice 8 16 refl (omega arith))
                    (field 16 24 _ _ (omega arith)
                      (ap write_u64 r.sequence ∙ u64_slice 16 24 refl (omega arith))
                      (field 24 32 _ _ (omega arith)
                        (ap write_u64 r.timestamp_ns ∙ u64_slice 24 32 refl (omega arith))
                        (field 32 40 _ _ (omega arith)
                          (ap write_u64 r.publisher_id ∙ u64_slice 32 40 refl (omega arith))
                          (field 40 44 _ _ (omega arith)
                            (ap write_u32 r.payload_length ∙ u32_slice 40 44 refl (omega arith))
                            (field 44 48 _ _ (omega arith)
                              (ap write_u32 r.checksum ∙ u32_slice 44 48 refl (omega arith))
                              (sym (drop_all 48 src (omega arith)))))))))))))

  -- A header that is decoded has the magic and the version of the protocol, a type that comes back
  -- from its number, and values of the widths of its fields.
  pub decoded-IsWellTyped :
      (src : List ℕ) (h : FixedHeader) → decode_header w src ≡ ok h → IsWellTyped h
  decoded-IsWellTyped src h e =
      let r = decode_header-IsRead w src h e in
      let number =
        message_as_u16-message_from_u16 (read_u16 (slice 4 6 src)) h.message_type r.message in
      record {
        is_rtdp = r.is_rtdp;
        is_version_1 = r.is_version_1;
        message = rw number r.message;
        message_small = rw number (w.read_u16-lt (slice 4 6 src));
        header_length_small = rw r.header_length (w.read_u16-lt (slice 6 8 src));
        stream_id_small = rw r.stream_id (w.read_u64-lt (slice 8 16 src));
        sequence_small = rw r.sequence (w.read_u64-lt (slice 16 24 src));
        timestamp_small = rw r.timestamp_ns (w.read_u64-lt (slice 24 32 src));
        publisher_id_small = rw r.publisher_id (w.read_u64-lt (slice 32 40 src));
        payload_length_small = rw r.payload_length (w.read_u32-lt (slice 40 44 src));
        checksum_small = rw r.checksum (w.read_u32-lt (slice 44 48 src));
      }
