-- ===== src/Serialization/Codec/Accepted.antt =====
-- What a frame that `decode` accepts is made of.
use real_time_data_platform.Base.{
  ℕ, ◌+◌, ◌-◌, ◌≤◌, ◌≡◌, inl, inr, refl, sym, ap, true, List, [], ◌∷◌, ◌++◌, arith, length, take,
  drop, slice, write_at, take-append-drop, length-take, length-drop, drop-drop,
}
use real_time_data_platform.Error.{RtdpError, Result, ok, err, ◌>>=◌}
use real_time_data_platform.Protocol.Header.{MessageType}
use real_time_data_platform.Protocol.Frame.{FrameView}
use real_time_data_platform.Protocol.HeaderCodec.{decode_header}
use real_time_data_platform.Serialization.Codec.{
  FrameCodec, validate, check_message, decode_validated, decode_checked, decode,
}
use real_time_data_platform.Serialization.Codec.Decode.{
  Result-cases, passed, IsAcceptable, validate-IsAcceptable, restored,
}
use real_time_data_platform.Wire.{Wire, AllBytes}

-- What a chain of steps that succeeds says of its first step, and of the rest.
pub passed_value {ℓ κ} :
    {A : Type ℓ} {B : Type κ} (m : Result A RtdpError) (k : A → Result B RtdpError) {b : B}
    → m >>= k ≡ ok b
    → (a : A) × (m ≡ ok a) × (k a ≡ ok b)
passed_value (ok a) k h = (a, refl, h)
passed_value (err e) k h = absurd (ground arith)

module _ (w : Wire) where
  open w use {write_u32, read_u32, read_u64, crc32c}

  -- The rules of RTDP-1 on the payloads of control messages.
  abbrev pub IsMessage : MessageType → List ℕ → Type 0
  IsMessage MessageType.heartbeat payload = payload ≡ []
  IsMessage MessageType.replay_request payload =
      (length payload ≡ 24) × (read_u64 (slice 8 16 payload) ≤ read_u64 (slice 16 24 payload))
  IsMessage MessageType.replay_unavailable payload = length payload ≡ 24
  IsMessage MessageType.replay_response payload = 8 ≤ length payload
  IsMessage _ payload = Unit

  pub record IsDecoded (c : FrameCodec) (packet : List ℕ) (view : FrameView) : Type 0 where
    pub acceptable :
        IsAcceptable w c packet (48 + length view.extension_bytes) (length view.payload)
    pub header : decode_header w (take 48 packet) ≡ ok view.header
    pub parts : take 48 packet ++ (view.extension_bytes ++ view.payload) ≡ packet
    pub message : IsMessage view.header.message_type view.payload
    pub checksum :
        c.validate_checksum ≡ true
        → crc32c (write_at 44 (write_u32 0) packet) ≡ read_u32 (slice 44 48 packet)

  pub payload_slice :
      (hl a b : ℕ) (packet : List ℕ) → slice (hl + a) (hl + b) packet ≡ slice a b (drop hl packet)
  payload_slice hl a b packet =
      rw (drop-drop hl a (hl + a) packet refl)
        (ap (λ n. take n (drop (hl + a) packet)) (omega arith))

  nothing_left : (xs : List ℕ) → length xs ≡ 0 → xs ≡ []
  nothing_left [] h = refl
  nothing_left (x ∷ xs) h = absurd (omega arith)

  check_message-IsMessage :
      (type : MessageType) (hl pl : ℕ) (packet : List ℕ)
      → pl ≡ length (drop hl packet)
      → check_message w type hl pl packet ≡ ok tt
      → IsMessage type (drop hl packet)
  unfolding check_message
  check_message-IsMessage MessageType.heartbeat hl pl packet e h =
      nothing_left (drop hl packet) (ground arith)
  check_message-IsMessage MessageType.replay_request hl pl packet e h =
      rw (← payload_slice hl 8 16 packet, ← payload_slice hl 16 24 packet) (ground arith)
  check_message-IsMessage MessageType.replay_unavailable hl pl packet e h = ground arith
  check_message-IsMessage MessageType.replay_response hl pl packet e h = ground arith
  check_message-IsMessage MessageType.data_message hl pl packet e h = tt
  check_message-IsMessage MessageType.snapshot_request hl pl packet e h = tt
  check_message-IsMessage MessageType.snapshot_response hl pl packet e h = tt
  check_message-IsMessage MessageType.error_message hl pl packet e h = tt
  check_message-IsMessage (MessageType.experimental v) hl pl packet e h = tt

  decode_checked_lem :
      (c : FrameCodec) (packet : List ℕ) (hl pl : ℕ) (view : FrameView)
      → AllBytes packet
      → 48 ≤ length packet
      → (decode_checked w c packet (hl, pl)).1 ≡ ok view
      → (c.validate_checksum ≡ true
          → crc32c (write_at 44 (write_u32 0) packet) ≡ read_u32 (slice 44 48 packet))
        × (decode_validated w packet hl pl ≡ ok view)
  unfolding decode_checked
  decode_checked_lem c packet hl pl view bytes long h = ground (arith, restored w packet bytes long)

  decode_validated_lem :
      (packet : List ℕ) (hl pl : ℕ) (view : FrameView)
      → decode_validated w packet hl pl ≡ ok view
      → (decode_header w (take 48 packet) ≡ ok view.header)
        × (check_message w view.header.message_type hl pl packet ≡ ok tt)
        × (view.extension_bytes ≡ slice 48 hl packet)
        × (view.payload ≡ drop hl packet)
  unfolding decode_validated
  decode_validated_lem packet hl pl view h =
      let (header, read, h1) = passed_value (decode_header w (take 48 packet)) _ h in
      let (rules, h2) = passed (check_message w header.message_type hl pl packet) _ h1 in
      ground arith

  length_extensions :
      (hl pl : ℕ) (packet : List ℕ)
      → 48 ≤ hl
      → hl + pl ≡ length packet
      → (48 + length (slice 48 hl packet) ≡ hl) × (length (drop hl packet) ≡ pl)
  length_extensions hl pl packet long sizes =
      omega (
        arith,
        length-drop hl packet,
        length-drop 48 packet,
        length-take (hl - 48) (drop 48 packet),
      )

  packet_parts :
      (hl : ℕ) (packet : List ℕ)
      → 48 ≤ hl
      → take 48 packet ++ (slice 48 hl packet ++ drop hl packet) ≡ packet
  packet_parts hl packet long = rw (
    ← drop-drop 48 (hl - 48) hl packet (omega arith),
    take-append-drop (hl - 48) (drop 48 packet),
    take-append-drop 48 packet,
  )

  -- A packet of bytes that decode accepts passes each test of decode: its magic and version are
  -- those of the protocol, its length is the sum of the lengths in its header and within the
  -- configured maximum, the header length is at least 48, a multiple of four and within the
  -- packet, the message type is known, the extensions are well formed, the checksum fits when it
  -- is to be tested, and the payload follows the rule that decode has for its message type. The
  -- view is the decoded header and the extensions and payload that make up the packet with it.
  -- Flags, and the sequence of a DATA frame, are not tested.
  pub decode-IsDecoded :
      (c : FrameCodec) (packet : List ℕ) (view : FrameView)
      → AllBytes packet
      → (decode w c packet).1 ≡ ok view
      → IsDecoded c packet view
  unfolding decode
  decode-IsDecoded c packet view bytes h = elim (Result-cases (validate w c packet)) [
    | inl ((hl, pl), accepted) ↦
        let v = validate-IsAcceptable w c packet hl pl accepted in
        let (checksum, decoded) =
          decode_checked_lem c packet hl pl view bytes v.long_enough (rw (decode, accepted) at h) in
        let (header, rules, ext, payload) = decode_validated_lem packet hl pl view decoded in
        let (ext_long, payload_long) = length_extensions hl pl packet v.header_long v.sizes in
        record {
          acceptable =
              rw (ext, payload, ext_long, payload_long)
                (validate-IsAcceptable w c packet hl pl accepted);
          header = header;
          parts = rw (ext, payload) (packet_parts hl packet v.header_long);
          message = rw payload (
              check_message-IsMessage view.header.message_type hl pl packet (sym payload_long)
                rules);
          checksum = checksum;
        }
    | inr (e, refused) ↦ let refusal = rw (decode, refused) at h in absurd (ground arith)
  ]
