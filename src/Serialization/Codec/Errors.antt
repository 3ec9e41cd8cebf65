-- ===== src/Serialization/Codec/Errors.antt =====
-- The errors of `decode` (core/src/serialization/codec.rs) are those of the protocol's registry.
use real_time_data_platform.Base.{
  ℕ, zero, suc, ◌≡◌, inl, inr, refl, Bool, true, false, not, ◌&&◌, List, arith, if◌then◌else◌, ◌==◌,
  ltb, length, take, slice, write_at, some, Option-cases, Bool-cases,
}
use real_time_data_platform.Error.{ErrorCode, RtdpError, Result, ok, err, ◌>>=◌}
use real_time_data_platform.Protocol.Header.{
  MessageType, message_from_u16, magic_rtdp, rtdp_version_1,
}
use real_time_data_platform.Protocol.HeaderCodec.{byte_at, decode_header}
use real_time_data_platform.Protocol.Extensions.{
  ExtensionIterator, is_known_extension, next, scan_extensions,
}
use real_time_data_platform.Serialization.Codec.{
  FrameCodec, check_preamble, check_lengths, check_extensions, validate, check_message,
  decode_validated, decode_checked, decode,
}
use real_time_data_platform.Serialization.Codec.Decode.{Result-cases}
use real_time_data_platform.Wire.{Wire}

-- A result that is not an error without a code.
abbrev pub Coded {ℓ} : {A : Type ℓ} → Result A RtdpError → Type 0
Coded (ok a) = Unit
Coded (err (RtdpError.protocol code)) = Unit
Coded (err e) = ⊥

bind-Coded {ℓ κ} :
    {A : Type ℓ} {B : Type κ} (m : Result A RtdpError) (k : A → Result B RtdpError)
    → Coded m
    → ((a : A) → Coded (k a))
    → Coded (m >>= k)
bind-Coded (ok a) k h hs = hs a
bind-Coded (err e) k h hs = h

if-Coded {ℓ} :
    {A : Type ℓ} (b : Bool) (x y : Result A RtdpError)
    → Coded x
    → Coded y
    → Coded (if b then x else y)
if-Coded true x y h k = h
if-Coded false x y h k = k

message_from_u16-Coded : (n : ℕ) → Coded (message_from_u16 n)
unfolding message_from_u16
message_from_u16-Coded n = ground arith

module _ (w : Wire) where
  open w use {write_u32, read_u16, read_u32, read_u64, crc32c}

  next_malformed :
      (it : ExtensionIterator) (e : RtdpError)
      → (next w it).1 ≡ some (err e)
      → e ≡ RtdpError.protocol ErrorCode.malformed_frame
  unfolding next
  next_malformed it e h = ground arith

  scan_extensions-Coded :
      (rounds : ℕ) (it : ExtensionIterator) → Coded (scan_extensions w rounds it)
  unfolding scan_extensions
  scan_extensions-Coded zero it = tt
  scan_extensions-Coded (suc rounds) it = elim (Option-cases (next w it).1) [
    | inl none_left ↦ rw (scan_extensions, none_left) tt
    | inr (answer, e) ↦ elim (Result-cases answer) [
      | inl (ext, found) ↦
          elim (Bool-cases (ext.is_critical && not (is_known_extension ext.ext_type))) [
            | inl critical ↦ rw (scan_extensions, e, found, critical) tt
            | inr accepted ↦
                rw (scan_extensions, e, found, accepted)
                  (scan_extensions-Coded rounds (next w it).0)
          ]
      | inr (fault, broken) ↦
          let is_malformed = next_malformed it fault (rw broken at e) in
          rw (scan_extensions, e, broken, is_malformed) tt
    ]
  ]

  check_extensions-Coded : (hl : ℕ) (packet : List ℕ) → Coded (check_extensions w hl packet)
  unfolding check_extensions
  check_extensions-Coded hl packet = elim (Bool-cases (ltb 48 hl)) [
    | inl more ↦ rw more (scan_extensions-Coded _ _)
    | inr none_left ↦ rw none_left tt
  ]

  check_preamble-Coded : (c : FrameCodec) (packet : List ℕ) → Coded (check_preamble w c packet)
  unfolding check_preamble
  check_preamble-Coded c packet = ground arith

  check_lengths-Coded : (packet : List ℕ) (hl pl : ℕ) → Coded (check_lengths w packet hl pl)
  unfolding check_lengths
  check_lengths-Coded packet hl pl = ground arith

  validate-Coded : (c : FrameCodec) (packet : List ℕ) → Coded (validate w c packet)
  unfolding validate
  validate-Coded c packet =
      let hl = read_u16 (slice 6 8 packet) in
      let pl = read_u32 (slice 40 44 packet) in
      bind-Coded (check_preamble w c packet) _ (check_preamble-Coded c packet) (λ _.
        bind-Coded (check_lengths w packet hl pl) _ (check_lengths-Coded packet hl pl) (λ _.
          bind-Coded (check_extensions w hl packet) _ (check_extensions-Coded hl packet) (λ _. tt)))

  check_message-Coded :
      (type : MessageType) (hl pl : ℕ) (packet : List ℕ) → Coded (check_message w type hl pl packet)
  unfolding check_message
  check_message-Coded type hl pl packet = ground arith

  decode_header-Coded : (src : List ℕ) → Coded (decode_header w src)
  unfolding decode_header
  decode_header-Coded src = if-Coded (ltb (length src) 48) _ _ tt (
      if-Coded (not (read_u16 (slice 0 2 src) == magic_rtdp)) _ _ tt (
        if-Coded (not (byte_at 2 src == rtdp_version_1)) _ _ tt (
          bind-Coded (message_from_u16 (read_u16 (slice 4 6 src))) _
            (message_from_u16-Coded (read_u16 (slice 4 6 src))) (λ _. tt))))

  decode_validated-Coded : (packet : List ℕ) (hl pl : ℕ) → Coded (decode_validated w packet hl pl)
  unfolding decode_validated
  decode_validated-Coded packet hl pl =
      bind-Coded (decode_header w (take 48 packet)) _ (decode_header-Coded (take 48 packet))
        (λ header.
          bind-Coded (check_message w header.message_type hl pl packet) _
            (check_message-Coded header.message_type hl pl packet) (λ _. tt))

  decode_checked-Coded :
      (c : FrameCodec) (packet : List ℕ) (hl pl : ℕ) → Coded (decode_checked w c packet (hl, pl)).1
  unfolding decode_checked
  decode_checked-Coded c packet hl pl = elim (Bool-cases c.validate_checksum) [
    | inl checked ↦
        let zeroed = write_at 44 (write_u32 0) packet in
        elim (Bool-cases (crc32c zeroed == read_u32 (slice 44 48 packet))) [
          | inl same ↦ rw (checked, same) (decode_validated-Coded _ hl pl)
          | inr other ↦ rw (checked, other) tt
        ]
    | inr unchecked ↦ rw unchecked (decode_validated-Coded packet hl pl)
  ]

  -- Every refusal of decode carries an error code.
  pub decode-Coded : (c : FrameCodec) (packet : List ℕ) → Coded (decode w c packet).1
  unfolding decode
  decode-Coded c packet = elim (Result-cases (validate w c packet)) [
    | inl ((hl, pl), accepted) ↦ rw (decode, accepted) (decode_checked-Coded c packet hl pl)
    | inr (e, refused) ↦ rw (decode, refused) (rw refused at (validate-Coded c packet))
  ]

  -- Every error of decode carries an error code.
  pub decode_code :
      (c : FrameCodec) (packet : List ℕ) (e : RtdpError)
      → (decode w c packet).1 ≡ err e
      → (code : ErrorCode) × (e ≡ RtdpError.protocol code)
  decode_code c packet (RtdpError.protocol code) h = (code, refl)
  decode_code c packet RtdpError.io h = absurd (rw h at (decode-Coded c packet))
  decode_code c packet RtdpError.buffer_exhausted h = absurd (rw h at (decode-Coded c packet))
  decode_code c packet (RtdpError.unrecoverable_gap from to) h =
      absurd (rw h at (decode-Coded c packet))
