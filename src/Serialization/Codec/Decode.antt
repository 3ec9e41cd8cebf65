-- ===== src/Serialization/Codec/Decode.antt =====
-- What `decode` accepts, and what it does to the packet.
use real_time_data_platform.Base.{
  ℕ, ◌+◌, ◌-◌, ◌%◌, ◌≤◌, ◌≡◌, ◌⊎◌, inl, inr, refl, List, [], ◌∷◌, ◌++◌, ltb, arith, length, take,
  drop, slice, write_at, concat, slice-concat, append-nil, append_assoc, Bool-cases,
  take-append-drop, length-take, length-drop, drop-drop, write_at_chunk,
}
use real_time_data_platform.Error.{RtdpError, Result, ok, err}
use real_time_data_platform.Protocol.Header.{magic_rtdp, rtdp_version_1}
use real_time_data_platform.Protocol.HeaderCodec.{byte_at}
use real_time_data_platform.Protocol.Extensions.Scan.{Tlvs, done, scan_extensions-Tlvs}
use real_time_data_platform.Serialization.Codec.{
  FrameCodec, ◌>>◌, check_preamble, check_lengths, check_extensions, validate, decode_checked,
  decode,
}
use real_time_data_platform.Wire.{Wire, widths, AllBytes, take-AllBytes, drop-AllBytes, widths}

pub Result-cases {ℓ} :
    {A : Type ℓ} (r : Result A RtdpError) → ((a : A) × r ≡ ok a) ⊎ ((e : RtdpError) × r ≡ err e)
Result-cases (ok a) = inl (a, refl)
Result-cases (err e) = inr (e, refl)

-- What a chain of steps that succeeds says of its first step, and of the rest.
pub passed {ℓ} :
    {A : Type ℓ} (m : Result (Unit {0}) RtdpError) (k : Result A RtdpError) {a : A}
    → m >> k ≡ ok a
    → (m ≡ ok tt) × (k ≡ ok a)
passed (ok u) k h = (refl, h)
passed (err e) k h = absurd (ground arith)

module _ (w : Wire) where
  open w use {write_u32, read_u16, read_u32, read_u64, crc32c}

  check_extensions-Tlvs :
      (hl : ℕ) (packet : List ℕ)
      → check_extensions w hl packet ≡ ok tt
      → Tlvs w (slice 48 hl packet) 0
  unfolding check_extensions
  check_extensions-Tlvs hl packet h = elim (Bool-cases (ltb 48 hl)) [
    | inl more ↦ (scan_extensions-Tlvs w (slice 48 hl packet)).0 (rw more at h)
    | inr none_left ↦ let z : hl - 48 ≡ 0 = ground arith in rw z (done (omega arith))
  ]

  -- The conditions of RTDP-1, section 5, up to the extensions.
  pub record IsAcceptable (c : FrameCodec) (packet : List ℕ) (hl pl : ℕ) : Type 0 where
    pub long_enough : 48 ≤ length packet
    pub small_enough : length packet ≤ c.max_frame_size
    pub magic : read_u16 (slice 0 2 packet) ≡ magic_rtdp
    pub version : byte_at 2 packet ≡ rtdp_version_1
    pub header_length : read_u16 (slice 6 8 packet) ≡ hl
    pub payload_length : read_u32 (slice 40 44 packet) ≡ pl
    pub header_long : 48 ≤ hl
    pub aligned : hl % 4 ≡ 0
    pub sizes : hl + pl ≡ length packet
    pub extensions : Tlvs w (slice 48 hl packet) 0

  check_preamble_lem :
      (c : FrameCodec) (packet : List ℕ)
      → check_preamble w c packet ≡ ok tt
      → (48 ≤ length packet)
        × (length packet ≤ c.max_frame_size)
        × (read_u16 (slice 0 2 packet) ≡ magic_rtdp)
        × (byte_at 2 packet ≡ rtdp_version_1)
  unfolding check_preamble
  check_preamble_lem c packet h = ground arith

  check_lengths_lem :
      (packet : List ℕ) (hl pl : ℕ)
      → check_lengths w packet hl pl ≡ ok tt
      → (48 ≤ hl) × (hl % 4 ≡ 0) × (hl + pl ≡ length packet)
  unfolding check_lengths
  check_lengths_lem packet hl pl h = ground arith

  pub validate-IsAcceptable :
      (c : FrameCodec) (packet : List ℕ) (hl pl : ℕ)
      → validate w c packet ≡ ok (hl, pl)
      → IsAcceptable c packet hl pl
  unfolding validate
  validate-IsAcceptable c packet hl pl h0 =
      let n = read_u16 (slice 6 8 packet) in
      let m = read_u32 (slice 40 44 packet) in
      let (p, h1) = passed (check_preamble w c packet) _ h0 in
      let (q, h2) = passed (check_lengths w packet n m) _ h1 in
      let (r, h3) = passed (check_extensions w n packet) _ h2 in
      let (n_is, m_is) : (n ≡ hl) × (m ≡ pl) = ground arith in
      let (long, small, magic, version) = check_preamble_lem c packet p in
      let (header_long, aligned, sizes) = check_lengths_lem packet hl pl (rw (n_is, m_is) at q) in
      record {
        long_enough = long;
        small_enough = small;
        magic = magic;
        version = version;
        header_length = n_is;
        payload_length = m_is;
        header_long = header_long;
        aligned = aligned;
        sizes = sizes;
        extensions = check_extensions-Tlvs hl packet (rw n_is at r);
      }

  -- Zeroing the checksum and writing it back leaves the packet as it was.
  restored_chunks :
      (a c t : List ℕ)
      → length a ≡ 44
      → length c ≡ 4
      → AllBytes c
      → (let p = concat ((a ∷ []) ++ (c ∷ [])) ++ t in
          write_at 44 (write_u32 (read_u32 (slice 44 48 p))) (write_at 44 (write_u32 0) p) ≡ p)
  restored_chunks a c t la lc bytes = rw (
    slice-concat (a ∷ []) c [] t 44 48 (omega arith) (omega arith),
    write_at_chunk (a ∷ []) c (write_u32 0) [] t 44 (omega arith) (omega widths),
    write_at_chunk (a ∷ []) (write_u32 0) (write_u32 (read_u32 c)) [] t 44 (omega arith)
        (omega widths),
    w.write-read_u32 c lc bytes,
  )

  split_at_checksum :
      (packet : List ℕ)
      → concat ((take 44 packet ∷ []) ++ (slice 44 48 packet ∷ [])) ++ drop 48 packet ≡ packet
  split_at_checksum packet = rw (
    append-nil (slice 44 48 packet),
    append_assoc (take 44 packet) (slice 44 48 packet) (drop 48 packet),
    ← drop-drop 44 4 48 packet refl,
    take-append-drop 4 (drop 44 packet),
    take-append-drop 44 packet,
  )

  pub restored :
      (packet : List ℕ)
      → AllBytes packet
      → 48 ≤ length packet
      → write_at 44 (write_u32 (read_u32 (slice 44 48 packet))) (write_at 44 (write_u32 0) packet)
        ≡ packet
  restored packet bytes long = rw (split_at_checksum packet) at (
      restored_chunks (take 44 packet) (slice 44 48 packet) (drop 48 packet)
        (omega (arith, length-take 44 packet))
        (omega (arith, length-drop 44 packet, length-take 4 (drop 44 packet)))
        (take-AllBytes 4 (drop 44 packet) (drop-AllBytes 44 packet bytes)))

  decode_checked-restores :
      (c : FrameCodec) (packet : List ℕ) (hl pl : ℕ)
      → AllBytes packet
      → 48 ≤ length packet
      → (decode_checked w c packet (hl, pl)).0 ≡ packet
  unfolding decode_checked
  decode_checked-restores c packet hl pl bytes long = ground (arith, restored packet bytes long)

  -- Whatever decode answers on a packet of bytes, it leaves them as they were, although it zeroes
  -- the checksum field on the way.
  pub decode-restores :
      (c : FrameCodec) (packet : List ℕ) → AllBytes packet → (decode w c packet).0 ≡ packet
  unfolding decode
  decode-restores c packet bytes = elim (Result-cases (validate w c packet)) [
    | inl ((hl, pl), accepted) ↦
        rw (decode, accepted)
          (decode_checked-restores c packet hl pl bytes
            (validate-IsAcceptable c packet hl pl accepted).long_enough)
    | inr (e, refused) ↦ rw (decode, refused) refl
  ]
