-- ===== src/Recovery/Payloads.antt =====
-- core/src/recovery/engine.rs: the payloads of the replay messages on the wire.
use real_time_data_platform.Base.{
  ℕ, ◌^◌, ◌≤◌, ◌<◌, ◌≡◌, refl, List, [], ◌∷◌, ◌++◌, arith, if◌then◌else◌, ltb, length, drop, slice,
  write_at, concat, slice-concat, write_next, length-append, length-drop, length-concat,
}
use real_time_data_platform.Error.{ErrorCode, RtdpError, Result, ok, err, malformed, ◌>>=◌}
use real_time_data_platform.Recovery.Data.{ReplayRequestPayload, ReplayUnavailablePayload}
use real_time_data_platform.Wire.{Wire, widths}

module _ (w : Wire) where
  open w use {write_u64, read_u64}

  -- Three numbers in a row, as both payloads have them.
  unfoldable pub write_three : ℕ → ℕ → ℕ → List ℕ → List ℕ
  write_three a b c dst =
      let dst = write_at 0 (write_u64 a) dst in
      let dst = write_at 8 (write_u64 b) dst in write_at 16 (write_u64 c) dst

  -- The buffer as it is left.
  unfoldable pub encode_request : ReplayRequestPayload → List ℕ → Result (List ℕ) RtdpError
  encode_request p dst =
      if ltb (length dst) 24
      then err malformed
      else ok (write_three p.request_id p.from_sequence p.to_sequence dst)

  unfoldable pub decode_request : List ℕ → Result ReplayRequestPayload RtdpError
  decode_request src =
      let from_sequence = read_u64 (slice 8 16 src) in
      let to_sequence = read_u64 (slice 16 24 src) in
      if ltb (length src) 24
      then err malformed
      else if ltb to_sequence from_sequence
      then err (RtdpError.protocol ErrorCode.replay_range_invalid)
      else ok (record {
        request_id = read_u64 (slice 0 8 src);
        from_sequence = from_sequence;
        to_sequence = to_sequence;
      })

  unfoldable pub encode_unavailable : ReplayUnavailablePayload → List ℕ → Result (List ℕ) RtdpError
  encode_unavailable p dst =
      if ltb (length dst) 24
      then err malformed
      else ok (write_three p.request_id p.first_unavailable p.last_unavailable dst)

  unfoldable pub decode_unavailable : List ℕ → Result ReplayUnavailablePayload RtdpError
  decode_unavailable src =
      if ltb (length src) 24
      then err malformed
      else ok (record {
        request_id = read_u64 (slice 0 8 src);
        first_unavailable = read_u64 (slice 8 16 src);
        last_unavailable = read_u64 (slice 16 24 src);
      })

  module _ (a b c : ℕ) (dst : List ℕ) where
    abbrev pub chunks : List (List ℕ)
    chunks = write_u64 a ∷ write_u64 b ∷ write_u64 c ∷ []

    pub write_three-concat : write_three a b c dst ≡ concat chunks ++ drop 24 dst
    unfolding write_three
    write_three-concat =
        write_next (write_u64 a ∷ write_u64 b ∷ []) (write_u64 c) dst _ 16 24 (omega widths)
          (omega widths)
          (write_next (write_u64 a ∷ []) (write_u64 b) dst _ 8 16 (omega widths) (omega widths)
            (write_next [] (write_u64 a) dst _ 0 8 (omega widths) (omega widths) refl))

    pub length-write_three : 24 ≤ length (write_three a b c dst)
    length-write_three =
        rw write_three-concat
          (omega (widths, length-append (concat chunks) (drop 24 dst), length-concat chunks))

    -- A buffer of 24 bytes is filled.
    pub length-write_three_exact : length dst ≡ 24 → length (write_three a b c dst) ≡ 24
    length-write_three_exact h = rw write_three-concat (
        omega (
          widths,
          length-append (concat chunks) (drop 24 dst),
          length-concat chunks,
          length-drop 24 dst,
        ))

    pub read_first : a < 2 ^ 64 → read_u64 (slice 0 8 (write_three a b c dst)) ≡ a
    read_first h =
        rw
          (
            write_three-concat,
            slice-concat [] (write_u64 a) (write_u64 b ∷ write_u64 c ∷ []) (drop 24 dst) 0 8
                (omega widths) (omega widths),
          )
          (w.read-write_u64 a h)

    pub read_second : b < 2 ^ 64 → read_u64 (slice 8 16 (write_three a b c dst)) ≡ b
    read_second h =
        rw
          (
            write_three-concat,
            slice-concat (write_u64 a ∷ []) (write_u64 b) (write_u64 c ∷ []) (drop 24 dst) 8 16
                (omega widths) (omega widths),
          )
          (w.read-write_u64 b h)

    pub read_third : c < 2 ^ 64 → read_u64 (slice 16 24 (write_three a b c dst)) ≡ c
    read_third h =
        rw
          (
            write_three-concat,
            slice-concat (write_u64 a ∷ write_u64 b ∷ []) (write_u64 c) [] (drop 24 dst) 16 24
                (omega widths) (omega widths),
          )
          (w.read-write_u64 c h)

  -- A replay request with values of 64 bits, encoded into a buffer of 24 bytes or more, is decoded
  -- from it when its range is in order, and refused as REPLAY_RANGE_INVALID when it is reversed.
  pub decode_request-encode_request :
      (p : ReplayRequestPayload) (dst : List ℕ)
      → p.request_id < 2 ^ 64
      → p.from_sequence < 2 ^ 64
      → p.to_sequence < 2 ^ 64
      → 24 ≤ length dst
      → (encode_request p dst >>= decode_request) ≡ (
          if ltb p.to_sequence p.from_sequence
          then err (RtdpError.protocol ErrorCode.replay_range_invalid)
          else ok p)
  unfolding encode_request decode_request
  decode_request-encode_request p dst hi hf ht long =
      let written = length-write_three p.request_id p.from_sequence p.to_sequence dst in
      let id_read = read_first p.request_id p.from_sequence p.to_sequence dst hi in
      let from_read = read_second p.request_id p.from_sequence p.to_sequence dst hf in
      let to_read = read_third p.request_id p.from_sequence p.to_sequence dst ht in ground arith

  -- An unavailable range with values of 64 bits, encoded into a buffer of 24 bytes or more, is
  -- decoded from it.
  pub decode_unavailable-encode_unavailable :
      (p : ReplayUnavailablePayload) (dst : List ℕ)
      → p.request_id < 2 ^ 64
      → p.first_unavailable < 2 ^ 64
      → p.last_unavailable < 2 ^ 64
      → 24 ≤ length dst
      → (encode_unavailable p dst >>= decode_unavailable) ≡ ok p
  unfolding encode_unavailable decode_unavailable
  decode_unavailable-encode_unavailable p dst hi hf hl long =
      let written = length-write_three p.request_id p.first_unavailable p.last_unavailable dst in
      let id_read = read_first p.request_id p.first_unavailable p.last_unavailable dst hi in
      let first_read = read_second p.request_id p.first_unavailable p.last_unavailable dst hf in
      let last_read = read_third p.request_id p.first_unavailable p.last_unavailable dst hl in
      ground arith
