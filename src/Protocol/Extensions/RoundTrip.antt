-- ===== src/Protocol/Extensions/RoundTrip.antt =====
-- Reading an extension that was written (core/src/protocol/extensions.rs).
use real_time_data_platform.Base.{
  ℕ, ◌+◌, ◌-◌, ◌%◌, ◌^◌, ◌≤◌, ◌<◌, ◌≡◌, inl, inr, refl, sym, ap, ap₂, ◌∙◌, some, List, [], ◌∷◌,
  ◌++◌, drop, append-nil, false, ltb, arith, length, take, slice, concat, total, replicate,
  take-append, write_next, slice-concat, length-concat, length-replicate,
}
use real_time_data_platform.Error.{ok}
use real_time_data_platform.Protocol.Extensions.{
  HeaderExtension, padded, wire_len, new_iterator, is_critical_type, write_extension,
  encode_extension, next,
}
use real_time_data_platform.Protocol.Extensions.Scan.{at, size_at, extension_at, next_cases}
use real_time_data_platform.Wire.{Wire, widths}

module _ (w : Wire) where
  open w use {write_u16, read_u16}

  -- The parts of a record.
  abbrev record_chunks : HeaderExtension → List (List ℕ)
  record_chunks e =
      let n = length e.value in
      write_u16 e.ext_type ∷ write_u16 (n % 2 ^ 16) ∷ e.value ∷ replicate (padded n - n) 0 ∷ []

  total-record_chunks : (e : HeaderExtension) → total (record_chunks e) ≡ wire_len e
  unfolding wire_len
  total-record_chunks e =
      let n = length e.value in omega (widths, length-replicate {A = ℕ} (padded n - n) 0)

  write_extension-concat :
      (e : HeaderExtension) (dst : List ℕ)
      → write_extension w e dst ≡ concat (record_chunks e) ++ drop (wire_len e) dst
  unfolding write_extension wire_len
  write_extension-concat e dst =
      let n = length e.value in
      let ext_type = write_u16 e.ext_type in
      let size = write_u16 (n % 2 ^ 16) in
      let pad = replicate {A = ℕ} (padded n - n) 0 in
      write_next (ext_type ∷ size ∷ e.value ∷ []) pad dst _ (4 + n) (wire_len e) (omega widths)
        (omega (arith, length-replicate {A = ℕ} (padded n - n) 0))
        (write_next (ext_type ∷ size ∷ []) e.value dst _ 4 (4 + n) (omega widths) (omega widths) (
          write_next (ext_type ∷ []) size dst _ 2 4 (omega widths) (omega widths)
            (write_next [] ext_type dst dst 0 2 refl (omega widths) refl)))

  -- The bytes of a record.
  abbrev record_bytes : HeaderExtension → List ℕ
  record_bytes e = concat (record_chunks e)

  length-record_bytes : (e : HeaderExtension) → length (record_bytes e) ≡ wire_len e
  length-record_bytes e = length-concat (record_chunks e) ∙ total-record_chunks e

  module _ (e : HeaderExtension) (type_small : e.ext_type < 2 ^ 16)
      (value_small : length e.value < 2 ^ 16) where
    read_type : read_u16 (slice 0 2 (record_bytes e)) ≡ e.ext_type
    read_type =
        let n = length e.value in
        let rest = write_u16 (n % 2 ^ 16) ∷ e.value ∷ replicate (padded n - n) 0 ∷ [] in
        rw (take-append (write_u16 e.ext_type) (concat rest) 2 (omega widths))
          (w.read-write_u16 e.ext_type type_small)

    read_length : read_u16 (slice 2 4 (record_bytes e)) ≡ length e.value
    read_length =
        let n = length e.value in
        let after = e.value ∷ replicate (padded n - n) 0 ∷ [] in
        let found =
          slice-concat (write_u16 e.ext_type ∷ []) (write_u16 (n % 2 ^ 16)) after [] 2 4
            (omega widths) (omega widths) in
        rw (append-nil (record_bytes e)) at (ap read_u16 found)
        ∙ w.read-write_u16 (n % 2 ^ 16) (omega arith)
        ∙ omega arith

    read_value : slice 4 (4 + length e.value) (record_bytes e) ≡ e.value
    read_value =
        let n = length e.value in
        rw (append-nil (record_bytes e)) at (
          slice-concat (write_u16 e.ext_type ∷ write_u16 (n % 2 ^ 16) ∷ []) e.value
            (replicate (padded n - n) 0 ∷ []) [] 4 (4 + n) (omega widths) refl)

    next-record_bytes :
        e.is_critical ≡ is_critical_type e.ext_type
        → next w (at w (record_bytes e) 0) ≡ (at w (record_bytes e) (wire_len e), some (ok e))
    unfolding wire_len
    next-record_bytes critical =
        let size = length-record_bytes e in
        let n = read_length in
        let whole : size_at w (record_bytes e) 0 ≡ wire_len e = ap (λ k. 4 + padded k) n in
        let same : extension_at w (record_bytes e) 0 ≡ e =
          rw (read_type, n, read_value) (cc (sym critical)) in
        elim (next_cases w (record_bytes e) 0) [
          | inl (end, step) ↦ absurd (omega arith)
          | inr (inl (more, short, step)) ↦ absurd (omega arith)
          | inr (inr (fits, step)) ↦
              let offset : 0 + size_at w (record_bytes e) 0 ≡ wire_len e = omega (arith, whole) in
              step
              ∙ ap₂ (λ (o : ℕ) (x : HeaderExtension). (at w (record_bytes e) o, some (ok x))) offset
                  same
        ]

  -- An extension with a type and a length below 2^16, its flag that of its type, that is encoded
  -- into a buffer with room for it, takes its padded length, and the iterator reads it back and
  -- stands behind it.
  pub next-encode_extension :
      (e : HeaderExtension) (dst : List ℕ)
      → e.is_critical ≡ is_critical_type e.ext_type
      → e.ext_type < 2 ^ 16
      → length e.value < 2 ^ 16
      → wire_len e ≤ length dst
      → (written : List ℕ) × (encode_extension w e dst ≡ ok (written, wire_len e))
        × (next w (new_iterator (take (wire_len e) written))
            ≡ (record { bytes = take (wire_len e) written; offset = wire_len e }, some (ok e)))
  unfolding encode_extension new_iterator
  next-encode_extension e dst critical type_small value_small room =
      let enough : ltb (length dst) (wire_len e) ≡ false = ground arith in
      let written = write_extension-concat e dst in
      let packet =
        take-append (record_bytes e) (drop (wire_len e) dst) (wire_len e)
          (sym (length-record_bytes e)) in
      (
        record_bytes e ++ drop (wire_len e) dst,
        rw (encode_extension, enough, written) refl,
        rw packet (next-record_bytes e type_small value_small critical),
      )
