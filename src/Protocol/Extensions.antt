-- ===== src/Protocol/Extensions.antt =====
-- core/src/protocol/extensions.rs: the TLV records between the header and the payload.
pub mod Scan
pub mod RoundTrip
use Prim.Native.Nat.{bit_and}
use real_time_data_platform.Base.{
  ℕ, zero, suc, ◌+◌, ◌*◌, ◌-◌, ◌/◌, ◌%◌, ◌^◌, Bool, not, ◌&&◌, ◌||◌, Option, none, some, List, [],
  ◌∷◌, ◌++◌, if◌then◌else◌, ◌==◌, ltb, leb, length, take, drop, slice, write_at, replicate,
}
use real_time_data_platform.Error.{RtdpError, Result, ok, err, malformed, unsupported_extension}
use real_time_data_platform.Protocol.Frame.{FrameView}
use real_time_data_platform.Wire.{Wire}

abbrev pub critical_extension_bit : ℕ
critical_extension_bit = 0x8000

pub record HeaderExtension : Type 0 where
  pub ext_type : ℕ
  pub is_critical : Bool
  pub value : List ℕ

unfoldable pub is_critical_type : ℕ → Bool
is_critical_type ext_type = not (bit_and ext_type critical_extension_bit == 0)

unfoldable pub new_extension : ℕ → List ℕ → HeaderExtension
unfolding is_critical_type
new_extension ext_type value = record {
  ext_type = ext_type;
  is_critical = is_critical_type ext_type;
  value = value;
}

-- `(n + 3) & !3`
abbrev pub padded : ℕ → ℕ
padded n = (n + 3) / 4 * 4

unfoldable pub wire_len : HeaderExtension → ℕ
wire_len e = 4 + padded (length e.value)

pub record ExtensionIterator : Type 0 where
  pub bytes : List ℕ
  pub offset : ℕ

unfoldable pub new_iterator : List ℕ → ExtensionIterator
new_iterator bytes = record { bytes = bytes; offset = 0 }

unfoldable pub extensions : FrameView → ExtensionIterator
unfolding new_iterator
extensions view = new_iterator view.extension_bytes

abbrev pub source_ingress_ts : ℕ
source_ingress_ts = 0x0001

abbrev pub correlation_id : ℕ
correlation_id = 0x0002

unfoldable pub is_known_extension : ℕ → Bool
is_known_extension ext_type = ext_type == source_ingress_ts || ext_type == correlation_id

module _ (w : Wire) where
  open w use {write_u16, read_u16}

  -- The writes of `encode`, in the order of the source.
  write_extension : HeaderExtension → List ℕ → List ℕ
  write_extension e dst =
      let n = length e.value in
      let dst = write_at 0 (write_u16 e.ext_type) dst in
      let dst = write_at 2 (write_u16 (n % 2 ^ 16)) dst in
      let dst = write_at 4 e.value dst in write_at (4 + n) (replicate (padded n - n) 0) dst

  -- The buffer as it is left, and the length.
  unfoldable pub encode_extension : HeaderExtension → List ℕ → Result (List ℕ × ℕ) RtdpError
  unfolding write_extension wire_len
  encode_extension e dst =
      if ltb (length dst) (wire_len e)
      then err malformed
      else ok (write_extension e dst, wire_len e)

  -- `ExtensionIterator::next`; the iterator moves only past a complete record.
  unfoldable pub next :
      ExtensionIterator → ExtensionIterator × Option (Result HeaderExtension RtdpError)
  unfolding is_critical_type
  next it =
      if leb (length it.bytes) it.offset
      then (it, none)
      else (let remaining = drop it.offset it.bytes in
          if ltb (length remaining) 4
          then (it, some (err malformed))
          else (let ext_type = read_u16 (slice 0 2 remaining) in
              let val_len = read_u16 (slice 2 4 remaining) in
              let total_tlv_len = 4 + padded val_len in
              if ltb (length remaining) total_tlv_len then (it, some (err malformed)) else (
                record it { offset = it.offset + total_tlv_len },
                some (
                    ok (record {
                      ext_type = ext_type;
                      is_critical = is_critical_type ext_type;
                      value = slice 4 (4 + val_len) remaining;
                    })),
              )))

  -- The `while let` of `FrameCodec::decode` over the extensions. A record takes 4 bytes or more, so
  -- as many rounds as there are bytes are enough (`Scan`).
  unfoldable pub scan_extensions : ℕ → ExtensionIterator → Result (Unit {0}) RtdpError
  scan_extensions zero it = ok tt
  scan_extensions (suc rounds) it =
      let (it', item) = next it in
      elim item [
        | none ↦ ok tt
        | some (err e) ↦ err e
        | some (ok ext) ↦
            if ext.is_critical && not (is_known_extension ext.ext_type)
            then err unsupported_extension
            else scan_extensions rounds it'
      ]
