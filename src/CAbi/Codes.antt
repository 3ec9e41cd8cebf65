-- ===== src/CAbi/Codes.antt =====
-- The return values of `rtdp_decode` (c-abi/src/lib.rs), and what it writes.
use real_time_data_platform.Base.{ℕ, zero, suc, ◌≤◌, ◌≡◌, ◌⊎◌, inl, inr, refl, some, List, arith}
use real_time_data_platform.Error.{ErrorCode, RtdpError, ok, err, error_code, error_as_u16}
use real_time_data_platform.Error.Code.Registry.{error_from_u16-error_as_u16}
use real_time_data_platform.Protocol.Frame.{FrameView}
use real_time_data_platform.Serialization.Codec.{FrameCodec, decode}
use real_time_data_platform.Serialization.Codec.Decode.{Result-cases, decode-restores}
use real_time_data_platform.Serialization.Codec.Errors.{decode_code}
use real_time_data_platform.CAbi.{ℤ, neg, DecodeOut, store_view, error_result, rtdp_decode}
use real_time_data_platform.Wire.{Wire, AllBytes}

-- A code between -12 and -1.
abbrev pub IsRefusal : ℤ → Type 0
IsRefusal (ℤ.pos n) = ⊥
IsRefusal (ℤ.negsuc n) = n ≤ 11

neg-IsRefusal : (n : ℕ) → 1 ≤ n → n ≤ 12 → IsRefusal (neg n)
neg-IsRefusal zero lo hi = absurd (omega arith)
neg-IsRefusal (suc n) lo hi = omega arith

module _ (w : Wire) where
  -- On a packet of bytes, rtdp_decode returns 0 just when the decoder accepts the packet, and then
  -- writes the view; otherwise it writes nothing and returns the negated number of the error code,
  -- which is between -12 and -1. The packet stays as it was.
  pub rtdp_decode_branches :
      (codec : FrameCodec) (buf : List ℕ) (out : DecodeOut)
      → AllBytes buf
      → ((view : FrameView) × ((decode w codec buf).1 ≡ ok view)
          × (rtdp_decode w (some codec) (some buf) out ≡ (some buf, store_view out view, ℤ.pos 0)))
        ⊎ ((code : ErrorCode) × ((decode w codec buf).1 ≡ err (RtdpError.protocol code))
            × (rtdp_decode w (some codec) (some buf) out ≡ (some buf, out, neg (error_as_u16 code)))
            × IsRefusal (neg (error_as_u16 code)))
  unfolding rtdp_decode error_result error_code
  rtdp_decode_branches codec buf out bytes =
      let same = decode-restores w codec buf bytes in
      elim (Result-cases (decode w codec buf).1) [
        | inl (view, e) ↦ inl (view, e, rw (rtdp_decode, e, same) refl)
        | inr (fault, refused) ↦
            let (code, is_code) = decode_code w codec buf fault refused in
            let refused' = rw is_code at refused in
            let (back, lo, hi) = error_from_u16-error_as_u16 code in
            inr (
              code,
              refused',
              rw (rtdp_decode, refused', same) refl,
              neg-IsRefusal (error_as_u16 code) lo hi,
            )
      ]
