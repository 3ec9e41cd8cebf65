-- ===== src/Cli/Inspect.antt =====
-- The listing of the extensions by the command `Inspect` (cli/src/main.rs).
use real_time_data_platform.Base.{
  ℕ, zero, suc, ◌+◌, ◌-◌, ◌<◌, ◌≡◌, ◌⊎◌, inl, inr, refl, ap, true, Option, List, ◌++◌, arith,
  length, take, drop, slice, Each, length-take, take-append, drop-append,
}
use real_time_data_platform.Error.{RtdpError, Result, ok, err}
use real_time_data_platform.Protocol.Extensions.{
  HeaderExtension, ExtensionIterator, new_iterator, next, extensions,
}
use real_time_data_platform.Protocol.Extensions.Scan.{Tlvs, done, one_more, at, next_cases}
use real_time_data_platform.Protocol.Frame.{FrameView}
use real_time_data_platform.Serialization.Codec.{FrameCodec, default_codec_config, decode}
use real_time_data_platform.Serialization.Codec.Decode.{Result-cases}
use real_time_data_platform.Serialization.Codec.Accepted.{IsDecoded, decode-IsDecoded}
use real_time_data_platform.Cli.{print_item, list_extensions, inspect}
use real_time_data_platform.Wire.{Wire, AllBytes}

-- A round that prints an extension, not an error.
abbrev pub IsListed : Result HeaderExtension RtdpError → Type 0
IsListed (ok ext) = Unit
IsListed (err e) = ⊥

module _ (w : Wire) where
  list_next :
      (rounds : ℕ) (it it' : ExtensionIterator) (item : Option (Result HeaderExtension RtdpError))
      → next w it ≡ (it', item)
      → list_extensions w (suc rounds) it ≡ print_item item (list_extensions w rounds it')
  unfolding list_extensions
  list_next rounds it it' item step =
      ap
        (λ (s : ExtensionIterator × Option (Result HeaderExtension RtdpError)).
          print_item s.1 (list_extensions w rounds s.0))
        step

  list_extensions-Tlvs :
      (bytes : List ℕ) (rounds : ℕ) {o : ℕ}
      → Tlvs w bytes o
      → length bytes - o < rounds
      → Each IsListed (list_extensions w rounds (at w bytes o)).0
        × ((list_extensions w rounds (at w bytes o)).1 ≡ true)
  unfolding print_item
  list_extensions-Tlvs bytes zero t h = absurd (omega arith)
  list_extensions-Tlvs bytes (suc rounds) (done {o = o} end) h = elim (next_cases w bytes o) [
    | inl (e, step) ↦ rw (list_next rounds _ _ _ step) (tt, refl)
    | inr (inl (more, short, step)) ↦ absurd (omega arith)
    | inr (inr (fits, step)) ↦ absurd (omega arith)
  ]
  list_extensions-Tlvs bytes (suc rounds) (one_more {o = o} fits good rest) h =
      elim (next_cases w bytes o) [
        | inl (e, step) ↦ absurd (omega arith)
        | inr (inl (more, short, step)) ↦ absurd (omega arith)
        | inr (inr (f, step)) ↦
            let (listed, ended) = list_extensions-Tlvs bytes rounds rest (omega arith) in
            rw (list_next rounds _ _ _ step) ((tt, listed), ended)
      ]

  extensions_slice :
      (packet : List ℕ) (c : FrameCodec) (view : FrameView)
      → IsDecoded w c packet view
      → slice 48 (48 + length view.extension_bytes) packet ≡ view.extension_bytes
  extensions_slice packet c view d =
      let ext = view.extension_bytes in
      let tail = ext ++ view.payload in
      let head : 48 ≡ length (take 48 packet) =
        omega (arith, length-take 48 packet, d.acceptable.long_enough) in
      let after : drop 48 packet ≡ tail =
        rw d.parts at (drop-append (take 48 packet) tail 48 head) in
      let size : 48 + length ext - 48 ≡ length ext = omega arith in
      rw (after, size) (take-append ext view.payload (length ext) refl)

  -- The command Inspect on a file of bytes either reports the error of the decoder, or lists
  -- extensions without any error and comes to the end of them within one round more than they have
  -- bytes.
  pub inspect_branches :
      (file : List ℕ)
      → AllBytes file
      → ((view : FrameView) × (exts : List (Result HeaderExtension RtdpError)) × ((decode w
              default_codec_config file).1
            ≡ ok view)
          × (inspect w file ≡ ok (view, exts, true))
          × Each IsListed exts)
        ⊎ ((e : RtdpError) × ((decode w default_codec_config file).1 ≡ err e)
            × (inspect w file ≡ err e))
  unfolding inspect extensions new_iterator
  inspect_branches file bytes = elim (Result-cases (decode w default_codec_config file).1) [
    | inl (view, e) ↦
        let d = decode-IsDecoded w default_codec_config file view bytes e in
        let ext = view.extension_bytes in
        let t = rw (extensions_slice file default_codec_config view d) at d.acceptable.extensions in
        let (listed, ended) = list_extensions-Tlvs ext (suc (length ext)) t (omega arith) in
        inl (view, _, e, rw (inspect, e, ended) refl, listed)
    | inr (e, refused) ↦ inr (e, refused, rw (inspect, refused) refl)
  ]
