-- ===== src/Protocol/Extensions/Scan.antt =====
-- The scan of the extensions against the layout of the TLV records.
use real_time_data_platform.Base.{
  ℕ, zero, suc, ◌+◌, ◌≤◌, ◌<◌, ◌≡◌, ◌⊎◌, ◌↔◌, inl, inr, refl, ap, sym, ◌∙◌, Bool, false, not, ◌&&◌,
  Option, none, some, List, if◌then◌else◌, arith, length, drop, slice, length-drop, Bool-cases,
}
use real_time_data_platform.Error.{RtdpError, Result, ok, err, malformed, unsupported_extension}
use real_time_data_platform.Protocol.Extensions.{
  HeaderExtension, ExtensionIterator, padded, new_iterator, is_critical_type, is_known_extension,
  next, scan_extensions,
}
use real_time_data_platform.Wire.{Wire}

module _ (w : Wire) (bytes : List ℕ) where
  open w use {read_u16}

  abbrev pub type_at : ℕ → ℕ
  type_at o = read_u16 (slice 0 2 (drop o bytes))

  abbrev pub size_at : ℕ → ℕ
  size_at o = 4 + padded (read_u16 (slice 2 4 (drop o bytes)))

  -- From the offset `o` on, the bytes are complete TLV records, padded to 4 bytes, and none of
  -- them is critical and unknown.
  pub data Tlvs : ℕ → Type 0 where
    done : {o : ℕ} → length bytes ≤ o → Tlvs o
    one_more :
        {o : ℕ}
        → o + size_at o ≤ length bytes
        → (is_critical_type (type_at o) && not (is_known_extension (type_at o))) ≡ false
        → Tlvs (o + size_at o)
        → Tlvs o

  abbrev pub at : ℕ → ExtensionIterator
  at o = record { bytes = bytes; offset = o }

  abbrev pub extension_at : ℕ → HeaderExtension
  extension_at o = record {
    ext_type = type_at o;
    is_critical = is_critical_type (type_at o);
    value = slice 4 (4 + read_u16 (slice 2 4 (drop o bytes))) (drop o bytes);
  }

  pub next_cases :
      (o : ℕ)
      → ((length bytes ≤ o) × (next w (at o) ≡ (at o, none)))
        ⊎ ((o < length bytes)
            × (length bytes < o + size_at o)
            × (next w (at o) ≡ (at o, some (err malformed))))
        ⊎ ((o + size_at o ≤ length bytes)
            × (next w (at o) ≡ (at (o + size_at o), some (ok (extension_at o)))))
  unfolding next
  next_cases o = ground (arith, length-drop o bytes)

  abbrev refused : ℕ → Bool
  refused o = is_critical_type (type_at o) && not (is_known_extension (type_at o))

  scan_end :
      (rounds o : ℕ) → next w (at o) ≡ (at o, none) → scan_extensions w (suc rounds) (at o) ≡ ok tt
  scan_end rounds o e = unfold scan_extensions in rw (e, scan_extensions)

  scan_malformed :
      (rounds o : ℕ)
      → next w (at o) ≡ (at o, some (err malformed))
      → scan_extensions w (suc rounds) (at o) ≡ err malformed
  scan_malformed rounds o e = unfold scan_extensions in rw (e, scan_extensions)

  scan_record :
      (rounds o : ℕ)
      → next w (at o) ≡ (at (o + size_at o), some (ok (extension_at o)))
      → scan_extensions w (suc rounds) (at o) ≡ (
          if refused o
          then err unsupported_extension
          else scan_extensions w rounds (at (o + size_at o)))
  scan_record rounds o e =
      unfold scan_extensions in
      rw (e, scan_extensions)
        (ap
          (λ (s : ExtensionIterator × Option (Result HeaderExtension RtdpError)).
            if refused o then err unsupported_extension else scan_extensions w rounds s.0)
          e)

  -- A scan with enough rounds that succeeds has read complete records up to the end.
  scan-Tlvs :
      (rounds o : ℕ) → length bytes ≤ o + rounds → scan_extensions w rounds (at o) ≡ ok tt → Tlvs o
  scan-Tlvs zero o h e = done (omega arith)
  scan-Tlvs (suc rounds) o h e = elim (next_cases o) [
    | inl (end, step) ↦ done end
    | inr (inl (more, short, step)) ↦ cc (scan_malformed rounds o step)
    | inr (inr (fits, step)) ↦ elim (Bool-cases (refused o)) [
      | inl bad ↦ cc (rw bad at (scan_record rounds o step))
      | inr good ↦ one_more fits good (
          scan-Tlvs rounds (o + size_at o) (omega arith)
            (sym (rw good at (scan_record rounds o step)) ∙ e))
    ]
  ]

  Tlvs-scan : (rounds : ℕ) {o : ℕ} → Tlvs o → scan_extensions w rounds (at o) ≡ ok tt
  Tlvs-scan zero t = unfold scan_extensions in refl
  Tlvs-scan (suc rounds) (done {o = o} end) = elim (next_cases o) [
    | inl (e, step) ↦ scan_end rounds o step
    | inr (inl (more, short, step)) ↦ absurd (omega arith)
    | inr (inr (fits, step)) ↦ absurd (omega arith)
  ]
  Tlvs-scan (suc rounds) (one_more {o = o} fits good rest) = elim (next_cases o) [
    | inl (e, step) ↦ absurd (omega arith)
    | inr (inl (more, short, step)) ↦ absurd (omega arith)
    | inr (inr (f, step)) ↦ scan_record rounds o step ∙ rw good (Tlvs-scan rounds rest)
  ]

  -- The scan of the extensions in decode, with as many rounds as there are bytes, succeeds exactly
  -- on well-formed extensions: whole records up to the end of the bytes, none of them critical and
  -- unknown.
  pub scan_extensions-Tlvs :
      (scan_extensions w (length bytes) (new_iterator bytes) ≡ ok tt) ↔ Tlvs 0
  unfolding new_iterator
  scan_extensions-Tlvs = (scan-Tlvs (length bytes) 0 (omega arith), Tlvs-scan (length bytes))

next-stays :
    (w : Wire) (it it' : ExtensionIterator) (e : RtdpError)
    → next w it ≡ (it', some (err e))
    → it' ≡ it
unfolding next
next-stays w it it' e h = ground arith

-- An extension iterator that reports an error stays where it is, and reports the same error at the
-- next call.
pub next-stuck :
    (w : Wire) (it it' : ExtensionIterator) (e : RtdpError)
    → next w it ≡ (it', some (err e))
    → (it' ≡ it) × (next w it' ≡ (it', some (err e)))
next-stuck w it it' e h = let stays = next-stays w it it' e h in (stays, rw stays (rw stays at h))
