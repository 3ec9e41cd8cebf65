-- ===== src/Recovery/Engine/Drain.antt =====
-- The loop of `drain_contiguous` (core/src/recovery/engine.rs) and what it takes out of the buffer.
use real_time_data_platform.Base.{
  ℕ, zero, suc, ◌+◌, ◌-◌, ◌^◌, ◌≤◌, ◌<◌, ◌≡◌, refl, none, some, List, [], ◌∷◌, inc64, arith, length,
  Option-cases, inl, inr, ◌⊎◌,
}
use real_time_data_platform.Base.Map.{
  lookup, remove, lookup-remove, length-remove-lt, Entries, lookup-Entries, remove-Entries,
}
use real_time_data_platform.Protocol.Frame.{OwnedFrame}
use real_time_data_platform.Recovery.Data.{RecoveryEngine}
use real_time_data_platform.Recovery.Engine.{drain_loop, drain_contiguous}

-- Every buffered frame stands under its own sequence, below the last number of a `u64`.
abbrev pub Keyed : ℕ → OwnedFrame → Type 0
Keyed k f = (f.header.sequence ≡ k) × (k < 2 ^ 64 - 1)

-- The sequences of some frames count up from `s`.
abbrev pub CountsUp : ℕ → List OwnedFrame → Type 0
CountsUp s [] = Unit
CountsUp s (f ∷ fs) = (f.header.sequence ≡ s) × CountsUp (s + 1) fs

-- What a run of the loop from `s` over `m` gives and leaves.
pub record Drained (s : ℕ) (m : List (ℕ × OwnedFrame))
    (out : List OwnedFrame × List (ℕ × OwnedFrame)) : Type 0 where
  pub counts : CountsUp s out.0
  pub stops : lookup (s + length out.0) out.1 ≡ none
  pub entries : Entries Keyed out.1
  pub fits : s + length out.0 ≤ 2 ^ 64 - 1
  pub leaves : (k : ℕ) → (lookup k out.1 ≡ lookup k m) ⊎ ((s ≤ k) × (k < s + length out.0))

drain_loop_stop :
    (fuel s : ℕ) (m : List (ℕ × OwnedFrame))
    → lookup s m ≡ none
    → drain_loop (suc fuel) s m ≡ ([], m)
drain_loop_stop fuel s m e = unfold drain_loop in rw (e, drain_loop)

drain_loop_step :
    (fuel s : ℕ) (m : List (ℕ × OwnedFrame)) (f : OwnedFrame)
    → lookup s m ≡ some f
    → drain_loop (suc fuel) s m
      ≡ (let (rest, left) = drain_loop fuel (inc64 s) (remove s m) in (f ∷ rest, left))
drain_loop_step fuel s m f e = unfold drain_loop in rw (e, drain_loop)

nothing-Drained :
    (s : ℕ) (m : List (ℕ × OwnedFrame))
    → s ≤ 2 ^ 64 - 1
    → lookup s m ≡ none
    → Entries Keyed m
    → Drained s m ([], m)
nothing-Drained s m hs e es = record {
  counts = tt;
  stops = let z : s + 0 ≡ s = omega arith in rw z e;
  entries = es;
  fits = omega arith;
  leaves = λ k. inl refl;
}

-- A frame and what is drained after it.
one-Drained :
    (s : ℕ) (m : List (ℕ × OwnedFrame)) (f : OwnedFrame)
    (out : List OwnedFrame × List (ℕ × OwnedFrame))
    → f.header.sequence ≡ s
    → Drained (s + 1) (remove s m) out
    → Drained s m (f ∷ out.0, out.1)
one-Drained s m f out e d = record {
  counts = (e, d.counts);
  stops = let z : s + suc (length out.0) ≡ s + 1 + length out.0 = omega arith in rw z d.stops;
  entries = d.entries;
  fits = omega (arith, d.fits);
  leaves = λ k. ground (arith, d.leaves k, lookup-remove k s m);
}

drain_loop-Drained :
    (fuel s : ℕ) (m : List (ℕ × OwnedFrame))
    → length m ≤ fuel
    → s ≤ 2 ^ 64 - 1
    → Entries Keyed m
    → Drained s m (drain_loop fuel s m)
drain_loop-Drained zero s [] h hs es =
    unfold drain_loop in nothing-Drained s [] hs (unfold lookup in refl) tt
drain_loop-Drained zero s (x ∷ m) h hs es = absurd (omega arith)
drain_loop-Drained (suc fuel) s m h hs es = elim (Option-cases (lookup s m)) [
  | inl e ↦ rw (drain_loop_stop fuel s m e) (nothing-Drained s m hs e es)
  | inr (f, e) ↦
      let keyed : Keyed s f = lookup-Entries Keyed s f m es e in
      let next : inc64 s ≡ s + 1 = omega (arith, keyed.1) in
      rw (drain_loop_step fuel s m f e, next)
        (one-Drained s m f (drain_loop fuel (s + 1) (remove s m)) keyed.0 (
          drain_loop-Drained fuel (s + 1) (remove s m) (omega (arith, length-remove-lt s m f e))
            (omega (arith, keyed.1)) (remove-Entries Keyed s m es)))
]

-- From a sequence that fits, over a buffer whose frames stand under their own sequences, the drain
-- ends by its own test, gives frames that count up from the start, stops at the first missing
-- sequence, and leaves every other frame in the buffer.
pub drain_contiguous-Drained :
    (e : RecoveryEngine) (start_seq : ℕ)
    → start_seq ≤ 2 ^ 64 - 1
    → Entries Keyed e.buffered_out_of_order
    → Drained start_seq e.buffered_out_of_order
        ((drain_contiguous e start_seq).1, (drain_contiguous e start_seq).0.buffered_out_of_order)
unfolding drain_contiguous
drain_contiguous-Drained e start_seq hs es =
    drain_loop-Drained (length e.buffered_out_of_order) start_seq e.buffered_out_of_order
      (omega arith) hs es
