-- ===== src/Buffers/Ring/Retention.antt =====
-- The frames that a ring holds (core/src/buffers/ring.rs) when a publisher fills it in order.
use native.Mathlib.Decide.{dec_lt}
use native.Mathlib.Nat.{div-add-mod}
use Prim.Native.Nat.{max}
use real_time_data_platform.Base.{
  ℕ, zero, suc, ◌+◌, ◌-◌, ◌%◌, ◌^◌, ◌≤◌, ◌<◌, ◌≡◌, ◌≢◌, refl, sym, ◌∙◌, ◌&&◌, Option, none, some,
  List, [], ◌∷◌, if◌then◌else◌, leb, ltb, arith, length, get_elem?, set, get_elem?-set_self,
  get_elem?-set_ne, length-set, length-replicate,
}
use real_time_data_platform.Error.{ErrorCode, ok, err}
use real_time_data_platform.Protocol.Frame.{OwnedFrame}
use real_time_data_platform.Buffers.Ring.{RingBuffer, new_ring, push, get, collect, get_range}

-- The lowest sequence that a ring of `cap` slots keeps, when `first` to `last` were stored.
abbrev pub oldest : ℕ → ℕ → ℕ → ℕ
oldest cap first last = max first (last + 1 - cap)

-- `r` has been given the frames `hist first` to `hist last`, each under its own sequence.
pub record Holds (hist : ℕ → OwnedFrame) (first last : ℕ) (r : RingBuffer) : Type 0 where
  pub cap_pos : 0 < r.capacity
  pub slots : length r.buffer ≡ r.capacity
  pub ordered : first ≤ last
  pub lowest : r.min_sequence ≡ some (oldest r.capacity first last)
  pub highest : r.max_sequence ≡ some last
  pub kept :
      (s : ℕ)
      → oldest r.capacity first last ≤ s
      → s ≤ last
      → get_elem? r.buffer (s % r.capacity) ≡ some (some (hist s))

-- Two sequences less than `cap` apart have different slots.
mod-ne : (a b cap : ℕ) → a < b → b < a + cap → a % cap ≢ b % cap
mod-ne a b cap h k e = grind (arith, div-add-mod a cap, div-add-mod b cap)

pub push-capacity : (r : RingBuffer) (frame : OwnedFrame) → (push r frame).capacity ≡ r.capacity
unfolding push
push-capacity r frame = ground arith

pub new_ring-capacity : (cap : ℕ) (r : RingBuffer) → new_ring cap ≡ some r → r.capacity ≡ cap
unfolding new_ring
new_ring-capacity cap r h = ground arith

module _ (hist : ℕ → OwnedFrame) where
  -- The publisher's stores, in order: `hist first`, …, `hist (first + more)`.
  unfoldable pub push_upto : RingBuffer → ℕ → ℕ → RingBuffer
  push_upto r first zero = push r (hist first)
  push_upto r first (suc more) = push (push_upto r first more) (hist (suc (first + more)))

  -- The published frames `hist from`, …, as many as asked for.
  unfoldable pub published : ℕ → ℕ → List OwnedFrame
  published zero from = []
  published (suc n) from = hist from ∷ published n (from + 1)

module _ (hist : ℕ → OwnedFrame) (stamped : (s : ℕ) → (hist s).header.sequence ≡ s) where
  -- The ring after the store of `hist last`.
  abbrev stored : ℕ → ℕ → RingBuffer → RingBuffer
  stored first last r = record r {
    buffer = set r.buffer (last % r.capacity) (some (hist last));
    min_sequence = some (oldest r.capacity first last);
    max_sequence = some last;
  }

  push-stored_first :
      (cap first : ℕ) (r : RingBuffer)
      → new_ring cap ≡ some r
      → push r (hist first) ≡ stored first first r
  unfolding new_ring push
  push-stored_first cap first r h = ground (arith, stamped first)

  push-stored :
      (first last : ℕ) (r : RingBuffer)
      → Holds hist first last r
      → push r (hist (suc last)) ≡ stored first (suc last) r
  unfolding push
  push-stored first last r h = ground (arith, stamped (suc last))

  -- A store leaves the slots of the other kept sequences alone.
  kept-set :
      (buffer : List (Option OwnedFrame)) (cap lo last s : ℕ)
      → length buffer ≡ cap
      → 0 < cap
      → last < lo + cap
      → lo ≤ s
      → s ≤ last
      → (s < last → get_elem? buffer (s % cap) ≡ some (some (hist s)))
      → get_elem? (set buffer (last % cap) (some (hist last))) (s % cap) ≡ some (some (hist s))
  kept-set buffer cap lo last s len pos near above below old = elim (dec_lt s last) [
    | yes p ↦
        get_elem?-set_ne buffer (last % cap) (s % cap) (some (hist last))
          (λ e. mod-ne s last cap p (omega arith) (sym e))
        ∙ old p
    | no p ↦
        let e : last ≡ s = omega arith in
        rw e (get_elem?-set_self buffer (s % cap) (some (hist s)) (grind arith))
  ]

  new_ring_slots :
      (n : ℕ) (r : RingBuffer)
      → new_ring n ≡ some r
      → (length r.buffer ≡ r.capacity) × (0 < r.capacity)
  unfolding new_ring
  new_ring_slots n r h = ground (arith, length-replicate {A = Option OwnedFrame} n none)

  pub push-Holds_first :
      (cap first : ℕ) (r : RingBuffer)
      → new_ring cap ≡ some r
      → Holds hist first first (push r (hist first))
  push-Holds_first cap first r h =
      let size : (length r.buffer ≡ r.capacity) × (0 < r.capacity) = new_ring_slots cap r h in
      rw (push-stored_first cap first r h) (record {
        cap_pos = size.1;
        slots = omega (arith, length-set r.buffer (first % r.capacity) (some (hist first)));
        ordered = omega arith;
        lowest = refl;
        highest = refl;
        kept = λ s a b.
            kept-set r.buffer r.capacity first first s size.0 size.1 (omega arith) (omega arith) b
              (λ lt. absurd (omega arith));
      })

  pub push-Holds :
      (first last : ℕ) (r : RingBuffer)
      → Holds hist first last r
      → Holds hist first (suc last) (push r (hist (suc last)))
  push-Holds first last r h = rw (push-stored first last r h) (record {
    cap_pos = h.cap_pos;
    slots = omega (arith, length-set r.buffer (suc last % r.capacity) (some (hist (suc last))));
    ordered = omega arith;
    lowest = refl;
    highest = refl;
    kept = λ s a b.
        kept-set r.buffer r.capacity (oldest r.capacity first (suc last)) (suc last) s h.slots
          h.cap_pos (omega arith) a b (λ lt. h.kept s (omega arith) (omega arith));
  })

  -- On a ring that holds the frames first to last, each under its own sequence, a lookup gives the
  -- published frame of a sequence between the oldest kept and the last, and nothing for any other
  -- sequence.
  pub get-Holds :
      (first last : ℕ) (r : RingBuffer) (s : ℕ)
      → Holds hist first last r
      → get r s
        ≡ (if leb (oldest r.capacity first last) s && leb s last then some (hist s) else none)
  unfolding get
  get-Holds first last r s h = ground (arith, stamped s, h.kept s)

  -- A new ring, of a positive capacity, into which the frames of consecutive sequences are pushed,
  -- each with its own sequence in its header, holds exactly the last of them, as many as it has
  -- slots: its bounds are right and each kept sequence is in its slot.
  pub push_upto-Holds :
      (cap first more : ℕ) (r : RingBuffer)
      → new_ring cap ≡ some r
      → Holds hist first (first + more) (push_upto hist r first more)
  unfolding push_upto
  push_upto-Holds cap first zero r h =
      let e : first + 0 ≡ first = omega arith in rw e (push-Holds_first cap first r h)
  push_upto-Holds cap first (suc more) r h =
      let e : first + suc more ≡ suc (first + more) = omega arith in
      rw e (
        push-Holds first (first + more) (push_upto hist r first more)
          (push_upto-Holds cap first more r h))

  collect-published :
      (first last : ℕ) (r : RingBuffer) (n from : ℕ)
      → Holds hist first last r
      → oldest r.capacity first last ≤ from
      → from + n ≤ last + 1
      → collect r n from ≡ ok (published hist n from)
  unfolding collect published
  collect-published first last r zero from h lo hi = refl
  collect-published first last r (suc n) from h lo hi =
      rw (collect-published first last r n (from + 1) h (omega arith) (omega arith))
        (ground (arith, get-Holds first last r from h))

  -- On a ring that holds the frames first to last, each under its own sequence, with last below
  -- 2^64 - 1, a range query with from at most to answers with the unavailable part before the
  -- oldest kept sequence, with the unavailable part after the last, or with exactly the published
  -- frames of the range.
  pub get_range-Holds :
      (first last : ℕ) (r : RingBuffer) (from to : ℕ)
      → Holds hist first last r
      → from ≤ to
      → last < 2 ^ 64 - 1
      → let lo = oldest r.capacity first last in
        get_range r from to ≡ (
          if ltb from lo
          then err (ErrorCode.replay_unavailable, from, lo - 1)
          else if ltb last to
          then err (ErrorCode.replay_unavailable, last + 1, to)
          else ok (published hist (to + 1 - from) from))
  unfolding get_range
  get_range-Holds first last r from to h ft small =
      ground (arith, collect-published first last r (to + 1 - from) from h)
