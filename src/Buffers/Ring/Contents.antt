-- ===== src/Buffers/Ring/Contents.antt =====
-- What the frames that a ring (core/src/buffers/ring.rs) gives out have in common, whatever was
-- stored and in whatever order.
use real_time_data_platform.Base.{
  ℕ, zero, suc, ◌+◌, ◌-◌, ◌%◌, ◌≡◌, inl, inr, ◌||◌, Option, none, some, List, [], ◌∷◌, map, arith,
  ◌==◌, ltb, get_elem?, set, replicate, Each, Bool-cases,
}
use real_time_data_platform.Error.{Result, ok, err}
use real_time_data_platform.Protocol.Frame.{OwnedFrame}
use real_time_data_platform.Buffers.Ring.{
  RingBuffer, RangeError, new_ring, bounds_after_push, push, slot_frame, get_within, get,
  push_front, collect, or_zero, get_range, clear,
}

module _ (P : OwnedFrame → Type 0) where
  abbrev Slot : Option OwnedFrame → Type 0
  Slot none = Unit
  Slot (some f) = P f

  -- Every frame in a slot has the property.
  abbrev pub Stores : RingBuffer → Type 0
  Stores r = Each Slot r.buffer

  replicate-Each : (n : ℕ) → Each Slot (replicate n none)
  replicate-Each zero = tt
  replicate-Each (suc n) = (tt, replicate-Each n)

  map-Each : (xs : List (Option OwnedFrame)) → Each Slot (map (λ _. none) xs)
  map-Each [] = tt
  map-Each (x ∷ xs) = (tt, map-Each xs)

  set-Each :
      (xs : List (Option OwnedFrame)) (i : ℕ) (f : OwnedFrame)
      → P f
      → Each Slot xs
      → Each Slot (set xs i (some f))
  set-Each [] i f h es = tt
  set-Each (x ∷ xs) zero f h (e, es) = (h, es)
  set-Each (x ∷ xs) (suc i) f h (e, es) = (e, set-Each xs i f h es)

  pub new_ring-Stores : (capacity : ℕ) (r : RingBuffer) → new_ring capacity ≡ some r → Stores r
  unfolding new_ring
  new_ring-Stores capacity r h =
      let same : r.buffer ≡ replicate capacity none = ground arith in
      rw same (replicate-Each capacity)

  bounds_after_push-Stores :
      (r : RingBuffer) (seq : ℕ) (lowest : Option ℕ)
      → Stores r
      → Stores (bounds_after_push r seq lowest)
  unfolding bounds_after_push
  bounds_after_push-Stores r seq none h = h
  bounds_after_push-Stores r seq (some n) h = h

  pub push-Stores : (r : RingBuffer) (f : OwnedFrame) → P f → Stores r → Stores (push r f)
  unfolding push
  push-Stores r f h es =
      let seq = f.header.sequence in
      let stored = record r { buffer = set r.buffer (seq % r.capacity) (some f) } in
      bounds_after_push-Stores stored seq r.min_sequence
        (set-Each r.buffer (f.header.sequence % r.capacity) f h es)

  pub clear-Stores : (r : RingBuffer) → Stores (clear r)
  unfolding clear
  clear-Stores r = map-Each r.buffer

  -- What a lookup or a range gives.
  abbrev Given : Option OwnedFrame → Type 0
  Given found = Slot found

  abbrev pub Ranged : Result (List OwnedFrame) RangeError → Type 0
  Ranged (ok frames) = Each P frames
  Ranged (err e) = Unit

  slot_frame-Given :
      (xs : List (Option OwnedFrame)) (i sequence : ℕ)
      → Each Slot xs
      → Given (slot_frame (get_elem? xs i) sequence)
  unfolding slot_frame
  slot_frame-Given [] i sequence es = tt
  slot_frame-Given (none ∷ xs) zero sequence es = tt
  slot_frame-Given (some f ∷ xs) zero sequence (h, es) =
      elim (Bool-cases (f.header.sequence == sequence)) [
        | inl same ↦ rw same h
        | inr other ↦ rw other tt
      ]
  slot_frame-Given (x ∷ xs) (suc i) sequence (h, es) = slot_frame-Given xs i sequence es

  get_within-Given :
      (r : RingBuffer) (lowest highest : Option ℕ) (sequence : ℕ)
      → Stores r
      → Given (get_within r lowest highest sequence)
  unfolding get_within
  get_within-Given r none highest sequence h = tt
  get_within-Given r (some min_s) none sequence h = tt
  get_within-Given r (some min_s) (some max_s) sequence h =
      elim (Bool-cases (ltb sequence min_s || ltb max_s sequence)) [
        | inl outside ↦ rw outside tt
        | inr inside ↦ rw inside (slot_frame-Given r.buffer (sequence % r.capacity) sequence h)
      ]

  push_front-Ranged :
      (found : Option OwnedFrame) (seq : ℕ) (rest : Result (List OwnedFrame) RangeError)
      → Given found
      → Ranged rest
      → Ranged (push_front found seq rest)
  unfolding push_front
  push_front-Ranged none seq rest h hs = tt
  push_front-Ranged (some f) seq (ok frames) h hs = (h, hs)
  push_front-Ranged (some f) seq (err e) h hs = tt

  collect-Ranged : (r : RingBuffer) (rounds seq : ℕ) → Stores r → Ranged (collect r rounds seq)
  unfolding collect get
  collect-Ranged r zero seq h = tt
  collect-Ranged r (suc rounds) seq h =
      push_front-Ranged (get r seq) seq (collect r rounds (seq + 1))
        (get_within-Given r r.min_sequence r.max_sequence seq h)
        (collect-Ranged r rounds (seq + 1) h)

  pub get_range-Ranged : (r : RingBuffer) (from to : ℕ) → Stores r → Ranged (get_range r from to)
  unfolding get_range
  get_range-Ranged r from to h = elim (Bool-cases (ltb from (or_zero r.min_sequence))) [
    | inl evicted ↦ rw evicted tt
    | inr kept ↦ elim (Bool-cases (ltb (or_zero r.max_sequence) to)) [
      | inl beyond ↦ rw (kept, beyond) tt
      | inr within ↦ rw (kept, within) (collect-Ranged r (to + 1 - from) from h)
    ]
  ]
