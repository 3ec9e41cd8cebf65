-- ===== src/Delivery/Receiver/Ordered/Runs.antt =====
-- Whole runs of a receiver in `RELIABLE_ORDERED` mode: frames of one publisher that arrive in any
-- order, as often as the network likes, with the time of each arrival.
use real_time_data_platform.Base.{
  ℕ, ◌+◌, ◌-◌, ◌^◌, ◌≤◌, ◌<◌, ◌≡◌, ◌⊎◌, inl, inr, refl, Bool, true, false, ◌||◌, List, [], ◌∷◌,
  ◌++◌, ◌==◌, arith, length, length-append, Bool-cases,
}
use mathlib.Core.Bool.{false≢true}
use native.Mathlib.Decide.{dec_lt}
use real_time_data_platform.Base.Map.{lookup}
use real_time_data_platform.Protocol.Frame.{OwnedFrame}
use real_time_data_platform.Recovery.Data.{RecoveryConfig}
use real_time_data_platform.Recovery.Engine.Drain.{CountsUp}
use real_time_data_platform.Sequence.Dedup.{contains}
use real_time_data_platform.Delivery.Receiver.{
  DeliveryMode, StreamReceiver, new_receiver, process_data_frame,
}
use real_time_data_platform.Delivery.Receiver.Ordered.{Accounted, IsOrdered, delivered, Delivers}
use real_time_data_platform.Delivery.Receiver.Ordered.Step.{process-Delivers}

-- The receiver after the arrivals, and all that it has delivered.
unfoldable pub run : StreamReceiver → List (OwnedFrame × ℕ) → StreamReceiver × List OwnedFrame
run r [] = (r, [])
run r ((frame, now) ∷ rest) =
    let (r', out) = process_data_frame r frame now in
    let (last, more) = run r' rest in (last, delivered out ++ more)

-- The arrivals are frames of the publisher `p` with the sequences of RTDP/1.
abbrev pub SentBy : ℕ → List (OwnedFrame × ℕ) → Type 0
SentBy p [] = Unit
SentBy p ((frame, now) ∷ rest) =
    ((frame.header.publisher_id ≡ p)
      × (1 ≤ frame.header.sequence)
      × (frame.header.sequence < 2 ^ 64 - 1))
    × SentBy p rest

-- A frame with the sequence `q` is among the arrivals.
abbrev pub arrived : ℕ → List (OwnedFrame × ℕ) → Bool
arrived q [] = false
arrived q ((frame, now) ∷ rest) = frame.header.sequence == q || arrived q rest

pub new_receiver-IsOrdered :
    (p stream : ℕ) (c : RecoveryConfig)
    → IsOrdered p (new_receiver stream DeliveryMode.reliable_ordered c)
unfolding new_receiver contains lookup
new_receiver-IsOrdered p stream c = record {
  reliable = refl;
  ready = inr (refl, refl);
  bounded = omega arith;
  keyed = tt;
  waiting = refl;
  seen = λ q k. cc;
}

CountsUp-append :
    (s n : ℕ) (xs ys : List OwnedFrame)
    → CountsUp s xs
    → n ≡ s + length xs
    → CountsUp n ys
    → CountsUp s (xs ++ ys)
CountsUp-append s n [] ys h e k = let z : n ≡ s = omega arith in rw z at k
CountsUp-append s n (x ∷ xs) ys (h, hs) e k =
    (h, CountsUp-append (s + 1) n xs ys hs (omega arith) k)

-- What a run does: `Delivers`, for all the arrivals together.
record Runs (p : ℕ) (r : StreamReceiver) (fs : List (OwnedFrame × ℕ))
    (o : StreamReceiver × List OwnedFrame) : Type 0 where
  inv : IsOrdered p o.0
  counts : CountsUp r.tracker.expected_sequence o.1
  grows : o.0.tracker.expected_sequence ≡ r.tracker.expected_sequence + length o.1
  accounts :
      (q : ℕ)
      → Accounted r.tracker.expected_sequence r.recovery.buffered_out_of_order q
        ⊎ (arrived q fs ≡ true)
      → Accounted o.0.tracker.expected_sequence o.0.recovery.buffered_out_of_order q

run_step :
    (p : ℕ) (r : StreamReceiver) (frame : OwnedFrame) (now : ℕ) (rest : List (OwnedFrame × ℕ))
    → Delivers p r frame.header.sequence (process_data_frame r frame now)
    → Runs p (process_data_frame r frame now).0 rest (run (process_data_frame r frame now).0 rest)
    → Runs p r ((frame, now) ∷ rest) (run r ((frame, now) ∷ rest))
run_step p r frame now rest d u =
    unfold run in
    record {
      inv = u.inv;
      counts =
          CountsUp-append r.tracker.expected_sequence
            (process_data_frame r frame now).0.tracker.expected_sequence
            (delivered (process_data_frame r frame now).1)
            (run (process_data_frame r frame now).0 rest).1 d.counts d.grows u.counts;
      grows = omega (
        arith,
        d.grows,
        u.grows,
        length-append (delivered (process_data_frame r frame now).1)
            (run (process_data_frame r frame now).0 rest).1,
      );
      accounts = after;
    }
  where
    after :
        (q : ℕ)
        → Accounted r.tracker.expected_sequence r.recovery.buffered_out_of_order q
          ⊎ (arrived q ((frame, now) ∷ rest) ≡ true)
        → Accounted
            (run (process_data_frame r frame now).0 rest).0.tracker.expected_sequence
            (run (process_data_frame r frame now).0 rest).0.recovery.buffered_out_of_order
            q
    after q (inl a) = u.accounts q (inl (d.keeps q a))
    after q (inr b) = elim (Bool-cases (frame.header.sequence == q)) [
      | inl here ↦
          let e : frame.header.sequence ≡ q = ground arith in u.accounts q (inl (rw (← e) d.takes))
      | inr other ↦ u.accounts q (inr (rw other at b))
    ]

run-Runs :
    (p : ℕ) (r : StreamReceiver) (fs : List (OwnedFrame × ℕ))
    → IsOrdered p r
    → SentBy p fs
    → Runs p r fs (run r fs)
run-Runs p r [] v s =
    unfold run in
    record {
      inv = v;
      counts = tt;
      grows = omega arith;
      accounts = λ q a. elim a [ inl b ↦ b | inr b ↦ absurd (false≢true b) ];
    }
run-Runs p r ((frame, now) ∷ rest) v ((by, lo, hi), s) =
    let d = process-Delivers p r frame now v by lo hi in
    run_step p r frame now rest d (run-Runs p (process_data_frame r frame now).0 rest d.inv s)

-- A new receiver in RELIABLE_ORDERED mode that is given DATA frames of one publisher, with
-- sequences from 1 to 2^64 - 2, in any order and any number of times, delivers frames with the
-- sequences 1, 2, 3 and so on, with no gap and no duplicate, and expects the sequence behind the
-- last one.
pub run-CountsUp :
    (p stream : ℕ) (c : RecoveryConfig) (fs : List (OwnedFrame × ℕ))
    → SentBy p fs
    → let (r, out) = run (new_receiver stream DeliveryMode.reliable_ordered c) fs in
      CountsUp 1 out × (r.tracker.expected_sequence ≡ 1 + length out)
run-CountsUp p stream c fs s =
    let u =
      run-Runs p (new_receiver stream DeliveryMode.reliable_ordered c) fs
        (new_receiver-IsOrdered p stream c) s in
    unfold new_receiver in (u.counts, u.grows)

-- If a new receiver in RELIABLE_ORDERED mode is given DATA frames of one publisher, with sequences
-- from 1 to 2^64 - 2, and the sequences 1 to n are all among them, in whatever order and with
-- whatever failures of replay requests on the way, it has delivered at least n frames.
pub run_complete :
    (p stream n : ℕ) (c : RecoveryConfig) (fs : List (OwnedFrame × ℕ))
    → SentBy p fs
    → ((q : ℕ) → 1 ≤ q → q ≤ n → arrived q fs ≡ true)
    → n ≤ length (run (new_receiver stream DeliveryMode.reliable_ordered c) fs).1
run_complete p stream n c fs s all = elim (dec_lt (length out) n) [
  | yes short ↦ elim (u.accounts e (inr (all e (omega (arith, next)) (omega (arith, next))))) [
    | inl lt ↦ absurd (omega arith)
    | inr there ↦ absurd (there u.inv.waiting)
  ]
  | no enough ↦ omega arith
]
  where
    start : StreamReceiver
    start = new_receiver stream DeliveryMode.reliable_ordered c

    out : List OwnedFrame
    out = (run start fs).1

    e : ℕ
    e = (run start fs).0.tracker.expected_sequence

    u : Runs p start fs (run start fs)
    u = run-Runs p start fs (new_receiver-IsOrdered p stream c) s

    next : e ≡ 1 + length out
    next = (run-CountsUp p stream c fs s).1
