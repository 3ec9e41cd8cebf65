-- ===== src/Delivery/Receiver/Latest.antt =====
-- Runs of a receiver in `LATEST` mode (core/src/delivery/modes.rs).
use Prim.Native.Nat.{max}
use real_time_data_platform.Base.{
  ℕ, ◌≤◌, ◌<◌, ◌≡◌, inl, inr, refl, List, [], ◌∷◌, ltb, arith, Bool-cases, none, true, false,
}
use real_time_data_platform.Base.Part.{IsPart}
use real_time_data_platform.Error.{ok}
use real_time_data_platform.Protocol.Frame.{OwnedFrame}
use real_time_data_platform.Sequence.Tracker.{observe}
use real_time_data_platform.Delivery.Receiver.{
  DeliveryMode, StreamReceiver, deliver_latest, deliver_mode, process_data_frame,
}
use real_time_data_platform.Delivery.Receiver.Ordered.Runs.{run}

-- The sequences of some frames ascend strictly, from above `lo`.
abbrev pub Ascends : ℕ → List OwnedFrame → Type 0
Ascends lo [] = Unit
Ascends lo (f ∷ fs) = (lo < f.header.sequence) × Ascends f.header.sequence fs

-- The greatest sequence of some arrivals, and of `h`.
abbrev pub newest : ℕ → List (OwnedFrame × ℕ) → ℕ
newest h [] = h
newest h ((frame, now) ∷ rest) = newest (max h frame.header.sequence) rest

-- The frames that come.
abbrev pub frames_of : List (OwnedFrame × ℕ) → List OwnedFrame
frames_of [] = []
frames_of ((frame, now) ∷ rest) = frame ∷ frames_of rest

-- The sequence of the last frame, and `h` when there is none.
abbrev pub last_sequence : ℕ → List OwnedFrame → ℕ
last_sequence h [] = h
last_sequence h (f ∷ fs) = last_sequence f.header.sequence fs

-- The receiver after the tracker has seen a frame.
abbrev tracked : StreamReceiver → OwnedFrame → StreamReceiver
tracked r frame = record r {
  tracker = (observe r.tracker frame.header.publisher_id frame.header.sequence).0;
}

module _ (r : StreamReceiver) (frame : OwnedFrame) (now : ℕ)
    (is_latest : r.mode ≡ DeliveryMode.latest) where
  process_newer :
      r.highest_delivered_sequence < frame.header.sequence
      → process_data_frame r frame now ≡ (
        record (tracked r frame) { highest_delivered_sequence = frame.header.sequence },
        ok (frame ∷ [], none),
      )
  unfolding process_data_frame deliver_mode deliver_latest
  process_newer h =
      let newer : ltb r.highest_delivered_sequence frame.header.sequence ≡ true = ground arith in
      rw (is_latest, deliver_mode, newer) refl

  process_stale :
      frame.header.sequence ≤ r.highest_delivered_sequence
      → process_data_frame r frame now ≡ (tracked r frame, ok ([], none))
  unfolding process_data_frame deliver_mode deliver_latest
  process_stale h =
      let stale : ltb r.highest_delivered_sequence frame.header.sequence ≡ false = ground arith in
      rw (is_latest, deliver_mode, stale) refl

-- A receiver in LATEST mode that is given any frames delivers some of them, in the order in which
-- they came, with strictly ascending sequences, all above its highest delivered one. It ends with
-- the greatest sequence that has arrived, if above the highest at first, as its highest, and this
-- is the sequence of the last frame that it delivered, if it delivered any; when nothing newer
-- came, it delivers nothing.
pub run-Ascends :
    (r : StreamReceiver) (arrivals : List (OwnedFrame × ℕ))
    → r.mode ≡ DeliveryMode.latest
    → (let (r', delivered) = run r arrivals in
        Ascends r.highest_delivered_sequence delivered
        × IsPart delivered (frames_of arrivals)
        × (last_sequence r.highest_delivered_sequence delivered
            ≡ newest r.highest_delivered_sequence arrivals)
        × (r'.highest_delivered_sequence ≡ newest r.highest_delivered_sequence arrivals))
unfolding run
run-Ascends r [] is_latest = (tt, IsPart.none_left, refl, refl)
run-Ascends r ((frame, now) ∷ rest) is_latest =
    let s = frame.header.sequence in
    let h = r.highest_delivered_sequence in
    elim (Bool-cases (ltb h s)) [
      | inl b ↦
          let newer : h < s = ground arith in
          let greater : max h s ≡ s = omega arith in
          let (ascends, part, last, highest) =
            run-Ascends (record (tracked r frame) { highest_delivered_sequence = s }) rest
              is_latest in
          rw (process_newer r frame now is_latest newer, greater)
            ((newer, ascends), IsPart.kept frame part, last, highest)
      | inr b ↦
          let stale : s ≤ h = ground arith in
          let greater : max h s ≡ h = omega arith in
          let (ascends, part, last, highest) = run-Ascends (tracked r frame) rest is_latest in
          rw (process_stale r frame now is_latest stale, greater)
            (ascends, IsPart.lost frame part, last, highest)
    ]
