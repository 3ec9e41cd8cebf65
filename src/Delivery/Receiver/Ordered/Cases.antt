-- ===== src/Delivery/Receiver/Ordered/Cases.antt =====
-- The three things that a frame can do to an ordered receiver.
use real_time_data_platform.Base.{
  ℕ, ◌+◌, ◌-◌, ◌^◌, ◌<◌, ◌≡◌, ◌⊎◌, inl, inr, refl, sym, ◌∙◌, true, Option, none, some, List, [],
  ◌∷◌, if◌then◌else◌, ◌==◌, arith, length,
}
use real_time_data_platform.Base.Map.{lookup, insert, lookup-insert, insert-Entries}
use real_time_data_platform.Error.{RtdpError, Result, ok}
use real_time_data_platform.Protocol.Frame.{OwnedFrame}
use real_time_data_platform.Sequence.Tracker.{Tracker}
use real_time_data_platform.Sequence.Dedup.{DuplicateFilter, contains, is_duplicate_and_record}
use real_time_data_platform.Sequence.Dedup.Keys.{contains-record}
use real_time_data_platform.Recovery.Data.{RecoveryEngine, ReplayRequestPayload}
use real_time_data_platform.Recovery.Engine.Drain.{Keyed, Drained}
use real_time_data_platform.Delivery.Receiver.{StreamReceiver, Delivery, note_drained}
use real_time_data_platform.Delivery.Receiver.Ordered.{
  Accounted, key_of, IsOrdered, delivered, Delivers, note_drained_lem,
}

-- A receiver whose tracker and filter have seen the frame, and whose buffer is as before.
module _ (p : ℕ) (r : StreamReceiver) (v : IsOrdered p r) (frame : OwnedFrame)
    (small : frame.header.sequence < 2 ^ 64 - 1) where
  -- Nothing is delivered and nothing is buffered.
  pub unchanged :
      (t : Tracker) (d : DuplicateFilter) (request : Option ReplayRequestPayload)
      → t.active_publisher_id ≡ some p
      → t.expected_sequence ≡ r.tracker.expected_sequence
      → ((q : ℕ)
          → contains d.recent_keys (key_of r.stream_id p q) ≡ true
          → Accounted r.tracker.expected_sequence r.recovery.buffered_out_of_order q)
      → Accounted r.tracker.expected_sequence r.recovery.buffered_out_of_order frame.header.sequence
      → Delivers p r frame.header.sequence (record r { tracker = t; dedup = d }, ok ([], request))
  unchanged t d request active same seen here = record {
    inv = record {
      reliable = v.reliable;
      ready = inl active;
      bounded = rw same v.bounded;
      keyed = v.keyed;
      waiting = rw same v.waiting;
      seen = λ q k. rw same (seen q k);
    };
    counts = tt;
    grows = omega arith;
    keeps = λ q a. rw same a;
    takes = rw same here;
  }

  -- The frame is ahead of the expected one, and is buffered.
  pub buffered :
      (t : Tracker) (d : DuplicateFilter) (e : RecoveryEngine) (res : Result Delivery RtdpError)
      → t.active_publisher_id ≡ some p
      → t.expected_sequence ≡ r.tracker.expected_sequence
      → ((q : ℕ)
          → contains d.recent_keys (key_of r.stream_id p q) ≡ true
          → Accounted r.tracker.expected_sequence r.recovery.buffered_out_of_order q
            ⊎ (q ≡ frame.header.sequence))
      → r.tracker.expected_sequence < frame.header.sequence
      → e.buffered_out_of_order
        ≡ insert frame.header.sequence frame r.recovery.buffered_out_of_order
      → delivered res ≡ []
      → Delivers p r frame.header.sequence (record r { tracker = t; dedup = d; recovery = e }, res)
  buffered t d e res active same seen ahead inserted nothing = record {
    inv = record {
      reliable = v.reliable;
      ready = inl active;
      bounded = rw same v.bounded;
      keyed = rw inserted (
          insert-Entries Keyed frame.header.sequence frame r.recovery.buffered_out_of_order
            (refl, small) v.keyed);
      waiting = rw (same, inserted) (ground (arith, look r.tracker.expected_sequence, v.waiting));
      seen = λ q k. rw (same, inserted) (after q (seen q k));
    };
    counts = rw nothing tt;
    grows = rw nothing (omega arith);
    keeps = λ q a. rw (same, inserted) (after q (inl a));
    takes = rw (same, inserted) (after frame.header.sequence (inr refl));
  }
    where
      look :
          (q : ℕ)
          → lookup q (insert frame.header.sequence frame r.recovery.buffered_out_of_order) ≡ (
              if frame.header.sequence == q
              then some frame
              else lookup q r.recovery.buffered_out_of_order)
      look q = lookup-insert q frame.header.sequence frame r.recovery.buffered_out_of_order

      after :
          (q : ℕ)
          → Accounted r.tracker.expected_sequence r.recovery.buffered_out_of_order q
            ⊎ (q ≡ frame.header.sequence)
          → Accounted r.tracker.expected_sequence
              (insert frame.header.sequence frame r.recovery.buffered_out_of_order)
              q
      after q (inl (inl lt)) = inl lt
      after q (inl (inr there)) = inr (λ e. there (ground (arith, look q)))
      after q (inr here) = inr (λ e. ground (arith, look q))

  -- The frame is the expected one: it is delivered with the buffered frames that follow it.
  pub in_order :
      (t : Tracker) (d : DuplicateFilter) (highest : ℕ) (e : RecoveryEngine)
      (frames : List OwnedFrame)
      → t.active_publisher_id ≡ some p
      → frame.header.sequence ≡ r.tracker.expected_sequence
      → t.expected_sequence ≡ frame.header.sequence + 1
      → ((q : ℕ)
          → contains d.recent_keys (key_of r.stream_id p q) ≡ true
          → Accounted r.tracker.expected_sequence r.recovery.buffered_out_of_order q
            ⊎ (q ≡ frame.header.sequence))
      → Drained
          (frame.header.sequence + 1)
          r.recovery.buffered_out_of_order
          (frames, e.buffered_out_of_order)
      → let r' = record r {
        tracker = t;
        dedup = d;
        highest_delivered_sequence = highest;
        recovery = e;
      } in
        Delivers p r frame.header.sequence (note_drained r' frames, ok (frame ∷ frames, none))
  in_order t d highest e frames active here next seen dr =
      let r' : StreamReceiver = record r {
        tracker = t;
        dedup = d;
        highest_delivered_sequence = highest;
        recovery = e;
      } in
      let (x, a, dd, rec, mo, st) =
        note_drained_lem r' frames (rw next dr.counts) (omega (arith, dr.fits)) in
      let x' : (note_drained r' frames).tracker.expected_sequence
          ≡ frame.header.sequence + 1 + length frames =
        omega (arith, x) in
      record {
        inv = record {
          reliable = mo ∙ v.reliable;
          ready = inl (a ∙ active);
          bounded = omega (arith, x', dr.fits);
          keyed = rw rec dr.entries;
          waiting = rw (rec, x') dr.stops;
          seen = λ q k. rw (rec, x') (after q (seen q (rw (dd, st) at k)));
        };
        counts = (here, rw (← here) dr.counts);
        grows = omega (arith, x');
        keeps = λ q c. rw (rec, x') (after q (inl c));
        takes = rw (rec, x') (inl (omega arith));
      }
    where
      after :
          (q : ℕ)
          → Accounted r.tracker.expected_sequence r.recovery.buffered_out_of_order q
            ⊎ (q ≡ frame.header.sequence)
          → Accounted (frame.header.sequence + 1 + length frames) e.buffered_out_of_order q
      after q (inl (inl lt)) = inl (omega arith)
      after q (inl (inr there)) = elim (dr.leaves q) [
        | inl same ↦ inr (λ none_left. there (sym same ∙ none_left))
        | inr range ↦ inl (omega (arith, range))
      ]
      after q (inr at_it) = inl (omega arith)

  -- What the filter knows after it was asked about the frame.
  pub seen_after :
      (q : ℕ)
      → contains
          (is_duplicate_and_record r.dedup
            (key_of r.stream_id p frame.header.sequence)).0.recent_keys
          (key_of r.stream_id p q)
        ≡ true
      → Accounted r.tracker.expected_sequence r.recovery.buffered_out_of_order q
        ⊎ (q ≡ frame.header.sequence)
  seen_after q k =
      elim (contains-record r.dedup (key_of r.stream_id p frame.header.sequence)
        (key_of r.stream_id p q) k) [ inl old ↦ inl (v.seen q old) | inr new ↦ inr (ground arith) ]
