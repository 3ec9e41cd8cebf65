-- ===== src/Transport/System/Behind.antt =====
-- A receiver (core/src/delivery/modes.rs) whose gap a replay has closed, at the frame behind it.
use real_time_data_platform.Base.{
  ℕ, ◌+◌, ◌-◌, ◌^◌, ◌≤◌, ◌<◌, ◌≡◌, inl, inr, refl, ap, ◌∙◌, false, some, [], arith, length,
  Bool-cases,
}
use real_time_data_platform.Base.Map.{lookup, length-remove-le}
use real_time_data_platform.Protocol.Frame.{OwnedFrame}
use real_time_data_platform.Sequence.Dedup.{contains, is_duplicate_and_record}
use real_time_data_platform.Sequence.Dedup.Keys.{contains-record}
use real_time_data_platform.Recovery.Engine.InOrder.{Settled}
use real_time_data_platform.Delivery.Receiver.{StreamReceiver, Outcome}
use real_time_data_platform.Delivery.Receiver.Ordered.{key_of, IsOrdered}
use real_time_data_platform.Delivery.Receiver.Ordered.Gap.{Asks, IsBehind, awaiting}
use real_time_data_platform.Transport.System.Hearing.{SameReceiver}

-- A receiver `r` that has asked at the frame `held`, as `o`, and has been answered, as `r'`, is behind
-- at the next frame `f`.
module _ (r r' : StreamReceiver) (held f : OwnedFrame) (now : ℕ) (o : Outcome)
    (v : IsOrdered held.header.publisher_id r) (nothing : r.recovery.buffered_out_of_order ≡ [])
    (asked : Asks r held now o) (same : SameReceiver r' o.0)
    (settled : Settled (awaiting r held now) r'.recovery)
    (by : f.header.publisher_id ≡ held.header.publisher_id)
    (next : f.header.sequence ≡ held.header.sequence + 1) where
  next_not_seen :
      r.tracker.expected_sequence < held.header.sequence
      → contains r'.dedup.recent_keys (key_of r'.stream_id f.header.publisher_id f.header.sequence)
        ≡ false
  next_not_seen ahead =
      rw (same.dedup, asked.dedup, same.stream, asked.stream, by)
        (elim (Bool-cases (
          contains
            (is_duplicate_and_record r.dedup
              (key_of r.stream_id held.header.publisher_id held.header.sequence)).0.recent_keys
            (key_of r.stream_id held.header.publisher_id f.header.sequence))) [
              | inl known ↦
                  elim (contains-record r.dedup
                    (key_of r.stream_id held.header.publisher_id held.header.sequence)
                    (key_of r.stream_id held.header.publisher_id f.header.sequence) known) [
                      | inl old ↦ elim (v.seen f.header.sequence old) [
                        | inl lt ↦ absurd (omega arith)
                        | inr there ↦ absurd (there (rw nothing (unfold lookup in refl)))
                      ]
                      | inr own ↦ absurd (ground arith)
                    ]
              | inr new ↦ new
            ])

  pub next-IsBehind :
      r.tracker.expected_sequence < held.header.sequence
      → f.header.sequence < 2 ^ 64 - 1
      → f.header.sequence - r.tracker.expected_sequence ≤ r.recovery.config.max_replay_range
      → length r.recovery.outstanding_requests < r.recovery.config.max_outstanding_requests
      → IsBehind r' f
  next-IsBehind ahead small range place =
      let expected : r'.tracker.expected_sequence ≡ r.tracker.expected_sequence =
        ap (λ t. t.expected_sequence) same.tracker ∙ asked.expected in
      let active : r'.tracker.active_publisher_id ≡ some held.header.publisher_id =
        ap (λ t. t.active_publisher_id) same.tracker ∙ asked.active in
      let removed = length-remove-le r.recovery.next_request_id r.recovery.outstanding_requests in
      record {
        reliable = same.mode ∙ asked.mode ∙ v.reliable;
        ready = rw by (inl active);
        nothing_held = settled.nothing_held;
        ahead = omega (arith, expected);
        small = small;
        room = rw settled.config (record {
          in_range = omega (arith, expected);
          has_place = omega (arith, settled.requests, removed);
        });
        not_seen = next_not_seen ahead;
      }
