-- ===== src/Transport/System/Stream.antt =====
-- A publisher that is followed from its start on (transports/udp/src), with one gap.
use real_time_data_platform.Base.{
  ℕ, zero, suc, ◌+◌, ◌-◌, ◌^◌, ◌≤◌, ◌<◌, ◌≡◌, refl, sym, ap, subst, ◌∙◌, Bool, true, none, some,
  List, [], ◌∷◌, ◌++◌, arith, length,
}
use real_time_data_platform.Protocol.Header.{new_data_header}
use real_time_data_platform.Protocol.Frame.{OwnedFrame, new_data_frame}
use real_time_data_platform.Buffers.Ring.Retention.{oldest, published}
use real_time_data_platform.Delivery.Receiver.{DeliveryMode, new_receiver, process_data_frame}
use real_time_data_platform.Delivery.Receiver.Ordered.Runs.{new_receiver-IsOrdered}
use real_time_data_platform.Sequence.Tracker.{new_tracker}
use real_time_data_platform.Recovery.Engine.{new_engine}
use real_time_data_platform.Delivery.Receiver.Ordered.Gap.{Accepts}
use real_time_data_platform.Transport.Publisher.{Publisher, UdpPublisherConfig, new_publisher}
use real_time_data_platform.Transport.Publisher.Opened.{codec_for, new_publisher-IsOpened}
use real_time_data_platform.Transport.Publisher.Replay.{frame_of}
use real_time_data_platform.Transport.Subscriber.{
  UdpSubscriberConfig, new_subscriber, new_worker, SocketAddr, Arrival, Worker, Output,
  send_optional, turn,
}
use real_time_data_platform.Transport.System.Quiet.{
  Clock, next_round, after_rounds, InTime, IsQuiet, turn-IsQuiet,
}
use real_time_data_platform.Transport.System.Hearing.{hear_all, Same, Same-append}
use real_time_data_platform.Transport.System.Published.{published_last, published-append}
use real_time_data_platform.Transport.System.Ready as Ready
use real_time_data_platform.Transport.System.Ready.{
  IsPublishable, IsReady, own_hist-IsSendable, heard_packet, tuned,
}
use real_time_data_platform.Wire.{Wire}
use real_time_data_platform.Transport.System.Gap.{gap_recovered}
use real_time_data_platform.Delivery.Receiver.Ordered.Next.{process-Follows}
use real_time_data_platform.Transport.System.Hearing.{after_all, hear_all-append, after_all-append}

module _ (w : Wire) (now_ns : ℕ → ℕ) (payload : ℕ → List ℕ) (taken : ℕ → Bool) (p : Publisher)
    (config : UdpPublisherConfig) (made : new_publisher config ≡ some p)
    (fit : IsPublishable now_ns payload config) where
  abbrev hist : ℕ → OwnedFrame
  hist = Ready.hist w now_ns payload taken p

  abbrev sent : ℕ → List (List ℕ)
  sent = Ready.sent w now_ns payload taken p

  abbrev sent_upto : ℕ → List (List ℕ)
  sent_upto = Ready.sent_upto w now_ns payload taken p

  -- What the worker `k` has become, `k'`, after it has heard all of `frames`, up to sequence `n`.
  record IsCurrent (k k' : Worker) (n : ℕ) (offered frames : List OwnedFrame) : Type 0 where
    ready : IsReady config k'
    expected : k'.stream_rx.tracker.expected_sequence ≡ suc n
    recovery : k'.stream_rx.recovery ≡ k.stream_rx.recovery
    offers : Same offered frames

  -- The same, from the packets that it heard.
  abbrev Heard : Worker → SocketAddr → Clock → ℕ → List (List ℕ) → List OwnedFrame → Type 0
  Heard k peer clock n packets frames =
      IsCurrent k (after_all w k peer clock packets) n (hear_all w k peer clock packets) frames

  hears_next :
      (k : Worker) (peer : SocketAddr) (clock : Clock) (n : ℕ)
      → k.stream_rx.recovery.outstanding_requests ≡ []
      → IsReady config k
      → k.stream_rx.tracker.expected_sequence ≡ suc n
      → suc n < 2 ^ 64 - 1
      → taken (suc n) ≡ true
      → Heard k peer clock (suc n) (sent n) (hist (suc n) ∷ [])
  unfolding frame_of new_data_frame new_data_header hear_all after_all send_optional
  hears_next k peer clock n idle ready here small was_taken =
      let now = (clock 0).1 in
      let quiet : IsQuiet k.stream_rx.recovery clock = rw idle tt in
      let (packet, held, e, same, took) =
        heard_packet w now_ns payload taken p config k made fit (tuned ready) n peer now small
          was_taken in
      let o = new_publisher-IsOpened config p made in
      let stamped : held.header.sequence ≡ suc n = same.sequence in
      let by : held.header.publisher_id ≡ config.publisher_id = same.publisher_id ∙ o.publisher in
      let follows =
        process-Follows k.stream_rx held now (rw by ready.ordered) ready.nothing_held (omega arith)
          (omega arith) (omega arith) in
      let step =
        turn-IsQuiet w k clock peer packet quiet
        ∙ ap (λ (s : Worker × Output). (s.0, s.1, true)) (took (held ∷ []) none follows.answer) in
      let r' = (process_data_frame k.stream_rx held now).0 in
      let k' : Worker = record k { stream_rx = r' } in
      let current : IsCurrent k k' (suc n) (held ∷ []) (hist (suc n) ∷ []) = record {
        ready = record {
          codec = ready.codec;
          stream = ready.stream;
          ordered = rw by at follows.ordered;
          nothing_held = rw follows.recovery ready.nothing_held;
          id_small = rw follows.recovery ready.id_small;
        };
        expected = omega (arith, follows.expected);
        recovery = follows.recovery;
        offers = (same, tt);
      } in
      subst (λ packets. Heard k peer clock (suc n) packets (hist (suc n) ∷ [])) (sym e)
        (subst
          (λ (s : Worker × Output × Bool).
            IsCurrent k s.0 (suc n) (s.1.offered ++ []) (hist (suc n) ∷ []))
          (sym step) current)

  hears_upto :
      (k : Worker) (peer : SocketAddr) (clock : Clock) (n : ℕ)
      → k.stream_rx.recovery.outstanding_requests ≡ []
      → IsReady config k
      → k.stream_rx.tracker.expected_sequence ≡ 1
      → n < 2 ^ 64 - 1
      → ((s : ℕ) → 1 ≤ s → s ≤ n → taken s ≡ true)
      → Heard k peer clock n (sent_upto n) (published hist n 1)
  unfolding Ready.sent_upto hear_all after_all published
  hears_upto k peer clock zero idle ready here small were_taken = record {
    ready = ready;
    expected = here;
    recovery = refl;
    offers = tt;
  }
  hears_upto k peer clock (suc n) idle ready here small were_taken =
      let before =
        hears_upto k peer clock n idle ready here (omega arith)
          (λ s lo hi. were_taken s lo (omega arith)) in
      let k' = after_all w k peer clock (sent_upto n) in
      let later = after_rounds (length (sent_upto n)) clock in
      let next =
        hears_next k' peer later n (ap (λ e. e.outstanding_requests) before.recovery ∙ idle)
          before.ready before.expected small (were_taken (suc n) (omega arith) (omega arith)) in
      let heard = after_all-append w k peer clock (sent_upto n) (sent n) in
      let one_more : 1 + n ≡ suc n = omega arith in
      let listed : published hist (suc n) 1 ≡ published hist n 1 ++ hist (suc n) ∷ [] =
        published_last hist n 1 ∙ ap (λ s. published hist n 1 ++ hist s ∷ []) one_more in
      record {
        ready = subst (IsReady config) (sym heard) next.ready;
        expected = ap (λ k''. k''.stream_rx.tracker.expected_sequence) heard ∙ next.expected;
        recovery = ap (λ k''. k''.stream_rx.recovery) heard ∙ next.recovery ∙ before.recovery;
        offers = subst (Same (hear_all w k peer clock (sent_upto n ++ sent n))) (sym listed) (
            subst (λ out. Same out (published hist n 1 ++ hist (suc n) ∷ []))
              (sym (hear_all-append w k peer clock (sent_upto n) (sent n)))
              (Same-append (hear_all w k peer clock (sent_upto n)) (published hist n 1)
                (hear_all w k' peer later (sent n)) (hist (suc n) ∷ []) before.offers next.offers));
      }

  pub new_subscriber-IsReady :
      (config' : UdpSubscriberConfig)
      → config'.mode ≡ DeliveryMode.reliable_ordered
      → config'.stream_id ≡ config.stream_id
      → config'.max_frame_size ≡ config.max_frame_size
      → IsReady config (new_subscriber config')
  unfolding new_subscriber new_worker new_receiver new_engine
  new_subscriber-IsReady config' mode stream size = record {
    codec = ap codec_for size;
    stream = stream;
    ordered =
        rw mode
          (new_receiver-IsOrdered config.publisher_id config'.stream_id config'.recovery_config);
    nothing_held = refl;
    id_small = omega arith;
  }

  -- A new subscriber that hears every packet is offered every frame.
  pub all_heard :
      (config' : UdpSubscriberConfig) (peer : SocketAddr) (clock : Clock) (n : ℕ)
      → config'.mode ≡ DeliveryMode.reliable_ordered
      → config'.stream_id ≡ config.stream_id
      → config'.max_frame_size ≡ config.max_frame_size
      → n < 2 ^ 64 - 1
      → ((s : ℕ) → 1 ≤ s → s ≤ n → taken s ≡ true)
      → Same (hear_all w (new_subscriber config') peer clock (sent_upto n)) (published hist n 1)
  unfolding new_subscriber new_worker new_receiver new_tracker new_engine
  all_heard config' peer clock n mode stream size small were_taken =
      let k = new_subscriber config' in
      let heard =
        hears_upto k peer clock n refl (new_subscriber-IsReady config' mode stream size) refl small
          were_taken in
      heard.offers

  -- A new subscriber in RELIABLE_ORDERED mode hears the packets of a new publisher of its stream
  -- up to sequence m, at whatever times, loses those behind m up to n, and hears that of n + 1. At
  -- this it offers nothing and sends one packet to the sender. If it then hears, one in each round
  -- of its loop, the packets with which the publisher answers this packet, and no timeout check of
  -- these rounds comes as late as the retry timeout after the request was made, then it has
  -- offered, in all, just the frames 1 to n + 1 with their published contents, in order and each
  -- once. The publisher has published up to a sequence after n and below 2^64 - 1, whatever became
  -- of the other packets, its ring still has m + 1, and the range that is lost is within the limit
  -- of the configuration, which allows a request. The frames are of at most 1500 bytes, with room
  -- for a request and with 8 bytes to spare, times and ids have 64 bits, and the socket takes the
  -- packets that are heard.
  pub loss_recovered :
      (config' : UdpSubscriberConfig) (peer : SocketAddr) (early clock : Clock)
      (m n last started_id : ℕ)
      → InTime config'.recovery_config (next_round clock) (clock 0).1
      → config'.mode ≡ DeliveryMode.reliable_ordered
      → config'.stream_id ≡ config.stream_id
      → config'.max_frame_size ≡ config.max_frame_size
      → n - m ≤ config'.recovery_config.max_replay_range
      → 0 < config'.recovery_config.max_outstanding_requests
      → ((s : ℕ) → 1 ≤ s → s ≤ m → taken s ≡ true)
      → taken (suc n) ≡ true
      → m < n
      → n < last
      → last < 2 ^ 64 - 1
      → oldest config.ring_buffer_capacity 1 last ≤ suc m
      → (let k = new_subscriber config' in
          let k' = after_all w k peer early (sent_upto m) in
          (packet : List ℕ) × (request : List ℕ) × (sent n ≡ packet ∷ [])
          × ((turn w k' (clock 0).0 (Arrival.packet peer packet) (clock 0).1).1
              ≡ record { sent = (peer, request) ∷ []; offered = [] })
          × Same
              (hear_all w k peer early (sent_upto m)
                ++ hear_all w k' peer clock
                    (packet ∷ Ready.reply w now_ns payload taken p last started_id request))
              (published hist (suc n) 1))
  unfolding new_subscriber new_worker new_receiver new_tracker new_engine hear_all
  loss_recovered config' peer early clock m n last started_id in_time mode stream size range place
        were_taken was_taken some_missing later bound kept =
      let k = new_subscriber config' in
      let before =
        hears_upto k peer early m refl (new_subscriber-IsReady config' mode stream size) refl
          (omega arith) were_taken in
      let k' = after_all w k peer early (sent_upto m) in
      let accepts : Accepts k'.stream_rx.recovery k'.stream_rx.tracker.expected_sequence n =
        rw (before.expected, before.recovery)
          (record { in_range = omega arith; has_place = place }) in
      let quiet : IsQuiet k'.stream_rx.recovery clock = rw before.recovery tt in
      let (packet, request, one, (answer, closed)) =
        gap_recovered w now_ns payload taken p config k' made fit before.ready n last peer clock
          started_id quiet (rw before.recovery in_time) was_taken accepts
          (omega (arith, before.expected)) later bound (rw before.expected kept) in
      let rs = Ready.reply w now_ns payload taken p last started_id request in
      let rest =
        hear_all w (turn w k' (clock 0).0 (Arrival.packet peer packet) (clock 0).1).0 peer
          (next_round clock) rs in
      let e = k'.stream_rx.tracker.expected_sequence in
      let expects : e ≡ 1 + m = omega (arith, before.expected) in
      let count : n + 2 - (1 + m) ≡ n + 1 - m = omega arith in
      let total : m + (n + 1 - m) ≡ suc n = omega arith in
      let closed' : Same rest (published hist (n + 1 - m) (1 + m)) =
        subst (Same rest)
          (ap (λ s. published hist (n + 2 - s) s) expects
            ∙ ap (λ rounds. published hist rounds (1 + m)) count)
          closed in
      let listed : published hist (suc n) 1
          ≡ published hist m 1 ++ published hist (n + 1 - m) (1 + m) =
        ap (λ s. published hist s 1) (sym total) ∙ published-append hist m (n + 1 - m) 1 in
      let heard : hear_all w k' peer clock (packet ∷ rs) ≡ rest =
        ap (λ (out : Output). out.offered ++ rest) answer in
      let first = hear_all w k peer early (sent_upto m) in
      (
        packet,
        request,
        one,
        answer,
        subst (Same (first ++ hear_all w k' peer clock (packet ∷ rs))) (sym listed) (
            subst
              (λ out.
                Same (first ++ out) (published hist m 1 ++ published hist (n + 1 - m) (1 + m)))
              (sym heard)
              (Same-append first (published hist m 1) rest (published hist (n + 1 - m) (1 + m))
                before.offers closed')),
      )
