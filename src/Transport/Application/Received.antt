-- ===== src/Transport/Application/Received.antt =====
-- What the application receives from a subscriber (transports/udp/src/subscriber.rs).
use real_time_data_platform.Base.{
  ◌+◌, ◌≤◌, ◌<◌, ◌≡◌, ◌⊎◌, inl, inr, refl, sym, ap, ◌∙◌, ◌&&◌, List, [], ◌∷◌, ◌++◌, append-nil,
  append_assoc, arith, length, length-append, Bool-cases,
}
use real_time_data_platform.Base.Part.{IsPart}
use native.Mathlib.Decide.{dec_lt}
use real_time_data_platform.Protocol.Frame.{OwnedFrame}
use real_time_data_platform.Transport.Channel.{Channel}
use real_time_data_platform.Transport.Subscriber.{UdpSubscriberConfig, turn}
use real_time_data_platform.Transport.Application.{
  Act, UdpSubscriber, offer_all, Outcome, received_one, try_recv, drop_subscriber, worker_round,
  happen, run, new_udp_subscriber,
}
use real_time_data_platform.Wire.{Wire}

append-IsPart :
    {xs ys us vs : List OwnedFrame} → IsPart xs ys → IsPart us vs → IsPart (xs ++ us) (ys ++ vs)
append-IsPart IsPart.none_left q = q
append-IsPart (IsPart.kept x p) q = IsPart.kept x (append-IsPart p q)
append-IsPart (IsPart.lost y p) q = IsPart.lost y (append-IsPart p q)

module _ (ch : Channel) where
  -- What becomes of the queue `q` when `offered` is offered: `received` is taken out of it.
  pub record Passes (q q' : ch.Queue) (offered received : List OwnedFrame) : Type 0 where
    pub sent : List OwnedFrame
    pub part : IsPart sent offered
    pub in_order : received ++ ch.waiting q' ≡ ch.waiting q ++ sent
    pub all : length (ch.waiting q) + length offered ≤ ch.capacity q → sent ≡ offered
    pub same_capacity : ch.capacity q' ≡ ch.capacity q

  one-Passes :
      (q : ch.Queue) (f : OwnedFrame) → 0 < ch.capacity q → Passes q (ch.try_send q f).0 (f ∷ []) []
  one-Passes q f some_room = elim (dec_lt (length (ch.waiting q)) (ch.capacity q)) [
    | yes room ↦ record {
      sent = f ∷ [];
      part = IsPart.kept f IsPart.none_left;
      in_order = ch.send_room q f room;
      all = λ h. refl;
      same_capacity = ch.send_capacity q f;
    }
    | no full ↦ record {
      sent = [];
      part = IsPart.lost f IsPart.none_left;
      in_order = ch.send_full q f some_room (omega arith) ∙ sym (append-nil (ch.waiting q));
      all = λ h. absurd (omega arith);
      same_capacity = ch.send_capacity q f;
    }
  ]

  then-Passes :
      (q q' q'' : ch.Queue) (offered received offered' received' : List OwnedFrame)
      → Passes q q' offered received
      → Passes q' q'' offered' received'
      → Passes q q'' (offered ++ offered') (received ++ received')
  then-Passes q q' q'' offered received offered' received' p p' = record {
    sent = p.sent ++ p'.sent;
    part = append-IsPart p.part p'.part;
    in_order =
        append_assoc received received' (ch.waiting q'')
        ∙ ap (λ xs. received ++ xs) p'.in_order
        ∙ sym (append_assoc received (ch.waiting q') p'.sent)
        ∙ ap (λ xs. xs ++ p'.sent) p.in_order
        ∙ append_assoc (ch.waiting q) p.sent p'.sent;
    all = λ h.
        let split = length-append offered offered' in
        let first = p.all (omega (arith, split)) in
        let lengths = ap length p.in_order in
        let before = length-append received (ch.waiting q') in
        let after = length-append (ch.waiting q) p.sent in
        let sent_all = ap length first in
        let next =
          p'.all (omega (arith, split, lengths, before, after, sent_all, p.same_capacity)) in
        ap (λ xs. xs ++ p'.sent) first ∙ ap (λ xs. offered ++ xs) next;
    same_capacity = p'.same_capacity ∙ p.same_capacity;
  }

  nothing-Passes : (q : ch.Queue) → Passes q q [] []
  nothing-Passes q = record {
    sent = [];
    part = IsPart.none_left;
    in_order = sym (append-nil (ch.waiting q));
    all = λ h. refl;
    same_capacity = refl;
  }

  offer_all-Passes :
      (q : ch.Queue) (fs : List OwnedFrame) → 0 < ch.capacity q → Passes q (offer_all ch q fs) fs []
  unfolding offer_all
  offer_all-Passes q [] some_room = nothing-Passes q
  offer_all-Passes q (f ∷ fs) some_room =
      let first = one-Passes q f some_room in
      then-Passes q (ch.try_send q f).0 (offer_all ch (ch.try_send q f).0 fs) (f ∷ []) [] fs []
        first (offer_all-Passes (ch.try_send q f).0 fs (rw first.same_capacity some_room))

  receive-Passes :
      (q : ch.Queue) → Passes q (ch.try_recv q).0 [] (received_one ch (ch.try_recv q).1)
  receive-Passes q = by_cases (ch.waiting q) refl
    where
      by_cases :
          (fs : List OwnedFrame)
          → ch.waiting q ≡ fs
          → Passes q (ch.try_recv q).0 [] (received_one ch (ch.try_recv q).1)
      by_cases [] e =
          let (answer, left) = ch.recv_empty q e in
          rw answer (record {
            sent = [];
            part = IsPart.none_left;
            in_order = left ∙ sym e ∙ sym (append-nil (ch.waiting q));
            all = λ h. refl;
            same_capacity = ch.recv_capacity q;
          })
      by_cases (f ∷ fs) e =
          let (answer, left) = ch.recv_first q f fs e in
          rw answer (record {
            sent = [];
            part = IsPart.none_left;
            in_order = ap (λ xs. f ∷ xs) left ∙ sym e ∙ sym (append-nil (ch.waiting q));
            all = λ h. refl;
            same_capacity = ch.recv_capacity q;
          })

  module _ (w : Wire) where
    -- What a run of the subscriber does to its queue.
    abbrev RunPasses : UdpSubscriber ch → Outcome ch → Type 0
    RunPasses s o = Passes s.delivered o.0.delivered o.2 o.1

    happen-Passes :
        (s : UdpSubscriber ch) (event : Act)
        → 0 < ch.capacity s.delivered
        → RunPasses s (happen ch w s event)
    unfolding happen worker_round try_recv drop_subscriber
    happen-Passes s (Act.round checked arrival now) some_room =
        elim (Bool-cases (s.looping && s.running)) [
          | inl on ↦
              rw (worker_round, on)
                (offer_all-Passes s.delivered (turn w s.worker checked arrival now).1.offered
                  some_room)
          | inr off ↦ rw (worker_round, off) (nothing-Passes s.delivered)
        ]
    happen-Passes s Act.receive some_room = receive-Passes s.delivered
    happen-Passes s Act.drop some_room = nothing-Passes s.delivered

    pub run-Passes :
        (s : UdpSubscriber ch) (events : List Act)
        → 0 < ch.capacity s.delivered
        → (let (s', received, offered) = run ch w s events in
            Passes s.delivered s'.delivered offered received)
    unfolding run
    run-Passes s [] some_room = nothing-Passes s.delivered
    run-Passes s (event ∷ events) some_room =
        let (s', received, offered) = happen ch w s event in
        let first = happen-Passes s event some_room in
        let (last, received', offered') = run ch w s' events in
        then-Passes s.delivered s'.delivered last.delivered offered received offered' received'
          first (run-Passes s' events (rw first.same_capacity some_room))

    -- Whatever a new subscriber hears, however the rounds of its worker, the looks of the
    -- application and the end of the subscriber follow each other, and whatever the capacity of
    -- its channel, if positive: what the application has received, followed by what waits in the
    -- channel, is what the worker has offered, in order, without some of the frames; and without
    -- any loss unless more frames were offered than the channel has places.
    pub received-IsPart :
        (config : UdpSubscriberConfig) (events : List Act)
        → 0 < config.channel_capacity
        → (let (s, received, offered) = run ch w (new_udp_subscriber ch config) events in
            let passed = received ++ ch.waiting s.delivered in
            IsPart passed offered
            × ((passed ≡ offered) ⊎ (config.channel_capacity < length offered)))
    unfolding new_udp_subscriber
    received-IsPart config events some_room =
        let n = config.channel_capacity in
        let q = ch.bounded n in
        let new = ch.bounded_capacity n in
        let nothing = ch.bounded_empty n in
        let v = run-Passes (new_udp_subscriber ch config) events (rw new some_room) in
        let offered = (run ch w (new_udp_subscriber ch config) events).2 in
        let passed = v.in_order ∙ ap (λ xs. xs ++ v.sent) nothing in
        (
          rw passed v.part,
          elim (dec_lt n (length offered)) [
            | yes more ↦ inr more
            | no fits ↦ inl (passed ∙ v.all (omega (arith, ap length nothing, new)))
          ],
        )
