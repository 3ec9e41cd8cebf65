-- ===== src/Transport/Application.antt =====
-- transports/udp/src/subscriber.rs: a subscriber with the channel that its worker fills and the
-- application empties. The worker, the application and the end of the subscriber take turns.
pub mod Received
use real_time_data_platform.Base.{
  ℕ, Bool, true, false, ◌&&◌, Option, none, some, List, [], ◌∷◌, ◌++◌, if◌then◌else◌,
}
use real_time_data_platform.Protocol.Frame.{OwnedFrame}
use real_time_data_platform.Transport.Channel.{Channel}
use real_time_data_platform.Transport.Subscriber.{
  Arrival, Worker, UdpSubscriberConfig, new_subscriber, turn,
}
use real_time_data_platform.Wire.{Wire}

-- What happens next: a round of the worker's loop, with the time of the first part, what the socket
-- has, and the time of the second part; the application looks for a frame; or the subscriber is
-- dropped.
pub data Act : Type 0 where
  round : ℕ → Arrival → ℕ → Act
  receive : Act
  drop : Act

module _ (ch : Channel) where
  -- `looping` says that the thread of the worker has not left its loop.
  pub record UdpSubscriber : Type 0 where
    pub worker : Worker
    pub running : Bool
    pub looping : Bool
    pub delivered : ch.Queue

  -- `UdpSubscriber::new`, when the socket opens.
  unfoldable pub new_udp_subscriber : UdpSubscriberConfig → UdpSubscriber
  new_udp_subscriber config = record {
    worker = new_subscriber config;
    running = true;
    looping = true;
    delivered = ch.bounded config.channel_capacity;
  }

  -- `let _ = delivered_tx.try_send(f)`, for each frame.
  unfoldable pub offer_all : ch.Queue → List OwnedFrame → ch.Queue
  offer_all q [] = q
  offer_all q (f ∷ fs) = offer_all (ch.try_send q f).0 fs

  -- The subscriber, what the application has received, and what the worker has offered.
  abbrev pub Outcome : Type 0
  Outcome = UdpSubscriber × List OwnedFrame × List OwnedFrame

  abbrev pub received_one : Option OwnedFrame → List OwnedFrame
  received_one none = []
  received_one (some f) = f ∷ []

  unfoldable pub try_recv : UdpSubscriber → UdpSubscriber × Option OwnedFrame
  try_recv s = let (q, answer) = ch.try_recv s.delivered in (record s { delivered = q }, answer)

  -- `Drop::drop`: the flag is cleared, and the thread is joined, which leaves its loop.
  unfoldable pub drop_subscriber : UdpSubscriber → UdpSubscriber
  drop_subscriber s = record s { running = false; looping = false }

  module _ (w : Wire) where
    -- A round of the loop, if the thread is still in it.
    unfoldable pub worker_round : UdpSubscriber → ℕ → Arrival → ℕ → Outcome
    unfolding offer_all
    worker_round s checked arrival now =
        let (k, output, more) = turn w s.worker checked arrival now in
        if s.looping && s.running
        then (
          record s { worker = k; looping = more; delivered = offer_all s.delivered output.offered },
          [],
          output.offered,
        )
        else (record s { looping = false }, [], [])

    unfoldable pub happen : UdpSubscriber → Act → Outcome
    unfolding worker_round
    happen s (Act.round checked arrival now) = worker_round s checked arrival now
    happen s Act.receive = let (s', answer) = try_recv s in (s', received_one answer, [])
    happen s Act.drop = (drop_subscriber s, [], [])

    unfoldable pub run : UdpSubscriber → List Act → Outcome
    run s [] = (s, [], [])
    run s (event ∷ events) =
        let (s', received, offered) = happen s event in
        let (last, received_then, offered_then) = run s' events in
        (last, received ++ received_then, offered ++ offered_then)
