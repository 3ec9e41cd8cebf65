-- ===== src/Tests/Application.antt =====
-- A channel as a list with a capacity, and a subscriber that uses it.
use real_time_data_platform.Base.{
  ℕ, ◌≤◌, ◌<◌, ◌≡◌, ◌⊎◌, refl, Bool, true, false, Option, none, some, List, [], ◌∷◌, ◌++◌, arith,
  length, if◌then◌else◌, ltb,
}
use real_time_data_platform.Protocol.Frame.{OwnedFrame}
use real_time_data_platform.Transport.Channel.{Channel}
use real_time_data_platform.Transport.Subscriber.{Arrival, default_subscriber_config}
use real_time_data_platform.Transport.Application.{Act, new_udp_subscriber, run}
use real_time_data_platform.Transport.Application.Received.{received-IsPart}
use real_time_data_platform.Base.Part.{IsPart}
use real_time_data_platform.Transport.System.Ready.{sent}
use real_time_data_platform.Tests.Bytes.{big_endian}
use real_time_data_platform.Tests.Publishing.{fresh}

abbrev ListQueue : Type 0
ListQueue = ℕ × List OwnedFrame

abbrev first_of : List OwnedFrame → Option OwnedFrame
first_of [] = none
first_of (f ∷ fs) = some f

abbrev rest_of : List OwnedFrame → List OwnedFrame
rest_of [] = []
rest_of (f ∷ fs) = fs

abbrev list_send : ListQueue → OwnedFrame → ListQueue × Bool
list_send (n, fs) f = if ltb (length fs) n then ((n, fs ++ f ∷ []), true) else ((n, fs), false)

send_capacity : (q : ListQueue) (f : OwnedFrame) → (list_send q f).0.0 ≡ q.0
send_capacity (n, fs) f = ground arith

send_room :
    (q : ListQueue) (f : OwnedFrame) → length q.1 < q.0 → (list_send q f).0.1 ≡ q.1 ++ f ∷ []
send_room (n, fs) f room = ground arith

send_full : (q : ListQueue) (f : OwnedFrame) → q.0 ≤ length q.1 → (list_send q f).0.1 ≡ q.1
send_full (n, fs) f full = ground arith

recv_first :
    (q : ListQueue) (f : OwnedFrame) (fs : List OwnedFrame)
    → q.1 ≡ f ∷ fs
    → (first_of q.1 ≡ some f) × (rest_of q.1 ≡ fs)
recv_first q f fs e = rw e (refl, refl)

recv_empty : (q : ListQueue) → q.1 ≡ [] → (first_of q.1 ≡ none) × (rest_of q.1 ≡ [])
recv_empty q e = rw e (refl, refl)

abbrev list_channel : Channel
list_channel = record {
  Queue = ListQueue;
  bounded = λ n. (n, []);
  try_send = list_send;
  try_recv = λ q. ((q.0, rest_of q.1), first_of q.1);
  waiting = λ q. q.1;
  capacity = λ q. q.0;
  bounded_empty = λ n. refl;
  bounded_capacity = λ n. refl;
  send_room = send_room;
  send_full = λ q f some_room full. send_full q f full;
  send_capacity = send_capacity;
  recv_first = recv_first;
  recv_empty = recv_empty;
  recv_capacity = λ q. refl;
}

abbrev packet_in : List (List ℕ) → List ℕ
packet_in [] = []
packet_in (packet ∷ packets) = packet

-- The packet of the first frame of a publisher.
abbrev packet : List ℕ
packet = packet_in (sent big_endian (λ s. 7) (λ s. s ∷ []) (λ s. true) fresh 0)

-- A packet, a look at the channel, the packet again, and the end.
abbrev events : List Act
events =
    Act.round 1 (Arrival.packet (0, 9_876) packet) 2
    ∷ Act.receive
    ∷ Act.round 3 (Arrival.packet (0, 9_876) packet) 4
    ∷ Act.drop
    ∷ []

received-IsPart_example :
    (let (s, received, offered) =
        run list_channel big_endian
          (new_udp_subscriber list_channel default_subscriber_config)
          events in
      let passed = received ++ list_channel.waiting s.delivered in
      IsPart passed offered × ((passed ≡ offered) ⊎ (10_000 < length offered)))
unfolding default_subscriber_config
received-IsPart_example =
    received-IsPart list_channel big_endian default_subscriber_config events (omega arith)
