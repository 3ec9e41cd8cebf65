-- ===== src/Tests/Gaps.antt =====
-- A gap and its end at concrete inputs: three slots, five frames, the second and third of them lost.
use real_time_data_platform.Base.{
  ℕ, zero, suc, ◌≡◌, refl, Bool, true, some, List, [], ◌∷◌, ◌++◌, arith,
}
use real_time_data_platform.Buffers.Ring.{new_ring}
use real_time_data_platform.Buffers.Ring.Retention.{published}
use real_time_data_platform.Delivery.Receiver.{new_receiver}
use real_time_data_platform.Recovery.Engine.{new_engine}
use real_time_data_platform.Sequence.Tracker.{new_tracker}
use real_time_data_platform.Transport.Publisher.{UdpPublisherConfig, new_publisher}
use real_time_data_platform.Transport.Subscriber.{
  SocketAddr, Arrival, Worker, turn, new_subscriber, default_subscriber_config, new_worker,
  on_packet, send_replay_request,
}
use real_time_data_platform.Transport.System.Hearing.{hear_all, after_all, after_packets, Same}
use real_time_data_platform.Transport.System.Quiet.{Clock}
use real_time_data_platform.Transport.System.Ready.{
  IsPublishable, IsReady, hist, sent, sent_upto, reply,
}
use real_time_data_platform.Transport.System.Gap.{gap_recovered}
use real_time_data_platform.Transport.System.Reopened.{gap_reopened}
use real_time_data_platform.Transport.System.Stream.{new_subscriber-IsReady, loss_recovered}
use real_time_data_platform.Tests.Bytes.{big_endian}
use real_time_data_platform.Tests.Publishing.{fresh}

abbrev config : UdpPublisherConfig
config = record {
  stream_id = 1;
  publisher_id = 100;
  ring_buffer_capacity = 3;
  max_frame_size = 1472;
}

abbrev now_ns : ℕ → ℕ
now_ns s = 7

abbrev payload : ℕ → List ℕ
payload s = s ∷ []

abbrev taken : ℕ → Bool
taken s = true

fresh_made : new_publisher config ≡ some fresh
unfolding new_publisher new_ring
fresh_made = refl

publishable : IsPublishable now_ns payload config
publishable = record {
  stream_small = omega arith;
  id_small = omega arith;
  times_small = λ s lt. omega arith;
  room = λ s lt. omega arith;
  request_room = omega arith;
  one_packet = omega arith;
}

-- 127.0.0.1:9876
abbrev peer : SocketAddr
peer = (0x7f000001, 9_876)

abbrev worker : Worker
worker = new_subscriber default_subscriber_config

worker-IsReady : IsReady config worker
unfolding default_subscriber_config
worker-IsReady =
    new_subscriber-IsReady big_endian now_ns payload taken fresh config fresh_made publishable
      default_subscriber_config refl refl refl

abbrev early : Clock
early i = (0, 1)

abbrev clock : Clock
clock zero = (2, 3)
clock (suc i) = (4, 5)

-- The worker hears the third frame first.
gap_recovered_example :
    (packet : List ℕ) × (request : List ℕ) × (sent big_endian now_ns payload taken fresh 2
      ≡ packet ∷ [])
    × (let (k', output, more) = turn big_endian worker 2 (Arrival.packet peer packet) 3 in
        (output ≡ record { sent = (peer, request) ∷ []; offered = [] })
        × Same
            (hear_all big_endian k' peer
              (λ i. (4, 5))
              (reply big_endian now_ns payload taken fresh 3 100 request))
            (published (hist big_endian now_ns payload taken fresh) 3 1))
unfolding new_subscriber new_worker new_receiver new_tracker new_engine default_subscriber_config
gap_recovered_example =
    gap_recovered big_endian now_ns payload taken fresh config worker fresh_made publishable
      worker-IsReady 2 3 peer clock 100 tt (λ i. omega arith) refl
      (record { in_range = omega arith; has_place = omega arith }) (omega arith) (omega arith)
      (omega arith) (omega arith)

loss_recovered_example :
    (let k' =
        after_all big_endian worker peer early
          (sent_upto big_endian now_ns payload taken fresh 1) in
      (packet : List ℕ) × (request : List ℕ) × (sent big_endian now_ns payload taken fresh 3
        ≡ packet ∷ [])
      × ((turn big_endian k' 2 (Arrival.packet peer packet) 3).1
          ≡ record { sent = (peer, request) ∷ []; offered = [] })
      × Same
          (hear_all big_endian worker peer early (sent_upto big_endian now_ns payload taken fresh 1)
            ++ hear_all big_endian k' peer clock
                (packet ∷ reply big_endian now_ns payload taken fresh 4 100 request))
          (published (hist big_endian now_ns payload taken fresh) 4 1))
unfolding default_subscriber_config
loss_recovered_example =
    loss_recovered big_endian now_ns payload taken fresh config fresh_made publishable
      default_subscriber_config peer early clock 1 3 4 100 (λ i. omega arith) refl refl refl
      (omega arith) (omega arith) (λ s lo hi. refl) refl (omega arith) (omega arith) (omega arith)
      (omega arith)

-- The worker hears the second frame, the answer, and the third frame.
gap_reopened_example :
    (packet : List ℕ) × (request : List ℕ) × (packet' : List ℕ) × (sent big_endian now_ns payload
        taken fresh 1
      ≡ packet ∷ [])
    × ((on_packet big_endian worker peer packet 3).1
        ≡ record { sent = (peer, request) ∷ []; offered = [] })
    × (sent big_endian now_ns payload taken fresh 2 ≡ packet' ∷ [])
    × (let k' =
          after_packets big_endian
            (on_packet big_endian worker peer packet 3).0
            peer
            4
            (reply big_endian now_ns payload taken fresh 3 100 request) in
        (on_packet big_endian k' peer packet' 5).1 ≡ record {
          sent =
              send_replay_request big_endian worker.codec peer worker.stream_id
                (record { request_id = 2; from_sequence = 1; to_sequence = 2 });
          offered = [];
        })
unfolding new_subscriber new_worker new_receiver new_tracker new_engine default_subscriber_config
gap_reopened_example =
    gap_reopened big_endian now_ns payload taken fresh config worker fresh_made publishable
      worker-IsReady 1 3 peer 3 4 100 5 refl refl (omega arith) (omega arith) (omega arith)
      (omega arith) (omega arith) (omega arith)
