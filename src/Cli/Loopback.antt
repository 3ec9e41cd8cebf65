-- ===== src/Cli/Loopback.antt =====
-- The command `Publish` (cli/src/main.rs), heard by the command `Subscribe`.
use real_time_data_platform.Base.{
  ℕ, ◌+◌, ◌-◌, ◌^◌, ◌≤◌, ◌<◌, ◌≡◌, refl, ap, subst, ◌∙◌, Bool, true, false, none, some, List, [],
  ◌∷◌, map, arith, length, replicate, ltb, if◌then◌else◌,
}
use real_time_data_platform.Protocol.Frame.{OwnedFrame, new_data_frame}
use real_time_data_platform.Buffers.Ring.{new_ring}
use real_time_data_platform.Transport.Publisher.{Publisher, UdpPublisherConfig, new_publisher}
use real_time_data_platform.Transport.Publisher.Replay.{publish_upto, frame_of}
use real_time_data_platform.Transport.Publisher.Opened.{codec_for}
use real_time_data_platform.Recovery.Data.{default_config}
use real_time_data_platform.Delivery.Receiver.{DeliveryMode}
use real_time_data_platform.Transport.Subscriber.{SocketAddr, UdpSubscriberConfig}
use real_time_data_platform.Transport.System.Quiet.{Clock}
use real_time_data_platform.Transport.System.Hearing.{hear_all, Same}
use real_time_data_platform.Transport.System.Ready.{IsPublishable, sent_upto}
use real_time_data_platform.Transport.System.Stream.{all_heard}
use real_time_data_platform.Buffers.Ring.Retention.{published}
use real_time_data_platform.Cli.{
  CliDeliveryMode, Event, delivery_mode, message_text, cli_publisher, cli_subscriber,
  subscribe_loop,
}
use real_time_data_platform.Cli.Commands.{
  Commands, Environment, Report, pauses, report_published, report_subscribed, run_publish,
  run_subscribe, main,
}
use real_time_data_platform.Cli.Rounds.{sent_from, sent_upto-sent_from, loop_publishes}
use real_time_data_platform.Cli.Publish.{count_up}
use real_time_data_platform.Wire.{Wire}
use real_time_data_platform.Cli.Texts.{length-message_text}
use real_time_data_platform.Cli.Pauses.{pauses_lem}

subscribe_loop-received :
    (count : ℕ) (frames : List OwnedFrame)
    → subscribe_loop none count (map Event.received frames) ≡ (frames, false)
unfolding subscribe_loop
subscribe_loop-received count [] = refl
subscribe_loop-received count (f ∷ fs) =
    ap (λ (r : List OwnedFrame × Bool). (f ∷ r.0, r.1)) (subscribe_loop-received (count + 1) fs)

-- The packets that a command has sent.
abbrev pub report_packets : Report → List (List ℕ)
report_packets (Report.panicked packets) = packets
report_packets (Report.published packets seqs pauses) = packets
report_packets (Report.subscribed frames ended) = []
report_packets (Report.inspected view exts ended) = []
report_packets (Report.exited status) = []

abbrev cli_config : ℕ → ℕ → UdpPublisherConfig
cli_config stream_id publisher_id = record {
  stream_id = stream_id;
  publisher_id = publisher_id;
  ring_buffer_capacity = 10_000;
  max_frame_size = 1_472;
}

-- The publisher that `Publish` opens.
abbrev cli_opened : ℕ → ℕ → Publisher
cli_opened stream_id publisher_id = record {
  stream_id = stream_id;
  publisher_id = publisher_id;
  max_frame_size = 1_472;
  codec = codec_for 1_472;
  ring_buffer = record {
    capacity = 10_000;
    buffer = replicate 10_000 none;
    min_sequence = none;
    max_sequence = none;
  };
  sequence_counter = 1;
}

cli_opened_made :
    (stream_id publisher_id : ℕ)
    → new_publisher (cli_config stream_id publisher_id) ≡ some (cli_opened stream_id publisher_id)
unfolding new_publisher new_ring
cli_opened_made stream_id publisher_id = refl

module _ (w : Wire) (env : Environment) (stream_id publisher_id : ℕ) (message : List ℕ) (count : ℕ)
    (opens : env.opens ≡ true) (takes : (s : ℕ) → 1 ≤ s → s ≤ count → env.taken s ≡ true)
    (short : length message ≤ 1_394) (few : count < 2 ^ 64 - 1) where
  -- The frame of a message.
  abbrev message_frame : ℕ → OwnedFrame
  message_frame s = new_data_frame stream_id s (env.now s) publisher_id (message_text message s)

  abbrev p : Publisher
  p = cli_opened stream_id publisher_id

  abbrev packets : List (List ℕ)
  packets = sent_from w env.now env.taken message p count 0

  main-publish :
      (target bind : SocketAddr) (interval_ms : ℕ)
      → main w env (Commands.publish target bind stream_id publisher_id message count interval_ms)
        ≡ Report.published packets (count_up count 1) (pauses interval_ms count count 1)
  unfolding main run_publish cli_publisher report_published publish_upto
  main-publish target bind interval_ms =
      let loop =
        loop_publishes w env.now env.taken message p refl refl count 0 (omega arith)
          (λ s lo hi. takes s lo (omega arith))
          (λ s lo hi.
            let long = length-message_text message s (omega arith) in omega (arith, long)) in
      rw (opens, cli_opened_made stream_id publisher_id)
        (ap (report_published (pauses interval_ms count count 1)) loop)

  all_sent : sent_upto w env.now (λ s. message_text message s) env.taken p count ≡ packets
  unfolding sent_upto
  all_sent =
      let same : count ≡ 0 + count = omega arith in
      ap (sent_upto w env.now (λ s. message_text message s) env.taken p) same
      ∙ sent_upto-sent_from w env.now env.taken message p count 0

  publish_heard :
      (publisher peer : SocketAddr) (clock : Clock)
      → stream_id < 2 ^ 64
      → publisher_id < 2 ^ 64
      → ((s : ℕ) → s < 2 ^ 64 → env.now s < 2 ^ 64)
      → Same
          (hear_all w
            (cli_subscriber publisher stream_id CliDeliveryMode.reliable_ordered)
            peer
            clock
            packets)
          (published message_frame count 1)
  unfolding cli_subscriber delivery_mode frame_of sent_upto
  publish_heard publisher peer clock stream id times =
      let fit : IsPublishable env.now (λ s. message_text message s)
          (cli_config stream_id publisher_id) =
        record {
          stream_small = stream;
          id_small = id;
          times_small = times;
          room = λ s lt. (let long = length-message_text message s lt in omega (arith, long));
          request_room = omega arith;
          one_packet = omega arith;
        } in
      let config' : UdpSubscriberConfig = record {
        publisher_addr = publisher;
        stream_id = stream_id;
        mode = DeliveryMode.reliable_ordered;
        recovery_config = default_config;
        max_frame_size = 1_472;
        channel_capacity = 10_000;
      } in
      subst
        (λ sent.
          Same
            (hear_all w (cli_subscriber publisher stream_id CliDeliveryMode.reliable_ordered) peer
              clock sent)
            (published message_frame count 1))
        all_sent
        (all_heard w env.now (λ s. message_text message s) env.taken p
          (cli_config stream_id publisher_id) (cli_opened_made stream_id publisher_id) fit config'
          peer clock count refl refl refl few takes)

-- When the command Publish runs with a message of at most 1394 bytes and fewer than 2^64 - 1
-- repetitions, its socket opens and takes every packet, and the times and the ids have 64 bits,
-- then it does not panic, sends under the sequences from 1 on, and pauses once between every two
-- messages when an interval is given. If the command Subscribe in RELIABLE_ORDERED mode for the
-- same stream, its socket open, hears all these packets in their order, and the channel passes on
-- what its worker offers, then it prints the numbered messages, each once and in order.
pub main-publish-subscribe :
    (w : Wire) (env env' : Environment) (target bind bind' publisher peer : SocketAddr)
    (clock : Clock) (stream_id publisher_id count interval_ms : ℕ) (message : List ℕ)
    → env.opens ≡ true
    → env'.opens ≡ true
    → ((s : ℕ) → 1 ≤ s → s ≤ count → env.taken s ≡ true)
    → ((s : ℕ) → s < 2 ^ 64 → env.now s < 2 ^ 64)
    → length message ≤ 1_394
    → count < 2 ^ 64 - 1
    → stream_id < 2 ^ 64
    → publisher_id < 2 ^ 64
    → env'.events (cli_subscriber publisher stream_id CliDeliveryMode.reliable_ordered)
      ≡ map Event.received (
          hear_all w
            (cli_subscriber publisher stream_id CliDeliveryMode.reliable_ordered)
            peer
            clock
            (report_packets (
              main w env
                (Commands.publish target bind stream_id publisher_id message count interval_ms))))
    → (packets : List (List ℕ)) × (frames : List OwnedFrame) × (main w env
          (Commands.publish target bind stream_id publisher_id message count interval_ms)
        ≡ Report.published packets
            (count_up count 1)
            (if ltb 0 interval_ms then replicate (count - 1) interval_ms else []))
      × (main w env'
            (Commands.subscribe bind' publisher stream_id CliDeliveryMode.reliable_ordered none)
          ≡ Report.subscribed frames false)
      × Same frames (
          published
            (λ s. new_data_frame stream_id s (env.now s) publisher_id (message_text message s))
            count
            1)
unfolding main run_subscribe report_subscribed
main-publish-subscribe w env env' target bind bind' publisher peer clock stream_id publisher_id
      count interval_ms message opens opens' takes times short few stream id passes =
    let k = cli_subscriber publisher stream_id CliDeliveryMode.reliable_ordered in
    let sent =
      main-publish w env stream_id publisher_id message count opens takes short few target bind
        interval_ms in
    let frames =
      hear_all w k peer clock
        (packets w env stream_id publisher_id message count opens takes short few) in
    let events : env'.events k ≡ map Event.received frames =
      passes ∙ ap (λ r. map Event.received (hear_all w k peer clock (report_packets r))) sent in
    (
      packets w env stream_id publisher_id message count opens takes short few,
      frames,
      sent
          ∙ ap
              (Report.published
                (packets w env stream_id publisher_id message count opens takes short few)
                (count_up count 1))
              (pauses_lem interval_ms count),
      rw (opens', events, subscribe_loop-received 0 frames) refl,
      publish_heard w env stream_id publisher_id message count opens takes short few publisher peer
          clock stream id times,
    )
