-- ===== src/Tests/Loopback.antt =====
-- The commands at concrete inputs.
use real_time_data_platform.Base.{
  ℕ, ◌-◌, ◌≡◌, refl, true, false, none, List, [], map, arith, ltb, if◌then◌else◌, replicate,
}
use real_time_data_platform.Protocol.Frame.{OwnedFrame, new_data_frame}
use real_time_data_platform.Buffers.Ring.Retention.{published}
use real_time_data_platform.Transport.Subscriber.{SocketAddr, default_publisher_addr}
use real_time_data_platform.Transport.System.Hearing.{hear_all, Same}
use real_time_data_platform.Cli.{Event, message_text}
use real_time_data_platform.Cli.Commands.{
  Environment, Report, default_target, default_message, default_publish, default_subscribe, main,
}
use real_time_data_platform.Cli.Publish.{count_up}
use real_time_data_platform.Cli.Loopback.{report_packets, main-publish-subscribe}
use real_time_data_platform.Tests.Bytes.{big_endian}

abbrev outside : Environment
outside = record {
  opens = true;
  now = λ s. 7;
  taken = λ s. true;
  events = λ k. [];
  read = λ file. none;
}

-- 127.0.0.1:9875
abbrev peer : SocketAddr
peer = default_publisher_addr

-- The channel gives what the worker was offered.
abbrev listening : Environment
listening = record outside {
  events = λ k. map Event.received (
      hear_all big_endian k peer (λ i. (2, 3))
        (report_packets (main big_endian outside default_publish)));
}

main-publish-subscribe_example :
    (packets : List (List ℕ)) × (frames : List OwnedFrame) × (main big_endian outside
        default_publish
      ≡ Report.published packets (count_up 1 1) (if ltb 0 100 then replicate (1 - 1) 100 else []))
    × (main big_endian listening default_subscribe ≡ Report.subscribed frames false)
    × Same frames (published (λ s. new_data_frame 1 s 7 100 (message_text default_message s)) 1 1)
main-publish-subscribe_example =
    main-publish-subscribe big_endian outside listening default_target (0, 0) (0, 9_876) peer peer
      (λ i. (2, 3)) 1 100 1 100 default_message refl refl (λ s lo hi. refl) (λ s small. omega arith)
      (omega arith) (omega arith) (omega arith) (omega arith) refl
