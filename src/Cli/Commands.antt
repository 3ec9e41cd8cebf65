-- ===== src/Cli/Commands.antt =====
-- cli/src/main.rs: the commands with the values that the crate clap gives them by default, and
-- `main`.
use real_time_data_platform.Base.{
  ℕ, zero, suc, ◌+◌, Bool, ◌&&◌, Option, none, some, List, [], ◌∷◌, if◌then◌else◌, ltb,
}
use real_time_data_platform.Error.{RtdpError, Result, ok, err}
use real_time_data_platform.Protocol.Extensions.{HeaderExtension}
use real_time_data_platform.Protocol.Frame.{FrameView, OwnedFrame}
use real_time_data_platform.Transport.Publisher.{Publisher}
use real_time_data_platform.Transport.Subscriber.{SocketAddr, Worker, default_publisher_addr}
use real_time_data_platform.Cli.{
  CliDeliveryMode, Event, cli_publisher, cli_subscriber, publish_loop, subscribe_loop,
}
use real_time_data_platform.Cli as Cli
use real_time_data_platform.Wire.{Wire}

pub data Commands : Type 0 where
  -- target, bind, stream_id, publisher_id, message, count, interval_ms
  publish : SocketAddr → SocketAddr → ℕ → ℕ → List ℕ → ℕ → ℕ → Commands
  -- bind, publisher, stream_id, mode, max_messages
  subscribe : SocketAddr → SocketAddr → ℕ → CliDeliveryMode → Option ℕ → Commands
  -- frame_file
  inspect : List ℕ → Commands

-- 127.0.0.1:9876
abbrev pub default_target : SocketAddr
default_target = (0x7f000001, 9_876)

-- Hello RTDP
abbrev pub default_message : List ℕ
default_message = b'H' ∷ b'e' ∷ b'l' ∷ b'l' ∷ b'o' ∷ b' ' ∷ b'R' ∷ b'T' ∷ b'D' ∷ b'P' ∷ []

abbrev pub default_publish : Commands
default_publish = Commands.publish default_target (0, 0) 1 100 default_message 1 100

abbrev pub default_subscribe : Commands
default_subscribe =
    Commands.subscribe (0, 9_876) default_publisher_addr 1 CliDeliveryMode.reliable_ordered none

-- What the program meets: whether the socket opens, the time and the socket's answer at each
-- message, what the channel of a worker gives, and the files that can be read.
pub record Environment : Type 0 where
  pub opens : Bool
  pub now : ℕ → ℕ
  pub taken : ℕ → Bool
  pub events : Worker → List Event
  pub read : List ℕ → Option (List ℕ)

-- How the program ends, with what it has sent and printed; `subscribed` says whether the loop has
-- ended within the events.
pub data Report : Type 0 where
  panicked : List (List ℕ) → Report
  -- the packets, the sequences, and the pauses in milliseconds
  published : List (List ℕ) → List ℕ → List ℕ → Report
  subscribed : List OwnedFrame → Bool → Report
  inspected : FrameView → List (Result HeaderExtension RtdpError) → Bool → Report
  exited : ℕ → Report

-- The pauses from the message `i` on.
unfoldable pub pauses : ℕ → ℕ → ℕ → ℕ → List ℕ
pauses interval_ms count zero i = []
pauses interval_ms count (suc rounds) i =
    let rest = pauses interval_ms count rounds (i + 1) in
    if ltb 0 interval_ms && ltb i count then interval_ms ∷ rest else rest

-- What follows the loop of `Publish`.
unfoldable pub report_published : List ℕ → Publisher × List (List ℕ) × Option (List ℕ) → Report
report_published pauses (publ, packets, none) = Report.panicked packets
report_published pauses (publ, packets, some seqs) = Report.published packets seqs pauses

unfoldable pub report_subscribed : List OwnedFrame × Bool → Report
report_subscribed (frames, ended) = Report.subscribed frames ended

module _ (w : Wire) where
  unfoldable pub run_publish : Environment → ℕ → ℕ → List ℕ → ℕ → ℕ → Report
  unfolding report_published
  run_publish env stream_id publisher_id message count interval_ms =
      if env.opens
      then (elim (cli_publisher stream_id publisher_id) [
        | none ↦ Report.panicked []
        | some publ ↦
            report_published (pauses interval_ms count count 1)
              (publish_loop w env.now env.taken message count 1 publ)
      ])
      else Report.panicked []

  unfoldable pub run_subscribe : Environment → SocketAddr → ℕ → CliDeliveryMode → Option ℕ → Report
  unfolding report_subscribed
  run_subscribe env publisher stream_id mode max_messages =
      if env.opens
      then report_subscribed
          (subscribe_loop max_messages 0 (env.events (cli_subscriber publisher stream_id mode)))
      else Report.panicked []

  unfoldable pub run_inspect : Environment → List ℕ → Report
  run_inspect env frame_file = elim (env.read frame_file) [
    | none ↦ Report.panicked []
    | some data_read ↦ elim (Cli.inspect w data_read) [
      | ok (view, exts, ended) ↦ Report.inspected view exts ended
      | err e ↦ Report.exited 1
    ]
  ]

  unfoldable pub main : Environment → Commands → Report
  unfolding run_publish run_subscribe run_inspect
  main env (Commands.publish target bind stream_id publisher_id message count interval_ms) =
      run_publish env stream_id publisher_id message count interval_ms
  main env (Commands.subscribe bind publisher stream_id mode max_messages) =
      run_subscribe env publisher stream_id mode max_messages
  main env (Commands.inspect frame_file) = run_inspect env frame_file
