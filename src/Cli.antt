-- ===== src/Cli.antt =====
-- cli/src/main.rs: what the commands do, piece by piece. Left out are the parsing of the arguments by
-- the crate clap and the texts that are printed; what a socket or a channel does is an argument.
pub mod Subscribe
pub mod Inspect
pub mod Publish
pub mod Commands
pub mod Rounds
pub mod Texts
pub mod Pauses
pub mod Loopback
use real_time_data_platform.Base.{
  ℕ, zero, suc, ◌+◌, ◌/◌, ◌%◌, Bool, true, false, Option, none, some, List, [], ◌∷◌, ◌++◌,
  if◌then◌else◌, ◌==◌, leb, length,
}
use real_time_data_platform.Error.{RtdpError, Result, ok, err}
use real_time_data_platform.Protocol.Extensions.{
  HeaderExtension, ExtensionIterator, next, extensions,
}
use real_time_data_platform.Protocol.Frame.{FrameView, OwnedFrame}
use real_time_data_platform.Serialization.Codec.{default_codec_config, decode}
use real_time_data_platform.Delivery.Receiver.{DeliveryMode}
use real_time_data_platform.Transport.Publisher.{Publisher, new_publisher, publish}
use real_time_data_platform.Transport.Subscriber.{SocketAddr, Worker, new_subscriber}
use real_time_data_platform.Recovery.Data.{default_config}
use real_time_data_platform.Wire.{Wire}

pub data CliDeliveryMode : Type 0 where
  best_effort latest at_least_once reliable_ordered : CliDeliveryMode

unfoldable pub delivery_mode : CliDeliveryMode → DeliveryMode
delivery_mode CliDeliveryMode.best_effort = DeliveryMode.best_effort
delivery_mode CliDeliveryMode.latest = DeliveryMode.latest
delivery_mode CliDeliveryMode.at_least_once = DeliveryMode.at_least_once
delivery_mode CliDeliveryMode.reliable_ordered = DeliveryMode.reliable_ordered

-- The publisher of the command `Publish`.
unfoldable pub cli_publisher : ℕ → ℕ → Option Publisher
cli_publisher stream_id publisher_id = new_publisher (record {
  stream_id = stream_id;
  publisher_id = publisher_id;
  ring_buffer_capacity = 10_000;
  max_frame_size = 1_472;
})

-- The worker of the command `Subscribe`.
unfoldable pub cli_subscriber : SocketAddr → ℕ → CliDeliveryMode → Worker
unfolding delivery_mode
cli_subscriber publisher stream_id mode = new_subscriber (record {
  publisher_addr = publisher;
  stream_id = stream_id;
  mode = delivery_mode mode;
  recovery_config = default_config;
  max_frame_size = 1_472;
  channel_capacity = 10_000;
})

-- The digits of `n` before `rest`; a number has fewer digits than its successor has units.
decimal_before : ℕ → ℕ → List ℕ → List ℕ
decimal_before zero n rest = rest
decimal_before (suc fuel) n rest =
    let digits = (b'0' + n % 10) ∷ rest in
    if n / 10 == 0 then digits else decimal_before fuel (n / 10) digits

-- `format!("{}: {}", message, i)`
unfoldable pub message_text : List ℕ → ℕ → List ℕ
unfolding decimal_before
message_text message i = message ++ b':' ∷ b' ' ∷ decimal_before (suc i) i []

-- What `recv_timeout` gives.
pub data Event : Type 0 where
  received : OwnedFrame → Event
  timed_out : Event
  disconnected : Event

-- `if let Some(max) = max_messages { if count >= max`
abbrev pub reached : Option ℕ → ℕ → Bool
reached none count = false
reached (some max) count = leb max count

-- The loop of `Subscribe`: the frames it prints, and whether it has ended.
unfoldable pub subscribe_loop : Option ℕ → ℕ → List Event → List OwnedFrame × Bool
subscribe_loop max_messages count [] = ([], false)
subscribe_loop max_messages count (Event.received frame ∷ events) =
    let (frames, ended) = subscribe_loop max_messages (count + 1) events in
    if reached max_messages (count + 1) then (frame ∷ [], true) else (frame ∷ frames, ended)
subscribe_loop max_messages count (Event.timed_out ∷ events) =
    subscribe_loop max_messages count events
subscribe_loop max_messages count (Event.disconnected ∷ events) = ([], true)

-- A round of the loop over the extensions, before the rounds that follow.
unfoldable pub print_item :
    Option (Result HeaderExtension RtdpError)
    → List (Result HeaderExtension RtdpError) × Bool
    → List (Result HeaderExtension RtdpError) × Bool
print_item none rest = ([], true)
print_item (some ext) (exts, ended) = (ext ∷ exts, ended)

before : ℕ → Option (List ℕ) → Option (List ℕ)
before seq none = none
before seq (some seqs) = some (seq ∷ seqs)

-- A round of the loop of `Publish`, before the rounds that follow; `none` is the panic of `expect`.
unfoldable pub published_then :
    Publisher × List (List ℕ) × Result ℕ RtdpError
    → Publisher × List (List ℕ) × Option (List ℕ)
    → Publisher × List (List ℕ) × Option (List ℕ)
unfolding before
published_then (p', packets, err e) rest = (p', packets, none)
published_then (p', packets, ok seq) (p'', more, seqs) = (p'', packets ++ more, before seq seqs)

module _ (w : Wire) where
  -- The loop of `Publish`, from the message `i` on: the publisher, the packets, and the sequences. `now i` and `taken i` are the time and the socket's answer.
  unfoldable pub publish_loop :
      (ℕ → ℕ)
      → (ℕ → Bool)
      → List ℕ
      → ℕ
      → ℕ
      → Publisher
      → Publisher × List (List ℕ) × Option (List ℕ)
  unfolding message_text published_then
  publish_loop now taken message zero i p = (p, [], some [])
  publish_loop now taken message (suc rounds) i p =
      let sent = publish w p (now i) (message_text message i) (taken i) in
      published_then sent (publish_loop now taken message rounds (i + 1) sent.0)

  -- The loop over `view.extensions()`: what each round prints, and whether the iterator has ended
  -- within so many rounds.
  unfoldable pub list_extensions :
      ℕ → ExtensionIterator → List (Result HeaderExtension RtdpError) × Bool
  unfolding print_item
  list_extensions zero it = ([], false)
  list_extensions (suc rounds) it =
      let (it', item) = next w it in print_item item (list_extensions rounds it')

  -- `Inspect` on the bytes of a file; an error is the exit status 1.
  unfoldable pub inspect :
      List ℕ → Result (FrameView × List (Result HeaderExtension RtdpError) × Bool) RtdpError
  unfolding list_extensions
  inspect file = elim (decode w default_codec_config file).1 [
    | err e ↦ err e
    | ok view ↦
        let (exts, ended) = list_extensions (suc (length view.extension_bytes)) (extensions view) in
        ok (view, exts, ended)
  ]
