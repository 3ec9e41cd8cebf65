-- ===== src/Transport/System/Quiet.antt =====
-- Rounds of a worker (transports/udp/src/subscriber.rs) whose timeout checks find nothing due.
use real_time_data_platform.Base.{
  ℕ, zero, suc, ◌-◌, ◌<◌, ◌≡◌, refl, sym, ap, subst, true, List, [], ◌∷◌, arith,
}
use real_time_data_platform.Base.Map.{Entries, remove-Entries}
use real_time_data_platform.Protocol.Frame.{OwnedFrame}
use real_time_data_platform.Recovery.Data.{ActiveReplayRequest, RecoveryConfig, RecoveryEngine}
use real_time_data_platform.Recovery.Engine.{note_received, handle_replay_response}
use real_time_data_platform.Recovery.Engine.Pending.{handle_replay_response-Keeps}
use real_time_data_platform.Recovery.Engine.Timeouts.{IsFresh, check_timeouts-IsFresh}
use real_time_data_platform.Delivery.Receiver.{StreamReceiver}
use real_time_data_platform.Delivery.Receiver.Ordered.Gap.{awaiting}
use real_time_data_platform.Transport.Subscriber.{
  SocketAddr, Arrival, Worker, silent, send_retries, on_timeouts, on_arrival, on_packet, turn,
}
use real_time_data_platform.Wire.{Wire}

-- The rounds of a worker from now on: when each checks the timeouts, and when it hears its packet.
abbrev pub Clock : Type 0
Clock = ℕ → ℕ × ℕ

abbrev pub next_round : Clock → Clock
next_round clock i = clock (suc i)

abbrev pub after_rounds : ℕ → Clock → Clock
after_rounds zero clock = clock
after_rounds (suc n) clock = after_rounds n (next_round clock)

-- No check comes as late as the retry timeout after `sent_at`. The times of rounds behind the last
-- packet do not matter: a clock may stand still then.
abbrev pub InTime : RecoveryConfig → Clock → ℕ → Type 0
InTime config clock sent_at = (i : ℕ) → (clock i).0 - sent_at < config.retry_timeout

-- No check finds an outstanding request due.
abbrev pub IsQuiet : RecoveryEngine → Clock → Type 0
IsQuiet e clock = Entries (λ id req. InTime e.config clock req.last_sent_at) e.outstanding_requests

abbrev Waits : RecoveryConfig → Clock → ℕ → ActiveReplayRequest → Type 0
Waits config clock id req = InTime config clock req.last_sent_at

next-Waits :
    (config : RecoveryConfig) (clock : Clock) (m : List (ℕ × ActiveReplayRequest))
    → Entries (Waits config clock) m
    → Entries (Waits config (next_round clock)) m
next-Waits config clock [] q = tt
next-Waits config clock ((id, req) ∷ m) (h, q) = (λ i. h (suc i), next-Waits config clock m q)

first-IsFresh :
    (config : RecoveryConfig) (clock : Clock) (m : List (ℕ × ActiveReplayRequest))
    → Entries (Waits config clock) m
    → Entries (IsFresh config (clock 0).0) m
first-IsFresh config clock [] q = tt
first-IsFresh config clock ((id, req) ∷ m) (h, q) = (h 0, first-IsFresh config clock m q)

pub IsQuiet-next_round :
    (e : RecoveryEngine) (clock : Clock) → IsQuiet e clock → IsQuiet e (next_round clock)
IsQuiet-next_round e clock q = next-Waits e.config clock e.outstanding_requests q

on_timeouts-IsQuiet :
    (w : Wire) (k : Worker) (clock : Clock)
    → IsQuiet k.stream_rx.recovery clock
    → on_timeouts w k (clock 0).0 ≡ (k, silent)
unfolding on_timeouts send_retries
on_timeouts-IsQuiet w k clock q =
    let e = k.stream_rx.recovery in
    let fresh = first-IsFresh e.config clock e.outstanding_requests q in
    let unchanged = check_timeouts-IsFresh e (clock 0).0 fresh in
    rw (on_timeouts, unchanged)
      (ap (λ o. (record k { stream_rx = record (k.stream_rx) { recovery = o.0 } }, silent))
        unchanged)

-- A round of a quiet worker is what it does with its packet.
pub turn-IsQuiet :
    (w : Wire) (k : Worker) (clock : Clock) (peer : SocketAddr) (packet : List ℕ)
    → IsQuiet k.stream_rx.recovery clock
    → turn w k (clock 0).0 (Arrival.packet peer packet) (clock 0).1
      ≡ (let (k', output) = on_packet w k peer packet (clock 0).1 in (k', output, true))
unfolding turn on_arrival
turn-IsQuiet w k clock peer packet q = rw (turn, on_timeouts-IsQuiet w k clock q) refl

note_received-last_sent_at :
    (seq : ℕ) (req : ActiveReplayRequest) → (note_received req seq).last_sent_at ≡ req.last_sent_at
unfolding note_received
note_received-last_sent_at seq req = ground arith

-- A worker that gets a response goes on to wait in time.
pub handle_replay_response-IsQuiet :
    (e : RecoveryEngine) (clock : Clock) (id : ℕ) (frame : OwnedFrame)
    → IsQuiet e clock
    → IsQuiet (handle_replay_response e id frame).0 clock
handle_replay_response-IsQuiet e clock id frame q =
    let e' = (handle_replay_response e id frame).0 in
    let kept =
      handle_replay_response-Keeps (Waits e.config clock) e id frame
        (λ req h.
          subst (InTime e.config clock) (sym (note_received-last_sent_at frame.header.sequence req))
            h)
        q in
    subst (λ config. Entries (Waits config clock) e'.outstanding_requests) (sym kept.configured)
      kept.requests

-- A receiver that has just asked for a gap waits for the answer in time.
pub awaiting-IsQuiet :
    (r : StreamReceiver) (frame : OwnedFrame) (clock : Clock)
    → IsQuiet r.recovery clock
    → InTime r.recovery.config (next_round clock) (clock 0).1
    → IsQuiet (awaiting r frame (clock 0).1) (next_round clock)
awaiting-IsQuiet r frame clock q h =
    let e = r.recovery in
    (
      h,
      remove-Entries (Waits e.config (next_round clock)) e.next_request_id _
          (next-Waits e.config clock e.outstanding_requests q),
    )
