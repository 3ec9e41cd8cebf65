-- ===== src/Transport/System/Hearing.antt =====
-- What a worker (transports/udp/src/subscriber.rs) offers when it hears the responses to a request.
pub mod Answered
use real_time_data_platform.Base.{
  ℕ, suc, ◌+◌, ◌^◌, ◌≤◌, ◌<◌, ◌≡◌, inl, inr, refl, sym, ap, subst, ◌∙◌, Bool, Option, none, some,
  List, [], ◌∷◌, ◌++◌, append_assoc, length, Each,
}
use real_time_data_platform.Error.{RtdpError, Result, ok, err}
use real_time_data_platform.Protocol.Frame.{OwnedFrame}
use real_time_data_platform.Serialization.Codec.{FrameCodec}
use real_time_data_platform.Recovery.Data.{
  RecoveryEngine, ReplayRequestPayload, ActiveReplayRequest,
}
use real_time_data_platform.Recovery.Engine.{handle_replay_response}
use real_time_data_platform.Recovery.Engine.Completion.{
  answered, respond_all, respond_engine, HasSequence, IsWaiting, Covers, respond_all-HasSequence,
}
use real_time_data_platform.Delivery.Receiver.{StreamReceiver}
use real_time_data_platform.Transport.Publisher.{attempt, response_frame, send_responses}
use real_time_data_platform.Transport.Subscriber.{
  SocketAddr, Arrival, Worker, Output, on_packet, on_drained, turn,
}
use real_time_data_platform.Transport.Subscriber.Responses.{SameContents, on_packet-response_frame}
use real_time_data_platform.Transport.System.{IsStorable}
use real_time_data_platform.Transport.System.Quiet.{
  Clock, next_round, after_rounds, IsQuiet, IsQuiet-next_round, turn-IsQuiet,
  handle_replay_response-IsQuiet,
}
use real_time_data_platform.Wire.{Wire}

-- Two lists of frames with the same contents, one by one.
abbrev pub Same : List OwnedFrame → List OwnedFrame → Type 0
Same [] [] = Unit
Same (f ∷ fs) (g ∷ gs) = SameContents f g × Same fs gs
Same [] (g ∷ gs) = ⊥
Same (f ∷ fs) [] = ⊥

Same-HasSequence :
    (q : ℕ) (fs gs : List OwnedFrame) → Same fs gs → HasSequence q gs → HasSequence q fs
Same-HasSequence q (f ∷ fs) (g ∷ gs) (s, ss) (inl own) = inl (s.sequence ∙ own)
Same-HasSequence q (f ∷ fs) (g ∷ gs) (s, ss) (inr later) = inr (Same-HasSequence q fs gs ss later)
Same-HasSequence q [] [] ss h = absurd h
Same-HasSequence q [] (g ∷ gs) ss h = absurd ss
Same-HasSequence q (f ∷ fs) [] ss h = absurd h

pub Same-append :
    (fs gs fs' gs' : List OwnedFrame) → Same fs gs → Same fs' gs' → Same (fs ++ fs') (gs ++ gs')
Same-append [] [] fs' gs' ss ss' = ss'
Same-append (f ∷ fs) (g ∷ gs) fs' gs' (s, ss) ss' = (s, Same-append fs gs fs' gs' ss ss')
Same-append [] (g ∷ gs) fs' gs' ss ss' = absurd ss
Same-append (f ∷ fs) [] fs' gs' ss ss' = absurd ss

pub Same-length : (fs gs : List OwnedFrame) → Same fs gs → length fs ≡ length gs
Same-length [] [] ss = refl
Same-length (f ∷ fs) (g ∷ gs) (s, ss) = ap suc (Same-length fs gs ss)
Same-length [] (g ∷ gs) ss = absurd ss
Same-length (f ∷ fs) [] ss = absurd ss

-- What the replay messages do not touch in a receiver.
pub record SameReceiver (r r' : StreamReceiver) : Type 0 where
  pub tracker : r.tracker ≡ r'.tracker
  pub dedup : r.dedup ≡ r'.dedup
  pub mode : r.mode ≡ r'.mode
  pub stream : r.stream_id ≡ r'.stream_id

module _ (w : Wire) where
  -- What a worker offers that hears some packets, one in each round of its loop.
  unfoldable pub hear_all : Worker → SocketAddr → Clock → List (List ℕ) → List OwnedFrame
  hear_all k peer clock [] = []
  hear_all k peer clock (packet ∷ packets) =
      let next = turn w k (clock 0).0 (Arrival.packet peer packet) (clock 0).1 in
      next.1.offered ++ hear_all next.0 peer (next_round clock) packets

  -- The worker that is left then.
  unfoldable pub after_all : Worker → SocketAddr → Clock → List (List ℕ) → Worker
  after_all k peer clock [] = k
  after_all k peer clock (packet ∷ packets) =
      after_all (turn w k (clock 0).0 (Arrival.packet peer packet) (clock 0).1).0 peer
        (next_round clock) packets

  -- The same without the timeout checks.
  unfoldable pub after_packets : Worker → SocketAddr → ℕ → List (List ℕ) → Worker
  after_packets k peer now [] = k
  after_packets k peer now (packet ∷ packets) =
      after_packets (on_packet w k peer packet now).0 peer now packets

  pub hear_all-append :
      (k : Worker) (peer : SocketAddr) (clock : Clock) (xs ys : List (List ℕ))
      → hear_all k peer clock (xs ++ ys)
        ≡ hear_all k peer clock xs
          ++ hear_all (after_all k peer clock xs) peer (after_rounds (length xs) clock) ys
  unfolding hear_all after_all
  hear_all-append k peer clock [] ys = refl
  hear_all-append k peer clock (x ∷ xs) ys =
      let (k', output, more) = turn w k (clock 0).0 (Arrival.packet peer x) (clock 0).1 in
      let later = next_round clock in
      ap (λ frames. output.offered ++ frames) (hear_all-append k' peer later xs ys)
      ∙ sym (
          append_assoc output.offered (hear_all k' peer later xs)
            (hear_all (after_all k' peer later xs) peer (after_rounds (length xs) later) ys))

  pub after_all-append :
      (k : Worker) (peer : SocketAddr) (clock : Clock) (xs ys : List (List ℕ))
      → after_all k peer clock (xs ++ ys)
        ≡ after_all (after_all k peer clock xs) peer (after_rounds (length xs) clock) ys
  unfolding after_all
  after_all-append k peer clock [] ys = refl
  after_all-append k peer clock (x ∷ xs) ys =
      after_all-append (turn w k (clock 0).0 (Arrival.packet peer x) (clock 0).1).0 peer
        (next_round clock) xs ys

  -- A frame that a worker of the stream can be sent again.
  pub record IsSendable (c : FrameCodec) (stream_id : ℕ) (f : OwnedFrame) : Type 0 where
    pub storable : IsStorable f
    pub own_stream : f.header.stream_id ≡ stream_id
    pub room : 56 + length f.payload ≤ c.max_frame_size

  -- What `on_drained` leaves as it is.
  record Kept (k : Worker) (engine : RecoveryEngine)
      (answer : Result (Option (List OwnedFrame)) RtdpError) : Type 0 where
    offers : (on_drained w k (engine, answer)).1.offered ≡ answered answer
    recovery : (on_drained w k (engine, answer)).0.stream_rx.recovery ≡ engine
    codec : (on_drained w k (engine, answer)).0.codec ≡ k.codec
    stream : (on_drained w k (engine, answer)).0.stream_id ≡ k.stream_id
    receiver : SameReceiver (on_drained w k (engine, answer)).0.stream_rx k.stream_rx

  -- Only the engine and the highest delivered sequence may have changed.
  same_receiver :
      {r : StreamReceiver} {engine : RecoveryEngine} {highest : ℕ}
      → SameReceiver (record r { recovery = engine; highest_delivered_sequence = highest }) r
  same_receiver = record { tracker = refl; dedup = refl; mode = refl; stream = refl }

  on_drained-Kept :
      (k : Worker) (engine : RecoveryEngine) (answer : Result (Option (List OwnedFrame)) RtdpError)
      → Kept k engine answer
  unfolding on_drained
  on_drained-Kept k engine (ok (some drained)) = record {
    offers = refl;
    recovery = refl;
    codec = refl;
    stream = refl;
    receiver = same_receiver;
  }
  on_drained-Kept k engine (ok none) = record {
    offers = refl;
    recovery = refl;
    codec = refl;
    stream = refl;
    receiver = same_receiver;
  }
  on_drained-Kept k engine (err e) = record {
    offers = refl;
    recovery = refl;
    codec = refl;
    stream = refl;
    receiver = same_receiver;
  }

  hear_next :
      (k : Worker) (peer : SocketAddr) (clock : Clock) (packet : List ℕ) (packets : List (List ℕ))
      (engine : RecoveryEngine) (answer : Result (Option (List OwnedFrame)) RtdpError)
      → IsQuiet k.stream_rx.recovery clock
      → on_packet w k peer packet (clock 0).1 ≡ on_drained w k (engine, answer)
      → hear_all k peer clock (packet ∷ packets)
        ≡ answered answer
          ++ hear_all (on_drained w k (engine, answer)).0 peer (next_round clock) packets
  unfolding hear_all
  hear_next k peer clock packet packets engine answer quiet e =
      let kept = on_drained-Kept k engine answer in
      let later = next_round clock in
      ap (λ (s : Worker × Output × Bool). s.1.offered ++ hear_all s.0 peer later packets)
        (turn-IsQuiet w k clock peer packet quiet)
      ∙ ap (λ (s : Worker × Output). s.1.offered ++ hear_all s.0 peer later packets) e
      ∙ ap (λ frames. frames ++ hear_all (on_drained w k (engine, answer)).0 peer later packets)
          kept.offers

  -- A worker that hears the responses hands a restored frame for each of them to its engine.
  pub hear_all-send_responses :
      (k : Worker) (peer : SocketAddr) (clock : Clock) (c : FrameCodec) (req : ReplayRequestPayload)
      (fs : List OwnedFrame)
      → IsQuiet k.stream_rx.recovery clock
      → k.codec ≡ c
      → c.max_frame_size ≤ 1500
      → req.request_id < 2 ^ 64
      → Each (IsSendable c k.stream_id) fs
      → (restored : List OwnedFrame) × (hear_all k peer clock (send_responses w c req fs)
          ≡ respond_all req.request_id k.stream_rx.recovery restored)
        × Same restored fs
  unfolding send_responses hear_all respond_all
  hear_all-send_responses k peer clock c req [] quiet same small id_small ss = ([], refl, tt)
  hear_all-send_responses k peer clock c req (f ∷ fs) quiet same small id_small (s, ss) =
      let st = s.storable in
      let id = req.request_id in
      let (packet, restored, sent, contents, heard) =
        on_packet-response_frame w k peer (clock 0).1 req f st.well_typed st.is_data st.plain
          s.own_stream id_small (rw same s.room) (rw same small) in
      let sent' : attempt w c (response_frame w req f) ≡ packet ∷ [] =
        ap (λ c'. attempt w c' (response_frame w req f)) (sym same) ∙ sent in
      let step = handle_replay_response k.stream_rx.recovery id restored in
      let kept = on_drained-Kept k step.0 step.1 in
      let k' = (on_drained w k step).0 in
      let later = next_round clock in
      let quiet_later : IsQuiet k'.stream_rx.recovery later =
        subst (λ e. IsQuiet e later) (sym kept.recovery)
          (handle_replay_response-IsQuiet k.stream_rx.recovery later id restored
            (IsQuiet-next_round k.stream_rx.recovery clock quiet)) in
      let (rest, heard_rest, contents_rest) =
        hear_all-send_responses k' peer later c req fs quiet_later (kept.codec ∙ same) small
          id_small (rw kept.stream ss) in
      let packets = send_responses w c req fs in
      (
        restored ∷ rest,
        ap (λ sent_first. hear_all k peer clock (sent_first ++ packets)) sent'
            ∙ hear_next k peer clock packet packets step.0 step.1 quiet heard
            ∙ ap (λ frames. answered step.1 ++ frames) heard_rest
            ∙ ap (λ e. answered step.1 ++ respond_all id e rest) kept.recovery,
        (contents, contents_rest),
      )

  -- The responses to an outstanding request give every sequence of it.
  pub recovers :
      (k : Worker) (peer : SocketAddr) (clock : Clock) (c : FrameCodec) (req : ReplayRequestPayload)
      (active : ActiveReplayRequest) (fs : List OwnedFrame) (q : ℕ)
      → IsQuiet k.stream_rx.recovery clock
      → k.codec ≡ c
      → c.max_frame_size ≤ 1500
      → req.request_id < 2 ^ 64
      → Each (IsSendable c k.stream_id) fs
      → IsWaiting k.stream_rx.recovery req.request_id active
      → Covers active fs
      → active.from_sequence ≤ q
      → q ≤ active.to_sequence
      → HasSequence q (hear_all k peer clock (send_responses w c req fs))
  recovers k peer clock c req active fs q quiet same small id_small ss waiting covers lo hi =
      let (restored, heard, contents) =
        hear_all-send_responses k peer clock c req fs quiet same small id_small ss in
      rw heard (
        respond_all-HasSequence k.stream_rx.recovery req.request_id active restored q waiting
          (λ q' lo' hi'. elim (covers q' lo' hi') [
            | inl before ↦ inl before
            | inr there ↦ inr (Same-HasSequence q' restored fs contents there)
          ])
          lo hi)
