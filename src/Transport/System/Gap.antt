-- ===== src/Transport/System/Gap.antt =====
-- From a gap to its end (transports/udp/src): a frame that comes too early, the request for what is
-- missing before it, the answer of the publisher, and what the application is offered.
use real_time_data_platform.Base.{
  ℕ, suc, ◌+◌, ◌-◌, ◌^◌, ◌≤◌, ◌<◌, ◌≡◌, refl, sym, ap, subst, ◌∙◌, Bool, true, false, some, List,
  [], ◌∷◌, ◌++◌, arith, ltb,
}
use real_time_data_platform.Protocol.Header.{new_data_header}
use real_time_data_platform.Protocol.Frame.{OwnedFrame, new_data_frame}
use real_time_data_platform.Buffers.Ring.Retention.{oldest, published}
use real_time_data_platform.Delivery.Receiver.{process_data_frame}
use real_time_data_platform.Delivery.Receiver.Ordered.Gap.{
  Accepts, Asks, missing_before, awaited, awaiting, process-Asks, ordered-IsBehind,
  awaiting-IsHalfway,
}
use real_time_data_platform.Transport.Publisher.{
  Publisher, UdpPublisherConfig, new_publisher, encoded, send, publish, send_responses,
  handle_replay_request,
}
use real_time_data_platform.Transport.Publisher as Publisher
use real_time_data_platform.Transport.Publisher.Opened.{IsOpened, new_publisher-IsOpened}
use real_time_data_platform.Transport.Publisher.Replay.{
  publish_upto, frame_of, frame_of-stamped, handle_replay_request-published,
}
use real_time_data_platform.Transport.Subscriber.{
  SocketAddr, Arrival, Worker, Output, send_replay_request, send_optional, turn,
}
use real_time_data_platform.Transport.Subscriber.Requests.{on_packet-send_replay_request}
use real_time_data_platform.Transport.Subscriber.Responses.{SameContents}
use real_time_data_platform.Transport.System.Quiet.{
  Clock, next_round, InTime, IsQuiet, turn-IsQuiet, awaiting-IsQuiet,
}
use real_time_data_platform.Transport.System.Hearing.{hear_all, IsSendable, Same, Same-append}
use real_time_data_platform.Transport.System.Recovered.{published-Each}
use real_time_data_platform.Transport.System.Published.{
  published-CountsUp, length-published, published_last, hear_all-IsHalfway,
}
use real_time_data_platform.Transport.System.Ready as Ready
use real_time_data_platform.Transport.System.Ready.{
  IsPublishable, IsReady, own_hist-IsSendable, heard_packet, tuned,
}
use real_time_data_platform.Wire.{Wire}

module _ (w : Wire) (now_ns : ℕ → ℕ) (payload : ℕ → List ℕ) (taken : ℕ → Bool) (p : Publisher) where
  abbrev hist : ℕ → OwnedFrame
  hist = Ready.hist w now_ns payload taken p

  abbrev sent : ℕ → List (List ℕ)
  sent = Ready.sent w now_ns payload taken p

  abbrev reply : ℕ → ℕ → List ℕ → List (List ℕ)
  reply = Ready.reply w now_ns payload taken p

  module _ (config : UdpPublisherConfig) (k : Worker) (made : new_publisher config ≡ some p)
      (fit : IsPublishable now_ns payload config) (ready : IsReady config k) where
    abbrev opened : IsOpened config p
    opened = new_publisher-IsOpened config p made

    abbrev first : ℕ
    first = k.stream_rx.tracker.expected_sequence

    -- The worker asks for what is missing before the frame.
    pub asks :
        (n heard : ℕ) (held : OwnedFrame)
        → SameContents held (hist (suc n))
        → Accepts k.stream_rx.recovery first n
        → first ≤ n
        → suc n < 2 ^ 64 - 1
        → Asks k.stream_rx held heard (process_data_frame k.stream_rx held heard)
    unfolding frame_of new_data_frame new_data_header
    asks n heard held same accepts some_missing small =
        let stamped : held.header.sequence ≡ suc n = same.sequence in
        let back : held.header.sequence - 1 ≡ n = omega arith in
        let by : held.header.publisher_id ≡ config.publisher_id =
          same.publisher_id ∙ opened.publisher in
        process-Asks k.stream_rx held heard (
          ordered-IsBehind k.stream_rx held (rw by ready.ordered) ready.nothing_held (omega arith)
            (omega arith) (rw back accepts))

    -- What the worker is offered in the end.
    offered_all :
        (n heard : ℕ) (peer : SocketAddr) (held : OwnedFrame) (k' : Worker) (clock : Clock)
        → IsQuiet (awaiting k.stream_rx held heard) clock
        → SameContents held (hist (suc n))
        → k'.codec ≡ k.codec
        → k'.stream_id ≡ k.stream_id
        → k'.stream_rx.recovery ≡ awaiting k.stream_rx held heard
        → first ≤ n
        → suc n < 2 ^ 64 - 1
        → Same
            (hear_all w k' peer clock (
              send_responses w k'.codec
                (missing_before k.stream_rx held)
                (published hist (n + 1 - first) first)))
            (published hist (n + 2 - first) first)
    unfolding frame_of new_data_frame new_data_header
    offered_all n heard peer held k' clock quiet same codec stream engine some_missing small =
        let stamped : held.header.sequence ≡ suc n = same.sequence in
        let rounds = n + 1 - first in
        let fs = published hist rounds first in
        let long = length-published hist rounds first in
        let at_end : first + rounds ≡ suc n = omega arith in
        let one_more : n + 2 - first ≡ suc rounds = omega arith in
        let (restored, contents, heard_all) =
          hear_all-IsHalfway w k' peer clock (missing_before k.stream_rx held)
            (awaited k.stream_rx held heard) first fs held (rw engine quiet)
            (rw (codec, ready.codec) fit.one_packet) ready.id_small
            (rw (codec, stream)
              (published-Each (IsSendable w k.codec k.stream_id) hist rounds first (λ s lo hi.
                own_hist-IsSendable w now_ns payload taken p config k made fit (tuned ready) s
                  (omega arith))))
            (rw engine (awaiting-IsHalfway k.stream_rx held heard (omega arith)))
            (published-CountsUp hist rounds first (frame_of-stamped w now_ns payload taken p))
            (omega (arith, long)) (omega (arith, long)) in
        let listed : published hist (n + 2 - first) first ≡ fs ++ hist (suc n) ∷ [] =
          ap (λ count. published hist count first) one_more
          ∙ published_last hist rounds first
          ∙ ap (λ s. fs ++ hist s ∷ []) at_end in
        subst (λ offered. Same offered (published hist (n + 2 - first) first)) (sym heard_all)
          (subst (Same (restored ++ held ∷ [])) (sym listed)
            (Same-append restored fs (held ∷ []) (hist (suc n) ∷ []) contents (same, tt)))

    -- The request is one packet, and the publisher answers it with what is missing.
    pub answers :
        (n last started_id : ℕ) (peer : SocketAddr) (held : OwnedFrame)
        → SameContents held (hist (suc n))
        → first ≤ n
        → n < last
        → last < 2 ^ 64 - 1
        → oldest config.ring_buffer_capacity 1 last ≤ first
        → (let req = missing_before k.stream_rx held in
            (request : List ℕ) × (send_replay_request w k.codec peer k.stream_id req
              ≡ (peer, request) ∷ [])
            × (reply last started_id request
                ≡ send_responses w k.codec req (published hist (n + 1 - first) first)))
    unfolding frame_of new_data_frame new_data_header
    answers n last started_id peer held same some_missing later bound kept =
        let o = opened in
        let stamped : held.header.sequence ≡ suc n = same.sequence in
        let req = missing_before k.stream_rx held in
        let to : held.header.sequence - 1 ≡ n = omega arith in
        let ring = (publish_upto w now_ns payload taken p last).ring_buffer in
        let (request, sent, heard) =
          on_packet-send_replay_request w k.codec peer k.stream_id req ring p.stream_id started_id
            (rw ready.stream fit.stream_small) ready.id_small (omega arith) (omega arith)
            (omega arith) (rw ready.codec fit.request_room) in
        let answer =
          handle_replay_request-published w now_ns payload taken p config.ring_buffer_capacity last
            k.codec p.stream_id started_id req o.ring o.counter (omega arith) bound (omega arith) in
        let not_evicted : ltb first (oldest config.ring_buffer_capacity 1 last) ≡ false =
          ground arith in
        let within : ltb last (held.header.sequence - 1) ≡ false = ground arith in
        (
          request,
          sent,
          ap (λ c. Publisher.on_packet w c ring p.stream_id started_id request)
                (o.codec ∙ sym ready.codec)
              ∙ heard
              ∙ (rw (not_evicted, within) at answer)
              ∙ ap (λ q. send_responses w k.codec req (published hist (q + 1 - first) first)) to,
        )

    -- A worker in RELIABLE_ORDERED mode that holds nothing back, as a consistent receiver of a new
    -- publisher's stream, and expects a sequence of at most n, hears the packet of n + 1. At this
    -- it offers nothing and sends one packet to the sender. If it then hears, one in each round of
    -- its loop, the packets with which the publisher answers this packet, it offers the frames
    -- from the expected one to n + 1 with their published contents, in order and each once. No
    -- timeout check of these rounds comes as late as the retry timeout after this request or
    -- another outstanding one was last sent. The publisher has published up to a sequence after n
    -- and below 2^64 - 1, its ring still has the expected one, and the engine accepts the request.
    -- The frames are of at most 1500 bytes, with room for a request and with 8 bytes to spare,
    -- times and ids have 64 bits, and the socket takes the packets that are heard.
    pub gap_recovered :
        (n last : ℕ) (peer : SocketAddr) (clock : Clock) (started_id : ℕ)
        → IsQuiet k.stream_rx.recovery clock
        → InTime k.stream_rx.recovery.config (next_round clock) (clock 0).1
        → taken (suc n) ≡ true
        → Accepts k.stream_rx.recovery first n
        → first ≤ n
        → n < last
        → last < 2 ^ 64 - 1
        → oldest config.ring_buffer_capacity 1 last ≤ first
        → (packet : List ℕ) × (request : List ℕ) × (sent n ≡ packet ∷ [])
          × (let (k', output, more) =
                turn w k (clock 0).0 (Arrival.packet peer packet) (clock 0).1 in
              (output ≡ record { sent = (peer, request) ∷ []; offered = [] })
              × Same
                  (hear_all w k' peer (next_round clock) (reply last started_id request))
                  (published hist (n + 2 - first) first))
    unfolding send_optional
    gap_recovered n last peer clock started_id quiet in_time was_taken accepts some_missing later
          bound kept =
        let heard = (clock 0).1 in
        let answered = next_round clock in
        let (packet, held, e, same, took) =
          heard_packet w now_ns payload taken p config k made fit (tuned ready) n peer heard
            (omega arith) was_taken in
        let asked = asks n heard held same accepts some_missing (omega arith) in
        let (request, requested, answer) =
          answers n last started_id peer held same some_missing later bound kept in
        let step =
          turn-IsQuiet w k clock peer packet quiet
          ∙ ap (λ (s : Worker × Output). (s.0, s.1, true))
              (took [] (some (missing_before k.stream_rx held)) asked.answer) in
        let k' : Worker = record k { stream_rx = (process_data_frame k.stream_rx held heard).0 } in
        let all = published hist (n + 2 - first) first in
        (
          packet,
          request,
          e,
          (
            ap (λ (s : Worker × Output × Bool). s.1) step
                ∙ ap (λ packets. record { sent = packets; offered = [] }) requested,
            subst
                (λ (s : Worker × Output × Bool).
                  Same (hear_all w s.0 peer answered (reply last started_id request)) all)
                (sym step)
                (subst (λ packets. Same (hear_all w k' peer answered packets) all) (sym answer)
                  (offered_all n heard peer held k' answered
                    (awaiting-IsQuiet k.stream_rx held clock quiet in_time) same refl refl
                    asked.recovery some_missing (omega arith))),
          ),
        )
