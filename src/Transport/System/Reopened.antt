-- ===== src/Transport/System/Reopened.antt =====
-- What the frame behind a gap that was closed by a replay does (transports/udp/src): the tracker
-- was not moved, so the gap is taken to be open still.
use real_time_data_platform.Base.{
  ℕ, suc, ◌+◌, ◌-◌, ◌^◌, ◌≤◌, ◌<◌, ◌≡◌, refl, sym, ap, ◌∙◌, Bool, true, some, List, [], ◌∷◌, arith,
  inc64, length,
}
use real_time_data_platform.Protocol.Header.{new_data_header}
use real_time_data_platform.Protocol.Frame.{OwnedFrame, new_data_frame}
use real_time_data_platform.Buffers.Ring.Retention.{oldest, published}
use real_time_data_platform.Recovery.Data.{ReplayRequestPayload}
use real_time_data_platform.Recovery.Engine.Completion.{respond_engine}
use real_time_data_platform.Recovery.Engine.InOrder.{Settled, respond_engine-Settled}
use real_time_data_platform.Delivery.Receiver.{process_data_frame}
use real_time_data_platform.Delivery.Receiver.Ordered.Gap.{
  Accepts, Asks, missing_before, awaited, awaiting, process-Asks, awaiting-IsHalfway,
}
use real_time_data_platform.Transport.Publisher.{
  Publisher, UdpPublisherConfig, new_publisher, send_responses,
}
use real_time_data_platform.Transport.Publisher.Opened.{new_publisher-IsOpened}
use real_time_data_platform.Transport.Publisher.Replay.{frame_of, frame_of-stamped}
use real_time_data_platform.Transport.Subscriber.{
  SocketAddr, Worker, Output, send_replay_request, send_optional, on_packet,
}
use real_time_data_platform.Transport.Subscriber.Responses.{SameContents}
use real_time_data_platform.Transport.System.Hearing.{
  SameReceiver, IsSendable, Same-length, after_packets,
}
use real_time_data_platform.Transport.System.Hearing.Answered.{after_packets-send_responses}
use real_time_data_platform.Transport.System.Recovered.{published-Each}
use real_time_data_platform.Transport.System.Published.{
  Same-CountsUp, published-CountsUp, length-published,
}
use real_time_data_platform.Transport.System.Ready.{
  IsPublishable, IsReady, IsTuned, tuned, own_hist-IsSendable, heard_packet,
}
use real_time_data_platform.Transport.System.Ready as Ready
use real_time_data_platform.Transport.System.Behind.{next-IsBehind}
use real_time_data_platform.Transport.System.Gap.{asks, answers}
use real_time_data_platform.Wire.{Wire}

module _ (w : Wire) (now_ns : ℕ → ℕ) (payload : ℕ → List ℕ) (taken : ℕ → Bool) (p : Publisher)
    (config : UdpPublisherConfig) (k : Worker) (made : new_publisher config ≡ some p)
    (fit : IsPublishable now_ns payload config) (ready : IsReady config k) where
  abbrev hist : ℕ → OwnedFrame
  hist = Ready.hist w now_ns payload taken p

  abbrev sent : ℕ → List (List ℕ)
  sent = Ready.sent w now_ns payload taken p

  abbrev reply : ℕ → ℕ → List ℕ → List (List ℕ)
  reply = Ready.reply w now_ns payload taken p

  abbrev first : ℕ
  first = k.stream_rx.tracker.expected_sequence

  -- The worker that has asked at the frame `held`.
  abbrev asking : OwnedFrame → ℕ → Worker
  asking held heard = record k { stream_rx = (process_data_frame k.stream_rx held heard).0 }

  -- The worker that has been answered.
  settles :
      (n answered heard : ℕ) (peer : SocketAddr) (held : OwnedFrame)
      → SameContents held (hist (suc n))
      → Asks k.stream_rx held heard (process_data_frame k.stream_rx held heard)
      → first ≤ n
      → suc n < 2 ^ 64 - 1
      → (let k' = after_packets w (asking held heard) peer answered (
            send_responses w k.codec
              (missing_before k.stream_rx held)
              (published hist (n + 1 - first) first)) in
          IsTuned config k'
          × SameReceiver k'.stream_rx (asking held heard).stream_rx
          × Settled (awaiting k.stream_rx held heard) k'.stream_rx.recovery)
  unfolding frame_of new_data_frame new_data_header
  settles n answered heard peer held same asked some_missing small =
      let stamped : held.header.sequence ≡ suc n = same.sequence in
      let rounds = n + 1 - first in
      let fs = published hist rounds first in
      let long = length-published hist rounds first in
      let req = missing_before k.stream_rx held in
      let (restored, contents, v) =
        after_packets-send_responses w (asking held heard) peer answered k.codec req fs refl
          (rw ready.codec fit.one_packet) ready.id_small
          (published-Each (IsSendable w k.codec k.stream_id) hist rounds first (λ s lo hi.
            own_hist-IsSendable w now_ns payload taken p config k made fit (tuned ready) s
              (omega arith))) in
      let same_length = Same-length restored fs contents in
      let settled =
        respond_engine-Settled (awaiting k.stream_rx held heard) req.request_id
          (awaited k.stream_rx held heard) first [] restored held
          (awaiting-IsHalfway k.stream_rx held heard (omega arith))
          (Same-CountsUp first restored fs contents
            (published-CountsUp hist rounds first (frame_of-stamped w now_ns payload taken p)))
          (omega (arith, same_length, long)) (omega (arith, same_length, long)) in
      let engine = v.recovery ∙ ap (λ e. respond_engine req.request_id e restored) asked.recovery in
      (
        record { codec = v.codec ∙ ready.codec; stream = v.stream ∙ ready.stream },
        v.receiver,
        rw engine settled,
      )

  -- What the worker asks for at the frame behind the gap.
  abbrev again : ℕ → ReplayRequestPayload
  again n = record {
    request_id = inc64 k.stream_rx.recovery.next_request_id;
    from_sequence = first;
    to_sequence = suc n;
  }

  -- The worker that has been answered hears the next packet.
  heard_next :
      (n heard now : ℕ) (peer : SocketAddr) (held : OwnedFrame) (k' : Worker)
      → SameContents held (hist (suc n))
      → Asks k.stream_rx held heard (process_data_frame k.stream_rx held heard)
      → IsTuned config k'
      → SameReceiver k'.stream_rx (asking held heard).stream_rx
      → Settled (awaiting k.stream_rx held heard) k'.stream_rx.recovery
      → first ≤ n
      → suc (suc n) < 2 ^ 64 - 1
      → suc (suc n) - first ≤ k.stream_rx.recovery.config.max_replay_range
      → length k.stream_rx.recovery.outstanding_requests
        < k.stream_rx.recovery.config.max_outstanding_requests
      → taken (suc (suc n)) ≡ true
      → (packet : List ℕ) × (sent (suc n) ≡ packet ∷ [])
        × ((on_packet w k' peer packet now).1 ≡ record {
          sent = send_replay_request w k.codec peer k.stream_id (again n);
          offered = [];
        })
  unfolding frame_of new_data_frame new_data_header send_optional
  heard_next n heard now peer held k' same asked tune kept settled some_missing small range place
        was_taken =
      let stamped : held.header.sequence ≡ suc n = same.sequence in
      let (packet, f, e, same', took) =
        heard_packet w now_ns payload taken p config k' made fit tune (suc n) peer now small
          was_taken in
      let stamped' : f.header.sequence ≡ suc (suc n) = same'.sequence in
      let o = new_publisher-IsOpened config p made in
      let own : held.header.publisher_id ≡ config.publisher_id = same.publisher_id ∙ o.publisher in
      let by : f.header.publisher_id ≡ held.header.publisher_id =
        same'.publisher_id ∙ sym same.publisher_id in
      let behind =
        next-IsBehind k.stream_rx k'.stream_rx held f heard
          (process_data_frame k.stream_rx held heard) (rw own ready.ordered) ready.nothing_held
          asked kept settled by (omega arith) (omega arith) (omega arith) (omega arith) place in
      let answer = process-Asks k'.stream_rx f now behind in
      let step = took [] (some (missing_before k'.stream_rx f)) answer.answer in
      let from : k'.stream_rx.tracker.expected_sequence ≡ first =
        ap (λ t. t.expected_sequence) kept.tracker ∙ asked.expected in
      let to : f.header.sequence - 1 ≡ suc n = omega arith in
      let id = settled.next_request_id in
      let missing : missing_before k'.stream_rx f ≡ again n = cc (id, from, to) in
      (
        packet,
        e,
        ap (λ s. s.1) step
            ∙ ap
                (λ req. record {
                  sent = send_replay_request w k'.codec peer k'.stream_id req;
                  offered = [];
                })
                missing
            ∙ ap
                (λ c. record {
                  sent = send_replay_request w c peer k'.stream_id (again n);
                  offered = [];
                })
                (tune.codec ∙ sym ready.codec)
            ∙ ap
                (λ s. record {
                  sent = send_replay_request w k.codec peer s (again n);
                  offered = [];
                })
                (tune.stream ∙ sym ready.stream),
      )

  -- A worker in RELIABLE_ORDERED mode that holds nothing back, as a consistent receiver of a new
  -- publisher's stream, hears the packet of n + 1 before the expected one, sends a request, and
  -- hears the whole answer of the publisher, which closes the gap. When it then hears the packet
  -- of n + 2, from which nothing is missing any more, it offers nothing: it asks under the next id
  -- for everything from the sequence that was expected at first up to n + 1 once more. This is of
  -- the packets alone, without the timeout checks between them. The publisher has published up to
  -- a sequence after n + 1 and below 2^64 - 1, its ring still has the expected one, the longer
  -- range is within the limit, and the engine has room for a request. The frames are of at most
  -- 1500 bytes, with room for a request and with 8 bytes to spare, times and ids have 64 bits, and
  -- the socket takes the packets that are heard.
  pub gap_reopened :
      (n last : ℕ) (peer : SocketAddr) (heard answered started_id now : ℕ)
      → taken (suc n) ≡ true
      → taken (suc (suc n)) ≡ true
      → suc (suc n) - first ≤ k.stream_rx.recovery.config.max_replay_range
      → length k.stream_rx.recovery.outstanding_requests
        < k.stream_rx.recovery.config.max_outstanding_requests
      → first ≤ n
      → suc n < last
      → last < 2 ^ 64 - 1
      → oldest config.ring_buffer_capacity 1 last ≤ first
      → (packet : List ℕ) × (request : List ℕ) × (packet' : List ℕ) × (sent n ≡ packet ∷ [])
        × ((on_packet w k peer packet heard).1
            ≡ record { sent = (peer, request) ∷ []; offered = [] })
        × (sent (suc n) ≡ packet' ∷ [])
        × (let k' =
              after_packets w
                (on_packet w k peer packet heard).0
                peer
                answered
                (reply last started_id request) in
            (on_packet w k' peer packet' now).1 ≡ record {
              sent = send_replay_request w k.codec peer k.stream_id (again n);
              offered = [];
            })
  unfolding send_optional
  gap_reopened n last peer heard answered started_id now was_taken next_taken range place
        some_missing later bound kept =
      let accepts : Accepts k.stream_rx.recovery first n = record {
        in_range = omega arith;
        has_place = place;
      } in
      let (packet, held, e, same, took) =
        heard_packet w now_ns payload taken p config k made fit (tuned ready) n peer heard
          (omega arith) was_taken in
      let asked =
        asks w now_ns payload taken p config k made fit ready n heard held same accepts some_missing
          (omega arith) in
      let (request, requested, answer) =
        answers w now_ns payload taken p config k made fit ready n last started_id peer held same
          some_missing (omega arith) bound kept in
      let step = took [] (some (missing_before k.stream_rx held)) asked.answer in
      let (tune, untouched, settled) =
        settles n answered heard peer held same asked some_missing (omega arith) in
      let responses =
        send_responses w k.codec (missing_before k.stream_rx held)
          (published hist (n + 1 - first) first) in
      let k' = after_packets w (asking held heard) peer answered responses in
      let (packet', e', asked_again) =
        heard_next n heard now peer held k' same asked tune untouched settled some_missing
          (omega arith) range place next_taken in
      let here : after_packets w (on_packet w k peer packet heard).0 peer answered
            (reply last started_id request)
          ≡ k' =
        ap
          (λ (s : Worker × Output).
            after_packets w s.0 peer answered (reply last started_id request))
          step
        ∙ ap (after_packets w (asking held heard) peer answered) answer in
      (
        packet,
        request,
        packet',
        e,
        ap (λ s. s.1) step ∙ ap (λ packets. record { sent = packets; offered = [] }) requested,
        e',
        ap (λ k''. (on_packet w k'' peer packet' now).1) here ∙ asked_again,
      )
