-- ===== src/Transport/System/Hearing/Answered.antt =====
-- The worker (transports/udp/src/subscriber.rs) that has heard the responses to a request.
use real_time_data_platform.Base.{
  ℕ, ◌^◌, ◌≤◌, ◌<◌, ◌≡◌, refl, sym, ap, subst, ◌∙◌, List, [], ◌∷◌, ◌++◌, Each,
}
use real_time_data_platform.Protocol.Frame.{OwnedFrame}
use real_time_data_platform.Serialization.Codec.{FrameCodec}
use real_time_data_platform.Recovery.Data.{RecoveryEngine, ReplayRequestPayload}
use real_time_data_platform.Recovery.Engine.{handle_replay_response}
use real_time_data_platform.Recovery.Engine.Completion.{respond_engine}
use real_time_data_platform.Transport.Publisher.{attempt, response_frame, send_responses}
use real_time_data_platform.Transport.Subscriber.{SocketAddr, Worker, on_drained}
use real_time_data_platform.Transport.Subscriber.Responses.{on_packet-response_frame}
use real_time_data_platform.Wire.{Wire}
use real_time_data_platform.Transport.System.Hearing.{
  Same, SameReceiver, IsSendable, after_packets, on_drained-Kept, same_receiver,
}

module _ (w : Wire) where
  -- The worker that has heard responses: what its engine has become, and what is as before.
  pub record Answered (k k' : Worker) (engine : RecoveryEngine) : Type 0 where
    pub recovery : k'.stream_rx.recovery ≡ engine
    pub codec : k'.codec ≡ k.codec
    pub stream : k'.stream_id ≡ k.stream_id
    pub receiver : SameReceiver k'.stream_rx k.stream_rx

  pub after_packets-send_responses :
      (k : Worker) (peer : SocketAddr) (now : ℕ) (c : FrameCodec) (req : ReplayRequestPayload)
      (fs : List OwnedFrame)
      → k.codec ≡ c
      → c.max_frame_size ≤ 1500
      → req.request_id < 2 ^ 64
      → Each (IsSendable w c k.stream_id) fs
      → (restored : List OwnedFrame) × Same restored fs
        × Answered k
            (after_packets w k peer now (send_responses w c req fs))
            (respond_engine req.request_id k.stream_rx.recovery restored)
  unfolding send_responses after_packets respond_engine
  after_packets-send_responses k peer now c req [] same small id_small ss =
      ([], tt, record { recovery = refl; codec = refl; stream = refl; receiver = same_receiver w })
  after_packets-send_responses k peer now c req (f ∷ fs) same small id_small (s, ss) =
      let st = s.storable in
      let id = req.request_id in
      let (packet, restored, sent, contents, heard) =
        on_packet-response_frame w k peer now req f st.well_typed st.is_data st.plain s.own_stream
          id_small (rw same s.room) (rw same small) in
      let sent' : attempt w c (response_frame w req f) ≡ packet ∷ [] =
        ap (λ c'. attempt w c' (response_frame w req f)) (sym same) ∙ sent in
      let step = handle_replay_response k.stream_rx.recovery id restored in
      let kept = on_drained-Kept w k step.0 step.1 in
      let k' = (on_drained w k step).0 in
      let (rest, contents_rest, v) =
        after_packets-send_responses k' peer now c req fs (kept.codec ∙ same) small id_small
          (rw kept.stream ss) in
      let packets = send_responses w c req fs in
      let state : after_packets w k peer now (attempt w c (response_frame w req f) ++ packets)
          ≡ after_packets w k' peer now packets =
        ap (λ first. after_packets w k peer now (first ++ packets)) sent'
        ∙ ap (λ s. after_packets w s.0 peer now packets) heard in
      let r = v.receiver in
      let r' = kept.receiver in
      (
        restored ∷ rest,
        (contents, contents_rest),
        subst (λ last. Answered k last (respond_engine id step.0 rest)) (sym state)
            (record {
              recovery = v.recovery ∙ ap (λ e. respond_engine id e rest) kept.recovery;
              codec = v.codec ∙ kept.codec;
              stream = v.stream ∙ kept.stream;
              receiver = record {
                tracker = r.tracker ∙ r'.tracker;
                dedup = r.dedup ∙ r'.dedup;
                mode = r.mode ∙ r'.mode;
                stream = r.stream ∙ r'.stream;
              };
            }),
      )
