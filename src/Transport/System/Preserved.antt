-- ===== src/Transport/System/Preserved.antt =====
-- What stays true of a publisher and a subscriber (transports/udp/src) while they run.
use real_time_data_platform.Base.{
  ℕ, ◌^◌, ◌<◌, ◌≡◌, inl, inr, refl, sym, ◌∙◌, Bool, List, ◌++◌, arith, In, In-Each, Each,
  append-Each, Bool-cases, if◌then◌else◌,
}
use real_time_data_platform.Protocol.Header.{new_data_header, message_from_u16, message_as_u16}
use real_time_data_platform.Protocol.Frame.{OwnedFrame, new_data_frame}
use real_time_data_platform.Buffers.Ring.{push}
use real_time_data_platform.Buffers.Ring.Contents.{
  Stores, new_ring-Stores, push-Stores, clear-Stores,
}
use real_time_data_platform.Recovery.Engine.Sources.{Buffered}
use real_time_data_platform.Transport.Publisher.{
  Publisher, next_frame, encoded, send, publish, publish_frame, store_in_ring_only,
  restart_with_new_publisher_id, on_packet,
}
use real_time_data_platform.Transport.Publisher.Replay.{publish-stores, publish-send}
use real_time_data_platform.Transport.Subscriber.{Arrival}
use real_time_data_platform.Transport.Subscriber.Responses.{SameContents}
use real_time_data_platform.Transport.Subscriber.Sources.{Carries, Comes, turn-Passes}
use real_time_data_platform.Transport.System.{
  System, IsStorable, IsFresh, Step, Reachable, after_turn,
}
use real_time_data_platform.Transport.System.Sent.{IsGood, send-Carries, on_packet-Carries}
use real_time_data_platform.Wire.{Wire}

pub new_data_frame-IsStorable :
    (stream_id sequence timestamp_ns publisher_id : ℕ) (payload : List ℕ)
    → stream_id < 2 ^ 64
    → sequence < 2 ^ 64
    → timestamp_ns < 2 ^ 64
    → publisher_id < 2 ^ 64
    → IsStorable (new_data_frame stream_id sequence timestamp_ns publisher_id payload)
unfolding new_data_frame new_data_header message_from_u16 message_as_u16
new_data_frame-IsStorable stream_id sequence timestamp_ns publisher_id payload hs hq ht hp =
    record {
      well_typed = record {
        is_rtdp = refl;
        is_version_1 = refl;
        message = refl;
        message_small = omega arith;
        header_length_small = omega arith;
        stream_id_small = hs;
        sequence_small = hq;
        timestamp_small = ht;
        publisher_id_small = hp;
        payload_length_small = omega arith;
        checksum_small = omega arith;
      };
      is_data = refl;
      plain = refl;
    }

next_frame-IsStorable :
    (p : Publisher) (now_ns : ℕ) (payload : List ℕ)
    → p.stream_id < 2 ^ 64
    → p.sequence_counter < 2 ^ 64
    → now_ns < 2 ^ 64
    → p.publisher_id < 2 ^ 64
    → IsStorable (next_frame p now_ns payload)
unfolding next_frame
next_frame-IsStorable p now_ns payload =
    new_data_frame-IsStorable p.stream_id p.sequence_counter now_ns p.publisher_id payload

module _ (w : Wire) (P : OwnedFrame → Type 0)
    (respects : (f g : OwnedFrame) → SameContents f g → P g → P f) where
  -- The values of a publisher have their widths, and its ring holds good frames.
  pub record IsServing (p : Publisher) : Type 0 where
    ring : Stores (IsGood P) p.ring_buffer
    stream_small : p.stream_id < 2 ^ 64
    id_small : p.publisher_id < 2 ^ 64
    counter_small : p.sequence_counter < 2 ^ 64
    frames_small : p.max_frame_size < 2 ^ 32

  pub record Preserved (s : System) : Type 0 where
    pub serving : IsServing s.publisher
    pub started_small : s.started_id < 2 ^ 64
    pub same_codec : s.publisher.codec ≡ s.worker.codec
    pub held : Buffered P s.worker.stream_rx.recovery
    pub sent : Each (Carries P w s.worker.codec) s.wire
    pub offered : Each P s.offered

  start-Preserved : (s : System) → IsFresh s → Preserved s
  start-Preserved s f = record {
    serving = record {
      ring = new_ring-Stores (IsGood P) f.capacity s.publisher.ring_buffer f.empty_ring;
      stream_small = f.stream_small;
      id_small = f.id_small;
      counter_small = omega (arith, f.starts_at_1);
      frames_small = f.frames_small;
    };
    started_small = omega (arith, f.started, f.id_small);
    same_codec = f.same_codec;
    held = rw f.nothing_buffered tt;
    sent = rw f.nothing_sent tt;
    offered = rw f.nothing_offered tt;
  }

  turn-Preserved :
      (s : System) (checked : ℕ) (arrival : Arrival) (now : ℕ)
      → Preserved s
      → Comes P w s.worker.codec arrival
      → Preserved (after_turn w s checked arrival now)
  turn-Preserved s checked arrival now i comes =
      let passes = turn-Passes P w s.worker checked arrival now i.held comes in
      record {
        serving = i.serving;
        started_small = i.started_small;
        same_codec = i.same_codec ∙ sym passes.same_codec;
        held = passes.holds;
        sent = rw passes.same_codec i.sent;
        offered = append-Each P s.offered _ i.offered passes.offers;
      }

  pushed-IsServing :
      (p : Publisher) (f : OwnedFrame)
      → IsServing p
      → IsGood P f
      → IsServing (record p { ring_buffer = push p.ring_buffer f })
  pushed-IsServing p f i g = record {
    ring = push-Stores (IsGood P) p.ring_buffer f g i.ring;
    stream_small = i.stream_small;
    id_small = i.id_small;
    counter_small = i.counter_small;
    frames_small = i.frames_small;
  }

  publish-Preserved :
      (s : System) (now_ns : ℕ) (payload : List ℕ) (taken : Bool) (log : List OwnedFrame)
      → now_ns < 2 ^ 64
      → P (next_frame s.publisher now_ns payload)
      → Preserved s
      → (let (p, packets, answer) = publish w s.publisher now_ns payload taken in
          Preserved (record s { publisher = p; log = log; wire = packets ++ s.wire }))
  unfolding next_frame
  publish-Preserved s now_ns payload taken log small h i =
      let p = s.publisher in
      let v = i.serving in
      let frame = next_frame p now_ns payload in
      let g : IsGood P frame = record {
        has = h;
        storable =
            next_frame-IsStorable p now_ns payload v.stream_small v.counter_small small v.id_small;
      } in
      let sent : Each (Carries P w s.worker.codec) (publish w p now_ns payload taken).1 =
        rw (publish-send w p now_ns payload taken, i.same_codec)
          (send-Carries w P respects s.worker.codec frame p.max_frame_size taken g
            v.frames_small) in
      let pushed = pushed-IsServing p frame v g in
      record {
        serving = rw (publish-stores w p now_ns payload taken) (record {
          ring = pushed.ring;
          stream_small = v.stream_small;
          id_small = v.id_small;
          counter_small = omega arith;
          frames_small = v.frames_small;
        });
        started_small = i.started_small;
        same_codec = rw (publish-stores w p now_ns payload taken) i.same_codec;
        held = i.held;
        sent = append-Each (Carries P w s.worker.codec) _ s.wire sent i.sent;
        offered = i.offered;
      }

  publish_frame-Preserved :
      (s : System) (frame : OwnedFrame) (store_in_ring taken : Bool) (log : List OwnedFrame)
      → IsGood P frame
      → Preserved s
      → (let (p, packets, answer) = publish_frame w s.publisher frame store_in_ring taken in
          Preserved (record s { publisher = p; log = log; wire = packets ++ s.wire }))
  unfolding publish_frame
  publish_frame-Preserved s frame store_in_ring taken log g i =
      let p = s.publisher in
      let p' = if store_in_ring then record p { ring_buffer = push p.ring_buffer frame } else p in
      let serving : IsServing p' = elim (Bool-cases store_in_ring) [
        | inl stored ↦ rw stored (pushed-IsServing p frame i.serving g)
        | inr not_stored ↦ rw not_stored i.serving
      ] in
      let same : p'.codec ≡ s.worker.codec = elim (Bool-cases store_in_ring) [
        | inl stored ↦ rw stored i.same_codec
        | inr not_stored ↦ rw not_stored i.same_codec
      ] in
      let sent : Each (Carries P w s.worker.codec)
          (send w (encoded w p.codec frame p.max_frame_size) taken).0 =
        rw i.same_codec (
          send-Carries w P respects s.worker.codec frame p.max_frame_size taken g
            i.serving.frames_small) in
      record {
        serving = serving;
        started_small = i.started_small;
        same_codec = same;
        held = i.held;
        sent = append-Each (Carries P w s.worker.codec) _ s.wire sent i.sent;
        offered = i.offered;
      }

  restart-IsServing :
      (p : Publisher) (id : ℕ)
      → id < 2 ^ 64
      → IsServing p
      → IsServing (restart_with_new_publisher_id p id)
  unfolding restart_with_new_publisher_id
  restart-IsServing p id small v = record {
    ring = clear-Stores (IsGood P) p.ring_buffer;
    stream_small = v.stream_small;
    id_small = small;
    counter_small = omega arith;
    frames_small = v.frames_small;
  }

  step-Preserved :
      {s s' : System}
      → Step w s s'
      → (Preserved s)
      → ((f : OwnedFrame) → In f s'.log → P f)
      → Preserved s'
  unfolding store_in_ring_only restart_with_new_publisher_id
  step-Preserved (Step.publishes {s = s} now_ns payload taken small) i h =
      publish-Preserved s now_ns payload taken _ small (h _ (inl refl)) i
  step-Preserved (Step.publishes_frame {s = s} frame store_in_ring taken storable) i h =
      publish_frame-Preserved s frame store_in_ring taken _
        (record { has = h frame (inl refl); storable = storable }) i
  step-Preserved (Step.stores {s = s} frame storable) i h = record {
    serving =
        pushed-IsServing s.publisher frame i.serving
          (record { has = h frame (inl refl); storable = storable });
    started_small = i.started_small;
    same_codec = i.same_codec;
    held = i.held;
    sent = i.sent;
    offered = i.offered;
  }
  step-Preserved (Step.restarts {s = s} id small) i h = record {
    serving = restart-IsServing s.publisher id small i.serving;
    started_small = i.started_small;
    same_codec = i.same_codec;
    held = i.held;
    sent = i.sent;
    offered = i.offered;
  }
  step-Preserved (Step.replays {s = s} request) i h =
      let v = i.serving in
      let p = s.publisher in
      let sent : Each (Carries P w s.worker.codec)
          (on_packet w p.codec p.ring_buffer p.stream_id s.started_id request) =
        rw i.same_codec (
          on_packet-Carries w P respects s.worker.codec p.stream_id s.started_id v.stream_small
            i.started_small p.ring_buffer request v.ring) in
      record {
        serving = v;
        started_small = i.started_small;
        same_codec = i.same_codec;
        held = i.held;
        sent = append-Each (Carries P w s.worker.codec) _ s.wire sent i.sent;
        offered = i.offered;
      }
  step-Preserved (Step.hears {s = s} checked peer bytes now sent) i h =
      turn-Preserved s checked (Arrival.packet peer bytes) now i
        (In-Each (Carries P w s.worker.codec) bytes s.wire i.sent sent)
  step-Preserved (Step.waits {s = s} checked now) i h =
      turn-Preserved s checked Arrival.nothing now i tt

  -- The log only grows.
  log-In : {s s' : System} → Step w s s' → (f : OwnedFrame) → In f s.log → In f s'.log
  log-In (Step.publishes now_ns payload taken small) f i = inr i
  log-In (Step.publishes_frame frame store_in_ring taken storable) f i = inr i
  log-In (Step.stores frame storable) f i = inr i
  log-In (Step.restarts id small) f i = i
  log-In (Step.replays request) f i = i
  log-In (Step.hears checked peer bytes now sent) f i = i
  log-In (Step.waits checked now) f i = i

  pub Reachable-Preserved :
      {s : System} → Reachable w s → ((f : OwnedFrame) → In f s.log → P f) → Preserved s
  Reachable-Preserved (Reachable.start {s = s} fresh) h = start-Preserved s fresh
  Reachable-Preserved (Reachable.next r step) h =
      step-Preserved step (Reachable-Preserved r (λ f i. h f (log-In step f i))) h
