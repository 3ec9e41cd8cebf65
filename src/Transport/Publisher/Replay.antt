-- ===== src/Transport/Publisher/Replay.antt =====
-- The answers of a publisher (transports/udp/src/publisher.rs) to replay requests.
use real_time_data_platform.Base.{
  ℕ, zero, suc, ◌+◌, ◌-◌, ◌^◌, ◌≤◌, ◌<◌, ◌≡◌, inl, inr, refl, ap, ◌∙◌, Bool, some, List, [], ◌∷◌,
  arith, if◌then◌else◌, ltb, Bool-cases, inc64, take, replicate, length-replicate,
}
use real_time_data_platform.Error.{ok}
use real_time_data_platform.Protocol.Frame.{OwnedFrame, new_data_frame}
use real_time_data_platform.Serialization.Codec.{FrameCodec, encode, decode}
use real_time_data_platform.Serialization.Codec.RoundTrip.{IsEncodable, frame_length}
use real_time_data_platform.Serialization.Codec.Decoded.{decoded_frame, decode-encode}
use real_time_data_platform.Serialization.Codec.Decode.{Result-cases}
use real_time_data_platform.Buffers.Ring.{new_ring, push}
use real_time_data_platform.Buffers.Ring.Retention.{
  Holds, oldest, published, push-Holds_first, push-Holds, push-capacity, new_ring-capacity,
  get_range-Holds,
}
use real_time_data_platform.Recovery.Data.{ReplayRequestPayload}
use real_time_data_platform.Transport.Publisher.{
  Publisher, next_frame, encoded, send, publish, unavailable_frame, attempt, send_responses,
  answer_range, handle_replay_request,
}
use real_time_data_platform.Wire.{Wire}

module _ (w : Wire) where
  -- Whatever becomes of the packet, `publish` stores the frame and counts it.
  pub publish-stores :
      (p : Publisher) (now_ns : ℕ) (payload : List ℕ) (taken : Bool)
      → (publish w p now_ns payload taken).0 ≡ record p {
        sequence_counter = inc64 p.sequence_counter;
        ring_buffer = push p.ring_buffer (next_frame p now_ns payload);
      }
  unfolding publish
  publish-stores p now_ns payload taken =
      let frame = next_frame p now_ns payload in
      elim (Result-cases (send w (encoded w p.codec frame p.max_frame_size) taken).1) [
        | inl (len, sent) ↦ rw (publish, sent) refl
        | inr (e, refused) ↦ rw (publish, refused) refl
      ]

  -- What goes to the socket is the encoded frame.
  pub publish-send :
      (p : Publisher) (now_ns : ℕ) (payload : List ℕ) (taken : Bool)
      → (publish w p now_ns payload taken).1
        ≡ (send w (encoded w p.codec (next_frame p now_ns payload) p.max_frame_size) taken).0
  unfolding publish
  publish-send p now_ns payload taken =
      let frame = next_frame p now_ns payload in
      elim (Result-cases (send w (encoded w p.codec frame p.max_frame_size) taken).1) [
        | inl (len, sent) ↦ rw (publish, sent) refl
        | inr (e, refused) ↦ rw (publish, refused) refl
      ]

  pub encoded_ok :
      (codec : FrameCodec) (frame : OwnedFrame) (size len : ℕ)
      → (encode w codec frame (replicate size 0)).1 ≡ ok len
      → encoded w codec frame size ≡ ok (take len (encode w codec frame (replicate size 0)).0)
  unfolding encoded
  encoded_ok codec frame size len h = rw (encoded, h) refl

  -- The packet of an encodable frame, from a buffer with room for it.
  pub encoded_packet :
      (codec : FrameCodec) (frame : OwnedFrame) (v : IsEncodable w codec frame) (size : ℕ)
      → frame_length w frame ≤ size
      → (packet : List ℕ) × (encoded w codec frame size ≡ ok packet)
        × ((decode w codec packet).1 ≡ ok (decoded_frame w codec frame v))
  encoded_packet codec frame v size room =
      let (len, decoded) =
        decode-encode w codec frame v (replicate size 0)
          (omega (arith, length-replicate {A = ℕ} size 0)) in
      (_, encoded_ok codec frame size (frame_length w frame) len, decoded)

  -- An encodable frame of at most 1500 bytes goes to the peer as one packet, and decoding that
  -- packet gives the frame, its header with the lengths and the checksum filled in.
  pub attempt-decoded :
      (codec : FrameCodec) (frame : OwnedFrame) (v : IsEncodable w codec frame)
      → frame_length w frame ≤ 1500
      → (packet : List ℕ) × (attempt w codec frame ≡ packet ∷ [])
        × ((decode w codec packet).1 ≡ ok (decoded_frame w codec frame v))
  unfolding attempt
  attempt-decoded codec frame v small =
      let (packet, e, decoded) = encoded_packet codec frame v 1500 small in
      (packet, rw (attempt, e) refl, decoded)

  module _ (now : ℕ → ℕ) (payload : ℕ → List ℕ) (taken : ℕ → Bool) (p : Publisher) where
    -- The publisher after its calls of `publish` for the sequences 1 to `n`.
    unfoldable pub publish_upto : ℕ → Publisher
    publish_upto zero = p
    publish_upto (suc n) =
        (publish w (publish_upto n) (now (suc n)) (payload (suc n)) (taken (suc n))).0

    -- The frame of a sequence.
    unfoldable pub frame_of : ℕ → OwnedFrame
    frame_of s = new_data_frame p.stream_id s (now s) p.publisher_id (payload s)

    pub frame_of-stamped : (s : ℕ) → (frame_of s).header.sequence ≡ s
    unfolding frame_of new_data_frame
    frame_of-stamped s = refl

    -- A publisher that has published the sequences 1 to `last`.
    record Serves (last : ℕ) (q : Publisher) : Type 0 where
      ring : Holds frame_of 1 last q.ring_buffer
      capacity : q.ring_buffer.capacity ≡ p.ring_buffer.capacity
      counter : q.sequence_counter ≡ last + 1
      same_stream : q.stream_id ≡ p.stream_id
      same_publisher : q.publisher_id ≡ p.publisher_id
      same_codec : q.codec ≡ p.codec
      same_size : q.max_frame_size ≡ p.max_frame_size

    next_frame-frame_of :
        (q : Publisher) (s : ℕ)
        → q.sequence_counter ≡ s
        → q.stream_id ≡ p.stream_id
        → q.publisher_id ≡ p.publisher_id
        → next_frame q (now s) (payload s) ≡ frame_of s
    unfolding next_frame frame_of
    next_frame-frame_of q s counter stream publisher = rw (counter, stream, publisher) refl

    first-Serves :
        (cap : ℕ)
        → new_ring cap ≡ some p.ring_buffer
        → p.sequence_counter ≡ 1
        → Serves 1 (publish w p (now 1) (payload 1) (taken 1)).0
    first-Serves cap fresh start =
        rw (publish-stores p (now 1) (payload 1) (taken 1), next_frame-frame_of p 1 start refl refl)
          (record {
            ring = push-Holds_first frame_of frame_of-stamped cap 1 p.ring_buffer fresh;
            capacity = push-capacity p.ring_buffer (frame_of 1);
            counter = omega arith;
            same_stream = refl;
            same_publisher = refl;
            same_codec = refl;
            same_size = refl;
          })

    next-Serves :
        (q : Publisher) (last : ℕ)
        → Serves last q
        → suc last < 2 ^ 64 - 1
        → Serves (suc last) (publish w q (now (suc last)) (payload (suc last)) (taken (suc last))).0
    next-Serves q last v small =
        let counter : q.sequence_counter ≡ suc last = v.counter ∙ omega arith in
        rw
          (
            publish-stores q (now (suc last)) (payload (suc last)) (taken (suc last)),
            next_frame-frame_of q (suc last) counter v.same_stream v.same_publisher,
          )
          (record {
            ring = push-Holds frame_of frame_of-stamped 1 last q.ring_buffer v.ring;
            capacity = push-capacity q.ring_buffer (frame_of (suc last)) ∙ v.capacity;
            counter = omega arith;
            same_stream = v.same_stream;
            same_publisher = v.same_publisher;
            same_codec = v.same_codec;
            same_size = v.same_size;
          })

    publish_upto-Serves :
        (cap n : ℕ)
        → new_ring cap ≡ some p.ring_buffer
        → p.sequence_counter ≡ 1
        → suc n < 2 ^ 64 - 1
        → Serves (suc n) (publish_upto (suc n))
    unfolding publish_upto
    publish_upto-Serves cap zero fresh start small = first-Serves cap fresh start
    publish_upto-Serves cap (suc n) fresh start small =
        next-Serves (publish_upto (suc n)) (suc n)
          (publish_upto-Serves cap n fresh start (omega arith)) small

    -- What the call of `publish` for a sequence sends.
    pub publish-frame_of :
        (cap n : ℕ)
        → new_ring cap ≡ some p.ring_buffer
        → p.sequence_counter ≡ 1
        → suc n < 2 ^ 64 - 1
        → (publish w (publish_upto n) (now (suc n)) (payload (suc n)) (taken (suc n))).1
          ≡ (send w (encoded w p.codec (frame_of (suc n)) p.max_frame_size) (taken (suc n))).0
    unfolding publish_upto
    publish-frame_of cap zero fresh start small =
        publish-send p (now 1) (payload 1) (taken 1)
        ∙ ap (λ f. (send w (encoded w p.codec f p.max_frame_size) (taken 1)).0)
            (next_frame-frame_of p 1 start refl refl)
    publish-frame_of cap (suc n) fresh start small =
        let q = publish_upto (suc n) in
        let last = suc (suc n) in
        let v = publish_upto-Serves cap n fresh start (omega arith) in
        let counter : q.sequence_counter ≡ last = v.counter ∙ omega arith in
        publish-send q (now last) (payload last) (taken last)
        ∙ rw
            (
              next_frame-frame_of q last counter v.same_stream v.same_publisher,
              v.same_codec,
              v.same_size,
            )
            refl

    -- After a new publisher has published the sequences 1 to n, n below 2^64 - 1, whatever the
    -- socket did, a replay request whose range is in order is answered as follows: when the ring
    -- still has all frames of the range, with a response for each of them, as published, in their
    -- order, except those that the codec refuses as too long; and otherwise with the range that is
    -- unavailable.
    pub handle_replay_request-published :
        (cap n : ℕ) (codec : FrameCodec) (stream_id publisher_id : ℕ) (req : ReplayRequestPayload)
        → new_ring cap ≡ some p.ring_buffer
        → p.sequence_counter ≡ 1
        → 0 < n
        → n < 2 ^ 64 - 1
        → req.from_sequence ≤ req.to_sequence
        → (let from = req.from_sequence in
            let to = req.to_sequence in
            let lo = oldest cap 1 n in
            let refuse = λ (first last : ℕ). attempt w codec (
              unavailable_frame w stream_id publisher_id (record {
                request_id = req.request_id;
                first_unavailable = first;
                last_unavailable = last;
              })) in
            handle_replay_request w codec (publish_upto n).ring_buffer stream_id publisher_id req
            ≡ (if ltb from lo
                then refuse from (lo - 1)
                else if ltb n to
                then refuse (n + 1) to
                else send_responses w codec req (published frame_of (to + 1 - from) from)))
    unfolding handle_replay_request answer_range
    handle_replay_request-published cap zero codec stream_id publisher_id req fresh start pos small
          ordered =
        absurd (omega arith)
    handle_replay_request-published cap (suc n) codec stream_id publisher_id req fresh start pos
          small ordered =
        let v = publish_upto-Serves cap n fresh start small in
        let size = v.capacity ∙ new_ring-capacity cap p.ring_buffer fresh in
        rw
          (
            get_range-Holds frame_of frame_of-stamped 1 (suc n) (publish_upto (suc n)).ring_buffer
                req.from_sequence req.to_sequence v.ring ordered small,
            size,
          )
          (elim (Bool-cases (ltb req.from_sequence (oldest cap 1 (suc n)))) [
            | inl evicted ↦ rw (evicted, answer_range)
            | inr kept ↦ elim (Bool-cases (ltb (suc n) req.to_sequence)) [
              | inl beyond ↦ rw (kept, beyond, answer_range)
              | inr within ↦ rw (kept, within, answer_range)
            ]
          ])
