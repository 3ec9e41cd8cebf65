-- ===== src/Transport/System/Sent.antt =====
-- What a subscriber can take from the packets that a publisher sends (transports/udp/src).
use real_time_data_platform.Base.{
  ℕ, ◌^◌, ◌<◌, ◌≡◌, inl, inr, refl, sym, subst, Bool, List, [], ◌∷◌, arith, length, replicate,
  length-replicate, length-append, Each, append-Each, Bool-cases, take,
}
use real_time_data_platform.Error.{Result, ok, err}
use real_time_data_platform.Protocol.Header.{MessageType, message_from_u16, message_as_u16}
use real_time_data_platform.Protocol.Frame.{FrameView, OwnedFrame}
use real_time_data_platform.Protocol.HeaderCodec.RoundTrip.{IsWellTyped}
use real_time_data_platform.Protocol.Extensions.Scan.{done}
use real_time_data_platform.Serialization.Codec.{FrameCodec, encode, decode}
use real_time_data_platform.Serialization.Codec.Accepted.{IsMessage}
use real_time_data_platform.Serialization.Codec.RoundTrip.{IsEncodable, frame_length}
use real_time_data_platform.Serialization.Codec.Decode.{Result-cases}
use real_time_data_platform.Serialization.Codec.Decoded.{decoded_frame, decode-encode}
use real_time_data_platform.Serialization.Codec.Encoded.{encode-Fits}
use real_time_data_platform.Buffers.Ring.{RingBuffer, RangeError}
use real_time_data_platform.Buffers.Ring.Contents.{Ranged, Stores, get_range-Ranged}
use real_time_data_platform.Recovery.Data.{ReplayRequestPayload, ReplayUnavailablePayload}
use real_time_data_platform.Recovery.Payloads.{
  encode_unavailable, decode_request, length-write_three_exact,
}
use real_time_data_platform.Transport.Publisher.{
  encoded, attempt, send, control_header, response_frame, unavailable_bytes, unavailable_frame,
  send_responses, answer_range, handle_replay_request, on_frame, on_packet, is_replay_request,
}
use real_time_data_platform.Transport.Subscriber.{owned}
use real_time_data_platform.Transport.Subscriber.Requests.{control_header-IsWellTyped}
use real_time_data_platform.Transport.Subscriber.Responses.{SameContents, recovered-SameContents}
use real_time_data_platform.Transport.Subscriber.Sources.{Brings, Carries}
use real_time_data_platform.Transport.System.{IsStorable}
use real_time_data_platform.Wire.{Wire, widths}

-- A stored frame with a property.
pub record IsGood (P : OwnedFrame → Type 0) (f : OwnedFrame) : Type 0 where
  pub has : P f
  pub storable : IsStorable f

module _ (w : Wire) where
  open w use {write_u64}

  -- The packet of a frame without extensions is decoded to that frame.
  encoded-decoded :
      (c : FrameCodec) (frame : OwnedFrame) (size : ℕ) (packet : List ℕ)
      → IsWellTyped frame.header
      → frame.extension_bytes ≡ []
      → IsMessage w frame.header.message_type frame.payload
      → size < 2 ^ 32
      → encoded w c frame size ≡ ok packet
      → (v : IsEncodable w c frame) × ((decode w c packet).1 ≡ ok (decoded_frame w c frame v))
  unfolding encoded
  encoded-decoded c frame size packet t plain rules small h =
      let dst = replicate {A = ℕ} size 0 in
      elim (Result-cases (encode w c frame dst).1) [
        | inl (len, e) ↦
            let f = encode-Fits w c frame dst len e in
            let none_extended : length frame.extension_bytes ≡ 0 = rw plain refl in
            let n = length-replicate {A = ℕ} size 0 in
            let v : IsEncodable w c frame = record {
              well_typed = t;
              aligned = f.aligned;
              header_small = omega arith;
              payload_small = omega (arith, f.room, n);
              fits = f.fits;
              extensions = rw plain (done (omega arith));
              message = rules;
            } in
            let (answer, decoded) = decode-encode w c frame v dst f.room in
            let written = rw (encoded, answer) at h in
            let taken : take (frame_length w frame) (encode w c frame dst).0 ≡ packet =
              ground arith in
            (v, rw taken at decoded)
        | inr (e, refused) ↦ let refusal = rw (encoded, refused) at h in absurd (ground arith)
      ]

  unavailable_frame-length :
      (payload : ReplayUnavailablePayload) → length (unavailable_bytes w payload) ≡ 24
  unfolding unavailable_bytes encode_unavailable
  unavailable_frame-length payload =
      length-write_three_exact w payload.request_id payload.first_unavailable
        payload.last_unavailable (replicate 24 0) refl

  module _ (P : OwnedFrame → Type 0) (respects : (f g : OwnedFrame) → SameContents f g → P g → P f)
      (c : FrameCodec) where
    carries :
        (frame : OwnedFrame) (size : ℕ) (packet : List ℕ)
        → IsWellTyped frame.header
        → frame.extension_bytes ≡ []
        → IsMessage w frame.header.message_type frame.payload
        → size < 2 ^ 32
        → ((v : IsEncodable w c frame)
            → Brings P frame.header.message_type (decoded_frame w c frame v))
        → encoded w c frame size ≡ ok packet
        → Carries P w c packet
    carries frame size packet t plain rules small brings h view decoded =
        let (v, e) = encoded-decoded c frame size packet t plain rules small h in
        let same : decoded_frame w c frame v ≡ view = ground arith in
        subst (λ view'. Brings P view'.header.message_type view') same (brings v)

    attempt-Carries :
        (frame : OwnedFrame)
        → IsWellTyped frame.header
        → frame.extension_bytes ≡ []
        → IsMessage w frame.header.message_type frame.payload
        → ((v : IsEncodable w c frame)
            → Brings P frame.header.message_type (decoded_frame w c frame v))
        → Each (Carries P w c) (attempt w c frame)
    unfolding attempt
    attempt-Carries frame t plain rules brings = elim (Result-cases (encoded w c frame 1500)) [
      | inl (packet, e) ↦
          rw (attempt, e) (carries frame 1500 packet t plain rules (omega arith) brings e, tt)
      | inr (e, refused) ↦ rw (attempt, refused) tt
    ]

    data-Brings :
        (frame : OwnedFrame) (v : IsEncodable w c frame)
        → IsGood P frame
        → Brings P frame.header.message_type (decoded_frame w c frame v)
    unfolding owned
    data-Brings frame v g =
        let view = decoded_frame w c frame v in
        let same : SameContents (owned view) frame = record {
          message_type = refl;
          stream_id = refl;
          sequence = refl;
          timestamp_ns = refl;
          publisher_id = refl;
          extensions = refl;
          payload = refl;
        } in
        subst (λ type. Brings P type view) (sym g.storable.is_data)
          (respects (owned view) frame same g.has)

    -- What `publish` sends.
    pub send-Carries :
        (frame : OwnedFrame) (size : ℕ) (taken : Bool)
        → IsGood P frame
        → size < 2 ^ 32
        → Each (Carries P w c) (send w (encoded w c frame size) taken).0
    unfolding send
    send-Carries frame size taken g small = elim (Result-cases (encoded w c frame size)) [
      | inl (packet, e) ↦ elim (Bool-cases taken) [
        | inl sent ↦
            rw (e, sent)
              (
                carries frame size packet g.storable.well_typed g.storable.plain
                    (rw g.storable.is_data tt) small (λ v. data-Brings frame v g) e,
                tt,
              )
        | inr lost ↦ rw (e, lost) tt
      ]
      | inr (e, refused) ↦ rw refused tt
    ]

    response-Carries :
        (req : ReplayRequestPayload) (frame : OwnedFrame)
        → IsGood P frame
        → Each (Carries P w c) (attempt w c (response_frame w req frame))
    unfolding response_frame control_header message_from_u16 message_as_u16
    response-Carries req frame g =
        let t = g.storable.well_typed in
        let h = frame.header in
        let long = length-append (write_u64 req.request_id) frame.payload in
        attempt-Carries (response_frame w req frame)
          (control_header-IsWellTyped MessageType.replay_response h.stream_id h.sequence
            h.timestamp_ns h.publisher_id _ (refl, omega arith) t.stream_id_small t.sequence_small
            t.timestamp_small t.publisher_id_small (omega arith))
          refl (omega (widths, long))
          (λ v.
            respects _ frame
              (recovered-SameContents w c req frame v g.storable.is_data g.storable.plain) g.has)

    unavailable-Carries :
        (stream_id publisher_id : ℕ) (payload : ReplayUnavailablePayload)
        → stream_id < 2 ^ 64
        → publisher_id < 2 ^ 64
        → Each (Carries P w c) (attempt w c (unavailable_frame w stream_id publisher_id payload))
    unfolding unavailable_frame control_header message_from_u16 message_as_u16
    unavailable-Carries stream_id publisher_id payload hs hp =
        attempt-Carries (unavailable_frame w stream_id publisher_id payload)
          (control_header-IsWellTyped MessageType.replay_unavailable stream_id 0 0 publisher_id 24
            (refl, omega arith) hs (omega arith) (omega arith) hp (omega arith))
          refl (unavailable_frame-length payload) (λ v. tt)

    send_responses-Carries :
        (req : ReplayRequestPayload) (frames : List OwnedFrame)
        → Each (IsGood P) frames
        → Each (Carries P w c) (send_responses w c req frames)
    unfolding send_responses
    send_responses-Carries req [] gs = tt
    send_responses-Carries req (f ∷ fs) (g, gs) =
        append-Each (Carries P w c) _ _ (response-Carries req f g)
          (send_responses-Carries req fs gs)

    module _ (stream_id publisher_id : ℕ) (hs : stream_id < 2 ^ 64)
        (hp : publisher_id < 2 ^ 64) where
      answer_range-Carries :
          (req : ReplayRequestPayload) (range : Result (List OwnedFrame) RangeError)
          → Ranged (IsGood P) range
          → Each (Carries P w c) (answer_range w c stream_id publisher_id req range)
      unfolding answer_range
      answer_range-Carries req (ok frames) gs = send_responses-Carries req frames gs
      answer_range-Carries req (err (code, first, last)) gs =
          unavailable-Carries stream_id publisher_id _ hs hp

      on_frame-Carries :
          (ring : RingBuffer) (view : FrameView)
          → Stores (IsGood P) ring
          → Each (Carries P w c) (on_frame w c ring stream_id publisher_id view)
      unfolding on_frame handle_replay_request
      on_frame-Carries ring view h =
          elim (Bool-cases (is_replay_request view.header.message_type)) [
            | inl request ↦ elim (Result-cases (decode_request w view.payload)) [
              | inl (req, e) ↦
                  rw (on_frame, request, e)
                    (answer_range-Carries req _
                      (get_range-Ranged (IsGood P) ring req.from_sequence req.to_sequence h))
              | inr (e, refused) ↦ rw (on_frame, request, refused) tt
            ]
            | inr other ↦ rw (on_frame, other) tt
          ]

      -- Whatever packet the replay thread gets.
      pub on_packet-Carries :
          (ring : RingBuffer) (request : List ℕ)
          → Stores (IsGood P) ring
          → Each (Carries P w c) (on_packet w c ring stream_id publisher_id request)
      unfolding on_packet
      on_packet-Carries ring request h = elim (Result-cases (decode w c request).1) [
        | inl (view, e) ↦ rw (on_packet, e) (on_frame-Carries ring view h)
        | inr (e, refused) ↦ rw (on_packet, refused) tt
      ]
