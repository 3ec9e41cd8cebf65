-- ===== src/Cli/Publish.antt =====
-- What the command `Publish` (cli/src/main.rs) sends.
use real_time_data_platform.Base.{
  ℕ, zero, suc, ◌+◌, ◌^◌, ◌≤◌, ◌<◌, ◌≡◌, refl, ◌∙◌, ap, true, some, List, [], ◌∷◌, arith, inc64,
  length, replicate, take, length-replicate,
}
use real_time_data_platform.Error.{RtdpError, Result, ok}
use real_time_data_platform.Protocol.Frame.{new_data_frame}
use real_time_data_platform.Buffers.Ring.{push}
use real_time_data_platform.Serialization.Codec.{encode}
use real_time_data_platform.Serialization.Codec.RoundTrip.{frame_length, encode_written}
use real_time_data_platform.Transport.Publisher.{Publisher, next_frame, encoded, send, publish}
use real_time_data_platform.Transport.Publisher.Replay.{encoded_ok, publish-stores, publish-send}
use real_time_data_platform.Cli.{message_text, published_then, publish_loop}
use real_time_data_platform.Wire.{Wire}

-- The numbers from `first` on, so many.
abbrev pub count_up : ℕ → ℕ → List ℕ
count_up zero first = []
count_up (suc n) first = first ∷ count_up n (first + 1)

module _ (w : Wire) where
  publish-answer :
      (p : Publisher) (now_ns : ℕ) (payload packet : List ℕ)
      → encoded w p.codec (next_frame p now_ns payload) p.max_frame_size ≡ ok packet
      → (publish w p now_ns payload true).2 ≡ ok p.sequence_counter
  unfolding publish send
  publish-answer p now_ns payload packet e = rw (publish, e, send) refl

  -- A payload that fits goes out as one packet.
  pub publish_fits :
      (p : Publisher) (now_ns : ℕ) (payload : List ℕ)
      → p.codec.max_frame_size ≡ p.max_frame_size
      → 48 + length payload ≤ p.max_frame_size
      → (packet : List ℕ) × (publish w p now_ns payload true ≡ (
        record p {
          sequence_counter = inc64 p.sequence_counter;
          ring_buffer = push p.ring_buffer (next_frame p now_ns payload);
        },
        packet ∷ [],
        ok p.sequence_counter,
      ))
  unfolding send
  publish_fits p now_ns payload same fits =
      let frame = next_frame p now_ns payload in
      let m = p.max_frame_size in
      let dst = replicate {A = ℕ} m 0 in
      let written =
        encode_written w p.codec frame dst (unfold next_frame new_data_frame in refl)
          (unfold next_frame new_data_frame in omega arith)
          (unfold next_frame new_data_frame in omega (arith, length-replicate {A = ℕ} m 0)) in
      let packet = take (frame_length w frame) (encode w p.codec frame dst).0 in
      let e : encoded w p.codec frame m ≡ ok packet =
        encoded_ok w p.codec frame m _ (ap (λ r. r.1) written) in
      let stored = publish-stores w p now_ns payload true in
      let sent : (publish w p now_ns payload true).1 ≡ packet ∷ [] =
        publish-send w p now_ns payload true ∙ rw e refl in
      let answer = publish-answer p now_ns payload packet e in (packet, cc (stored, sent, answer))

  loop_next :
      (now : ℕ → ℕ) (message : List ℕ) (rounds i : ℕ) (p : Publisher)
      (sent : Publisher × List (List ℕ) × Result ℕ RtdpError)
      → publish w p (now i) (message_text message i) true ≡ sent
      → publish_loop w now (λ j. true) message (suc rounds) i p
        ≡ published_then sent (publish_loop w now (λ j. true) message rounds (i + 1) sent.0)
  unfolding publish_loop
  loop_next now message rounds i p sent e =
      ap
        (λ (s : Publisher × List (List ℕ) × Result ℕ RtdpError).
          published_then s (publish_loop w now (λ j. true) message rounds (i + 1) s.0))
        e

  -- When the socket takes every packet and each text fits the frame size, the loop of the command
  -- Publish does not panic: it sends one packet for each message, under consecutive sequences from
  -- the counter of the publisher on, and moves the counter behind them. The counter stays below
  -- 2^64, and the codec has the frame size of the publisher.
  pub publish_loop-count_up :
      (now : ℕ → ℕ) (message : List ℕ) (rounds i : ℕ) (p : Publisher)
      → p.codec.max_frame_size ≡ p.max_frame_size
      → p.sequence_counter + rounds < 2 ^ 64
      → ((j : ℕ) → i ≤ j → j < i + rounds → 48 + length (message_text message j) ≤ p.max_frame_size)
      → (p' : Publisher) × (packets : List (List ℕ)) × (publish_loop w now
            (λ j. true)
            message
            rounds
            i
            p
          ≡ (p', packets, some (count_up rounds p.sequence_counter)))
        × (length packets ≡ rounds)
        × (p'.sequence_counter ≡ p.sequence_counter + rounds)
  unfolding publish_loop published_then
  publish_loop-count_up now message zero i p same small fits = (p, [], refl, refl, omega arith)
  publish_loop-count_up now message (suc rounds) i p same small fits =
      let payload = message_text message i in
      let (packet, once) =
        publish_fits p (now i) payload same (fits i (omega arith) (omega arith)) in
      let p₁ : Publisher = record p {
        sequence_counter = inc64 p.sequence_counter;
        ring_buffer = push p.ring_buffer (next_frame p (now i) payload);
      } in
      let counter : inc64 p.sequence_counter ≡ p.sequence_counter + 1 = omega arith in
      let (p', packets, rest, long, last) =
        publish_loop-count_up now message rounds (i + 1) p₁ same (omega arith)
          (λ j lo hi. fits j (omega arith) (omega arith)) in
      (
        p',
        packet ∷ packets,
        loop_next now message rounds i p _ once
            ∙ ap (λ r. published_then (p₁, packet ∷ [], ok p.sequence_counter) r) rest
            ∙ ap (λ n. (p', packet ∷ packets, some (p.sequence_counter ∷ count_up rounds n)))
                counter,
        omega arith,
        omega arith,
      )
