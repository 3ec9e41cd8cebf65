-- ===== src/Cli/Rounds.antt =====
-- The loop of the command `Publish` (cli/src/main.rs) as calls of `publish` from the first sequence
-- on.
use real_time_data_platform.Base.{
  ℕ, zero, suc, ◌+◌, ◌^◌, ◌≤◌, ◌<◌, ◌≡◌, refl, sym, ap, ◌∙◌, Bool, true, some, List, [], ◌∷◌, ◌++◌,
  append-nil, append_assoc, arith, length,
}
use real_time_data_platform.Error.{RtdpError, Result, ok}
use real_time_data_platform.Transport.Publisher.{Publisher, publish}
use real_time_data_platform.Transport.Publisher.Replay.{publish_upto, publish-stores}
use real_time_data_platform.Transport.System.Ready.{sent, sent_upto}
use real_time_data_platform.Cli.{message_text, published_then, publish_loop}
use real_time_data_platform.Cli.Publish.{count_up, publish_fits}
use real_time_data_platform.Wire.{Wire}

module _ (w : Wire) (now : ℕ → ℕ) (taken : ℕ → Bool) (message : List ℕ) (p : Publisher) where
  abbrev payload : ℕ → List ℕ
  payload s = message_text message s

  abbrev upto : ℕ → Publisher
  upto n = publish_upto w now payload taken p n

  abbrev packets_of : ℕ → List (List ℕ)
  packets_of n = sent w now payload taken p n

  -- What does not change, and the counter.
  record Counts (n : ℕ) (q : Publisher) : Type 0 where
    counter : q.sequence_counter ≡ suc n
    codec : q.codec ≡ p.codec
    size : q.max_frame_size ≡ p.max_frame_size

  upto-Counts : (n : ℕ) → p.sequence_counter ≡ 1 → suc n < 2 ^ 64 → Counts n (upto n)
  unfolding publish_upto
  upto-Counts zero start small = record { counter = start; codec = refl; size = refl }
  upto-Counts (suc n) start small =
      let before = upto-Counts n start (omega arith) in
      rw (publish-stores w (upto n) (now (suc n)) (payload (suc n)) (taken (suc n))) (record {
        counter = omega (arith, before.counter);
        codec = before.codec;
        size = before.size;
      })

  -- The packets of the sequences behind `n`.
  unfoldable pub sent_from : ℕ → ℕ → List (List ℕ)
  sent_from zero n = []
  sent_from (suc rounds) n = packets_of n ++ sent_from rounds (suc n)

  pub sent_upto-sent_from :
      (rounds n : ℕ)
      → sent_upto w now payload taken p (n + rounds)
        ≡ sent_upto w now payload taken p n ++ sent_from rounds n
  unfolding sent_from sent_upto
  sent_upto-sent_from zero n =
      let same : n + 0 ≡ n = omega arith in
      ap (sent_upto w now payload taken p) same
      ∙ sym (append-nil (sent_upto w now payload taken p n))
  sent_upto-sent_from (suc rounds) n =
      let shifted : n + suc rounds ≡ suc n + rounds = omega arith in
      ap (sent_upto w now payload taken p) shifted
      ∙ sent_upto-sent_from rounds (suc n)
      ∙ append_assoc (sent_upto w now payload taken p n) (packets_of n) (sent_from rounds (suc n))

  module _ (start : p.sequence_counter ≡ 1) (same : p.codec.max_frame_size ≡ p.max_frame_size) where
    -- A call of `publish` for a sequence.
    published_once :
        (n : ℕ)
        → suc n < 2 ^ 64
        → taken (suc n) ≡ true
        → 48 + length (payload (suc n)) ≤ p.max_frame_size
        → publish w (upto n) (now (suc n)) (payload (suc n)) (taken (suc n))
          ≡ (upto (suc n), packets_of n, ok (suc n))
    unfolding publish_upto
    published_once n small was_taken fits =
        let q = upto n in
        let before = upto-Counts n start small in
        let codec : q.codec.max_frame_size ≡ q.max_frame_size =
          ap (λ c. c.max_frame_size) before.codec ∙ same ∙ sym before.size in
        let (packet, once) =
          publish_fits w q (now (suc n)) (payload (suc n)) codec (omega (arith, before.size)) in
        let answered : (publish w q (now (suc n)) (payload (suc n)) (taken (suc n))).2
            ≡ ok (suc n) =
          rw was_taken (ap (λ r. r.2) once ∙ ap ok before.counter) in
        ap (λ answer. (upto (suc n), packets_of n, answer)) answered

    pub loop_publishes :
        (rounds n : ℕ)
        → n + rounds < 2 ^ 64
        → ((s : ℕ) → suc n ≤ s → s ≤ n + rounds → taken s ≡ true)
        → ((s : ℕ) → suc n ≤ s → s ≤ n + rounds → 48 + length (payload s) ≤ p.max_frame_size)
        → publish_loop w now taken message rounds (suc n) (upto n)
          ≡ (upto (n + rounds), sent_from rounds n, some (count_up rounds (suc n)))
    unfolding sent_from publish_loop published_then
    loop_publishes zero n small were_taken fit =
        let none_more : n + 0 ≡ n = omega arith in ap (λ m. (upto m, [], some [])) (sym none_more)
    loop_publishes (suc rounds) n small were_taken fit =
        let here : suc n ≤ n + suc rounds = omega arith in
        let once =
          published_once n (omega arith) (were_taken (suc n) (omega arith) here)
            (fit (suc n) (omega arith) here) in
        let next : suc n + 1 ≡ suc (suc n) = omega arith in
        let shifted : suc n + rounds ≡ n + suc rounds = omega arith in
        let rest =
          loop_publishes rounds (suc n) (omega arith)
            (λ s lo hi. were_taken s (omega arith) (omega arith))
            (λ s lo hi. fit s (omega arith) (omega arith)) in
        ap
          (λ (s : Publisher × List (List ℕ) × Result ℕ RtdpError).
            published_then s (publish_loop w now taken message rounds (suc n + 1) s.0))
          once
        ∙ ap
            (λ i.
              published_then (upto (suc n), packets_of n, ok (suc n))
                (publish_loop w now taken message rounds i (upto (suc n))))
            next
        ∙ ap (published_then (upto (suc n), packets_of n, ok (suc n))) rest
        ∙ ap (λ m. (upto m, sent_from (suc rounds) n, some (suc n ∷ count_up rounds (suc (suc n)))))
            shifted
        ∙ ap
            (λ i.
              (upto (n + suc rounds), sent_from (suc rounds) n, some (suc n ∷ count_up rounds i)))
            (sym next)
