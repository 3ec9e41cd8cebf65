-- ===== src/Recovery/Engine/InOrder.antt =====
-- The responses to a request (core/src/recovery/engine.rs) that come in ascending order, while the
-- frame that showed the gap is held back.
use real_time_data_platform.Base.{
  ℕ, ◌+◌, ◌≤◌, ◌<◌, ◌≡◌, ◌⊎◌, inl, inr, refl, sym, ap, ◌∙◌, true, none, some, List, [], ◌∷◌, ◌++◌,
  append-nil, append_assoc, arith, length, Each, Bool-cases,
}
use real_time_data_platform.Base.Map.{
  lookup, insert, update, values, length-update, length-remove-lt,
}
use real_time_data_platform.Error.{ok}
use real_time_data_platform.Protocol.Frame.{OwnedFrame}
use real_time_data_platform.Recovery.Data.{ActiveReplayRequest, RecoveryEngine}
use real_time_data_platform.Recovery.Engine.{
  contains, note_received, all_arrived, drain_buffered, complete_request, respond, respond_to,
  handle_replay_response,
}
use real_time_data_platform.Recovery.Engine.Drain.{CountsUp}
use real_time_data_platform.Recovery.Engine.Replay.{
  all_arrived-Arrived, note_received-contains, note_received-range,
}
use real_time_data_platform.Recovery.Engine.Completion.{respond_all, respond_engine, lookup-update}

-- Frames under their own sequences.
abbrev pub keyed : List OwnedFrame → List (ℕ × OwnedFrame)
keyed [] = []
keyed (f ∷ fs) = (f.header.sequence, f) ∷ keyed fs

abbrev Below : ℕ → OwnedFrame → Type 0
Below s f = f.header.sequence < s

values-keyed : (fs : List OwnedFrame) → values (keyed fs) ≡ fs
unfolding values
values-keyed [] = refl
values-keyed (f ∷ fs) = ap (λ rest. f ∷ rest) (values-keyed fs)

-- A frame behind those before it goes before the one that is held back.
insert-keyed :
    (xs : List OwnedFrame) (f g : OwnedFrame)
    → Each (Below f.header.sequence) xs
    → f.header.sequence < g.header.sequence
    → insert f.header.sequence f (keyed (xs ++ g ∷ [])) ≡ keyed (xs ++ f ∷ g ∷ [])
unfolding insert
insert-keyed [] f g below held = ground arith
insert-keyed (x ∷ xs) f g (lt, below) held = ground (arith, insert-keyed xs f g below held)

Below-append :
    (s : ℕ) (xs : List OwnedFrame) (f : OwnedFrame)
    → Each (Below s) xs
    → f.header.sequence ≡ s
    → Each (Below (s + 1)) (xs ++ f ∷ [])
Below-append s [] f below own = (omega arith, tt)
Below-append s (x ∷ xs) f (lt, below) own = (omega arith, Below-append s xs f below own)

-- The sequences of the request below `s` have arrived, as the frames `xs`, and the frame `g` behind
-- the request is held back.
pub record IsHalfway (e : RecoveryEngine) (id : ℕ) (req : ActiveReplayRequest) (s : ℕ)
    (xs : List OwnedFrame) (g : OwnedFrame) : Type 0 where
  pub outstanding : lookup id e.outstanding_requests ≡ some req
  pub arrived :
      (q : ℕ)
      → req.from_sequence ≤ q
      → q ≤ req.to_sequence
      → (contains req.received_sequences q ≡ true → q < s)
        × (q < s → contains req.received_sequences q ≡ true)
  pub from_s : req.from_sequence ≤ s
  pub buffer : e.buffered_out_of_order ≡ keyed (xs ++ g ∷ [])
  pub below : Each (Below s) xs
  pub behind : req.to_sequence < g.header.sequence

-- An engine that has given out what it held back.
pub record Settled (e e' : RecoveryEngine) : Type 0 where
  pub config : e'.config ≡ e.config
  pub next_request_id : e'.next_request_id ≡ e.next_request_id
  pub nothing_held : e'.buffered_out_of_order ≡ []
  pub requests : length e'.outstanding_requests < length e.outstanding_requests

module _ (e : RecoveryEngine) (id : ℕ) (req : ActiveReplayRequest) (xs : List OwnedFrame)
    (g f : OwnedFrame) (v : IsHalfway e id req f.header.sequence xs g)
    (within : f.header.sequence ≤ req.to_sequence) where
  abbrev seq : ℕ
  seq = f.header.sequence

  abbrev noted : ActiveReplayRequest
  noted = note_received req seq

  -- The engine that has noted the frame.
  abbrev noted_engine : RecoveryEngine
  noted_engine = record e {
    outstanding_requests = update id noted e.outstanding_requests;
    buffered_out_of_order = insert seq f e.buffered_out_of_order;
  }

  inserted : insert seq f e.buffered_out_of_order ≡ keyed (xs ++ f ∷ g ∷ [])
  inserted = rw v.buffer (insert-keyed xs f g v.below (omega (arith, v.behind)))

  all_here : seq ≡ req.to_sequence → all_arrived noted ≡ true
  all_here last = (all_arrived-Arrived req seq).1 (λ q lo hi.
      let split : (q < seq) ⊎ (q ≡ seq) = omega arith in
      elim split [ inl before ↦ inl ((v.arrived q lo hi).1 before) | inr here ↦ inr here ])

  -- The last sequence of the request.
  last_response :
      seq ≡ req.to_sequence → (handle_replay_response e id f).1 ≡ ok (some (xs ++ f ∷ g ∷ []))
  unfolding handle_replay_response respond_to respond complete_request drain_buffered
  last_response last =
      rw (handle_replay_response, v.outstanding, respond_to, all_here last)
        (ap (λ frames. ok (some frames)) (ap values inserted ∙ values-keyed (xs ++ f ∷ g ∷ [])))

  -- What the last response leaves.
  last-Settled : seq ≡ req.to_sequence → Settled e (handle_replay_response e id f).0
  unfolding handle_replay_response respond_to respond complete_request drain_buffered
  last-Settled last =
      rw (handle_replay_response, v.outstanding, respond_to, all_here last)
        (record {
          config = refl;
          next_request_id = refl;
          nothing_held = refl;
          requests =
              let fewer =
                length-remove-lt id (update id noted e.outstanding_requests) noted
                  (lookup-update id noted req e.outstanding_requests v.outstanding) in
              let same = length-update id noted e.outstanding_requests in
              omega (arith, fewer, same);
        })

  -- A sequence before the last one.
  next_response : seq < req.to_sequence → handle_replay_response e id f ≡ (noted_engine, ok none)
  unfolding handle_replay_response respond_to respond
  next_response more = elim (Bool-cases (all_arrived noted)) [
    | inl all ↦
        let last =
          (all_arrived-Arrived req seq).0 all req.to_sequence (omega (arith, v.from_s))
            (omega arith) in
        absurd (elim last [
          | inl before ↦
              let lt =
                (v.arrived req.to_sequence (omega (arith, v.from_s)) (omega arith)).0 before in
              omega arith
          | inr here ↦ omega arith
        ])
    | inr some_missing ↦ rw (handle_replay_response, v.outstanding, respond_to, some_missing) refl
  ]

  next-IsHalfway : IsHalfway noted_engine id noted (seq + 1) (xs ++ f ∷ []) g
  next-IsHalfway =
      let (from_same, to_same) = note_received-range req seq in
      record {
        outstanding = lookup-update id noted req e.outstanding_requests v.outstanding;
        arrived = λ q lo hi.
            let lo' : req.from_sequence ≤ q = omega arith in
            let hi' : q ≤ req.to_sequence = omega arith in
            let (known, now) = note_received-contains req seq q lo' hi' in
            let (old, before) = v.arrived q lo' hi' in
            (
              λ h. elim (known h) [
                | inl b ↦ (let lt = old b in omega arith)
                | inr here ↦ omega arith
              ],
              λ lt.
                  let split : (q < seq) ⊎ (q ≡ seq) = omega arith in
                  now (elim split [ inl b ↦ inl (before b) | inr here ↦ inr here ]),
            );
        from_s = omega (arith, v.from_s);
        buffer = inserted ∙ ap keyed (sym (append_assoc xs (f ∷ []) (g ∷ [])));
        below = Below-append seq xs f v.below refl;
        behind = omega (arith, v.behind);
      }

-- The rest of the responses, in ascending order, gives out what had arrived, the rest, and the
-- frame that was held back.
pub respond_all-IsHalfway :
    (e : RecoveryEngine) (id : ℕ) (req : ActiveReplayRequest) (s : ℕ) (xs fs : List OwnedFrame)
    (g : OwnedFrame)
    → IsHalfway e id req s xs g
    → CountsUp s fs
    → s + length fs ≡ req.to_sequence + 1
    → 0 < length fs
    → respond_all id e fs ≡ xs ++ (fs ++ g ∷ [])
unfolding respond_all
respond_all-IsHalfway e id req s xs [] g v counts long some_left = absurd (omega arith)
respond_all-IsHalfway e id req s xs (f ∷ []) g v (own, counts) long some_left =
    let v' = rw (← own) at v in
    rw (last_response e id req xs g f v' (omega arith) (omega arith))
      (append-nil (xs ++ f ∷ g ∷ []))
respond_all-IsHalfway e id req s xs (f ∷ f' ∷ fs) g v (own, counts) long some_left =
    let v' = rw (← own) at v in
    let (from_same, to_same) = note_received-range req f.header.sequence in
    let step = next_response e id req xs g f v' (omega arith) (omega arith) in
    let next = next-IsHalfway e id req xs g f v' (omega arith) in
    let rest =
      respond_all-IsHalfway (noted_engine e id req xs g f v' (omega arith)) id
        (note_received req f.header.sequence) (f.header.sequence + 1) (xs ++ f ∷ []) (f' ∷ fs) g
        next (rw own counts) (omega arith) (omega arith) in
    rw step (rest ∙ append_assoc xs (f ∷ []) ((f' ∷ fs) ++ g ∷ []))

-- The rest of the responses leaves nothing held back.
pub respond_engine-Settled :
    (e : RecoveryEngine) (id : ℕ) (req : ActiveReplayRequest) (s : ℕ) (xs fs : List OwnedFrame)
    (g : OwnedFrame)
    → IsHalfway e id req s xs g
    → CountsUp s fs
    → s + length fs ≡ req.to_sequence + 1
    → 0 < length fs
    → Settled e (respond_engine id e fs)
unfolding respond_engine
respond_engine-Settled e id req s xs [] g v counts long some_left = absurd (omega arith)
respond_engine-Settled e id req s xs (f ∷ []) g v (own, counts) long some_left =
    let v' = rw (← own) at v in last-Settled e id req xs g f v' (omega arith) (omega arith)
respond_engine-Settled e id req s xs (f ∷ f' ∷ fs) g v (own, counts) long some_left =
    let v' = rw (← own) at v in
    let within : f.header.sequence ≤ req.to_sequence = omega arith in
    let (from_same, to_same) = note_received-range req f.header.sequence in
    let noted_e = noted_engine e id req xs g f v' within in
    let settled : Settled noted_e (respond_engine id noted_e (f' ∷ fs)) =
      respond_engine-Settled noted_e id (note_received req f.header.sequence)
        (f.header.sequence + 1) (xs ++ f ∷ []) (f' ∷ fs) g
        (next-IsHalfway e id req xs g f v' within) (rw own counts) (omega arith) (omega arith) in
    let same = length-update id (note_received req f.header.sequence) e.outstanding_requests in
    rw (next_response e id req xs g f v' within (omega arith)) (record {
      config = settled.config;
      next_request_id = settled.next_request_id;
      nothing_held = settled.nothing_held;
      requests = omega (arith, settled.requests, same);
    })
