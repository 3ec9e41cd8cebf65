-- ===== src/Recovery/Engine/Completion.antt =====
-- The frames that the responses to a request (core/src/recovery/engine.rs) lead to, in whatever
-- order they come.
use real_time_data_platform.Base.{
  ℕ, zero, suc, ◌+◌, ◌≤◌, ◌-◌, ◌<◌, ◌≡◌, ◌⊎◌, inl, inr, refl, sym, true, false, Option, none, some,
  List, [], ◌∷◌, ◌++◌, arith, ◌==◌, Bool-cases,
}
use real_time_data_platform.Base.Map.{lookup, insert, update, values, lookup-insert}
use real_time_data_platform.Error.{RtdpError, Result, ok, err}
use real_time_data_platform.Protocol.Frame.{OwnedFrame}
use real_time_data_platform.Recovery.Data.{ActiveReplayRequest, RecoveryEngine}
use real_time_data_platform.Recovery.Engine.{
  contains, note_received, all_received, all_arrived, drain_buffered, complete_request, respond,
  respond_to, handle_replay_response,
}
use real_time_data_platform.Recovery.Engine.Replay.{
  all_arrived-Arrived, note_received-contains, note_received-range,
}

-- The frames of an answer.
abbrev pub answered : Result (Option (List OwnedFrame)) RtdpError → List OwnedFrame
answered (ok (some frames)) = frames
answered (ok none) = []
answered (err e) = []

-- The frames that the responses to the request `id` lead to.
unfoldable pub respond_all : ℕ → RecoveryEngine → List OwnedFrame → List OwnedFrame
respond_all id e [] = []
respond_all id e (f ∷ fs) =
    let next = handle_replay_response e id f in answered next.1 ++ respond_all id next.0 fs

-- The engine that the responses to the request `id` leave.
unfoldable pub respond_engine : ℕ → RecoveryEngine → List OwnedFrame → RecoveryEngine
respond_engine id e [] = e
respond_engine id e (f ∷ fs) = respond_engine id (handle_replay_response e id f).0 fs

-- A frame of a list has the sequence `q`.
abbrev pub HasSequence : ℕ → List OwnedFrame → Type 0
HasSequence q [] = ⊥
HasSequence q (f ∷ fs) = (f.header.sequence ≡ q) ⊎ HasSequence q fs

append_left : (q : ℕ) (xs ys : List OwnedFrame) → HasSequence q xs → HasSequence q (xs ++ ys)
append_left q [] ys h = absurd h
append_left q (x ∷ xs) ys (inl e) = inl e
append_left q (x ∷ xs) ys (inr h) = inr (append_left q xs ys h)

pub lookup-update :
    (id : ℕ) (v u : ActiveReplayRequest) (m : List (ℕ × ActiveReplayRequest))
    → lookup id m ≡ some u
    → lookup id (update id v m) ≡ some v
unfolding lookup update
lookup-update id v u [] h = absurd (ground arith)
lookup-update id v u ((j, w) ∷ m) h = elim (Bool-cases (j == id)) [
  | inl here ↦ rw (here, lookup, here) refl
  | inr later ↦ rw (later, lookup, later) (lookup-update id v u m (rw later at h))
]

values-HasSequence :
    (q : ℕ) (g : OwnedFrame) (m : List (ℕ × OwnedFrame))
    → lookup q m ≡ some g
    → g.header.sequence ≡ q
    → HasSequence q (values m)
unfolding lookup values
values-HasSequence q g [] h e = absurd (ground arith)
values-HasSequence q g ((j, f) ∷ m) h e = elim (Bool-cases (j == q)) [
  | inl here ↦ let same : f ≡ g = (let found = rw here at h in ground arith) in inl (rw same e)
  | inr later ↦ inr (values-HasSequence q g m (rw later at h) e)
]

all_received_missing :
    (received : List ℕ) (rounds s : ℕ)
    → all_received received rounds s ≡ false
    → (q : ℕ) × (s ≤ q) × (q < s + rounds) × (contains received q ≡ false)
unfolding all_received
all_received_missing received zero s h = absurd (ground arith)
all_received_missing received (suc rounds) s h = elim (Bool-cases (contains received s)) [
  | inl here ↦
      let (q, lo, hi, missing) = all_received_missing received rounds (s + 1) (rw here at h) in
      (q, omega arith, omega arith, missing)
  | inr missing ↦ (s, omega arith, omega arith, missing)
]

-- The request `id` is outstanding with a sequence missing, and the frames of those that have
-- arrived are in the buffer.
pub record IsWaiting (e : RecoveryEngine) (id : ℕ) (req : ActiveReplayRequest) : Type 0 where
  pub outstanding : lookup id e.outstanding_requests ≡ some req
  pub missing : ℕ
  pub from_missing : req.from_sequence ≤ missing
  pub missing_to : missing ≤ req.to_sequence
  pub not_arrived : contains req.received_sequences missing ≡ false
  pub kept :
      (q : ℕ)
      → req.from_sequence ≤ q
      → q ≤ req.to_sequence
      → contains req.received_sequences q ≡ true
      → (g : OwnedFrame) × (lookup q e.buffered_out_of_order ≡ some g) × (g.header.sequence ≡ q)

-- What a sequence of the request is covered by.
abbrev pub Covers : ActiveReplayRequest → List OwnedFrame → Type 0
Covers req fs =
    (q : ℕ)
    → req.from_sequence ≤ q
    → q ≤ req.to_sequence
    → (contains req.received_sequences q ≡ true) ⊎ HasSequence q fs

module _ (e : RecoveryEngine) (id : ℕ) (req : ActiveReplayRequest) (f : OwnedFrame)
    (v : IsWaiting e id req) where
  abbrev seq : ℕ
  seq = f.header.sequence

  -- The buffer with the frame of the response.
  kept_insert :
      (q : ℕ)
      → req.from_sequence ≤ q
      → q ≤ req.to_sequence
      → (contains req.received_sequences q ≡ true) ⊎ (q ≡ seq)
      → (g : OwnedFrame) × (lookup q (insert seq f e.buffered_out_of_order) ≡ some g)
        × (g.header.sequence ≡ q)
  kept_insert q lo hi (inr here) =
      let same : (seq == q) ≡ true = ground arith in
      (f, rw (lookup-insert q seq f e.buffered_out_of_order, same) refl, ground arith)
  kept_insert q lo hi (inl before) = elim (Bool-cases (seq == q)) [
    | inl same ↦ (f, rw (lookup-insert q seq f e.buffered_out_of_order, same) refl, ground arith)
    | inr other ↦
        let (g, found, own) = v.kept q lo hi before in
        (g, rw (lookup-insert q seq f e.buffered_out_of_order, other) found, own)
  ]

  -- The last response gives every sequence of the request.
  gives_all :
      all_arrived (note_received req seq) ≡ true
      → (q : ℕ) → req.from_sequence ≤ q
      → q ≤ req.to_sequence
      → HasSequence q (answered (handle_replay_response e id f).1)
  unfolding handle_replay_response respond_to respond complete_request drain_buffered
  gives_all all q lo hi =
      let (g, found, own) = kept_insert q lo hi ((all_arrived-Arrived req seq).0 all q lo hi) in
      rw (handle_replay_response, v.outstanding, respond_to, all)
        (values-HasSequence q g (insert seq f e.buffered_out_of_order) found own)

  abbrev noted : ActiveReplayRequest
  noted = note_received req seq

  -- The engine that goes on waiting.
  abbrev waiting_engine : RecoveryEngine
  waiting_engine = record e {
    outstanding_requests = update id noted e.outstanding_requests;
    buffered_out_of_order = insert seq f e.buffered_out_of_order;
  }

  waits_on : all_arrived noted ≡ false → handle_replay_response e id f ≡ (waiting_engine, ok none)
  unfolding handle_replay_response respond_to respond
  waits_on some_missing = rw (handle_replay_response, v.outstanding, respond_to, some_missing) refl

  waits_on-IsWaiting : all_arrived noted ≡ false → IsWaiting waiting_engine id noted
  unfolding all_arrived
  waits_on-IsWaiting some_missing =
      let (from_same, to_same) = note_received-range req seq in
      let (q, lo, hi, missing) =
        all_received_missing noted.received_sequences (noted.to_sequence + 1 - noted.from_sequence)
          noted.from_sequence some_missing in
      record {
        outstanding = lookup-update id noted req e.outstanding_requests v.outstanding;
        missing = q;
        from_missing = lo;
        missing_to = omega arith;
        not_arrived = missing;
        kept = λ q' lo' hi' h.
            kept_insert q' (omega arith) (omega arith)
              ((note_received-contains req seq q' (omega arith) (omega arith)).0 h);
      }

  noted-Covers : (fs : List OwnedFrame) → Covers req (f ∷ fs) → Covers noted fs
  noted-Covers fs covers q lo hi =
      let (from_same, to_same) = note_received-range req seq in
      let contains_now = (note_received-contains req seq q (omega arith) (omega arith)).1 in
      elim (covers q (omega arith) (omega arith)) [
        | inl before ↦ inl (contains_now (inl before))
        | inr (inl here) ↦ inl (contains_now (inr (sym here)))
        | inr (inr later) ↦ inr later
      ]

-- When the responses to an outstanding request, of which a sequence is still missing, cover all of
-- its sequences that have not arrived yet, in any order, with repetitions and with other frames
-- between them, the frames that the engine gives out have every sequence of the request, if those
-- that had arrived are in its buffer.
pub respond_all-HasSequence :
    (e : RecoveryEngine) (id : ℕ) (req : ActiveReplayRequest) (fs : List OwnedFrame) (q : ℕ)
    → IsWaiting e id req
    → Covers req fs
    → req.from_sequence ≤ q
    → q ≤ req.to_sequence
    → HasSequence q (respond_all id e fs)
unfolding respond_all
respond_all-HasSequence e id req [] q v covers lo hi =
    elim (covers v.missing v.from_missing v.missing_to) [
      | inl arrived ↦ absurd (let missing = v.not_arrived in ground arith)
      | inr none_left ↦ absurd none_left
    ]
respond_all-HasSequence e id req (f ∷ fs) q v covers lo hi =
    elim (Bool-cases (all_arrived (note_received req f.header.sequence))) [
      | inl all ↦ append_left q _ _ (gives_all e id req f v all q lo hi)
      | inr some_missing ↦
          let (from_same, to_same) = note_received-range req f.header.sequence in
          let step = waits_on e id req f v some_missing in
          rw step (
            respond_all-HasSequence (waiting_engine e id req f v) id
              (note_received req f.header.sequence) fs q
              (waits_on-IsWaiting e id req f v some_missing) (noted-Covers e id req f v fs covers)
              (omega arith) (omega arith))
    ]
