-- ===== src/Recovery/Engine/Replay.antt =====
-- When a replay response completes its request.
use real_time_data_platform.Base.{
  ℕ, zero, suc, ◌+◌, ◌≤◌, ◌<◌, ◌≡◌, ◌⊎◌, inl, inr, refl, true, ◌||◌, none, some, List, [], ◌∷◌,
  ◌++◌, arith, ◌==◌, Bool-cases,
}
use real_time_data_platform.Base.Map.{lookup, insert, remove, values, lookup-remove}
use real_time_data_platform.Error.{ok}
use real_time_data_platform.Protocol.Frame.{OwnedFrame}
use real_time_data_platform.Recovery.Data.{ActiveReplayRequest, RecoveryEngine}
use real_time_data_platform.Recovery.Engine.{
  contains, note_received, all_received, all_arrived, drain_buffered, complete_request, respond,
  respond_to, handle_replay_response,
}

contains-append : (xs : List ℕ) (y q : ℕ) → contains (xs ++ y ∷ []) q ≡ (contains xs q || y == q)
unfolding contains
contains-append [] y q = ground arith
contains-append (x ∷ xs) y q = ground (arith, contains-append xs y q)

all_received_lem :
    (received : List ℕ) (rounds s : ℕ)
    → all_received received rounds s ≡ true
    → (q : ℕ) → s ≤ q
    → q < s + rounds
    → contains received q ≡ true
unfolding all_received
all_received_lem received zero s h q lo hi = absurd (omega arith)
all_received_lem received (suc rounds) s h q lo hi =
    let here : contains received s ≡ true = ground arith in
    let rest : all_received received rounds (s + 1) ≡ true = ground arith in
    let split : (s ≡ q) ⊎ (s + 1 ≤ q) = ground arith in
    elim split [
      | inl at_s ↦ rw at_s at here
      | inr later ↦ all_received_lem received rounds (s + 1) rest q later (omega arith)
    ]

all_received_complete :
    (received : List ℕ) (rounds s : ℕ)
    → ((q : ℕ) → s ≤ q → q < s + rounds → contains received q ≡ true)
    → all_received received rounds s ≡ true
unfolding all_received
all_received_complete received zero s h = refl
all_received_complete received (suc rounds) s h =
    let here = h s (omega arith) (omega arith) in
    let rest =
      all_received_complete received rounds (s + 1) (λ q lo hi. h q (omega arith) (omega arith)) in
    rw (here, rest) refl

-- Every sequence of a request has arrived, now that `seq` has.
abbrev pub Arrived : ActiveReplayRequest → ℕ → Type 0
Arrived req seq =
    (q : ℕ)
    → req.from_sequence ≤ q
    → q ≤ req.to_sequence
    → (contains req.received_sequences q ≡ true) ⊎ (q ≡ seq)

pub note_received-contains :
    (req : ActiveReplayRequest) (seq q : ℕ)
    → req.from_sequence ≤ q
    → q ≤ req.to_sequence
    → ((contains (note_received req seq).received_sequences q ≡ true)
        → (contains req.received_sequences q ≡ true) ⊎ (q ≡ seq))
      × ((contains req.received_sequences q ≡ true) ⊎ (q ≡ seq)
          → contains (note_received req seq).received_sequences q ≡ true)
unfolding note_received
note_received-contains req seq q lo hi = (
  λ h. ground (arith, contains-append req.received_sequences seq q),
  λ h. ground (arith, contains-append req.received_sequences seq q),
)

pub note_received-range :
    (req : ActiveReplayRequest) (seq : ℕ)
    → ((note_received req seq).from_sequence ≡ req.from_sequence)
      × ((note_received req seq).to_sequence ≡ req.to_sequence)
unfolding note_received
note_received-range req seq = ground arith

pub all_arrived-Arrived :
    (req : ActiveReplayRequest) (seq : ℕ)
    → (all_arrived (note_received req seq) ≡ true → Arrived req seq)
      × (Arrived req seq → all_arrived (note_received req seq) ≡ true)
unfolding all_arrived
all_arrived-Arrived req seq =
    let (from_same, to_same) = note_received-range req seq in
    (
      λ h q lo hi.
          (note_received-contains req seq q lo hi).0
            (all_received_lem _ _ _ h q (omega arith) (omega arith)),
      λ h. all_received_complete _ _ _ (λ q lo hi.
          (note_received-contains req seq q (omega arith) (omega arith)).1
            (h q (omega arith) (omega arith))),
    )

remove_found : (id : ℕ) (m : List (ℕ × ActiveReplayRequest)) → lookup id (remove id m) ≡ none
remove_found id m = ground (arith, lookup-remove id id m)

-- A replay response to an outstanding request is answered with nothing until every sequence of the
-- request has arrived; then the request is closed, the buffer is emptied, and all that was
-- buffered is given out.
pub handle_replay_response-Arrived :
    (e : RecoveryEngine) (id : ℕ) (frame : OwnedFrame) (req : ActiveReplayRequest)
    → lookup id e.outstanding_requests ≡ some req
    → (let seq = frame.header.sequence in
        let (e', answer) = handle_replay_response e id frame in
        let given = values (insert seq frame e.buffered_out_of_order) in
        (Arrived req seq → answer ≡ ok (some given))
        × ((answer ≡ ok none)
            ⊎ (Arrived req seq
                × (answer ≡ ok (some given))
                × (lookup id e'.outstanding_requests ≡ none)
                × (e'.buffered_out_of_order ≡ []))))
unfolding handle_replay_response respond_to respond complete_request drain_buffered
handle_replay_response-Arrived e id frame req found =
    let seq = frame.header.sequence in
    let (sound, complete) = all_arrived-Arrived req seq in
    elim (Bool-cases (all_arrived (note_received req seq))) [
      | inl b ↦
          rw (handle_replay_response, found)
            (rw (respond_to, b) (λ h. refl, inr (sound b, refl, remove_found id _, refl)))
      | inr b ↦
          rw (handle_replay_response, found)
            (rw (respond_to, b) (λ h. let arrived = complete h in absurd (ground arith), inl refl))
    ]
