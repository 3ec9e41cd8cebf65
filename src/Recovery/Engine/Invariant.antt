-- ===== src/Recovery/Engine/Invariant.antt =====
-- What holds of a recovery engine after any sequence of its operations.
use real_time_data_platform.Base.{
  ℕ, ◌+◌, ◌-◌, ◌^◌, ◌≤◌, ◌<◌, ◌≡◌, ◌⊎◌, inl, inr, refl, ap, false, some, List, [], ◌∷◌, arith, ltb,
  leb, inc64, length, Bool-cases, Option-cases,
}
use real_time_data_platform.Base.Map.{
  lookup, insert, remove, update, Entries, remove-Entries, update-Entries, lookup-Entries,
  length-remove-le, length-update,
}
use real_time_data_platform.Protocol.Frame.{OwnedFrame}
use real_time_data_platform.Recovery.Data.{
  ReplayRequestPayload, ReplayUnavailablePayload, RecoveryState, ActiveReplayRequest,
  RecoveryConfig, RecoveryEngine,
}
use real_time_data_platform.Recovery.Engine.{
  new_engine, buffer_frame, create_replay_request, note_received, all_arrived, is_empty,
  drain_buffered, complete_request, respond, respond_to, handle_replay_response,
  handle_replay_unavailable, sweep_one, sweep, first_failure, check_timeouts, drain_contiguous,
  reset,
}

-- A range that `create_replay_request` takes: no longer than the limit, or all the 2^64 sequences,
-- whose length the code counts as 0.
abbrev pub IsRange : RecoveryConfig → ℕ → ℕ → Type 0
IsRange config from to =
    (to - from + 1 ≤ config.max_replay_range) ⊎ ((from ≡ 0) × (to ≡ 2 ^ 64 - 1))

-- An outstanding request stands under its id, within the configured limits.
abbrev pub IsRequest : RecoveryConfig → ℕ → ActiveReplayRequest → Type 0
IsRequest config k req =
    (req.request_id ≡ k)
    × (req.retries_attempted ≤ config.max_retries)
    × IsRange config req.from_sequence req.to_sequence

pub record IsConsistent (config : RecoveryConfig) (e : RecoveryEngine) : Type 0 where
  pub configured : e.config ≡ config
  pub bounded : length e.outstanding_requests ≤ config.max_outstanding_requests
  pub requests : Entries (IsRequest config) e.outstanding_requests
  pub idle : e.state ≡ RecoveryState.live → e.outstanding_requests ≡ []

-- One call of an operation that changes the engine.
pub data Step (e : RecoveryEngine) : RecoveryEngine → Type 0 where
  buffers : (frame : OwnedFrame) → Step e (buffer_frame e frame)
  requests_replay :
      (from to now : ℕ)
      → from < 2 ^ 64
      → to < 2 ^ 64
      → Step e (create_replay_request e from to now).0
  answered : (id : ℕ) (frame : OwnedFrame) → Step e (handle_replay_response e id frame).0
  refused : (unavail : ReplayUnavailablePayload) → Step e (handle_replay_unavailable e unavail).0
  times_out : (now : ℕ) → Step e (check_timeouts e now).0
  drains_all : Step e (drain_buffered e).0
  drains : (start_seq : ℕ) → Step e (drain_contiguous e start_seq).0
  resets : Step e (reset e)

-- The engines that a fresh one can become.
pub data Reachable (config : RecoveryConfig) : RecoveryEngine → Type 0 where
  initial : Reachable config (new_engine config)
  after : {e e' : RecoveryEngine} → Reachable config e → Step e e' → Reachable config e'

is_empty-cases : (m : List (ℕ × ActiveReplayRequest)) → (m ≡ []) ⊎ (is_empty m ≡ false)
unfolding is_empty
is_empty-cases [] = inl refl
is_empty-cases (x ∷ m) = inr refl

module _ (config : RecoveryConfig) where
  IsRange-counted :
      (from to : ℕ)
      → from < 2 ^ 64
      → to < 2 ^ 64
      → inc64 (to - from) ≤ config.max_replay_range
      → IsRange config from to
  IsRange-counted from to hf ht h = omega arith

  create-IsConsistent :
      (e : RecoveryEngine) (from to now : ℕ)
      → from < 2 ^ 64
      → to < 2 ^ 64
      → IsConsistent config e
      → IsConsistent config (create_replay_request e from to now).0
  unfolding create_replay_request
  create-IsConsistent e from to now hf ht c =
      let range = ltb e.config.max_replay_range (inc64 (to - from)) in
      let full = leb e.config.max_outstanding_requests (length e.outstanding_requests) in
      let max_range = ap (λ k. k.max_replay_range) c.configured in
      let max_requests = ap (λ k. k.max_outstanding_requests) c.configured in
      elim (Bool-cases range) [
        | inl b ↦ rw (create_replay_request, b) c
        | inr b ↦ elim (Bool-cases full) [
          | inl b' ↦ rw (create_replay_request, b, b') c
          | inr b' ↦
              let room : length e.outstanding_requests < e.config.max_outstanding_requests =
                ground arith in
              let counted : inc64 (to - from) ≤ e.config.max_replay_range = ground arith in
              let in_range : IsRange config from to = IsRange-counted from to hf ht (omega arith) in
              rw (create_replay_request, b, b')
                (record {
                  configured = c.configured;
                  bounded =
                      omega (arith, length-remove-le e.next_request_id e.outstanding_requests);
                  requests = (
                    (refl, omega arith, in_range),
                    remove-Entries (IsRequest config) e.next_request_id _ c.requests,
                  );
                  idle = λ h. absurd (ground arith);
                })
        ]
      ]

  note_received-IsRequest :
      (k seq : ℕ) (req : ActiveReplayRequest)
      → IsRequest config k req
      → IsRequest config k (note_received req seq)
  unfolding note_received
  note_received-IsRequest k seq req (a, b, d) = ground arith

  complete-IsConsistent :
      (e : RecoveryEngine) (id : ℕ)
      → IsConsistent config e
      → IsConsistent config (complete_request e id).0
  unfolding complete_request drain_buffered remove
  complete-IsConsistent e id c = record {
    configured = c.configured;
    bounded = omega (arith, c.bounded, length-remove-le id e.outstanding_requests);
    requests = remove-Entries (IsRequest config) id _ c.requests;
    idle = λ h. elim (is_empty-cases (remove id e.outstanding_requests)) [
      | inl none_left ↦ none_left
      | inr more ↦
          let idle_before : e.state ≡ RecoveryState.live = rw more at h in
          rw (c.idle idle_before, remove)
    ];
  }

  response_buffered :
      (e : RecoveryEngine) (id : ℕ) (frame : OwnedFrame) (req : ActiveReplayRequest)
      → IsConsistent config e
      → lookup id e.outstanding_requests ≡ some req
      → IsConsistent config (record e {
        outstanding_requests =
            update id (note_received req frame.header.sequence) e.outstanding_requests;
        buffered_out_of_order = insert frame.header.sequence frame e.buffered_out_of_order;
      })
  unfolding update
  response_buffered e id frame req c found =
      let noted = note_received req frame.header.sequence in
      record {
        configured = c.configured;
        bounded = omega (arith, c.bounded, length-update id noted e.outstanding_requests);
        requests =
            update-Entries (IsRequest config) id noted _
              (note_received-IsRequest id frame.header.sequence req
                (lookup-Entries (IsRequest config) id req _ c.requests found))
              c.requests;
        idle = λ h. rw (c.idle h, update);
      }

  response-IsConsistent :
      (e : RecoveryEngine) (id : ℕ) (frame : OwnedFrame)
      → IsConsistent config e
      → IsConsistent config (handle_replay_response e id frame).0
  unfolding handle_replay_response respond_to respond
  response-IsConsistent e id frame c = elim (Option-cases (lookup id e.outstanding_requests)) [
    | inl unknown ↦ rw (handle_replay_response, unknown) c
    | inr (req, found) ↦
        let noted = note_received req frame.header.sequence in
        let buffered = response_buffered e id frame req c found in
        rw (handle_replay_response, found)
          (elim (Bool-cases (all_arrived noted)) [
            | inl b ↦ rw (respond_to, b) (complete-IsConsistent _ id buffered)
            | inr b ↦ rw (respond_to, b) buffered
          ])
  ]

  unavailable-IsConsistent :
      (e : RecoveryEngine) (unavail : ReplayUnavailablePayload)
      → IsConsistent config e
      → IsConsistent config (handle_replay_unavailable e unavail).0
  unfolding handle_replay_unavailable
  unavailable-IsConsistent e unavail c = record {
    configured = c.configured;
    bounded = omega (arith, c.bounded, length-remove-le unavail.request_id e.outstanding_requests);
    requests = remove-Entries (IsRequest config) unavail.request_id _ c.requests;
    idle = λ h. absurd (ground arith);
  }

  sweep-Entries :
      (now : ℕ) (m : List (ℕ × ActiveReplayRequest))
      → Entries (IsRequest config) m
      → Entries (IsRequest config) (sweep config now m).requests
        × (length (sweep config now m).requests ≡ length m)
  unfolding sweep sweep_one
  sweep-Entries now [] es = (tt, refl)
  sweep-Entries now ((id, req) ∷ m) ((a, b, d), es) = ground (arith, sweep-Entries now m es)

  swept-IsConsistent :
      (e : RecoveryEngine) (now : ℕ)
      → IsConsistent config e
      → IsConsistent config
          (record e { outstanding_requests = (sweep e.config now e.outstanding_requests).requests })
  unfolding sweep
  swept-IsConsistent e now c =
      let (entries, same) = sweep-Entries now e.outstanding_requests c.requests in
      let swept : (sweep e.config now e.outstanding_requests).requests
          ≡ (sweep config now e.outstanding_requests).requests =
        rw c.configured refl in
      record {
        configured = c.configured;
        bounded = rw swept (omega (arith, c.bounded, same));
        requests = rw swept entries;
        idle = λ h. rw (c.idle h) refl;
      }

  first_failure-IsConsistent :
      (e : RecoveryEngine) (failed : List (ℕ × ℕ × ℕ)) (retries : List ReplayRequestPayload)
      → IsConsistent config e
      → IsConsistent config (first_failure e failed retries).0
  unfolding first_failure
  first_failure-IsConsistent e [] retries c = c
  first_failure-IsConsistent e ((id, from, to) ∷ failed) retries c = record {
    configured = c.configured;
    bounded = omega (arith, c.bounded, length-remove-le id e.outstanding_requests);
    requests = remove-Entries (IsRequest config) id _ c.requests;
    idle = λ h. absurd (ground arith);
  }

  timeouts-IsConsistent :
      (e : RecoveryEngine) (now : ℕ)
      → IsConsistent config e
      → IsConsistent config (check_timeouts e now).0
  unfolding check_timeouts first_failure
  timeouts-IsConsistent e now c = first_failure-IsConsistent _ _ _ (swept-IsConsistent e now c)

  -- What an operation leaves is consistent when what it found was.
  step-IsConsistent :
      (e e' : RecoveryEngine) → IsConsistent config e → Step e e' → IsConsistent config e'
  unfolding buffer_frame drain_buffered drain_contiguous reset
  step-IsConsistent e e' c (Step.buffers frame) = record {
    configured = c.configured;
    bounded = c.bounded;
    requests = c.requests;
    idle = c.idle;
  }
  step-IsConsistent e e' c (Step.requests_replay from to now hf ht) =
      create-IsConsistent e from to now hf ht c
  step-IsConsistent e e' c (Step.answered id frame) = response-IsConsistent e id frame c
  step-IsConsistent e e' c (Step.refused unavail) = unavailable-IsConsistent e unavail c
  step-IsConsistent e e' c (Step.times_out now) = timeouts-IsConsistent e now c
  step-IsConsistent e e' c Step.drains_all = record {
    configured = c.configured;
    bounded = c.bounded;
    requests = c.requests;
    idle = c.idle;
  }
  step-IsConsistent e e' c (Step.drains start_seq) = record {
    configured = c.configured;
    bounded = c.bounded;
    requests = c.requests;
    idle = c.idle;
  }
  step-IsConsistent e e' c Step.resets = record {
    configured = c.configured;
    bounded = omega arith;
    requests = tt;
    idle = λ h. refl;
  }

  -- In every engine that a fresh one can become by any sequence of operations, with ranges of 64
  -- bits, the configuration is the initial one, at most the configured number of requests is
  -- outstanding, each under its own id, within the configured number of retries and with a range
  -- within the configured length, but for the range from 0 to 2^64 - 1, whose length the code
  -- counts as 0, and none when the engine is live.
  pub Reachable-IsConsistent : (e : RecoveryEngine) → Reachable config e → IsConsistent config e
  unfolding new_engine
  Reachable-IsConsistent e Reachable.initial = record {
    configured = refl;
    bounded = omega arith;
    requests = tt;
    idle = λ h. refl;
  }
  Reachable-IsConsistent e' (Reachable.after {e} r s) =
      step-IsConsistent e e' (Reachable-IsConsistent e r) s
