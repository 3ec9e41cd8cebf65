-- ===== src/Recovery/Engine/Pending.antt =====
-- What a replay response leaves of the outstanding requests of a recovery engine.
use real_time_data_platform.Base.{ℕ, ◌≡◌, inl, inr, refl, Option-cases, Bool-cases}
use real_time_data_platform.Base.Map.{
  Entries, lookup, update, remove-Entries, update-Entries, lookup-Entries,
}
use real_time_data_platform.Protocol.Frame.{OwnedFrame}
use real_time_data_platform.Recovery.Data.{ActiveReplayRequest, RecoveryEngine, RecoveryConfig}
use real_time_data_platform.Recovery.Engine.{
  note_received, all_arrived, drain_buffered, complete_request, respond, respond_to,
  handle_replay_response,
}

-- The configuration is the same, and each request has a property.
pub record Keeps (P : ℕ → ActiveReplayRequest → Type 0) (config : RecoveryConfig)
    (e : RecoveryEngine) : Type 0 where
  pub configured : e.config ≡ config
  pub requests : Entries P e.outstanding_requests

-- A property that the note of a sequence keeps stays with the requests when a response comes.
pub handle_replay_response-Keeps :
    (P : ℕ → ActiveReplayRequest → Type 0) (e : RecoveryEngine) (id : ℕ) (frame : OwnedFrame)
    → ((req : ActiveReplayRequest) → P id req → P id (note_received req frame.header.sequence))
    → Entries P e.outstanding_requests
    → Keeps P e.config (handle_replay_response e id frame).0
unfolding handle_replay_response respond_to respond complete_request drain_buffered
handle_replay_response-Keeps P e id frame stays q =
    elim (Option-cases (lookup id e.outstanding_requests)) [
      | inl unknown ↦
          rw (handle_replay_response, unknown) (record { configured = refl; requests = q })
      | inr (req, found) ↦
          let noted = note_received req frame.header.sequence in
          let kept : Entries P (update id noted e.outstanding_requests) =
            update-Entries P id noted e.outstanding_requests
              (stays req (lookup-Entries P id req e.outstanding_requests q found)) q in
          elim (Bool-cases (all_arrived noted)) [
            | inl b ↦
                rw (handle_replay_response, found, respond_to, b)
                  (record {
                    configured = refl;
                    requests = remove-Entries P id (update id noted e.outstanding_requests) kept;
                  })
            | inr b ↦
                rw (handle_replay_response, found, respond_to, b)
                  (record { configured = refl; requests = kept })
          ]
    ]
