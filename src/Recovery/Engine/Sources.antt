-- ===== src/Recovery/Engine/Sources.antt =====
-- Where the frames come from that a recovery engine (core/src/recovery/engine.rs) gives out.
use real_time_data_platform.Base.{
  ℕ, zero, suc, ◌≡◌, inl, inr, refl, Option, none, some, List, [], ◌∷◌, arith, inc64, Each,
  Bool-cases, Option-cases,
}
use real_time_data_platform.Base.Map.{
  lookup, remove, values, Entries, insert-Entries, remove-Entries, lookup-Entries,
}
use real_time_data_platform.Error.{RtdpError, Result, ok, err}
use real_time_data_platform.Protocol.Frame.{OwnedFrame}
use real_time_data_platform.Recovery.Data.{RecoveryEngine, ReplayRequestPayload}
use real_time_data_platform.Recovery.Engine.{
  create_replay_request, drain_loop, note_received, all_arrived, drain_buffered, complete_request,
  respond, respond_to, handle_replay_response, check_timeouts, first_failure, sweep,
}

first_failure-buffer :
    (e : RecoveryEngine) (failed : List (ℕ × ℕ × ℕ)) (retries : List ReplayRequestPayload)
    → (first_failure e failed retries).0.buffered_out_of_order ≡ e.buffered_out_of_order
unfolding first_failure
first_failure-buffer e [] retries = refl
first_failure-buffer e ((id, from, to) ∷ rest) retries = refl

module _ (P : OwnedFrame → Type 0) where
  -- Every frame of a list has the property.
  abbrev pub All : List OwnedFrame → Type 0
  All frames = Each P frames

  -- Every frame that an engine holds back has it.
  abbrev pub Buffered : RecoveryEngine → Type 0
  Buffered e = Entries (λ _ f. P f) e.buffered_out_of_order

  -- The frames of an answer to a response.
  abbrev pub given : Result (Option (List OwnedFrame)) RtdpError → List OwnedFrame
  given (ok (some frames)) = frames
  given (ok none) = []
  given (err e) = []

  values-All : (m : List (ℕ × OwnedFrame)) → Entries (λ _ f. P f) m → All (values m)
  unfolding values
  values-All [] es = tt
  values-All ((k, f) ∷ m) (h, es) = (h, values-All m es)

  pub drain_loop-All :
      (fuel s : ℕ) (m : List (ℕ × OwnedFrame))
      → Entries (λ _ f. P f) m
      → All (drain_loop fuel s m).0 × Entries (λ _ f. P f) (drain_loop fuel s m).1
  unfolding drain_loop
  drain_loop-All zero s m es = (tt, es)
  drain_loop-All (suc fuel) s m es = elim (Option-cases (lookup s m)) [
    | inl nothing ↦ rw (drain_loop, nothing) (tt, es)
    | inr (f, found) ↦
        let here = lookup-Entries (λ _ f'. P f') s f m es found in
        let (rest, left) =
          drain_loop-All fuel (inc64 s) (remove s m) (remove-Entries (λ _ f'. P f') s m es) in
        rw (drain_loop, found) ((here, rest), left)
  ]

  pub create_replay_request-buffer :
      (e : RecoveryEngine) (from to now : ℕ)
      → (create_replay_request e from to now).0.buffered_out_of_order ≡ e.buffered_out_of_order
  unfolding create_replay_request
  create_replay_request-buffer e from to now = ground arith

  -- The frames that a response leads to were buffered, or the response brought them.
  pub handle_replay_response-All :
      (e : RecoveryEngine) (id : ℕ) (frame : OwnedFrame)
      → P frame
      → Buffered e
      → All (given (handle_replay_response e id frame).1)
        × Buffered (handle_replay_response e id frame).0
  unfolding handle_replay_response respond_to respond complete_request drain_buffered
  handle_replay_response-All e id frame h b =
      let seq = frame.header.sequence in
      let inserted = insert-Entries (λ _ f. P f) seq frame e.buffered_out_of_order h b in
      elim (Option-cases (lookup id e.outstanding_requests)) [
        | inl unknown ↦ rw (handle_replay_response, unknown) (tt, b)
        | inr (req, found) ↦
            rw (handle_replay_response, found)
              (elim (Bool-cases (all_arrived (note_received req seq))) [
                | inl all ↦ rw (respond_to, all) (values-All _ inserted, tt)
                | inr some_missing ↦ rw (respond_to, some_missing) (tt, inserted)
              ])
      ]

pub check_timeouts-buffer :
    (e : RecoveryEngine) (now : ℕ)
    → (check_timeouts e now).0.buffered_out_of_order ≡ e.buffered_out_of_order
unfolding check_timeouts
check_timeouts-buffer e now =
    let s = sweep e.config now e.outstanding_requests in
    first_failure-buffer (record e { outstanding_requests = s.requests }) s.failed s.retries
