-- ===== src/Recovery/Engine/Timeouts.antt =====
-- What `check_timeouts` does with the requests that have not been answered in time.
use real_time_data_platform.Base.{
  ℕ, ◌+◌, ◌-◌, ◌≤◌, ◌<◌, ◌≡◌, ◌⊎◌, inl, inr, refl, sym, ap, ◌∙◌, subst, true, false, none, In, List,
  [], ◌∷◌, arith, leb, Bool-cases,
}
use real_time_data_platform.Base.Map.{lookup, remove, lookup-remove, Entries}
use real_time_data_platform.Error.{RtdpError, ok, err}
use real_time_data_platform.Recovery.Data.{
  ReplayRequestPayload, RecoveryState, ActiveReplayRequest, RecoveryConfig, RecoveryEngine,
}
use real_time_data_platform.Recovery.Engine.{Sweep, sweep_one, sweep, first_failure, check_timeouts}

-- The retry timeout of a request has run out.
abbrev pub Due : RecoveryConfig → ℕ → ActiveReplayRequest → Type 0
Due config now req = config.retry_timeout ≤ now - req.last_sent_at

abbrev pub payload_of : ℕ → ActiveReplayRequest → ReplayRequestPayload
payload_of id req = record {
  request_id = id;
  from_sequence = req.from_sequence;
  to_sequence = req.to_sequence;
}

abbrev pub Sent : ReplayRequestPayload → List ReplayRequestPayload → Type 0
Sent p [] = ⊥
Sent p (q ∷ qs) = (q ≡ p) ⊎ Sent p qs

-- A request that is due may be sent again, and is.
abbrev pub IsRetried :
    RecoveryConfig → ℕ → List ReplayRequestPayload → ℕ → ActiveReplayRequest → Type 0
IsRetried config now retries id req =
    Due config now req
    → (req.retries_attempted < config.max_retries) × Sent (payload_of id req) retries

-- A request that will not be due before its timeout has run out again.
abbrev pub IsFresh : RecoveryConfig → ℕ → ℕ → ActiveReplayRequest → Type 0
IsFresh config now id req = now - req.last_sent_at < config.retry_timeout

module _ (config : RecoveryConfig) (now : ℕ) where
  more_sent :
      (p : ReplayRequestPayload) (retries : List ReplayRequestPayload)
      (m : List (ℕ × ActiveReplayRequest))
      → Entries (IsRetried config now retries) m
      → Entries (IsRetried config now (p ∷ retries)) m
  more_sent p retries [] es = tt
  more_sent p retries ((id, req) ∷ m) (h, es) =
      (λ due. let (few, sent) = h due in (few, inr sent), more_sent p retries m es)

  module _ (id : ℕ) (req : ActiveReplayRequest) (m : List (ℕ × ActiveReplayRequest)) where
    sweep_failed :
        leb config.retry_timeout (now - req.last_sent_at) ≡ true
        → leb config.max_retries req.retries_attempted ≡ true
        → (sweep config now ((id, req) ∷ m)).failed
          ≡ (id, req.from_sequence, req.to_sequence) ∷ (sweep config now m).failed
    unfolding sweep sweep_one
    sweep_failed b b' = rw (b, b') refl

    sweep_retried :
        leb config.retry_timeout (now - req.last_sent_at) ≡ true
        → leb config.max_retries req.retries_attempted ≡ false
        → sweep config now ((id, req) ∷ m) ≡ record (sweep config now m) {
          requests =
              (id, record req { retries_attempted = req.retries_attempted + 1; last_sent_at = now })
              ∷ (sweep config now m).requests;
          retries = payload_of id req ∷ (sweep config now m).retries;
        }
    unfolding sweep sweep_one
    sweep_retried b b' = rw (b, b') refl

    sweep_kept :
        leb config.retry_timeout (now - req.last_sent_at) ≡ false
        → sweep config now ((id, req) ∷ m)
          ≡ record (sweep config now m) { requests = (id, req) ∷ (sweep config now m).requests }
    unfolding sweep sweep_one
    sweep_kept b = rw b refl

  -- What the sweep leaves when it gives no request up.
  abbrev Outcome : List (ℕ × ActiveReplayRequest) → Sweep → Type 0
  Outcome m s = Entries (IsRetried config now s.retries) m × Entries (IsFresh config now) s.requests

  sweep-IsRetried :
      (positive : 0 < config.retry_timeout) (m : List (ℕ × ActiveReplayRequest))
      → (sweep config now m).failed ≡ []
      → Entries (IsRetried config now (sweep config now m).retries) m
        × Entries (IsFresh config now) (sweep config now m).requests
  unfolding sweep
  sweep-IsRetried positive [] h = (tt, tt)
  sweep-IsRetried positive ((id, req) ∷ m) h =
      elim (Bool-cases (leb config.retry_timeout (now - req.last_sent_at))) [
        | inl b ↦ elim (Bool-cases (leb config.max_retries req.retries_attempted)) [
          | inl b' ↦ let h' = rw (sweep_failed id req m b b') at h in absurd (ground arith)
          | inr b' ↦
              let (retried, fresh) =
                sweep-IsRetried positive m (rw (sweep_retried id req m b b') at h) in
              let few : req.retries_attempted < config.max_retries = ground arith in
              let at_once : now - now < config.retry_timeout = omega arith in
              let sent : Sent (payload_of id req)
                  (payload_of id req ∷ (sweep config now m).retries) =
                inl refl in
              subst (Outcome ((id, req) ∷ m)) (sym (sweep_retried id req m b b'))
                ((λ d. (few, sent), more_sent (payload_of id req) _ m retried), (at_once, fresh))
        ]
        | inr b ↦
            let (retried, fresh) = sweep-IsRetried positive m (rw (sweep_kept id req m b) at h) in
            let young : now - req.last_sent_at < config.retry_timeout = ground arith in
            subst (Outcome ((id, req) ∷ m)) (sym (sweep_kept id req m b))
              ((λ d. absurd (omega arith), retried), (young, fresh))
      ]

-- A sweep that finds no request due changes nothing.
sweep-IsFresh :
    (config : RecoveryConfig) (now : ℕ) (m : List (ℕ × ActiveReplayRequest))
    → Entries (IsFresh config now) m
    → sweep config now m ≡ record { requests = m; retries = []; failed = [] }
unfolding sweep
sweep-IsFresh config now [] fresh = refl
sweep-IsFresh config now ((id, req) ∷ m) (young, fresh) =
    let kept : leb config.retry_timeout (now - req.last_sent_at) ≡ false = ground arith in
    sweep_kept config now id req m kept
    ∙ ap (λ (s : Sweep). record s { requests = (id, req) ∷ s.requests })
        (sweep-IsFresh config now m fresh)

-- A timeout check that finds no request due leaves the engine as it is.
pub check_timeouts-IsFresh :
    (e : RecoveryEngine) (now : ℕ)
    → Entries (IsFresh e.config now) e.outstanding_requests
    → check_timeouts e now ≡ (e, ok [])
unfolding check_timeouts first_failure
check_timeouts-IsFresh e now fresh =
    ap (λ s. first_failure (record e { outstanding_requests = s.requests }) s.failed s.retries)
      (sweep-IsFresh e.config now e.outstanding_requests fresh)

List-cases {ℓ} :
    {A : Type ℓ} (xs : List A) → (xs ≡ []) ⊎ ((x : A) × (rest : List A) × (xs ≡ x ∷ rest))
List-cases [] = inl refl
List-cases (x ∷ rest) = inr (x, rest, refl)

-- A request that is due and has no retry left.
abbrev pub IsExhausted : RecoveryConfig → ℕ → ActiveReplayRequest → Type 0
IsExhausted config now req = Due config now req × (config.max_retries ≤ req.retries_attempted)

-- What the sweep gives up first is such a request.
sweep-IsExhausted :
    (config : RecoveryConfig) (now : ℕ) (m : List (ℕ × ActiveReplayRequest)) (id from to : ℕ)
    (rest : List (ℕ × ℕ × ℕ))
    → (sweep config now m).failed ≡ (id, from, to) ∷ rest
    → (req : ActiveReplayRequest) × In (id, req) m
      × IsExhausted config now req
      × (req.from_sequence ≡ from)
      × (req.to_sequence ≡ to)
unfolding sweep sweep_one
sweep-IsExhausted config now [] id from to rest h = absurd (ground arith)
sweep-IsExhausted config now ((id', req) ∷ m) id from to rest h =
    let earlier : (sweep config now m).failed ≡ (id, from, to) ∷ rest
        → (req' : ActiveReplayRequest) × In (id, req') ((id', req) ∷ m)
          × IsExhausted config now req'
          × (req'.from_sequence ≡ from)
          × (req'.to_sequence ≡ to) =
      λ h'.
        let (found, there, exhausted, same_from, same_to) =
          sweep-IsExhausted config now m id from to rest h' in
        (found, inr there, exhausted, same_from, same_to) in
    elim (Bool-cases (leb config.retry_timeout (now - req.last_sent_at))) [
      | inl b ↦ elim (Bool-cases (leb config.max_retries req.retries_attempted)) [
        | inl b' ↦
            let h' = rw (sweep_failed config now id' req m b b') at h in
            let same : id' ≡ id = ground arith in
            (
              req,
              inl (ap (λ i. (i, req)) same),
              (ground arith, ground arith),
              ground arith,
              ground arith,
            )
        | inr b' ↦ earlier (rw (sweep_retried config now id' req m b b') at h)
      ]
      | inr b ↦ earlier (rw (sweep_kept config now id' req m b) at h)
    ]

-- With a positive retry timeout, a timeout check does one of two things. Either it gives up an
-- outstanding request that is due and has no retry left, answers with the range of this request as
-- an unrecoverable gap, removes its id and leaves the engine failed. Or it sends every request
-- that was due again under its id and range, each having retries left, keeps the state, and leaves
-- no request that is due.
pub check_timeouts-IsRetried :
    (e : RecoveryEngine) (now : ℕ)
    → 0 < e.config.retry_timeout
    → (let (e', answer) = check_timeouts e now in
        ((id : ℕ) × (req : ActiveReplayRequest) × In (id, req) e.outstanding_requests
          × IsExhausted e.config now req
          × (answer ≡ err (RtdpError.unrecoverable_gap req.from_sequence req.to_sequence))
          × (lookup id e'.outstanding_requests ≡ none)
          × (e'.state ≡ RecoveryState.recovery_failed))
        ⊎ ((retries : List ReplayRequestPayload) × (answer ≡ ok retries)
            × (e'.state ≡ e.state)
            × Entries (IsRetried e.config now retries) e.outstanding_requests
            × Entries (IsFresh e.config now) e'.outstanding_requests))
unfolding check_timeouts first_failure
check_timeouts-IsRetried e now positive =
    let s = sweep e.config now e.outstanding_requests in
    elim (List-cases s.failed) [
      | inl none_failed ↦
          let (retried, fresh) =
            sweep-IsRetried e.config now positive e.outstanding_requests none_failed in
          rw (none_failed, first_failure) (inr (s.retries, refl, refl, retried, fresh))
      | inr ((id, from, to), rest, some_failed) ↦
          let (req, there, exhausted, same_from, same_to) =
            sweep-IsExhausted e.config now e.outstanding_requests id from to rest some_failed in
          let removed : lookup id (remove id s.requests) ≡ none =
            ground (arith, lookup-remove id id s.requests) in
          rw (some_failed, first_failure)
            (inl (id, req, there, exhausted, cc (same_from, same_to), removed, refl))
    ]
