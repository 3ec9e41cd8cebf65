-- ===== src/Cli/Pauses.antt =====
-- The pauses of the command `Publish` (cli/src/main.rs).
use real_time_data_platform.Base.{
  ℕ, zero, suc, ◌+◌, ◌-◌, ◌≡◌, inl, inr, refl, ap, true, [], arith, replicate, ltb, if◌then◌else◌,
  Bool-cases,
}
use real_time_data_platform.Cli.Commands.{pauses}

pauses_from :
    (interval_ms count rounds i : ℕ)
    → i + rounds ≡ count + 1
    → pauses interval_ms count rounds i
      ≡ (if ltb 0 interval_ms then replicate (rounds - 1) interval_ms else [])
unfolding pauses
pauses_from interval_ms count zero i last = ground arith
pauses_from interval_ms count (suc zero) i last = ground arith
pauses_from interval_ms count (suc (suc rounds)) i last =
    let rest = pauses_from interval_ms count (suc rounds) (i + 1) (omega arith) in
    let before : ltb i count ≡ true = ground arith in
    rw (pauses, before, rest)
      (elim (Bool-cases (ltb 0 interval_ms)) [
        | inl b ↦ rw b (
            let one_less : suc (suc rounds - 1) ≡ suc (suc rounds) - 1 = omega arith in
            ap (λ n. replicate n interval_ms) one_less)
        | inr b ↦ rw b refl
      ])

-- One pause between every two messages.
pub pauses_lem :
    (interval_ms count : ℕ)
    → pauses interval_ms count count 1
      ≡ (if ltb 0 interval_ms then replicate (count - 1) interval_ms else [])
pauses_lem interval_ms count = pauses_from interval_ms count count 1 (omega arith)
