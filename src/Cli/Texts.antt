-- ===== src/Cli/Texts.antt =====
-- How long the texts of the command `Publish` (cli/src/main.rs) are.
use real_time_data_platform.Base.{
  ℕ, zero, suc, ◌+◌, ◌/◌, ◌%◌, ◌^◌, ◌*◌, ◌≤◌, ◌<◌, ◌≡◌, inl, inr, true, List, [], ◌∷◌, arith,
  length, length-append, ◌==◌, Bool-cases,
}
use real_time_data_platform.Cli.{decimal_before, message_text}

-- A number below 10^digits has at most so many digits.
length-decimal_before :
    (fuel n digits : ℕ) (rest : List ℕ)
    → n < 10 ^ suc digits
    → length (decimal_before fuel n rest) ≤ suc digits + length rest
unfolding decimal_before
length-decimal_before zero n digits rest small = omega arith
length-decimal_before (suc fuel) n zero rest small =
    let one : (n / 10 == 0) ≡ true = ground arith in rw (decimal_before, one) (omega arith)
length-decimal_before (suc fuel) n (suc digits) rest small = elim (Bool-cases (n / 10 == 0)) [
  | inl one ↦ rw (decimal_before, one) (omega arith)
  | inr more ↦
      let power : 10 ^ suc (suc digits) ≡ 10 * 10 ^ suc digits = omega arith in
      let shorter : n / 10 < 10 ^ suc digits = omega arith in
      let long = length-decimal_before fuel (n / 10) digits ((b'0' + n % 10) ∷ rest) shorter in
      rw (decimal_before, more) (omega (arith, long))
]

pub length-message_text :
    (message : List ℕ) (i : ℕ) → i < 2 ^ 64 → length (message_text message i) ≤ length message + 22
unfolding message_text
length-message_text message i small =
    let digits = length-decimal_before (suc i) i 19 [] (omega arith) in
    let text = length-append message (b':' ∷ b' ' ∷ decimal_before (suc i) i []) in
    omega (arith, digits, text)
