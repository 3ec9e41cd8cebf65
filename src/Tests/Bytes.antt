-- ===== src/Tests/Bytes.antt =====
-- Big-endian numbers, and a sum in the place of the checksum: operations with the laws of `Wire`.
use real_time_data_platform.Base.{
  ℕ, ◌+◌, ◌*◌, ◌/◌, ◌%◌, ◌^◌, ◌<◌, ◌≡◌, refl, ◌∙◌, ap₂, List, [], ◌∷◌, ◌++◌, arith, length,
}
use real_time_data_platform.Wire.{Wire, AllBytes}

abbrev write_2 : ℕ → List ℕ
write_2 n = n / 256 % 256 ∷ n % 256 ∷ []

abbrev write_4 : ℕ → List ℕ
write_4 n = n / 256 / 256 / 256 % 256 ∷ n / 256 / 256 % 256 ∷ n / 256 % 256 ∷ n % 256 ∷ []

abbrev write_8 : ℕ → List ℕ
write_8 n =
    let m = n / 256 / 256 / 256 / 256 in
    m / 256 / 256 / 256 % 256
    ∷ m / 256 / 256 % 256
    ∷ m / 256 % 256
    ∷ m % 256
    ∷ n / 256 / 256 / 256 % 256
    ∷ n / 256 / 256 % 256
    ∷ n / 256 % 256
    ∷ n % 256
    ∷ []

abbrev read_from : ℕ → List ℕ → ℕ
read_from acc [] = acc
read_from acc (b ∷ bs) = read_from (acc * 256 + b) bs

abbrev sum : List ℕ → ℕ
sum [] = 0
sum (b ∷ bs) = b + sum bs

digits_4 :
    (n a b c d : ℕ)
    → n ≡ ((a * 256 + b) * 256 + c) * 256 + d
    → a < 256
    → b < 256
    → c < 256
    → d < 256
    → write_4 n ≡ a ∷ b ∷ c ∷ d ∷ []
digits_4 n a b c d h ha hb hc hd =
    let ea : n / 256 / 256 / 256 % 256 ≡ a = omega arith in
    let eb : n / 256 / 256 % 256 ≡ b = omega arith in
    let ec : n / 256 % 256 ≡ c = omega arith in
    let ed : n % 256 ≡ d = omega arith in rw (ea, eb, ec, ed)

-- The number of a list of bytes, as wide as the type.
abbrev read_16 : List ℕ → ℕ
read_16 bs = read_from 0 bs % 2 ^ 16

abbrev read_32 : List ℕ → ℕ
read_32 bs = read_from 0 bs % 2 ^ 32

abbrev read_64 : List ℕ → ℕ
read_64 bs = read_from 0 bs % 2 ^ 64

abbrev join_4 : ℕ → ℕ → ℕ → ℕ → ℕ
join_4 a b c d = ((a * 256 + b) * 256 + c) * 256 + d

pub write-read_2 : (bs : List ℕ) → length bs ≡ 2 → AllBytes bs → write_2 (read_16 bs) ≡ bs
write-read_2 (a ∷ b ∷ []) h (ha, (hb, e)) =
    let n = read_16 (a ∷ b ∷ []) in
    let ea : n / 256 % 256 ≡ a = omega arith in
    let eb : n % 256 ≡ b = omega arith in rw (ea, eb) refl
write-read_2 [] h e = absurd (omega arith)
write-read_2 (a ∷ []) h e = absurd (omega arith)
write-read_2 (a ∷ b ∷ x ∷ bs) h e = absurd (omega arith)

pub write-read_4 : (bs : List ℕ) → length bs ≡ 4 → AllBytes bs → write_4 (read_32 bs) ≡ bs
write-read_4 (a ∷ b ∷ c ∷ d ∷ []) h (ha, (hb, (hc, (hd, e)))) =
    digits_4 (read_32 (a ∷ b ∷ c ∷ d ∷ [])) a b c d (omega arith) ha hb hc hd
write-read_4 [] h e = absurd (omega arith)
write-read_4 (a ∷ []) h e = absurd (omega arith)
write-read_4 (a ∷ b ∷ []) h e = absurd (omega arith)
write-read_4 (a ∷ b ∷ c ∷ []) h e = absurd (omega arith)
write-read_4 (a ∷ b ∷ c ∷ d ∷ x ∷ bs) h e = absurd (omega arith)

-- A number of 64 bits is written as its upper and its lower half.
halves : (n hi lo : ℕ) → n ≡ hi * 2 ^ 32 + lo → lo < 2 ^ 32 → write_8 n ≡ write_4 hi ++ write_4 lo
halves n hi lo h small =
    let upper : n / 256 / 256 / 256 / 256 ≡ hi = omega arith in
    let e₀ : n / 256 / 256 / 256 % 256 ≡ lo / 256 / 256 / 256 % 256 = omega arith in
    let e₁ : n / 256 / 256 % 256 ≡ lo / 256 / 256 % 256 = omega arith in
    let e₂ : n / 256 % 256 ≡ lo / 256 % 256 = omega arith in
    let e₃ : n % 256 ≡ lo % 256 = omega arith in rw (upper, e₀, e₁, e₂, e₃) refl

pub write-read_8 : (bs : List ℕ) → length bs ≡ 8 → AllBytes bs → write_8 (read_64 bs) ≡ bs
write-read_8 (a ∷ b ∷ c ∷ d ∷ a' ∷ b' ∷ c' ∷ d' ∷ []) h
      (ha, (hb, (hc, (hd, (ha', (hb', (hc', (hd', e)))))))) =
    let hi = join_4 a b c d in
    let lo = join_4 a' b' c' d' in
    let whole =
      halves (read_64 (a ∷ b ∷ c ∷ d ∷ a' ∷ b' ∷ c' ∷ d' ∷ [])) hi lo (omega arith) (omega arith) in
    whole
    ∙ ap₂ (λ (xs ys : List ℕ). xs ++ ys) (digits_4 hi a b c d refl ha hb hc hd)
        (digits_4 lo a' b' c' d' refl ha' hb' hc' hd')
write-read_8 [] h e = absurd (omega arith)
write-read_8 (a ∷ []) h e = absurd (omega arith)
write-read_8 (a ∷ b ∷ []) h e = absurd (omega arith)
write-read_8 (a ∷ b ∷ c ∷ []) h e = absurd (omega arith)
write-read_8 (a ∷ b ∷ c ∷ d ∷ []) h e = absurd (omega arith)
write-read_8 (a ∷ b ∷ c ∷ d ∷ a' ∷ []) h e = absurd (omega arith)
write-read_8 (a ∷ b ∷ c ∷ d ∷ a' ∷ b' ∷ []) h e = absurd (omega arith)
write-read_8 (a ∷ b ∷ c ∷ d ∷ a' ∷ b' ∷ c' ∷ []) h e = absurd (omega arith)
write-read_8 (a ∷ b ∷ c ∷ d ∷ a' ∷ b' ∷ c' ∷ d' ∷ x ∷ bs) h e = absurd (omega arith)

pub read-write_8 : (n : ℕ) → n < 2 ^ 64 → read_64 (write_8 n) ≡ n
read-write_8 n h = omega arith

abbrev pub big_endian : Wire
big_endian = record {
  write_u16 = write_2;
  write_u32 = write_4;
  write_u64 = write_8;
  read_u16 = read_16;
  read_u32 = read_32;
  read_u64 = read_64;
  crc32c = λ bs. sum bs % 2 ^ 32;
  length-write_u16 = λ n. refl;
  length-write_u32 = λ n. refl;
  length-write_u64 = λ n. refl;
  read-write_u16 = λ n h. omega arith;
  read-write_u32 = λ n h. omega arith;
  read-write_u64 = read-write_8;
  write-read_u32 = write-read_4;
  write-read_u16 = write-read_2;
  write-read_u64 = write-read_8;
  read_u16-lt = λ bs. omega arith;
  read_u32-lt = λ bs. omega arith;
  read_u64-lt = λ bs. omega arith;
  crc32c-lt = λ bs. omega arith;
}
