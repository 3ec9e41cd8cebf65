-- ===== src/Wire.antt =====
-- What the code takes from the crates `byteorder` (big-endian reads and writes) and `crc32c`, which
-- are not part of the repository: operations with the documented laws that the code relies on.
use real_time_data_platform.Base.{
  ℕ, zero, suc, take, drop, ◌^◌, ◌<◌, ◌≡◌, List, [], ◌∷◌, length, arith,
}

-- The elements of a byte slice.
abbrev pub AllBytes : List ℕ → Type 0
AllBytes [] = Unit
AllBytes (b ∷ bs) = (b < 256) × AllBytes bs

pub record Wire : Type 0 where
  -- `BigEndian::write_u16(buf, n)` and its siblings: the bytes that are written.
  pub write_u16 : ℕ → List ℕ
  pub write_u32 : ℕ → List ℕ
  pub write_u64 : ℕ → List ℕ
  pub read_u16 : List ℕ → ℕ
  pub read_u32 : List ℕ → ℕ
  pub read_u64 : List ℕ → ℕ
  pub crc32c : List ℕ → ℕ
  pub length-write_u16 : (n : ℕ) → length (write_u16 n) ≡ 2
  pub length-write_u32 : (n : ℕ) → length (write_u32 n) ≡ 4
  pub length-write_u64 : (n : ℕ) → length (write_u64 n) ≡ 8
  pub read-write_u16 : (n : ℕ) → n < 2 ^ 16 → read_u16 (write_u16 n) ≡ n
  pub read-write_u32 : (n : ℕ) → n < 2 ^ 32 → read_u32 (write_u32 n) ≡ n
  pub read-write_u64 : (n : ℕ) → n < 2 ^ 64 → read_u64 (write_u64 n) ≡ n
  pub write-read_u32 :
      (bytes : List ℕ) → length bytes ≡ 4 → AllBytes bytes → write_u32 (read_u32 bytes) ≡ bytes
  pub write-read_u16 :
      (bytes : List ℕ) → length bytes ≡ 2 → AllBytes bytes → write_u16 (read_u16 bytes) ≡ bytes
  pub write-read_u64 :
      (bytes : List ℕ) → length bytes ≡ 8 → AllBytes bytes → write_u64 (read_u64 bytes) ≡ bytes
  pub read_u16-lt : (bytes : List ℕ) → read_u16 bytes < 2 ^ 16
  pub read_u32-lt : (bytes : List ℕ) → read_u32 bytes < 2 ^ 32
  pub read_u64-lt : (bytes : List ℕ) → read_u64 bytes < 2 ^ 64
  pub crc32c-lt : (bytes : List ℕ) → crc32c bytes < 2 ^ 32

pub length_u16 : (w : Wire) (n : ℕ) → length (w.write_u16 n) ≡ 2
length_u16 w n = w.length-write_u16 n

pub length_u32 : (w : Wire) (n : ℕ) → length (w.write_u32 n) ≡ 4
length_u32 w n = w.length-write_u32 n

pub length_u64 : (w : Wire) (n : ℕ) → length (w.write_u64 n) ≡ 8
length_u64 w n = w.length-write_u64 n

-- The widths of the numbers that are written.
pub ruleset widths = (arith, length_u16, length_u32, length_u64)

pub take-AllBytes : (n : ℕ) (bs : List ℕ) → AllBytes bs → AllBytes (take n bs)
take-AllBytes zero bs h = tt
take-AllBytes (suc n) [] h = tt
take-AllBytes (suc n) (b ∷ bs) (h, hs) = (h, take-AllBytes n bs hs)

pub drop-AllBytes : (n : ℕ) (bs : List ℕ) → AllBytes bs → AllBytes (drop n bs)
drop-AllBytes zero bs h = h
drop-AllBytes (suc n) [] h = tt
drop-AllBytes (suc n) (b ∷ bs) (h, hs) = drop-AllBytes n bs hs
