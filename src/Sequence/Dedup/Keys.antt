-- ===== src/Sequence/Dedup/Keys.antt =====
-- Sets of keys as lists: what `contains` sees of each operation.
use real_time_data_platform.Base.{
  ◌≡◌, ◌↔◌, ◌⊎◌, inl, refl, true, false, ◌||◌, List, [], ◌∷◌, ◌++◌, if◌then◌else◌, arith, Option,
  none, some, get_elem?,
}
use real_time_data_platform.Sequence.Dedup.{
  DuplicateKey, DuplicateFilter, key_eq, contains, remove, evict, is_duplicate_and_record,
}

pub key_eq_iff : (a b : DuplicateKey) → (key_eq a b ≡ true) ↔ (a ≡ b)
key_eq_iff a b = ground arith

pub key_eq_refl : (a : DuplicateKey) → key_eq a a ≡ true
key_eq_refl a = ground arith

pub key_eq_trans : (a b c : DuplicateKey) → key_eq a b ≡ true → key_eq a c ≡ key_eq b c
key_eq_trans a b c h = ground arith

pub contains-append :
    (xs ys : List DuplicateKey) (k : DuplicateKey)
    → contains (xs ++ ys) k ≡ (contains xs k || contains ys k)
unfolding contains
contains-append [] ys k = refl
contains-append (x ∷ xs) ys k = ground (arith, contains-append xs ys k)

pub contains-remove :
    (old : DuplicateKey) (xs : List DuplicateKey) (k : DuplicateKey)
    → contains (remove old xs) k ≡ (if key_eq old k then false else contains xs k)
unfolding contains remove
contains-remove old [] k = ground arith
contains-remove old (x ∷ xs) k = ground (arith, contains-remove old xs k)

-- No two of the keys are equal.
abbrev pub Distinct : List DuplicateKey → Type 0
Distinct [] = Unit
Distinct (x ∷ xs) = (contains xs x ≡ false) × Distinct xs

pub Distinct-snoc :
    (xs : List DuplicateKey) (k : DuplicateKey)
    → Distinct xs
    → contains xs k ≡ false
    → Distinct (xs ++ k ∷ [])
unfolding contains
Distinct-snoc [] k d h = (refl, tt)
Distinct-snoc (x ∷ xs) k d h =
    (ground (arith, contains-append xs (k ∷ []) x), Distinct-snoc xs k d.1 (ground arith))

evict-contains :
    (f : DuplicateFilter) (key : DuplicateKey) (old : Option DuplicateKey) (k : DuplicateKey)
    → contains (evict f key old).recent_keys k ≡ true
    → (contains f.recent_keys k ≡ true) ⊎ (key_eq key k ≡ true)
unfolding evict contains
evict-contains f key none k h = inl h
evict-contains f key (some o) k h = ground (arith, contains-remove o f.recent_keys k)

-- A filter forgets keys, and learns no key but the one that it is asked about.
pub contains-record :
    (f : DuplicateFilter) (key k : DuplicateKey)
    → contains (is_duplicate_and_record f key).0.recent_keys k ≡ true
    → (contains f.recent_keys k ≡ true) ⊎ (key_eq key k ≡ true)
unfolding is_duplicate_and_record contains
contains-record f key k h = ground (arith, evict-contains f key (get_elem? f.ring_history f.head) k)

-- The answer of the filter is whether the key is among the recent ones.
pub duplicate-contains :
    (f : DuplicateFilter) (key : DuplicateKey)
    → (is_duplicate_and_record f key).1 ≡ contains f.recent_keys key
unfolding is_duplicate_and_record
duplicate-contains f key = ground arith
