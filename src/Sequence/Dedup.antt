-- ===== src/Sequence/Dedup.antt =====
-- core/src/sequence/dedup.rs: the filter of duplicates with bounded memory. The `HashSet` is a list.
pub mod Keys
pub mod Window
use real_time_data_platform.Base.{
  ℕ, ◌+◌, ◌%◌, Bool, true, false, ◌&&◌, ◌||◌, not, Option, none, some, List, [], ◌∷◌, ◌++◌,
  if◌then◌else◌, ◌==◌, ltb, length, get_elem?, set,
}

pub record DuplicateKey : Type 0 where
  pub stream_id : ℕ
  pub publisher_id : ℕ
  pub sequence : ℕ

-- The derived `PartialEq`.
abbrev pub key_eq : DuplicateKey → DuplicateKey → Bool
key_eq a b =
    a.stream_id == b.stream_id && a.publisher_id == b.publisher_id && a.sequence == b.sequence

pub record DuplicateFilter : Type 0 where
  pub recent_keys : List DuplicateKey
  pub ring_history : List DuplicateKey
  pub head : ℕ
  pub capacity : ℕ

-- `HashSet::contains`, `insert` of an absent key and `remove`.
unfoldable pub contains : List DuplicateKey → DuplicateKey → Bool
contains [] k = false
contains (x ∷ xs) k = key_eq x k || contains xs k

unfoldable pub remove : DuplicateKey → List DuplicateKey → List DuplicateKey
remove k [] = []
remove k (x ∷ xs) = if key_eq x k then remove k xs else x ∷ remove k xs

unfoldable pub new_filter : ℕ → DuplicateFilter
new_filter capacity = record { recent_keys = []; ring_history = []; head = 0; capacity = capacity }

-- `ring_history[head]` out of range is a panic in the source and changes nothing here;
-- in `Window` it is shown to be in range.
unfoldable pub evict : DuplicateFilter → DuplicateKey → Option DuplicateKey → DuplicateFilter
evict f key none = f
evict f key (some old_key) = record f {
  recent_keys = key ∷ remove old_key f.recent_keys;
  ring_history = set f.ring_history f.head key;
  head = (f.head + 1) % f.capacity;
}

unfoldable pub is_duplicate_and_record : DuplicateFilter → DuplicateKey → DuplicateFilter × Bool
unfolding evict
is_duplicate_and_record f key =
    if contains f.recent_keys key
    then (f, true)
    else if ltb (length f.ring_history) f.capacity
    then (
      record f { ring_history = f.ring_history ++ key ∷ []; recent_keys = key ∷ f.recent_keys },
      false,
    )
    else (evict f key (get_elem? f.ring_history f.head), false)

unfoldable pub clear_filter : DuplicateFilter → DuplicateFilter
clear_filter f = record f { recent_keys = []; ring_history = []; head = 0 }
