-- ===== src/Sequence/Dedup/Window.antt =====
-- The filter (core/src/sequence/dedup.rs) against a sliding window of keys.
use native.Mathlib.Decide.{dec_lt}
use real_time_data_platform.Base.{
  ℕ, zero, suc, ◌+◌, ◌-◌, ◌%◌, ◌≤◌, ◌<◌, ◌≡◌, ◌⊎◌, inl, inr, refl, sym, ap, ◌∙◌, Bool, true, false,
  some, List, [], ◌∷◌, ◌++◌, append-nil, append_assoc, if◌then◌else◌, ltb, arith, Bool-cases,
  length, take, drop, get_elem?, set, length-append, length-set, take_all, drop_all, length-drop,
  length-take,
}
use real_time_data_platform.Sequence.Dedup.{
  DuplicateKey, DuplicateFilter, key_eq, contains, remove, evict, is_duplicate_and_record,
  new_filter,
}
use real_time_data_platform.Sequence.Dedup.Keys.{
  Distinct, Distinct-snoc, contains-append, contains-remove,
}

-- The keys of the ring, oldest first.
abbrev pub window : DuplicateFilter → List DuplicateKey
window f = drop f.head f.ring_history ++ take f.head f.ring_history

pub record IsValid (f : DuplicateFilter) : Type 0 where
  pub cap_pos : 0 < f.capacity
  pub head_in : f.head < f.capacity
  pub size : length f.ring_history ≤ f.capacity
  pub filling : (f.head ≡ 0) ⊎ (length f.ring_history ≡ f.capacity)
  pub distinct : Distinct (window f)
  pub same : (k : DuplicateKey) → contains f.recent_keys k ≡ contains (window f) k

contains_eq :
    (a b : DuplicateKey) (xs : List DuplicateKey)
    → key_eq a b ≡ true
    → contains xs a ≡ contains xs b
unfolding contains
contains_eq a b [] h = refl
contains_eq a b (x ∷ xs) h = ground (arith, contains_eq a b xs)

-- The last `n` of the keys `xs` and then `k`, where `xs` has at most `n`.
unfoldable pub slide : ℕ → List DuplicateKey → DuplicateKey → List DuplicateKey
slide n xs k = drop (length xs + 1 - n) xs ++ k ∷ []

pub new_filter-IsValid : (cap : ℕ) → 0 < cap → IsValid (new_filter cap)
unfolding new_filter contains
new_filter-IsValid cap h = record {
  cap_pos = h;
  head_in = h;
  size = omega arith;
  filling = inl refl;
  distinct = tt;
  same = λ k. refl;
}

module _ {ℓ} {A : Type ℓ} where
  -- At an index in range the list splits, and `set` replaces the element there.
  split_at :
      (xs : List A) (i : ℕ) (v : A)
      → i < length xs
      → (x : A) × (get_elem? xs i ≡ some x)
        × (drop i xs ≡ x ∷ drop (suc i) xs)
        × (drop (suc i) (set xs i v) ≡ drop (suc i) xs)
        × (take (suc i) (set xs i v) ≡ take i xs ++ v ∷ [])
        × (take i xs ++ x ∷ [] ≡ take (suc i) xs)
  split_at [] i v h = absurd (omega arith)
  split_at (x ∷ xs) zero v h = (x, refl, refl, refl, refl, refl)
  split_at (x ∷ xs) (suc i) v h =
      let (y, e1, e2, e3, e4, e5) = split_at xs i v (omega arith) in
      (y, e1, e2, e3, ap (◌∷◌ x) e4, ap (◌∷◌ x) e5)

  -- A write at the head of a full ring, seen from the next head on, is an append.
  rotate_set :
      (xs : List A) (i cap : ℕ) (v : A)
      → length xs ≡ cap
      → i < cap
      → drop ((i + 1) % cap) (set xs i v) ++ take ((i + 1) % cap) (set xs i v)
        ≡ (drop (suc i) xs ++ take i xs) ++ v ∷ []
  rotate_set xs i cap v hl hi =
      let (x, e1, e2, e3, e4, e5) = split_at xs i v (omega arith) in
      elim (dec_lt (suc i) cap) [
        | yes p ↦
            let e : (i + 1) % cap ≡ suc i = grind arith in
            rw (e, e3, e4) (sym (append_assoc (drop (suc i) xs) (take i xs) (v ∷ [])))
        | no p ↦
            let e : (i + 1) % cap ≡ 0 = wraps (omega arith) in
            rw (e, append-nil (set xs i v), drop_all (suc i) xs (omega arith))
              (rw (← take_all (suc i) (set xs i v) (omega (arith, length-set xs i v))) e4)
      ]
    where
      wraps : suc i ≡ cap → (i + 1) % cap ≡ 0
      wraps h = grind arith

-- A full ring: the evicted key is the oldest, and the new one comes last.
module _ (f : DuplicateFilter) (v : IsValid f) (full : length f.ring_history ≡ f.capacity) where
  evict-window :
      (key : DuplicateKey)
      → (old : DuplicateKey) × (rest : List DuplicateKey) × (get_elem? f.ring_history f.head
          ≡ some old)
        × (window f ≡ old ∷ rest)
        × (window (evict f key (some old)) ≡ rest ++ key ∷ [])
  unfolding evict
  evict-window key =
      let (x, e1, e2, e3, e4, e5) = split_at f.ring_history f.head key (omega arith) in
      (
        x,
        drop (suc f.head) f.ring_history ++ take f.head f.ring_history,
        e1,
        ap (λ l. l ++ take f.head f.ring_history) e2,
        rotate_set f.ring_history f.head f.capacity key full v.head_in,
      )

-- What eviction leaves is known to the set exactly as to the window.
same_after_evict :
    (old key : DuplicateKey) (rest recent : List DuplicateKey)
    → ((k : DuplicateKey) → contains recent k ≡ contains (old ∷ rest) k)
    → contains rest old ≡ false
    → (k : DuplicateKey) → contains (key ∷ remove old recent) k ≡ contains (rest ++ key ∷ []) k
unfolding contains
same_after_evict old key rest recent same fresh k = ground (
  arith,
  same k,
  contains-remove old recent k,
  contains-append rest (key ∷ []) k,
  contains_eq old k rest,
)

length-window : (f : DuplicateFilter) → IsValid f → length (window f) ≡ length f.ring_history
length-window f v = omega (
  arith,
  length-append (drop f.head f.ring_history) (take f.head f.ring_history),
  length-drop f.head f.ring_history,
  length-take f.head f.ring_history,
)

-- What one call does to a valid filter.
abbrev pub Records : DuplicateFilter → DuplicateKey → DuplicateFilter × Bool → Type 0
Records f key (f', answer) =
    IsValid f'
    × (answer ≡ contains (window f) key)
    × (window f' ≡ (if contains (window f) key then window f else slide f.capacity (window f) key))

record_known :
    (f : DuplicateFilter) (key : DuplicateKey)
    → IsValid f
    → contains (window f) key ≡ true
    → Records f key (is_duplicate_and_record f key)
unfolding is_duplicate_and_record
record_known f key v h = rw (v.same key, h) (v, refl, refl)

-- The fields of the filter after a key was let through, from the window that it then has.
admitted :
    (f f' : DuplicateFilter) (key : DuplicateKey)
    → IsValid f'
    → contains (window f) key ≡ false
    → window f' ≡ slide f.capacity (window f) key
    → Records f key (f', false)
admitted f f' key v' h e = rw h (v', refl, e)

-- The window of a ring that is not full yet.
abbrev extended : DuplicateFilter → DuplicateKey → DuplicateFilter
extended f key = record f {
  ring_history = f.ring_history ++ key ∷ [];
  recent_keys = key ∷ f.recent_keys;
}

window-extended :
    (f : DuplicateFilter) (key : DuplicateKey)
    → f.head ≡ 0
    → (window (extended f key) ≡ f.ring_history ++ key ∷ []) × (window f ≡ f.ring_history)
window-extended f key e =
    (rw e (append-nil (f.ring_history ++ key ∷ [])), rw e (append-nil f.ring_history))

extended-IsValid :
    (f : DuplicateFilter) (key : DuplicateKey)
    → IsValid f
    → contains (window f) key ≡ false
    → length f.ring_history < f.capacity
    → f.head ≡ 0
    → IsValid (extended f key)
unfolding contains
extended-IsValid f key v h lt e =
    let (w, w0) = window-extended f key e in
    record {
      cap_pos = v.cap_pos;
      head_in = v.head_in;
      size = omega (arith, length-append f.ring_history (key ∷ []));
      filling = inl e;
      distinct = rw w (Distinct-snoc f.ring_history key (rw w0 at v.distinct) (rw w0 at h));
      same = λ k. rw w (
          ground (
            arith,
            contains-append f.ring_history (key ∷ []) k,
            v.same k,
            ap (λ l. contains l k) w0,
          ));
    }

record_filling :
    (f : DuplicateFilter) (key : DuplicateKey)
    → IsValid f
    → contains (window f) key ≡ false
    → length f.ring_history < f.capacity
    → Records f key (is_duplicate_and_record f key)
unfolding is_duplicate_and_record slide
record_filling f key v h lt =
    let e : f.head ≡ 0 = omega (arith, v.filling) in
    let (w, w0) = window-extended f key e in
    let e0 : length (window f) + 1 - f.capacity ≡ 0 = omega (arith, length-window f v) in
    rw (v.same key, h)
      (rw lt_test
        (extended-IsValid f key v h lt e, refl, rw e0 (w ∙ ap (λ l. l ++ key ∷ []) (sym w0))))
  where
    lt_test : ltb (length f.ring_history) f.capacity ≡ true
    lt_test = ground arith

evicted-IsValid :
    (f : DuplicateFilter) (key old : DuplicateKey) (rest : List DuplicateKey)
    → IsValid f
    → contains (window f) key ≡ false
    → length f.ring_history ≡ f.capacity
    → window f ≡ old ∷ rest
    → window (evict f key (some old)) ≡ rest ++ key ∷ []
    → IsValid (evict f key (some old))
unfolding evict contains
evicted-IsValid f key old rest v h full w w' = record {
  cap_pos = v.cap_pos;
  head_in = grind arith;
  size = omega (arith, length-set f.ring_history f.head key);
  filling = inr (omega (arith, length-set f.ring_history f.head key));
  distinct =
      rw w' (
        Distinct-snoc rest key (rw w at v.distinct).1 (ground (arith, ap (λ l. contains l key) w)));
  same = λ k. rw w' (
      same_after_evict old key rest f.recent_keys (λ j. v.same j ∙ ap (λ l. contains l j) w)
        (rw w at v.distinct).0 k);
}

record_full :
    (f : DuplicateFilter) (key : DuplicateKey)
    → IsValid f
    → contains (window f) key ≡ false
    → length f.ring_history ≡ f.capacity
    → Records f key (is_duplicate_and_record f key)
unfolding is_duplicate_and_record slide
record_full f key v h full =
    let (old, rest, e, w, w') = evict-window f v full key in
    let e1 : length (window f) + 1 - f.capacity ≡ 1 = omega (arith, length-window f v) in
    rw (v.same key, h)
      (rw (lt_test, e)
        (evicted-IsValid f key old rest v h full w w', refl, rw (e1, w') (rw w refl)))
  where
    lt_test : ltb (length f.ring_history) f.capacity ≡ false
    lt_test = ground arith

-- A valid duplicate filter is a sliding window over the keys that it let through: the answer is
-- whether the key is in the window, a known key changes nothing, a new one is appended and pushes
-- out the oldest when the window is full, and the filter stays valid.
pub record_refines :
    (f : DuplicateFilter) (key : DuplicateKey)
    → IsValid f
    → Records f key (is_duplicate_and_record f key)
record_refines f key v = elim (Bool-cases (contains (window f) key)) [
  | inl known ↦ record_known f key v known
  | inr new ↦ elim (dec_lt (length f.ring_history) f.capacity) [
    | yes p ↦ record_filling f key v new p
    | no p ↦ record_full f key v new (omega arith)
  ]
]
