-- ===== src/Base/Map.antt =====
-- `BTreeMap<u64, V>` and `HashMap<u64, V>` as lists of entries. A `BTreeMap` is kept in ascending
-- order of its keys by `insert`. The order of a `HashMap` is not specified: what is proved of one
-- holds for every order.
use Prim.Native.Nat.{ℕ, suc, ◌≤◌, ◌<◌}
use mathlib.Core.Path.{◌≡◌, refl, sym, subst₂}
use mathlib.Core.Logic.{inl, inr}
use mathlib.Core.Option.{Option, none, some}
use mathlib.Core.List.{List, [], ◌∷◌}
use native.Mathlib.Omega.{arith}
use real_time_data_platform.Base.Tests.{◌==◌, ltb, if◌then◌else◌, ==_iff, Bool-cases}
use real_time_data_platform.Base.Lists.{length}

module _ {ℓ} {V : Type ℓ} where
  unfoldable pub lookup : ℕ → List (ℕ × V) → Option V
  lookup k [] = none
  lookup k ((j, v) ∷ m) = if j == k then some v else lookup k m

  unfoldable pub insert : ℕ → V → List (ℕ × V) → List (ℕ × V)
  insert k v [] = (k, v) ∷ []
  insert k v ((j, w) ∷ m) =
      let rest = insert k v m in
      if ltb k j then (k, v) ∷ (j, w) ∷ m else if j == k then (k, v) ∷ m else (j, w) ∷ rest

  unfoldable pub remove : ℕ → List (ℕ × V) → List (ℕ × V)
  remove k [] = []
  remove k ((j, v) ∷ m) = if j == k then remove k m else (j, v) ∷ remove k m

  -- A write through `get_mut`.
  unfoldable pub update : ℕ → V → List (ℕ × V) → List (ℕ × V)
  update k v [] = []
  update k v ((j, w) ∷ m) = if j == k then (j, v) ∷ m else (j, w) ∷ update k v m

  unfoldable pub values : List (ℕ × V) → List V
  values [] = []
  values ((j, v) ∷ m) = v ∷ values m

  pub lookup-insert :
      (j k : ℕ) (v : V) (m : List (ℕ × V))
      → lookup j (insert k v m) ≡ (if k == j then some v else lookup j m)
  unfolding lookup insert
  lookup-insert j k v [] = refl
  lookup-insert j k v ((i, w) ∷ m) = ground (arith, lookup-insert j k v m)

  pub lookup-remove :
      (j k : ℕ) (m : List (ℕ × V)) → lookup j (remove k m) ≡ (if k == j then none else lookup j m)
  unfolding lookup remove
  lookup-remove j k [] = ground arith
  lookup-remove j k ((i, w) ∷ m) = ground (arith, lookup-remove j k m)

  pub length-remove-le : (k : ℕ) (m : List (ℕ × V)) → length (remove k m) ≤ length m
  unfolding remove
  length-remove-le k [] = omega arith
  length-remove-le k ((i, w) ∷ m) = ground (arith, length-remove-le k m)

  pub length-remove-lt :
      (k : ℕ) (m : List (ℕ × V)) (v : V) → lookup k m ≡ some v → length (remove k m) < length m
  unfolding lookup remove
  length-remove-lt k [] v h = cc
  length-remove-lt k ((i, w) ∷ m) v h = ground (arith, length-remove-le k m, length-remove-lt k m v)

  pub length-update : (k : ℕ) (v : V) (m : List (ℕ × V)) → length (update k v m) ≡ length m
  unfolding update
  length-update k v [] = refl
  length-update k v ((i, w) ∷ m) = ground (arith, length-update k v m)

  -- Every entry satisfies a property of its key and value.
  abbrev pub Entries {κ} : (ℕ → V → Type κ) → List (ℕ × V) → Type κ
  Entries P [] = Unit
  Entries P ((j, v) ∷ m) = P j v × Entries P m

  pub insert-Entries {κ} :
      (P : ℕ → V → Type κ) (k : ℕ) (v : V) (m : List (ℕ × V))
      → P k v
      → Entries P m
      → Entries P (insert k v m)
  unfolding insert
  insert-Entries P k v [] p ps = (p, tt)
  insert-Entries P k v ((i, w) ∷ m) p (q, qs) = ground (arith, insert-Entries P k v m p qs)

  pub remove-Entries {κ} :
      (P : ℕ → V → Type κ) (k : ℕ) (m : List (ℕ × V)) → Entries P m → Entries P (remove k m)
  unfolding remove
  remove-Entries P k [] ps = tt
  remove-Entries P k ((i, w) ∷ m) (q, qs) = ground (arith, remove-Entries P k m qs)

  pub update-Entries {κ} :
      (P : ℕ → V → Type κ) (k : ℕ) (v : V) (m : List (ℕ × V))
      → P k v
      → Entries P m
      → Entries P (update k v m)
  unfolding update
  update-Entries P k v [] p ps = tt
  update-Entries P k v ((i, w) ∷ m) p (q, qs) = elim (Bool-cases (i == k)) [
    | inl e ↦ rw e (rw (sym ((==_iff i k).0 e)) at p, qs)
    | inr e ↦ rw e (q, update-Entries P k v m p qs)
  ]

  pub lookup-Entries {κ} :
      (P : ℕ → V → Type κ) (k : ℕ) (v : V) (m : List (ℕ × V))
      → Entries P m
      → lookup k m ≡ some v
      → P k v
  unfolding lookup
  lookup-Entries P k v [] ps h = cc
  lookup-Entries P k v ((i, w) ∷ m) (q, qs) h = elim (Bool-cases (i == k)) [
    | inl e ↦
        let key : i ≡ k = (==_iff i k).0 e in
        let value : w ≡ v = ground arith in subst₂ P key value q
    | inr e ↦ lookup-Entries P k v m qs (rw e at h)
  ]

  -- The keys ascend strictly, from `lo` on.
  abbrev pub AscendingFrom : ℕ → List (ℕ × V) → Type 0
  AscendingFrom lo [] = Unit
  AscendingFrom lo ((j, v) ∷ m) = (lo ≤ j) × AscendingFrom (suc j) m

  pub insert-AscendingFrom :
      (lo k : ℕ) (v : V) (m : List (ℕ × V))
      → lo ≤ k
      → AscendingFrom lo m
      → AscendingFrom lo (insert k v m)
  unfolding insert
  insert-AscendingFrom lo k v [] h a = (h, tt)
  insert-AscendingFrom lo k v ((j, w) ∷ m) h (a, b) =
      ground (arith, insert-AscendingFrom (suc j) k v m)

  pub AscendingFrom-weaken :
      (lo lo' : ℕ) (m : List (ℕ × V)) → lo' ≤ lo → AscendingFrom lo m → AscendingFrom lo' m
  AscendingFrom-weaken lo lo' [] h a = tt
  AscendingFrom-weaken lo lo' ((j, w) ∷ m) h (a, b) = (omega arith, b)

  pub remove-AscendingFrom :
      (lo k : ℕ) (m : List (ℕ × V)) → AscendingFrom lo m → AscendingFrom lo (remove k m)
  unfolding remove
  remove-AscendingFrom lo k [] a = tt
  remove-AscendingFrom lo k ((j, w) ∷ m) (a, b) = elim (Bool-cases (j == k)) [
    | inl e ↦ rw e (
        AscendingFrom-weaken (suc j) lo (remove k m) (omega arith)
          (remove-AscendingFrom (suc j) k m b))
    | inr e ↦ rw e (a, remove-AscendingFrom (suc j) k m b)
  ]
