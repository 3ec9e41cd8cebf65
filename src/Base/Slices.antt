-- ===== src/Base/Slices.antt =====
-- Byte slices: `&xs[a..b]`, and a write of some bytes at an offset of a buffer.
use Prim.Native.Nat.{ℕ, zero, suc, ◌+◌, ◌-◌, ◌≤◌}
use mathlib.Core.Path.{◌≡◌, refl, sym, ap, ◌∙◌}
use mathlib.Core.Option.{some}
use mathlib.Core.List.{List, [], ◌∷◌, ◌++◌, append-nil, append_assoc}
use native.Mathlib.Omega.{arith}
use real_time_data_platform.Base.Lists.{get_elem?, length, take, drop, length-append}

module _ {ℓ} {A : Type ℓ} where
  -- `&xs[a..b]`
  abbrev pub slice : ℕ → ℕ → List A → List A
  slice a b xs = take (b - a) (drop a xs)

  -- `xs[off..off + bs.len()].copy_from_slice(bs)`
  abbrev pub write_at : ℕ → List A → List A → List A
  write_at off bs xs = take off xs ++ (bs ++ drop (off + length bs) xs)

  abbrev pub concat : List (List A) → List A
  concat [] = []
  concat (c ∷ cs) = c ++ concat cs

  abbrev pub total : List (List A) → ℕ
  total [] = 0
  total (c ∷ cs) = length c + total cs

  pub take-append : (xs ys : List A) (n : ℕ) → n ≡ length xs → take n (xs ++ ys) ≡ xs
  take-append [] ys zero h = refl
  take-append [] ys (suc n) h = absurd (omega arith)
  take-append (x ∷ xs) ys zero h = absurd (omega arith)
  take-append (x ∷ xs) ys (suc n) h = ap (◌∷◌ x) (take-append xs ys n (omega arith))

  pub drop-append : (xs ys : List A) (n : ℕ) → n ≡ length xs → drop n (xs ++ ys) ≡ ys
  drop-append [] ys zero h = refl
  drop-append [] ys (suc n) h = absurd (omega arith)
  drop-append (x ∷ xs) ys zero h = absurd (omega arith)
  drop-append (x ∷ xs) ys (suc n) h = drop-append xs ys n (omega arith)

  pub drop-add-append :
      (xs ys : List A) (n k : ℕ) → n ≡ length xs + k → drop n (xs ++ ys) ≡ drop k ys
  drop-add-append [] ys n k h = ap (λ m. drop m ys) (omega arith)
  drop-add-append (x ∷ xs) ys zero k h = absurd (omega arith)
  drop-add-append (x ∷ xs) ys (suc n) k h = drop-add-append xs ys n k (omega arith)

  pub drop-drop : (n k m : ℕ) (xs : List A) → m ≡ n + k → drop k (drop n xs) ≡ drop m xs
  drop-drop zero k m xs h = ap (λ j. drop j xs) (omega arith)
  drop-drop (suc n) zero zero [] h = refl
  drop-drop (suc n) (suc k) zero [] h = refl
  drop-drop (suc n) zero (suc m) [] h = refl
  drop-drop (suc n) (suc k) (suc m) [] h = refl
  drop-drop (suc n) k zero (x ∷ xs) h = absurd (omega arith)
  drop-drop (suc n) k (suc m) (x ∷ xs) h = drop-drop n k m xs (omega arith)

  pub take_all : (n : ℕ) (xs : List A) → length xs ≤ n → take n xs ≡ xs
  take_all zero [] h = refl
  take_all zero (x ∷ xs) h = absurd (omega arith)
  take_all (suc n) [] h = refl
  take_all (suc n) (x ∷ xs) h = ap (◌∷◌ x) (take_all n xs (omega arith))

  pub drop_all : (n : ℕ) (xs : List A) → length xs ≤ n → drop n xs ≡ []
  drop_all zero [] h = refl
  drop_all zero (x ∷ xs) h = absurd (omega arith)
  drop_all (suc n) [] h = refl
  drop_all (suc n) (x ∷ xs) h = drop_all n xs (omega arith)

  pub take-append-drop : (n : ℕ) (xs : List A) → take n xs ++ drop n xs ≡ xs
  take-append-drop zero xs = refl
  take-append-drop (suc n) [] = refl
  take-append-drop (suc n) (x ∷ xs) = ap (◌∷◌ x) (take-append-drop n xs)

  pub length-concat : (cs : List (List A)) → length (concat cs) ≡ total cs
  length-concat [] = refl
  length-concat (c ∷ cs) = omega (arith, length-append c (concat cs), length-concat cs)

  concat-append : (cs ds : List (List A)) → concat (cs ++ ds) ≡ concat cs ++ concat ds
  concat-append [] ds = refl
  concat-append (c ∷ cs) ds =
      ap (◌++◌ c) (concat-append cs ds) ∙ sym (append_assoc c (concat cs) (concat ds))

  -- The chunk between `before` and `after` is read back from its place.
  pub slice-concat :
      (before : List (List A)) (c : List A) (after : List (List A)) (tail : List A) (a b : ℕ)
      → a ≡ total before
      → b ≡ a + length c
      → slice a b (concat (before ++ (c ∷ after)) ++ tail) ≡ c
  slice-concat before c after tail a b ha hb =
      rw
        (
          concat-append before (c ∷ after),
          append_assoc (concat before) (c ++ concat after) tail,
          drop-append (concat before) ((c ++ concat after) ++ tail) a
              (omega (arith, length-concat before)),
          append_assoc c (concat after) tail,
        )
        (take-append c (concat after ++ tail) (b - a) (omega arith))

  -- Writing the next chunk behind those already written.
  pub write_at-concat :
      (cs : List (List A)) (bs dst : List A) (k m : ℕ)
      → k ≡ total cs
      → m ≡ k + length bs
      → write_at k bs (concat cs ++ drop k dst) ≡ concat (cs ++ (bs ∷ [])) ++ drop m dst
  write_at-concat cs bs dst k m hk hm =
      rw
        (
          take-append (concat cs) (drop k dst) k (omega (arith, length-concat cs)),
          drop-add-append (concat cs) (drop k dst) (k + length bs) (length bs)
              (omega (arith, length-concat cs)),
          drop-drop k (length bs) m dst hm,
          concat-append cs (bs ∷ []),
          append-nil bs,
        )
        (sym (append_assoc (concat cs) bs (drop m dst)))

  -- The same, behind any number of earlier writes.
  pub write_next :
      (cs : List (List A)) (bs dst buf : List A) (k m : ℕ)
      → k ≡ total cs
      → m ≡ k + length bs
      → buf ≡ concat cs ++ drop k dst
      → write_at k bs buf ≡ concat (cs ++ (bs ∷ [])) ++ drop m dst
  write_next cs bs dst buf k m hk hm e = rw e (write_at-concat cs bs dst k m hk hm)

  -- A chunk replaced by another of its length.
  pub write_at_chunk :
      (before : List (List A)) (c bs : List A) (after : List (List A)) (tail : List A) (k : ℕ)
      → k ≡ total before
      → length bs ≡ length c
      → write_at k bs (concat (before ++ (c ∷ after)) ++ tail)
        ≡ concat (before ++ (bs ∷ after)) ++ tail
  write_at_chunk before c bs after tail k hk hb = rw (
    concat-append before (c ∷ after),
    concat-append before (bs ∷ after),
    append_assoc (concat before) (c ++ concat after) tail,
    append_assoc (concat before) (bs ++ concat after) tail,
    append_assoc c (concat after) tail,
    append_assoc bs (concat after) tail,
    take-append (concat before) (c ++ (concat after ++ tail)) k
        (omega (arith, length-concat before)),
    drop-add-append (concat before) (c ++ (concat after ++ tail)) (k + length bs) (length c)
        (omega (arith, length-concat before)),
    drop-append c (concat after ++ tail) (length c) refl,
  )

  get_elem?-append :
      (xs ys : List A) (y : A) (i : ℕ) → i ≡ length xs → get_elem? (xs ++ (y ∷ ys)) i ≡ some y
  get_elem?-append [] ys y zero h = refl
  get_elem?-append [] ys y (suc i) h = absurd (omega arith)
  get_elem?-append (x ∷ xs) ys y zero h = absurd (omega arith)
  get_elem?-append (x ∷ xs) ys y (suc i) h = get_elem?-append xs ys y i (omega arith)

  pub get_elem?-concat :
      (before : List (List A)) (b : A) (after : List (List A)) (tail : List A) (i : ℕ)
      → i ≡ total before
      → get_elem? (concat (before ++ ((b ∷ []) ∷ after)) ++ tail) i ≡ some b
  get_elem?-concat before b after tail i h =
      rw
        (
          concat-append before ((b ∷ []) ∷ after),
          append_assoc (concat before) (b ∷ concat after) tail,
        )
        (get_elem?-append (concat before) (concat after ++ tail) b i
          (omega (arith, length-concat before)))
