-- ===== src/Writer/MergeByKey.antt =====
-- The merges by key, against a lookup at each key: the streaming merges of symbols, files and types,
-- and the merge of two builders.
use Prim.Native.Nat.{Ordering, compare}
use scry.Prelude.{
  ℕ, zero, suc, ◌+◌, ◌<◌, ◌≤◌, ◌≡◌, refl, sym, arith, List, [], ◌∷◌, All, All-map, Option, none,
  some, length, if◌then◌else◌, ◌==◌,
}
use scry.Writer.Builder.{upsert}
use scry.Writer.Merge.{merge_by_key}

module _ {ℓ} {V : Type ℓ} where
  -- `map.get(&k)`
  unfoldable pub lookup : ℕ → List (ℕ × V) → Option V
  lookup k [] = none
  lookup k ((j, v) ∷ m) = let rest = lookup k m in if j == k then some v else rest

  -- Keys in ascending order, each once.
  abbrev pub IsAscending : List (ℕ × V) → Type 0
  IsAscending [] = Unit {0}
  IsAscending (x ∷ xs) = All (λ y. x.0 < y.0) xs × IsAscending xs

  -- Two values at one key, where there are two.
  abbrev pub join_at : (V → V → V) → Option V → Option V → Option V
  join_at join none o = o
  join_at join (some a) none = some a
  join_at join (some a) (some b) = some (join a b)

  absent : (k : ℕ) (m : List (ℕ × V)) → All (λ y. k < y.0) m → lookup k m ≡ none
  unfolding lookup
  absent k [] h = refl
  absent k (x ∷ m) h = ground (arith, absent k m h.1)

  All-below : (j k : ℕ) (m : List (ℕ × V)) → j < k → All (λ y. k < y.0) m → All (λ y. j < y.0) m
  All-below j k m h k_below = All-map (λ y g. omega arith) m k_below

  pub absent_behind :
      (j k : ℕ) (m : List (ℕ × V)) → All (λ y. k < y.0) m → j ≤ k → lookup j m ≡ none
  absent_behind j k m h le = absent j m (All-map (λ y g. omega arith) m h)

  pub join_none : (join : V → V → V) (o : Option V) → join_at join o none ≡ o
  join_none join none = refl
  join_none join (some a) = refl

  pub lookup-merge_by_key :
      (join : V → V → V) (k n : ℕ) (a b : List (ℕ × V))
      → IsAscending a
      → IsAscending b
      → length a + length b ≤ n
      → lookup k (merge_by_key join n a b) ≡ join_at join (lookup k a) (lookup k b)
  unfolding lookup merge_by_key
  lookup-merge_by_key join k zero [] [] s t h = refl
  lookup-merge_by_key join k zero (x ∷ xs) b s t h = absurd (omega arith)
  lookup-merge_by_key join k zero [] (y ∷ ys) s t h = absurd (omega arith)
  lookup-merge_by_key join k (suc n) [] b s t h = refl
  lookup-merge_by_key join k (suc n) (x ∷ xs) [] s t h = sym (join_none join (lookup k (x ∷ xs)))
  lookup-merge_by_key join k (suc n) (x ∷ xs) (y ∷ ys) s t h = ground (
    arith,
    lookup-merge_by_key join k n xs (y ∷ ys) s.1 t (omega arith),
    lookup-merge_by_key join k n (x ∷ xs) ys s t.1 (omega arith),
    lookup-merge_by_key join k n xs ys s.1 t.1 (omega arith),
    absent_behind k y.0 ys t.0,
    absent_behind k x.0 xs s.0,
    join_none join (lookup k (x ∷ xs)),
  )

  All-merge_by_key :
      (P : ℕ → Type 0) (join : V → V → V) (n : ℕ) (a b : List (ℕ × V))
      → All (λ y. P y.0) a
      → All (λ y. P y.0) b
      → All (λ y. P y.0) (merge_by_key join n a b)
  unfolding merge_by_key
  All-merge_by_key P join zero a b h k = tt
  All-merge_by_key P join (suc n) [] b h k = k
  All-merge_by_key P join (suc n) (x ∷ xs) [] h k = h
  All-merge_by_key P join (suc n) (x ∷ xs) (y ∷ ys) h k =
      elim (compare x.0 y.0)
        as (λ o.
          All (λ y. P y.0)
            (elim o [
              | Ordering.lt ↦ x ∷ merge_by_key join n xs (y ∷ ys)
              | Ordering.gt ↦ y ∷ merge_by_key join n (x ∷ xs) ys
              | Ordering.eq ↦ (x.0, join x.1 y.1) ∷ merge_by_key join n xs ys
            ])) [
              | Ordering.lt ↦ (h.0, All-merge_by_key P join n xs (y ∷ ys) h.1 k)
              | Ordering.gt ↦ (k.0, All-merge_by_key P join n (x ∷ xs) ys h k.1)
              | Ordering.eq ↦ (h.0, All-merge_by_key P join n xs ys h.1 k.1)
            ]

  pub merge_by_key-IsAscending :
      (join : V → V → V) (n : ℕ) (a b : List (ℕ × V))
      → IsAscending a
      → IsAscending b
      → IsAscending (merge_by_key join n a b)
  unfolding merge_by_key
  merge_by_key-IsAscending join zero a b s t = tt
  merge_by_key-IsAscending join (suc n) [] b s t = t
  merge_by_key-IsAscending join (suc n) (x ∷ xs) [] s t = s
  merge_by_key-IsAscending join (suc n) (x ∷ xs) (y ∷ ys) s t =
      go (compare x.0 y.0) refl (merge_by_key-IsAscending join n xs (y ∷ ys) s.1 t)
        (merge_by_key-IsAscending join n (x ∷ xs) ys s t.1)
        (merge_by_key-IsAscending join n xs ys s.1 t.1)
    where
      go :
          (o : Ordering)
          → compare x.0 y.0 ≡ o
          → IsAscending (merge_by_key join n xs (y ∷ ys))
          → IsAscending (merge_by_key join n (x ∷ xs) ys)
          → IsAscending (merge_by_key join n xs ys)
          → IsAscending (elim o [
            | Ordering.lt ↦ x ∷ merge_by_key join n xs (y ∷ ys)
            | Ordering.gt ↦ y ∷ merge_by_key join n (x ∷ xs) ys
            | Ordering.eq ↦ (x.0, join x.1 y.1) ∷ merge_by_key join n xs ys
          ])
      go Ordering.lt e l g q =
          let less : x.0 < y.0 = ground arith in
          (
            All-merge_by_key (λ z. x.0 < z) join n xs (y ∷ ys) s.0
                (less, All-map (λ z h. omega arith) ys t.0),
            l,
          )
      go Ordering.gt e l g q =
          let less : y.0 < x.0 = ground arith in
          (
            All-merge_by_key (λ z. y.0 < z) join n (x ∷ xs) ys
                (less, All-map (λ z h. omega arith) xs s.0) t.0,
            g,
          )
      go Ordering.eq e l g q =
          let same : x.0 ≡ y.0 = ground arith in
          (
            All-merge_by_key (λ z. x.0 < z) join n xs ys s.0 (All-map (λ z h. omega arith) ys t.0),
            q,
          )

  -- A join that does not mind the order makes a merge that does not.
  pub merge_by_key_comm :
      (join : V → V → V) (n : ℕ) (a b : List (ℕ × V))
      → ((v w : V) → join v w ≡ join w v)
      → merge_by_key join n a b ≡ merge_by_key join n b a
  unfolding merge_by_key
  merge_by_key_comm join zero a b c = refl
  merge_by_key_comm join (suc n) [] [] c = refl
  merge_by_key_comm join (suc n) [] (y ∷ ys) c = refl
  merge_by_key_comm join (suc n) (x ∷ xs) [] c = refl
  merge_by_key_comm join (suc n) (x ∷ xs) (y ∷ ys) c = ground (
    arith,
    merge_by_key_comm join n xs (y ∷ ys) c,
    merge_by_key_comm join n (x ∷ xs) ys c,
    merge_by_key_comm join n xs ys c,
    c x.1 y.1,
  )

  pub lookup-upsert :
      (k j : ℕ) (f : V → V) (v : V) (m : List (ℕ × V))
      → lookup k (upsert j f v m)
        ≡ (if j == k then some (elim (lookup k m) [ none ↦ v | some w ↦ f w ]) else lookup k m)
  unfolding lookup upsert
  lookup-upsert k j f v [] = ground arith
  lookup-upsert k j f v (x ∷ m) = ground (arith, lookup-upsert k j f v m)
