-- ===== src/Sorted/Prefix.antt =====
-- Rows that a test accepts, then rows that it does not.
use scry.Prelude.{
  ℕ, zero, suc, ◌-◌, ◌≤◌, ◌≡◌, refl, arith, Bool, true, false, List, [], ◌∷◌, some, ltb, length,
  get_elem?, All, take, drop, select, not, ◌&&◌, All-map, Bool-cases, inl, inr,
}
use native.Mathlib.Nat.{suc-sub-suc, sub-zero}
use scry.Sorted.{Row, Le, Lt, IsSorted, count_while, row_lt}
use scry.Sorted.Compare.{lt_of_le_lt, lt_of_lt_le}

and_false : (a b : Bool) → a ≡ false → (a && not b) ≡ false
and_false a b e = ground arith

module _ {ℓ} {A : Type ℓ} where
  -- Behind a row that the test refuses it refuses all.
  abbrev pub IsSplit : (A → Bool) → List A → Type ℓ
  IsSplit p [] = Unit {ℓ}
  IsSplit p (x ∷ xs) = (p x ≡ false → All (λ y. p y ≡ false) xs) × IsSplit p xs

  pub count_while-le : (p : A → Bool) (xs : List A) → count_while p xs ≤ length xs
  unfolding count_while
  count_while-le p [] = omega arith
  count_while-le p (x ∷ xs) = ground (arith, count_while-le p xs)

  all_at :
      (P : A → Bool) (xs : List A) (i : ℕ) {x : A}
      → All (λ y. P y ≡ false) xs
      → get_elem? xs i ≡ some x
      → P x ≡ false
  all_at P [] i h e = cc
  all_at P (y ∷ ys) zero h e = cc
  all_at P (y ∷ ys) (suc i) h e = all_at P ys i h.1 e

  -- The test at a row is a comparison of its number with the count.
  pub count_while-get_elem? :
      (p : A → Bool) (xs : List A) (i : ℕ) {x : A}
      → IsSplit p xs
      → get_elem? xs i ≡ some x
      → p x ≡ ltb i (count_while p xs)
  unfolding count_while
  count_while-get_elem? p [] i h e = cc
  count_while-get_elem? p (y ∷ ys) zero h e = ground arith
  count_while-get_elem? p (y ∷ ys) (suc i) {x} h e =
      ground
        (arith, count_while-get_elem? p ys i h.1 e, λ (n : p y ≡ false). all_at p ys i (h.0 n) e)

  pub count_while_mono :
      (p q : A → Bool) (xs : List A)
      → All (λ x. p x ≡ true → q x ≡ true) xs
      → count_while p xs ≤ count_while q xs
  unfolding count_while
  count_while_mono p q [] h = omega arith
  count_while_mono p q (x ∷ xs) h = ground (arith, count_while_mono p q xs h.1)

  pub count_while-none :
      (p : A → Bool) (xs : List A) → All (λ y. p y ≡ false) xs → count_while p xs ≡ 0
  unfolding count_while
  count_while-none p [] h = refl
  count_while-none p (x ∷ xs) h = ground arith

  pub select_none : (p : A → Bool) (xs : List A) → All (λ y. p y ≡ false) xs → select p xs ≡ []
  select_none p [] h = refl
  select_none p (x ∷ xs) h = ground (arith, select_none p xs h.1)

  -- The run between two counts holds the rows that the second test accepts and the first does not.
  pub take-drop-count_while :
      (p q : A → Bool) (xs : List A)
      → IsSplit p xs
      → IsSplit q xs
      → All (λ x. p x ≡ true → q x ≡ true) xs
      → take (count_while q xs - count_while p xs) (drop (count_while p xs) xs)
        ≡ select (λ x. q x && not (p x)) xs
  unfolding count_while
  take-drop-count_while p q [] hp hq h = refl
  take-drop-count_while p q (x ∷ xs) hp hq h = ground (
    arith,
    take-drop-count_while p q xs hp.1 hq.1 h.1,
    λ (n : p x ≡ false). count_while-none p xs (hp.0 n),
    λ (n : q x ≡ false).
        select_none (λ y. q y && not (p y)) xs
          (All-map (λ y (e : q y ≡ false). and_false (q y) (p y) e) xs (hq.0 n)),
    suc-sub-suc (count_while q xs) (count_while p xs),
    sub-zero (count_while q xs),
    sub-zero (suc (count_while q xs)),
  )

pub row_lt_above : (key x y : Row) → row_lt x key ≡ false → Le x y → row_lt y key ≡ false
row_lt_above key x y e le = elim (Bool-cases (row_lt y key)) [
  | inl below ↦ ground (arith, lt_of_le_lt x y key le)
  | inr above ↦ above
]

-- What is below a key is below every key that is not less.
pub row_lt_mono : (lo hi x : Row) → Le lo hi → row_lt x lo ≡ true → row_lt x hi ≡ true
row_lt_mono lo hi x le e = ground (arith, lt_of_lt_le x lo hi (is_lt→Lt x lo e) le)
  where
    is_lt→Lt : (x y : Row) → row_lt x y ≡ true → Lt x y
    is_lt→Lt x y e = ground arith

-- Rows below a key come first in a sorted list.
pub row_lt-IsSplit : (key : Row) (xs : List Row) → IsSorted xs → IsSplit (λ x. row_lt x key) xs
row_lt-IsSplit key [] s = tt
row_lt-IsSplit key (x ∷ xs) s =
    (λ e. All-map (λ y le. row_lt_above key x y e le) xs s.0, row_lt-IsSplit key xs s.1)
