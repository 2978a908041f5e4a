-- ===== src/Sorted/Unique.antt =====
-- A strictly ascending list of rows is determined by which rows are in it.
use scry.Prelude.{◌≡◌, refl, sym, arith, true, false, List, [], ◌∷◌, All, ap, inl, inr}
use scry.Sorted.{Row, Lt, IsStrict, mem_row}
use scry.Sorted.Compare.{cmp_refl, eq_of_cmp, lt_trans, cmp_flip}
use scry.Sorted.SortLaws.{cmp_cases}

-- A row below all others is not among them.
not_mem : (x : Row) (ys : List Row) → All (Lt x) ys → mem_row x ys ≡ false
unfolding mem_row
not_mem x [] h = refl
not_mem x (y ∷ ys) h = ground (arith, not_mem x ys h.1)

mem_head : (x : Row) (xs : List Row) → mem_row x (x ∷ xs) ≡ true
unfolding mem_row
mem_head x xs = ground (arith, cmp_refl x)

All-Lt : (x y : Row) (ys : List Row) → Lt x y → All (Lt y) ys → All (Lt x) ys
All-Lt x y [] h k = tt
All-Lt x y (z ∷ zs) h k = (lt_trans x y z h k.0, All-Lt x y zs h k.1)

mem_nil : (x : Row) (xs : List Row) → mem_row x [] ≡ mem_row x (x ∷ xs) → ⊥
unfolding mem_row
mem_nil x xs e = ground (arith, cmp_refl x)

below :
    (x y : Row) (xs ys : List Row)
    → Lt x y
    → All (Lt y) ys
    → mem_row x (x ∷ xs) ≡ mem_row x (y ∷ ys)
    → ⊥
below x y xs ys h k e = ground (arith, mem_head x xs, not_mem x (y ∷ ys) (h, All-Lt x y ys h k))

tail_mem :
    (z x : Row) (xs ys : List Row)
    → All (Lt x) xs
    → All (Lt x) ys
    → mem_row z (x ∷ xs) ≡ mem_row z (x ∷ ys)
    → mem_row z xs ≡ mem_row z ys
unfolding mem_row
tail_mem z x xs ys h k e = ground (arith, eq_of_cmp z x, not_mem x xs h, not_mem x ys k)

pub IsStrict-unique :
    (xs ys : List Row)
    → IsStrict xs
    → IsStrict ys
    → ((z : Row) → mem_row z xs ≡ mem_row z ys)
    → xs ≡ ys
IsStrict-unique [] [] s t e = refl
IsStrict-unique [] (y ∷ ys) s t e = absurd (mem_nil y ys (e y))
IsStrict-unique (x ∷ xs) [] s t e = absurd (mem_nil x xs (sym (e x)))
IsStrict-unique (x ∷ xs) (y ∷ ys) s t e = elim (cmp_cases x y) [
  | inl c ↦ absurd (below x y xs ys c t.0 (e x))
  | inr (inr c) ↦ absurd (below y x ys xs (ground (arith, cmp_flip x y)) s.0 (sym (e y)))
  | inr (inl c) ↦
      let same : y ≡ x = sym (eq_of_cmp x y c) in
      let t' : IsStrict (x ∷ ys) = rw same at t in
      rw same (
        ap (λ l. x ∷ l)
          (IsStrict-unique xs ys s.1 t.1 (λ z. tail_mem z x xs ys s.0 t'.0 (rw same at (e z)))))
]
