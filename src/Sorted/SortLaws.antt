-- ===== src/Sorted/SortLaws.antt =====
-- Sorting and removing repeats: the rows are the same, in strictly ascending order.
use Prim.Native.Nat.{Ordering}
use scry.Prelude.{◌≡◌, ◌≢◌, refl, arith, List, [], ◌∷◌, All, All-map, ◌||◌, ◌⊎◌, inl, inr, ap, ◌∙◌}
use scry.Bytes.{cmp}
use scry.Sorted.{
  Row, Le, Lt, IsSorted, IsStrict, insert_row, sort_unstable, dedup_behind, dedup, is_eq, mem_row,
}
use scry.Sorted.Compare.{eq_of_cmp, cmp_flip, le_trans, lt_of_lt_le}

pub cmp_cases :
    (x y : Row) → (cmp x y ≡ Ordering.lt) ⊎ (cmp x y ≡ Ordering.eq) ⊎ (cmp x y ≡ Ordering.gt)
cmp_cases x y = go (cmp x y) refl
  where
    go :
        (o : Ordering)
        → cmp x y ≡ o
        → (cmp x y ≡ Ordering.lt) ⊎ (cmp x y ≡ Ordering.eq) ⊎ (cmp x y ≡ Ordering.gt)
    go Ordering.lt e = inl e
    go Ordering.eq e = inr (inl e)
    go Ordering.gt e = inr (inr e)

All-insert_row {κ} :
    (P : Row → Type κ) (x : Row) (ys : List Row) → P x → All P ys → All P (insert_row x ys)
unfolding insert_row
All-insert_row P x [] h hs = (h, tt)
All-insert_row P x (y ∷ ys) h hs = elim (cmp_cases y x) [
  | inl e ↦ rw (e, insert_row) (hs.0, All-insert_row P x ys h hs.1)
  | inr (inl e) ↦ rw (e, insert_row) (h, hs)
  | inr (inr e) ↦ rw (e, insert_row) (h, hs)
]

Le_of_cmp : (x y : Row) → cmp y x ≢ Ordering.lt → Le x y
Le_of_cmp x y h = λ e. ground (arith, cmp_flip x y)

insert_row-IsSorted : (x : Row) (ys : List Row) → IsSorted ys → IsSorted (insert_row x ys)
unfolding insert_row
insert_row-IsSorted x [] s = (tt, tt)
insert_row-IsSorted x (y ∷ ys) s = elim (cmp_cases y x) [
  | inl e ↦
      rw (e, insert_row) (All-insert_row (Le y) x ys (λ g. cc) s.0, insert_row-IsSorted x ys s.1)
  | inr (inl e) ↦ rw (e, insert_row) (above (Le_of_cmp x y (λ g. cc)), s)
  | inr (inr e) ↦ rw (e, insert_row) (above (Le_of_cmp x y (λ g. cc)), s)
]
  where
    above : Le x y → All (Le x) (y ∷ ys)
    above le = (le, All-map (λ z h. le_trans x y z le h) ys s.0)

pub sort_unstable-IsSorted : (xs : List Row) → IsSorted (sort_unstable xs)
unfolding sort_unstable
sort_unstable-IsSorted [] = tt
sort_unstable-IsSorted (x ∷ xs) =
    insert_row-IsSorted x (sort_unstable xs) (sort_unstable-IsSorted xs)

mem_row-insert_row :
    (z x : Row) (ys : List Row) → mem_row z (insert_row x ys) ≡ (is_eq (cmp z x) || mem_row z ys)
unfolding mem_row insert_row
mem_row-insert_row z x [] = refl
mem_row-insert_row z x (y ∷ ys) = ground (arith, mem_row-insert_row z x ys)

pub mem_row-sort_unstable : (z : Row) (xs : List Row) → mem_row z (sort_unstable xs) ≡ mem_row z xs
unfolding mem_row sort_unstable
mem_row-sort_unstable z [] = refl
mem_row-sort_unstable z (x ∷ xs) =
    ground (arith, mem_row-insert_row z x (sort_unstable xs), mem_row-sort_unstable z xs)

-- Behind `x`, a repeat of it changes nothing.
mem_row-dedup_behind :
    (z x : Row) (ys : List Row)
    → (is_eq (cmp z x) || mem_row z (dedup_behind x ys)) ≡ (is_eq (cmp z x) || mem_row z ys)
unfolding mem_row dedup_behind
mem_row-dedup_behind z x [] = refl
mem_row-dedup_behind z x (y ∷ ys) = elim (cmp_cases x y) [
  | inl e ↦ ground (arith, mem_row-dedup_behind z y ys)
  | inr (inl e) ↦ ground (arith, mem_row-dedup_behind z x ys, ap (cmp z) (eq_of_cmp x y e))
  | inr (inr e) ↦ ground (arith, mem_row-dedup_behind z y ys)
]

mem_row-dedup : (z : Row) (xs : List Row) → mem_row z (dedup xs) ≡ mem_row z xs
unfolding mem_row dedup
mem_row-dedup z [] = refl
mem_row-dedup z (x ∷ xs) = mem_row-dedup_behind z x xs

dedup_behind-IsStrict :
    (x : Row) (ys : List Row)
    → IsSorted (x ∷ ys)
    → All (Lt x) (dedup_behind x ys) × IsStrict (dedup_behind x ys)
unfolding dedup_behind
dedup_behind-IsStrict x [] s = (tt, tt)
dedup_behind-IsStrict x (y ∷ ys) s = elim (cmp_cases x y) [
  | inr (inl e) ↦ rw (e, dedup_behind) (dedup_behind-IsStrict x ys (s.0.1, s.1.1))
  | inl e ↦
      let (above, rest) = dedup_behind-IsStrict y ys s.1 in
      rw (e, dedup_behind)
        ((e, All-map (λ z h. lt_of_lt_le x y z e (λ g. cc)) _ above), (above, rest))
  | inr (inr e) ↦ absurd (s.0.0 e)
]

pub dedup-IsStrict : (xs : List Row) → IsSorted xs → IsStrict (dedup xs)
unfolding dedup
dedup-IsStrict [] s = tt
dedup-IsStrict (x ∷ xs) s = dedup_behind-IsStrict x xs s

pub IsStrict→IsSorted : (xs : List Row) → IsStrict xs → IsSorted xs
IsStrict→IsSorted [] s = tt
IsStrict→IsSorted (x ∷ xs) s = (All-map (λ y h e. cc) xs s.0, IsStrict→IsSorted xs s.1)

-- `v.sort_unstable(); v.dedup()`
pub sort_dedup-IsStrict : (xs : List Row) → IsStrict (dedup (sort_unstable xs))
sort_dedup-IsStrict xs = dedup-IsStrict (sort_unstable xs) (sort_unstable-IsSorted xs)

pub mem_row-sort_dedup :
    (z : Row) (xs : List Row) → mem_row z (dedup (sort_unstable xs)) ≡ mem_row z xs
mem_row-sort_dedup z xs = mem_row-dedup z (sort_unstable xs) ∙ mem_row-sort_unstable z xs

-- What holds of every row holds of the sorted ones.
pub All-sort_unstable {κ} : (P : Row → Type κ) (xs : List Row) → All P xs → All P (sort_unstable xs)
unfolding sort_unstable
All-sort_unstable P [] h = tt
All-sort_unstable P (x ∷ xs) h =
    All-insert_row P x (sort_unstable xs) h.0 (All-sort_unstable P xs h.1)

All-dedup_behind {κ} :
    (P : Row → Type κ) (x : Row) (ys : List Row) → All P ys → All P (dedup_behind x ys)
unfolding dedup_behind
All-dedup_behind P x [] h = tt
All-dedup_behind P x (y ∷ ys) h = elim (cmp_cases x y) [
  | inl e ↦ rw (e, dedup_behind) (h.0, All-dedup_behind P y ys h.1)
  | inr (inl e) ↦ rw (e, dedup_behind) (All-dedup_behind P x ys h.1)
  | inr (inr e) ↦ rw (e, dedup_behind) (h.0, All-dedup_behind P y ys h.1)
]

pub All-sort_dedup {κ} :
    (P : Row → Type κ) (xs : List Row) → All P xs → All P (dedup (sort_unstable xs))
unfolding dedup
All-sort_dedup P xs h = go (sort_unstable xs) (All-sort_unstable P xs h)
  where
    go : (ys : List Row) → All P ys → All P (dedup ys)
    go [] k = tt
    go (y ∷ ys) k = (k.0, All-dedup_behind P y ys k.1)
