-- ===== src/Writer/MergeLaws.antt =====
-- Merging ascending streams is sorting and deduplicating their concatenation.
use scry.Prelude.{
  ℕ, zero, suc, ◌+◌, ◌≤◌, ◌≡◌, refl, sym, arith, Bool, false, List, [], ◌∷◌, ◌++◌, ◌||◌, All,
  All-map, Option, none, some, length, if◌then◌else◌, ap, ◌∙◌, inl, inr,
}
use mathlib.Core.List.{flatten, append-nil, append_assoc}
use scry.Bytes.{cmp}
use scry.Sorted.{Row, Le, Lt, IsSorted, IsStrict, mem_row, is_eq, sort_unstable, dedup}
use scry.Sorted.Compare.{cmp_refl, eq_of_cmp, cmp_flip, le_trans, lt_of_le_lt}
use scry.Sorted.SortLaws.{cmp_cases, sort_dedup-IsStrict, mem_row-sort_dedup, IsStrict→IsSorted}
use scry.Sorted.Unique.{IsStrict-unique}
use scry.Writer.Builder.{sort_dedup}
use scry.Writer.Merge.{is_last, merge_loop, merge_sorted_dedup, fold_from, fold_sources}

-- The last row that was yielded is not above what follows.
abbrev Above : Option Row → List Row → Type 0
Above none xs = Unit {0}
Above (some l) xs = All (Le l) xs

abbrev StrictlyAbove : Option Row → List Row → Type 0
StrictlyAbove none xs = Unit {0}
StrictlyAbove (some l) xs = All (Lt l) xs

head-Above : (last : Option Row) (x : Row) (xs : List Row) → Above last (x ∷ xs) → Above last xs
head-Above none x xs h = tt
head-Above (some l) x xs h = h.1

-- One step: `x` is yielded unless it repeats the last row.
step :
    (last : Option Row) (x : Row) (rest : List Row)
    → Above last (x ∷ [])
    → All (Lt x) rest
    → IsStrict rest
    → StrictlyAbove last (if is_last last x then rest else x ∷ rest)
      × IsStrict (if is_last last x then rest else x ∷ rest)
step none x rest h k s = (tt, (k, s))
step (some l) x rest h k s = elim (cmp_cases l x) [
  | inl e ↦ rw e ((e, All-map (λ z g. lt_of_le_lt l x z h.0 g) rest k), (k, s))
  | inr (inl e) ↦ rw e (All-map (λ z g. lt_of_le_lt l x z h.0 g) rest k, s)
  | inr (inr e) ↦ absurd (h.0 e)
]

Le_refl : (x : Row) → Le x x
Le_refl x e = ground (arith, cmp_refl x)

Above_cons : (x y : Row) (ys : List Row) → Le x y → All (Le y) ys → All (Le x) (y ∷ ys)
Above_cons x y ys h k = (h, All-map (λ z g. le_trans x y z h g) ys k)

one-Above :
    (last : Option Row) (x : Row) (xs : List Row) → Above last (x ∷ xs) → Above last (x ∷ [])
one-Above none x xs h = tt
one-Above (some l) x xs h = (h.0, tt)

merge_loop-IsStrict :
    (n : ℕ) (last : Option Row) (a b : List Row)
    → IsSorted a
    → IsSorted b
    → Above last a
    → Above last b
    → StrictlyAbove last (merge_loop n last a b) × IsStrict (merge_loop n last a b)
unfolding merge_loop
merge_loop-IsStrict zero none a b s t h k = (tt, tt)
merge_loop-IsStrict zero (some l) a b s t h k = (tt, tt)
merge_loop-IsStrict (suc n) none [] [] s t h k = (tt, tt)
merge_loop-IsStrict (suc n) (some l) [] [] s t h k = (tt, tt)
merge_loop-IsStrict (suc n) last (x ∷ xs) [] s t h k =
    let (above, strict) = merge_loop-IsStrict n (some x) xs [] s.1 tt s.0 tt in
    step last x (merge_loop n (some x) xs []) (one-Above last x xs h) above strict
merge_loop-IsStrict (suc n) last [] (y ∷ ys) s t h k =
    let (above, strict) = merge_loop-IsStrict n (some y) [] ys tt t.1 tt t.0 in
    step last y (merge_loop n (some y) [] ys) (one-Above last y ys k) above strict
merge_loop-IsStrict (suc n) last (x ∷ xs) (y ∷ ys) s t h k = elim (cmp_cases x y) [
  | inl e ↦
      let (above, strict) =
        merge_loop-IsStrict n (some x) xs (y ∷ ys) s.1 t s.0 (Above_cons x y ys (λ g. cc) t.0) in
      rw (merge_loop, e)
        (step last x (merge_loop n (some x) xs (y ∷ ys)) (one-Above last x xs h) above strict)
  | inr (inl e) ↦
      let (above, strict) =
        merge_loop-IsStrict n (some x) xs ys s.1 t.1 s.0 (Above_cons x y ys (λ g. cc) t.0).1 in
      rw (merge_loop, e)
        (step last x (merge_loop n (some x) xs ys) (one-Above last x xs h) above strict)
  | inr (inr e) ↦
      let (above, strict) =
        merge_loop-IsStrict n (some y) (x ∷ xs) ys s t.1
          (Above_cons y x xs (λ g. ground (arith, cmp_flip x y)) s.0) t.0 in
      rw (merge_loop, e)
        (step last y (merge_loop n (some y) (x ∷ xs) ys) (one-Above last y ys k) above strict)
]

-- Nothing is lost and nothing comes in.
abbrev yielded : Row → Option Row → Bool
yielded z none = false
yielded z (some l) = is_eq (cmp z l)

mem_row-step :
    (z : Row) (last : Option Row) (x : Row) (rest : List Row)
    → (yielded z last || mem_row z (if is_last last x then rest else x ∷ rest))
      ≡ (yielded z last || (is_eq (cmp z x) || mem_row z rest))
unfolding mem_row
mem_row-step z none x rest = refl
mem_row-step z (some l) x rest = ground (arith, eq_of_cmp l x)

mem_row-merge_loop :
    (z : Row) (n : ℕ) (last : Option Row) (a b : List Row)
    → length a + length b ≤ n
    → (yielded z last || mem_row z (merge_loop n last a b))
      ≡ (yielded z last || (mem_row z a || mem_row z b))
unfolding merge_loop mem_row
mem_row-merge_loop z zero last [] [] h = refl
mem_row-merge_loop z zero last (x ∷ xs) b h = absurd (omega arith)
mem_row-merge_loop z zero last [] (y ∷ ys) h = absurd (omega arith)
mem_row-merge_loop z (suc n) last [] [] h = refl
mem_row-merge_loop z (suc n) last (x ∷ xs) [] h = ground (
  arith,
  mem_row-step z last x (merge_loop n (some x) xs []),
  mem_row-merge_loop z n (some x) xs [] (omega arith),
)
mem_row-merge_loop z (suc n) last [] (y ∷ ys) h = ground (
  arith,
  mem_row-step z last y (merge_loop n (some y) [] ys),
  mem_row-merge_loop z n (some y) [] ys (omega arith),
)
mem_row-merge_loop z (suc n) last (x ∷ xs) (y ∷ ys) h = elim (cmp_cases x y) [
  | inl e ↦
      rw (merge_loop, e)
        (ground (
          arith,
          mem_row-step z last x (merge_loop n (some x) xs (y ∷ ys)),
          mem_row-merge_loop z n (some x) xs (y ∷ ys) (omega arith),
        ))
  | inr (inl e) ↦
      rw (merge_loop, e)
        (ground (
          arith,
          mem_row-step z last x (merge_loop n (some x) xs ys),
          mem_row-merge_loop z n (some x) xs ys (omega arith),
          eq_of_cmp x y e,
        ))
  | inr (inr e) ↦
      rw (merge_loop, e)
        (ground (
          arith,
          mem_row-step z last y (merge_loop n (some y) (x ∷ xs) ys),
          mem_row-merge_loop z n (some y) (x ∷ xs) ys (omega arith),
        ))
]

mem_row-append : (z : Row) (a b : List Row) → mem_row z (a ++ b) ≡ (mem_row z a || mem_row z b)
unfolding mem_row
mem_row-append z [] b = refl
mem_row-append z (x ∷ xs) b = ground (arith, mem_row-append z xs b)

-- The merge of two ascending streams, repeats allowed, is their concatenation, sorted and
-- deduplicated.
pub merge_sorted_dedup_lem :
    (a b : List Row) → IsSorted a → IsSorted b → merge_sorted_dedup a b ≡ sort_dedup (a ++ b)
unfolding merge_sorted_dedup
merge_sorted_dedup_lem a b s t =
    IsStrict-unique _ _ (merge_loop-IsStrict (length a + length b) none a b s t tt tt).1
      (sort_dedup-IsStrict (a ++ b))
      (λ z.
        mem_row-merge_loop z (length a + length b) none a b (omega arith)
        ∙ sym (mem_row-append z a b)
        ∙ sym (mem_row-sort_dedup z (a ++ b)))

-- Sorting and deduplicating in groups.
sort_dedup-append : (a b : List Row) → sort_dedup (sort_dedup a ++ b) ≡ sort_dedup (a ++ b)
sort_dedup-append a b =
    IsStrict-unique _ _ (sort_dedup-IsStrict (sort_dedup a ++ b)) (sort_dedup-IsStrict (a ++ b))
      (λ z.
        rw
          (
            mem_row-sort_dedup, mem_row-sort_dedup, mem_row-append, mem_row-append,
            mem_row-sort_dedup,
          )
          refl)

fold_from_lem :
    (acc : List Row) (sources : List (List Row))
    → All IsSorted sources
    → fold_from (sort_dedup acc) sources ≡ sort_dedup (acc ++ flatten sources)
unfolding fold_from flatten
fold_from_lem acc [] h = ap sort_dedup (sym (append-nil acc))
fold_from_lem acc (s ∷ sources) h =
    rw
      (
        merge_sorted_dedup_lem (sort_dedup acc) s (IsStrict→IsSorted _ (sort_dedup-IsStrict acc))
            h.0,
        sort_dedup-append acc s,
        ← append_assoc acc s (flatten sources),
      )
      (fold_from_lem (acc ++ s) sources h.1)

-- The streams of any number of sources, folded into one merge, give what sorting and deduplicating
-- all their rows at once gives.
pub fold_sources_lem :
    (sources : List (List Row))
    → All IsSorted sources
    → fold_sources sources ≡ sort_dedup (flatten sources)
unfolding fold_sources dedup sort_unstable
fold_sources_lem sources h = fold_from_lem [] sources h
