-- ===== src/Writer/Merge.antt =====
-- The two-way merges of writer.rs over ascending streams. A stream is the list of what it yields;
-- each round takes from one list or both, so their lengths together are fuel enough.
use Prim.Native.Nat.{Ordering, compare}
use scry.Prelude.{
  ℕ, zero, suc, ◌+◌, List, [], ◌∷◌, Bool, false, if◌then◌else◌, ◌==◌, not, ◌&&◌, length, Option,
  none, some,
}
use scry.Bytes.{cmp}
use scry.Format.Kind
use scry.Format.Lang
use scry.Sorted.{Row, is_eq, row_lt}
use scry.Text.{Unicode}
use scry.Writer.Builder.{SymInfo}
use scry.Writer.Names.{is_empty, better_name}

-- `self.last == Some(v)`
abbrev pub is_last : Option Row → Row → Bool
is_last none v = false
is_last (some l) v = is_eq (cmp l v)

-- `merge_sorted_dedup`, and `merge_aliases_dedup`, which is the same on pairs.
unfoldable pub merge_loop : ℕ → Option Row → List Row → List Row → List Row
merge_loop zero last a b = []
merge_loop (suc rounds) last [] [] = []
merge_loop (suc rounds) last (x ∷ xs) [] =
    let rest = merge_loop rounds (some x) xs [] in if is_last last x then rest else x ∷ rest
merge_loop (suc rounds) last [] (y ∷ ys) =
    let rest = merge_loop rounds (some y) [] ys in if is_last last y then rest else y ∷ rest
merge_loop (suc rounds) last (x ∷ xs) (y ∷ ys) =
    let from_a = merge_loop rounds (some x) xs (y ∷ ys) in
    let from_b = merge_loop rounds (some y) (x ∷ xs) ys in
    let from_both = merge_loop rounds (some x) xs ys in
    elim (cmp x y) [
      | Ordering.lt ↦ if is_last last x then from_a else x ∷ from_a
      | Ordering.gt ↦ if is_last last y then from_b else y ∷ from_b
      | Ordering.eq ↦ if is_last last x then from_both else x ∷ from_both
    ]

unfoldable pub merge_sorted_dedup : List Row → List Row → List Row
merge_sorted_dedup a b = merge_loop (length a + length b) none a b

unfoldable pub merge_aliases_dedup : List Row → List Row → List Row
merge_aliases_dedup a b = merge_loop (length a + length b) none a b

-- `fold_sources`: the streams of the sources from the left.
unfoldable pub fold_from : List Row → List (List Row) → List Row
fold_from acc [] = acc
fold_from acc (s ∷ sources) = fold_from (merge_sorted_dedup acc s) sources

unfoldable pub fold_sources : List (List Row) → List Row
fold_sources sources = fold_from [] sources

-- The merges by key: what two streams hold at the same key is joined.
module _ {ℓ} {V : Type ℓ} (join : V → V → V) where
  unfoldable pub merge_by_key : ℕ → List (ℕ × V) → List (ℕ × V) → List (ℕ × V)
  merge_by_key zero a b = []
  merge_by_key (suc rounds) [] b = b
  merge_by_key (suc rounds) (x ∷ xs) [] = x ∷ xs
  merge_by_key (suc rounds) (x ∷ xs) (y ∷ ys) =
      let from_a = merge_by_key rounds xs (y ∷ ys) in
      let from_b = merge_by_key rounds (x ∷ xs) ys in
      let from_both = merge_by_key rounds xs ys in
      elim (compare x.0 y.0) [
        | Ordering.lt ↦ x ∷ from_a
        | Ordering.gt ↦ y ∷ from_b
        | Ordering.eq ↦ (x.0, join x.1 y.1) ∷ from_both
      ]

-- A known kind and language on the left stay; the better name is kept.
unfoldable pub join_info : Unicode → SymInfo → SymInfo → SymInfo
join_info u a b = record {
  kind = if not (a.kind == Kind.unk) then a.kind else b.kind;
  lang = if not (a.lang == Lang.unk) then a.lang else b.lang;
  name = better_name u a.name b.name;
}

unfoldable pub merge_syms_refine :
    Unicode → List (ℕ × SymInfo) → List (ℕ × SymInfo) → List (ℕ × SymInfo)
merge_syms_refine u a b = merge_by_key (join_info u) (length a + length b) a b

unfoldable pub merge_files_first_wins : List (ℕ × List ℕ) → List (ℕ × List ℕ) → List (ℕ × List ℕ)
merge_files_first_wins a b = merge_by_key (λ x y. x) (length a + length b) a b

-- `pick`: an empty string loses, then the smaller one wins.
unfoldable pub pick : List ℕ → List ℕ → List ℕ
pick x y =
    if not (is_empty x) && is_empty y
    then x
    else if is_empty x && not (is_empty y)
    then y
    else if row_lt y x
    then y
    else x

unfoldable pub merge_typed_by_sym : List (ℕ × List ℕ) → List (ℕ × List ℕ) → List (ℕ × List ℕ)
merge_typed_by_sym a b = merge_by_key pick (length a + length b) a b
