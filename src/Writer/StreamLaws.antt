-- ===== src/Writer/StreamLaws.antt =====
-- The streaming merges of `write_merged_snapshot` and the merge of builders in `merge_from`, both of
-- writer.rs, give the same entry at every key.
use scry.Prelude.{ℕ, ◌+◌, ◌≡◌, refl, sym, arith, List, [], ◌∷◌, Option, none, some, length, ap, ◌∙◌}
use scry.Sorted.Compare.{row_lt_total, row_lt_asym}
use scry.Text.{Unicode}
use scry.Writer.Builder.{SymInfo, upsert, refine, merge_syms, merge_files}
use scry.Writer.Merge.{
  join_info, merge_syms_refine, merge_files_first_wins, pick, merge_typed_by_sym,
}
use scry.Writer.MergeByKey.{
  lookup, IsAscending, join_at, join_none, lookup-merge_by_key, merge_by_key-IsAscending,
  merge_by_key_comm, lookup-upsert, absent_behind,
}

join_info-refine : (u : Unicode) (a b : SymInfo) → join_info u a b ≡ refine u a b
unfolding join_info refine
join_info-refine u a b = ground arith

join_at_congr {ℓ} :
    {V : Type ℓ} (f g : V → V → V) (o p : Option V)
    → ((v w : V) → f v w ≡ g v w)
    → join_at f o p ≡ join_at g o p
join_at_congr f g none p h = refl
join_at_congr f g (some a) none h = refl
join_at_congr f g (some a) (some b) h = ap some (h a b)

-- The entries of the other map, inserted in turn.
merge_syms-lookup :
    (u : Unicode) (k : ℕ) (m other : List (ℕ × SymInfo))
    → IsAscending other
    → lookup k (merge_syms u m other) ≡ join_at (refine u) (lookup k m) (lookup k other)
unfolding merge_syms lookup
merge_syms-lookup u k m [] s = sym (join_none _ (lookup k m))
merge_syms-lookup u k m ((j, info) ∷ rest) s = ground (
  arith,
  merge_syms-lookup u k (upsert j (λ e. refine u e info) info m) rest s.1,
  lookup-upsert k j (λ e. refine u e info) info m,
  absent_behind k j rest s.0,
)

merge_files-lookup :
    (k : ℕ) (m other : List (ℕ × List ℕ))
    → IsAscending other
    → lookup k (merge_files m other) ≡ join_at (λ x y. x) (lookup k m) (lookup k other)
unfolding merge_files lookup
merge_files-lookup k m [] s = sym (join_none _ (lookup k m))
merge_files-lookup k m ((j, path) ∷ rest) s = ground (
  arith,
  merge_files-lookup k (upsert j (λ p. p) path m) rest s.1,
  lookup-upsert k j (λ p. p) path m,
  absent_behind k j rest s.0,
)

-- The merge of two symbol streams is ascending, and at every symbol it holds what inserting the
-- second stream into the first as a map leaves there: kinds, languages and names included.
pub merge_syms_refine_lem :
    (u : Unicode) (k : ℕ) (a b : List (ℕ × SymInfo))
    → IsAscending a
    → IsAscending b
    → IsAscending (merge_syms_refine u a b)
      × (lookup k (merge_syms_refine u a b) ≡ lookup k (merge_syms u a b))
unfolding merge_syms_refine
merge_syms_refine_lem u k a b s t = (
  merge_by_key-IsAscending (join_info u) (length a + length b) a b s t,
  lookup-merge_by_key (join_info u) k (length a + length b) a b s t (omega arith)
      ∙ join_at_congr (join_info u) (refine u) (lookup k a) (lookup k b) (join_info-refine u)
      ∙ sym (merge_syms-lookup u k a b t),
)

-- The same for the paths of files: the first stream's path stays.
pub merge_files_first_wins_lem :
    (k : ℕ) (a b : List (ℕ × List ℕ))
    → IsAscending a
    → IsAscending b
    → IsAscending (merge_files_first_wins a b)
      × (lookup k (merge_files_first_wins a b) ≡ lookup k (merge_files a b))
unfolding merge_files_first_wins
merge_files_first_wins_lem k a b s t = (
  merge_by_key-IsAscending (λ x y. x) (length a + length b) a b s t,
  lookup-merge_by_key (λ x y. x) k (length a + length b) a b s t (omega arith)
      ∙ sym (merge_files-lookup k a b t),
)

pick_comm : (x y : List ℕ) → pick x y ≡ pick y x
unfolding pick
pick_comm x y = ground (arith, row_lt_total x y, row_lt_asym x y)

-- The merge of two streams of types or signatures does not depend on which comes first, whatever
-- they hold.
pub merge_typed_by_sym_comm :
    (a b : List (ℕ × List ℕ)) → merge_typed_by_sym a b ≡ merge_typed_by_sym b a
unfolding merge_typed_by_sym
merge_typed_by_sym_comm a b =
    let e : length b + length a ≡ length a + length b = omega arith in
    rw e (merge_by_key_comm pick (length a + length b) a b pick_comm)
