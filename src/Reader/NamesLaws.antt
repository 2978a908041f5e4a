-- ===== src/Reader/NamesLaws.antt =====
-- On rows that ascend by name, a query for a name returns the symbols of exactly the rows with it.
use Prim.Native.Nat.{Ordering}
use scry.Prelude.{
  ℕ, zero, suc, ◌-◌, ◌<◌, ◌≤◌, ◌≡◌, refl, sym, arith, List, [], ◌∷◌, Bool, true, false,
  if◌then◌else◌, ltb, map, select, length, get_elem?, drop, some, All, All-map, ap, ◌∙◌, inl, inr,
  Bool-cases, drop_next, drop_past,
}
use scry.Bytes.{cmp}
use scry.Run.{Run, done, ◌>>=◌}
use scry.Sorted.{Row, Le, IsSorted, field, is_eq, is_lt, row_lt, count_while}
use scry.Sorted.Compare.{eq_of_cmp}
use scry.Sorted.Prefix.{
  IsSplit, row_lt_above, count_while-none, select_none, count_while-get_elem?, count_while-le,
}
use scry.Sorted.SortLaws.{cmp_cases}
use scry.Reader.{Index}
use scry.Reader.Search.{lower_loop}
use scry.Reader.SearchLaws.{lower_loop_lem}
use scry.Reader.Names.{
  names_slice, name_at, sym_at, first_name, walk, sort_dedup_syms, syms_for_name,
}

module _ {ℓ} {A : Type ℓ} where
  -- The longest run at the start that a test accepts.
  abbrev pub take_while : (A → Bool) → List A → List A
  take_while p [] = []
  take_while p (x ∷ xs) = if p x then x ∷ take_while p xs else []

  walk_step {κ} :
      {B : Type κ} (rs : List A) (p : A → Bool) (f : A → B) (matches : ℕ → Run Bool)
      (item : ℕ → Run B) (rounds i : ℕ) (r : A)
      → ltb i (length rs) ≡ true
      → matches i ≡ done (p r)
      → item i ≡ done (f r)
      → drop i rs ≡ r ∷ drop (suc i) rs
      → walk rounds (suc i) (length rs) matches item ≡ done (map f (take_while p (drop (suc i) rs)))
      → walk (suc rounds) i (length rs) matches item ≡ done (map f (take_while p (drop i rs)))
  unfolding walk
  walk_step rs p f matches item rounds i r e m x split rest = elim (Bool-cases (p r)) [
    | inl c ↦ rw (walk, e, m ∙ ap done c, x, rest, split, c)
    | inr c ↦ rw (walk, e, m ∙ ap done c, split, c)
  ]

  walk-take_while {κ} :
      {B : Type κ} (rs : List A) (p : A → Bool) (f : A → B) (matches : ℕ → Run Bool)
      (item : ℕ → Run B)
      → ((i : ℕ) (r : A)
          → get_elem? rs i ≡ some r
          → (matches i ≡ done (p r)) × (item i ≡ done (f r)))
      → (rounds i : ℕ) → length rs - i ≤ rounds
      → walk rounds i (length rs) matches item ≡ done (map f (take_while p (drop i rs)))
  unfolding walk
  walk-take_while rs p f matches item ok zero i h =
      let e : ltb i (length rs) ≡ false = ground arith in rw (walk, e, drop_past rs i (omega arith))
  walk-take_while rs p f matches item ok (suc rounds) i h = elim (Bool-cases (ltb i (length rs))) [
    | inr e ↦ rw (walk, e, drop_past rs i (ground arith))
    | inl e ↦
        let (r, at_i, split) = drop_next rs i (ground arith) in
        walk_step rs p f matches item rounds i r e (ok i r at_i).0 (ok i r at_i).1 split
          (walk-take_while rs p f matches item ok rounds (suc i) (omega arith))
  ]

module _ {ℓ} {A : Type ℓ} (nm : A → Row) (q : Row) where
  unfoldable pub named : A → Bool
  named r = is_eq (cmp (nm r) q)

  unfoldable pub below : A → Bool
  below r = row_lt (nm r) q

  All-unmap {κ} : (P : Row → Type κ) (rs : List A) → All P (map nm rs) → All (λ r. P (nm r)) rs
  All-unmap P [] h = tt
  All-unmap P (r ∷ rs) h = (h.0, All-unmap P rs h.1)

  pub below-IsSplit : (rs : List A) → IsSorted (map nm rs) → IsSplit below rs
  unfolding below
  below-IsSplit [] s = tt
  below-IsSplit (r ∷ rs) s = (
    λ e. All-map (λ y le. row_lt_above q (nm r) (nm y) e le) rs (All-unmap (Le (nm r)) rs s.0),
    below-IsSplit rs s.1,
  )

  not_below :
      (r : A) (rs : List A)
      → IsSorted (map nm (r ∷ rs))
      → cmp (nm r) q ≡ Ordering.eq
      → All (λ y. below y ≡ false) rs
  unfolding below
  not_below r rs s e =
      All-map (λ y le. row_lt_above q (nm r) (nm y) (ground arith) le) rs
        (All-unmap (Le (nm r)) rs s.0)

  not_named : (x y : Row) → cmp x q ≡ Ordering.gt → Le x y → is_eq (cmp y q) ≡ false
  not_named x y e le = elim (Bool-cases (is_eq (cmp y q))) [
    | inr other ↦ other
    | inl same ↦ absurd (le (ap (cmp x) (eq_of_cmp y q (ground arith)) ∙ e))
  ]

  tests : (r : A) (o : Ordering) → cmp (nm r) q ≡ o → (below r ≡ is_lt o) × (named r ≡ is_eq o)
  unfolding below named
  tests r o e = (ap is_lt e, ap is_eq e)

  all_not_named :
      (r : A) (rs : List A)
      → IsSorted (map nm (r ∷ rs))
      → cmp (nm r) q ≡ Ordering.gt
      → All (λ y. named y ≡ false) rs
  unfolding named
  all_not_named r rs s e =
      All-map (λ y le. not_named (nm r) (nm y) e le) rs (All-unmap (Le (nm r)) rs s.0)

  -- The run of rows with the name, from the first row that is not below it.
  pub run_of_name :
      (rs : List A)
      → IsSorted (map nm rs)
      → take_while named (drop (count_while below rs) rs) ≡ select named rs
  unfolding count_while
  run_of_name [] s = refl
  run_of_name (r ∷ rs) s = elim (cmp_cases (nm r) q) [
    | inl e ↦ let (b, n) = tests r Ordering.lt e in rw (count_while, b, n) (run_of_name rs s.1)
    | inr (inl e) ↦
        let (b, n) = tests r Ordering.eq e in
        rw (count_while, b, n)
          (ap (λ l. r ∷ l)
            (ap (λ (k : ℕ). take_while named (drop k rs))
                (sym (count_while-none below rs (not_below r rs s e)))
              ∙ run_of_name rs s.1))
    | inr (inr e) ↦
        let (b, n) = tests r Ordering.gt e in
        rw (count_while, b, n) (sym (select_none named rs (all_not_named r rs s e)))
  ]

-- The queries, on an index whose name rows can be read and ascend by name.
module _ (ix : Index) (names : List ℕ) (rs : List Row) (nm : Row → Row)
    (counted : ix.hdr.names_n ≡ length rs) (sliced : names_slice ix ≡ done names)
    (reads : (i : ℕ) (r : Row)
      → get_elem? rs i ≡ some r
      → (name_at ix names i ≡ done (nm r)) × (sym_at names i ≡ done (field 2 r)))
    (s : IsSorted (map nm rs)) where
  below_at :
      (q : Row) (i : ℕ)
      → i < length rs
      → (name_at ix names i >>= λ name. done (is_lt (cmp name q)))
        ≡ done (ltb i (count_while (below nm q) rs))
  below_at q i h =
      let (r, at_i, _) = drop_next rs i h in
      rw (reads i r at_i).0 (
        ap done
          (below_is q r ∙ count_while-get_elem? (below nm q) rs i (below-IsSplit nm q rs s) at_i))
    where
      below_is : (q r : Row) → is_lt (cmp (nm r) q) ≡ below nm q r
      below_is q r = unfold below in refl

  first_name-rows : (q : Row) → first_name ix names q ≡ done (count_while (below nm q) rs)
  unfolding first_name
  first_name-rows q =
      ap
        (λ (m : ℕ).
          lower_loop m (λ mid. name_at ix names mid >>= λ name. done (is_lt (cmp name q))) 0 m)
        counted
      ∙ lower_loop_lem (count_while (below nm q) rs) (length rs) _ 0 (length rs) (below_at q)
          (omega arith) (count_while-le (below nm q) rs) (omega arith)

  walk_names :
      (q : Row) (lo : ℕ)
      → walk
          (ix.hdr.names_n - lo)
          lo
          ix.hdr.names_n
          (λ i. name_at ix names i >>= λ name. done (is_eq (cmp name q)))
          (sym_at names)
        ≡ done (map (field 2) (take_while (named nm q) (drop lo rs)))
  walk_names q lo =
      ap
        (λ (m : ℕ).
          walk (m - lo) lo m (λ i. name_at ix names i >>= λ name. done (is_eq (cmp name q)))
            (sym_at names))
        counted
      ∙ walk-take_while rs (named nm q) (field 2)
          (λ i. name_at ix names i >>= λ name. done (is_eq (cmp name q))) (sym_at names)
          (λ i r e. (rw (reads i r e).0 (is_named q r), (reads i r e).1)) (length rs - lo) lo
          (omega arith)
    where
      is_named : (q r : Row) → done (is_eq (cmp (nm r) q)) ≡ done (named nm q r)
      is_named q r = unfold named in refl

  pub syms_for_name-rows :
      (q : Row)
      → syms_for_name ix q ≡ done (sort_dedup_syms (map (field 2) (select (named nm q) rs)))
  unfolding syms_for_name
  syms_for_name-rows q =
      rw
        (
          sliced,
          first_name-rows q,
          walk_names q (count_while (below nm q) rs),
          run_of_name nm q rs s,
        )
        refl
