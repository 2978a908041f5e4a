-- ===== src/Server/XrefLaws.antt =====
-- What `do_xrefs` of server.rs returns, against the references without a limit.
use scry.Prelude.{
  ℕ, suc, ◌+◌, ◌-◌, ◌≤◌, ◌≡◌, refl, arith, List, [], ◌∷◌, ◌++◌, Bool, true, false, not, leb,
  if◌then◌else◌, length, length-append, ◌∙◌, ap, sym, Bool-cases, inl, inr, ◌⊎◌,
}
use mathlib.Core.List.{append-nil, append_assoc}
use scry.Kythe.State.{push}
use scry.Server.Graphs.{defined_in}
use scry.Server.Queries.{Queries, PathFilter, passes}
use scry.Server.Reply.{XrefHit, SymbolGroup, XrefsReply}
use scry.Server.Xrefs.{
  Row, RowsDone, GroupsDone, is_nil, path_of, hit_of, take_rows, group_of, take_groups, syms_of,
  do_xrefs,
}

unfoldable pub count_rows : List SymbolGroup → ℕ
count_rows [] = 0
count_rows (g ∷ groups) = length g.rows + count_rows groups

count_rows-append :
    (xs ys : List SymbolGroup) → count_rows (xs ++ ys) ≡ count_rows xs + count_rows ys
unfolding count_rows
count_rows-append [] ys = omega arith
count_rows-append (x ∷ xs) ys = omega (arith, count_rows-append xs ys)

module _ (ix : Queries) (filt : PathFilter) where
  -- The rows of a symbol whose file passes the filter.
  unfoldable pub all_rows : List Row → List XrefHit
  unfolding passes path_of hit_of
  all_rows [] = []
  all_rows ((r, file, off) ∷ xs) =
      let rest = all_rows xs in
      if passes filt (path_of ix filt file) then hit_of ix filt (r, file, off) ∷ rest else rest

  -- The loop stops at the limit, or it has taken all rows and is below it.
  TookRows : ℕ → List Row → List XrefHit → ℕ → RowsDone → Type 0
  TookRows max_hits xs rows total d =
      (d.total + length rows ≡ total + length d.rows)
      × ((d.full ≡ false) → (d.rows ≡ rows ++ all_rows xs) × (d.total ≤ max_hits - 1))
      × (d.total ≤ suc (max_hits - 1))

  take_rows_lem :
      (max_hits : ℕ) (xs : List Row) (rows : List XrefHit) (total : ℕ)
      → total ≤ max_hits - 1
      → TookRows max_hits xs rows total (take_rows ix filt max_hits xs rows total)
  unfolding take_rows all_rows TookRows
  take_rows_lem max_hits [] rows total h =
      (omega arith, (λ e. (sym (append-nil rows), h)), omega arith)
  take_rows_lem max_hits ((r, file, off) ∷ xs) rows total h =
      elim (Bool-cases (passes filt (path_of ix filt file))) [
        | inr e ↦ rw e (take_rows_lem max_hits xs rows total h)
        | inl e ↦ elim (Bool-cases (leb max_hits (total + 1))) [
          | inl f ↦
              rw (e, f)
                (
                  omega (arith, length-append rows (hit_of ix filt (r, file, off) ∷ [])),
                  (λ t. cc),
                  omega arith,
                )
          | inr f ↦
              let more = push (hit_of ix filt (r, file, off)) rows in
              let (count, all, bound) = take_rows_lem max_hits xs more (total + 1) (ground arith) in
              rw (e, f)
                (
                  omega (arith, length-append rows (hit_of ix filt (r, file, off) ∷ [])),
                  (λ t.
                      let (same, low) = all t in
                      (
                        same ∙ append_assoc rows (hit_of ix filt (r, file, off) ∷ []) (all_rows xs),
                        low,
                      )),
                  bound,
                )
        ]
      ]

  module _ (with_type : Bool) (role_lo role_hi max_hits : ℕ) where
    abbrev group : ℕ → List XrefHit → SymbolGroup
    group = group_of ix filt with_type role_lo role_hi max_hits

    -- A group for every symbol that has rows.
    unfoldable pub all_groups : List ℕ → List SymbolGroup
    unfolding all_rows defined_in group_of
    all_groups [] = []
    all_groups (s ∷ syms) =
        let rows = all_rows (ix.xrefs s role_lo role_hi) in
        let rest = all_groups syms in
        if not (defined_in ix filt.def_in s)
        then rest
        else if is_nil rows
        then rest
        else group s rows ∷ rest

    TookGroups : List ℕ → List SymbolGroup → ℕ → GroupsDone → Type 0
    TookGroups syms groups total d =
        (d.total + count_rows groups ≡ total + count_rows d.groups)
        × ((d.full ≡ false) → d.groups ≡ groups ++ all_groups syms)
        × (d.total ≤ suc (max_hits - 1))

    is_nil-length : (rows : List XrefHit) → is_nil rows ≡ true → length rows ≡ 0
    is_nil-length [] h = refl
    is_nil-length (x ∷ rows) h = cc

    count_rows-push :
        (s : ℕ) (rows : List XrefHit) (groups : List SymbolGroup)
        → count_rows (push (group s rows) groups) ≡ count_rows groups + length rows
    unfolding count_rows group_of
    count_rows-push s rows groups = omega (arith, count_rows-append groups (group s rows ∷ []))

    take_groups_lem :
        (syms : List ℕ) (groups : List SymbolGroup) (total : ℕ)
        → total ≤ max_hits - 1
        → TookGroups syms groups total
            (take_groups ix filt with_type role_lo role_hi max_hits syms groups total)
    unfolding take_groups all_groups TookGroups TookRows
    take_groups_lem [] groups total h = (refl, (λ e. sym (append-nil groups)), omega arith)
    take_groups_lem (s ∷ syms) groups total h =
        let d = take_rows ix filt max_hits (ix.xrefs s role_lo role_hi) [] total in
        let more = push (group s d.rows) groups in
        let (count, all, bound) = take_rows_lem max_hits (ix.xrefs s role_lo role_hi) [] total h in
        elim (Bool-cases (defined_in ix filt.def_in s)) [
          | inr e ↦ rw e (take_groups_lem syms groups total h)
          | inl e ↦ elim (Bool-cases d.full) [
            | inl f ↦ rw (e, f) (omega (arith, count_rows-push s d.rows groups), (λ t. cc), bound)
            | inr f ↦
                let (rows, low) = all f in
                elim (Bool-cases (is_nil d.rows)) [
                  | inl n ↦
                      let none_found = rw rows at n in
                      let (c, a, b) = take_groups_lem syms groups d.total low in
                      rw (e, f, n, none_found) (omega (arith, is_nil-length d.rows n), a, b)
                  | inr n ↦
                      let some_found = rw rows at n in
                      let (c, a, b) = take_groups_lem syms more d.total low in
                      rw (e, f, n, some_found)
                        (
                          omega (arith, count_rows-push s d.rows groups),
                          (λ t.
                              a t
                              ∙ append_assoc groups (group s d.rows ∷ []) (all_groups syms)
                              ∙ ap (λ r. groups ++ (group s r ∷ all_groups syms)) rows),
                          b,
                        )
                ]
          ]
        ]

-- A reply that counts its rows, stays within the limit, and is truncated or the expected one.
abbrev pub Answers : ℕ → List SymbolGroup → XrefsReply → Type 0
Answers max_hits expected r =
    (r.total ≡ count_rows r.groups)
    × (r.total ≤ suc (max_hits - 1))
    × ((r.truncated ≡ true) ⊎ (r.groups ≡ expected))

-- The reply counts its rows, which are no more than the limit, or one where the limit is 0. It is
-- marked as truncated, or it has a group for every symbol with a reference that passes the filters,
-- with all such references in order.
pub do_xrefs_lem :
    (ix : Queries) (filt : PathFilter) (name : List ℕ) (substr ignore_case : Bool)
    (sym_cap role_lo role_hi max_hits : ℕ) (with_type : Bool)
    → Answers max_hits
        (all_groups ix filt with_type role_lo role_hi max_hits
          (syms_of ix filt name substr ignore_case sym_cap))
        (do_xrefs ix filt name substr ignore_case sym_cap (role_lo, role_hi) max_hits with_type)
unfolding do_xrefs count_rows TookGroups
do_xrefs_lem ix filt name substr ignore_case sym_cap role_lo role_hi max_hits with_type =
    let syms = syms_of ix filt name substr ignore_case sym_cap in
    let d = take_groups ix filt with_type role_lo role_hi max_hits syms [] 0 in
    let (count, all, bound) =
      take_groups_lem ix filt with_type role_lo role_hi max_hits syms [] 0 (omega arith) in
    (
      omega (arith, count),
      bound,
      elim (Bool-cases d.full) [ inl f ↦ inl (rw f refl) | inr f ↦ inr (all f) ],
    )
