-- ===== src/Roundtrip/Queries.antt =====
-- The queries of reader.rs on the file that `finish` of writer.rs writes, against what was added.
use scry.Prelude.{ℕ, ◌+◌, ◌<◌, ◌≡◌, List, [], ◌∷◌, ◌∙◌}
use scry.Bytes.{u64_mod}
use scry.Run.{done}
use scry.Sorted.{Row, IsSorted, contains, mem_row}
use scry.Sorted.SortLaws.{
  sort_dedup-IsStrict, IsStrict→IsSorted, sort_unstable-IsSorted, mem_row-sort_dedup,
  mem_row-sort_unstable,
}
use scry.Reader.{inherits_of, inherited_by, members, calls_from, called_by}
use scry.Writer.Builder.{IndexBuilder, sort_dedup}
use scry.Writer.Finish.{tables_of}
use scry.Roundtrip.Members.{
  contains_pair, contains-second, contains_pair-second, mem_row-swap_inh, mem_row-swap_call,
}
use scry.Roundtrip.Sections.{IsPackable}
use scry.Roundtrip.Whole.{index_of, IsWritable, IsWritable→IsPackable}
use scry.Roundtrip.Edges.{
  inherits_of-table, inherited_by-table, members-table, calls_from-table, called_by-table,
}

sort_dedup-IsSorted : (rs : List Row) → IsSorted (sort_dedup rs)
sort_dedup-IsSorted rs = IsStrict→IsSorted (sort_dedup rs) (sort_dedup-IsStrict rs)

module _ (b : IndexBuilder) (w : IsWritable b) where
  packable : IsPackable (tables_of b)
  packable = IsWritable→IsPackable b w

  -- For a child below 2^64 - 1, `inherits_of` answers, with exactly the parents that `add_inherit`
  -- recorded for it.
  pub inherits_of_lem :
      (child parent : ℕ)
      → child + 1 < u64_mod
      → (out : List ℕ) × (inherits_of (index_of (tables_of b)) child ≡ done out)
        × (contains parent out ≡ mem_row (child ∷ parent ∷ []) b.inherits)
  unfolding tables_of
  inherits_of_lem child parent h = (
    _,
    inherits_of-table (tables_of b) packable w.1 child (sort_dedup-IsSorted b.inherits) h,
    contains-second child parent _ packable.inh
        ∙ mem_row-sort_dedup (child ∷ parent ∷ []) b.inherits,
  )

  -- For a parent below 2^64 - 1, `inherited_by` answers, with exactly the children that
  -- `add_inherit` recorded for it.
  pub inherited_by_lem :
      (parent child : ℕ)
      → parent + 1 < u64_mod
      → (out : List ℕ) × (inherited_by (index_of (tables_of b)) parent ≡ done out)
        × (contains child out ≡ mem_row (child ∷ parent ∷ []) b.inherits)
  unfolding tables_of
  inherited_by_lem parent child h = (
    _,
    inherited_by-table (tables_of b) packable w.1 parent (sort_unstable-IsSorted _) h,
    contains-second parent child _ packable.inhrev
        ∙ mem_row-sort_unstable (parent ∷ child ∷ []) _
        ∙ mem_row-swap_inh child parent _ packable.inh
        ∙ mem_row-sort_dedup (child ∷ parent ∷ []) b.inherits,
  )

  -- For a parent below 2^64 - 1, `members` answers, with exactly the children that `add_childof`
  -- recorded for it.
  pub members_lem :
      (parent child : ℕ)
      → parent + 1 < u64_mod
      → (out : List ℕ) × (members (index_of (tables_of b)) parent ≡ done out)
        × (contains child out ≡ mem_row (parent ∷ child ∷ []) b.childof)
  unfolding tables_of
  members_lem parent child h = (
    _,
    members-table (tables_of b) packable w.1 parent (sort_dedup-IsSorted b.childof) h,
    contains-second parent child _ packable.childrev
        ∙ mem_row-sort_dedup (parent ∷ child ∷ []) b.childof,
  )

  -- For a caller below 2^64 - 1, `calls_from` answers, with exactly the callees and roles that
  -- `add_call` recorded for it.
  pub calls_from_lem :
      (caller callee role : ℕ)
      → caller + 1 < u64_mod
      → (out : List (ℕ × ℕ)) × (calls_from (index_of (tables_of b)) caller ≡ done out)
        × (contains_pair (callee, role) out ≡ mem_row (caller ∷ callee ∷ role ∷ []) b.calls)
  unfolding tables_of
  calls_from_lem caller callee role h = (
    _,
    calls_from-table (tables_of b) packable w.1 caller (sort_dedup-IsSorted b.calls) h,
    contains_pair-second caller callee role _ packable.calls
        ∙ mem_row-sort_dedup (caller ∷ callee ∷ role ∷ []) b.calls,
  )

  -- For a callee below 2^64 - 1, `called_by` answers, with exactly the callers and roles that
  -- `add_call` recorded for it.
  pub called_by_lem :
      (callee caller role : ℕ)
      → callee + 1 < u64_mod
      → (out : List (ℕ × ℕ)) × (called_by (index_of (tables_of b)) callee ≡ done out)
        × (contains_pair (caller, role) out ≡ mem_row (caller ∷ callee ∷ role ∷ []) b.calls)
  unfolding tables_of
  called_by_lem callee caller role h = (
    _,
    called_by-table (tables_of b) packable w.1 callee (sort_unstable-IsSorted _) h,
    contains_pair-second callee caller role _ packable.crev
        ∙ mem_row-sort_unstable (callee ∷ caller ∷ role ∷ []) _
        ∙ mem_row-swap_call caller callee role _ packable.calls
        ∙ mem_row-sort_dedup (caller ∷ callee ∷ role ∷ []) b.calls,
  )
