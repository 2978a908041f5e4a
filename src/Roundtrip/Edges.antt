-- ===== src/Roundtrip/Edges.antt =====
-- Every edge that was added is found again, from both of its ends, and no other is.
use scry.Prelude.{ℕ, ◌+◌, ◌<◌, ◌≡◌, ◌==◌, map, select}
use scry.Bytes.{u64_mod}
use scry.Format.{table, inh_row, call_row}
use scry.Run.{done}
use scry.Sorted.{field, IsSorted}
use scry.Reader.{
  inh_slice, inhrev_slice, childrev_slice, calls_slice, crev_slice, inherits_of, inherited_by,
  members, calls_from, called_by,
}
use scry.Reader.RangeLaws.{inh_range-table, call_range-table, call_out}
use scry.Writer.Layout.{offsets}
use scry.Writer.Finish.{Tables, header_of, sections_of}
use scry.Roundtrip.Sections.{IsPackable, IsSmall, file-Readable}
use scry.Roundtrip.Whole.{index_of}

module _ (t : Tables) (p : IsPackable t) (small : IsSmall t) where
  pub inh_slice-file : inh_slice (index_of t) ≡ done (table inh_row t.inh)
  unfolding inh_slice header_of sections_of offsets
  inh_slice-file = (file-Readable t p small).1.1.1.1.0

  inhrev_slice-file : inhrev_slice (index_of t) ≡ done (table inh_row t.inhrev)
  unfolding inhrev_slice header_of sections_of offsets
  inhrev_slice-file = (file-Readable t p small).1.1.1.1.1.0

  childrev_slice-file : childrev_slice (index_of t) ≡ done (table inh_row t.childrev)
  unfolding childrev_slice header_of sections_of offsets
  childrev_slice-file = (file-Readable t p small).1.1.1.1.1.1.1.1.1.0

  pub calls_slice-file : calls_slice (index_of t) ≡ done (table call_row t.calls)
  unfolding calls_slice header_of sections_of offsets
  calls_slice-file = (file-Readable t p small).1.1.1.1.1.1.0

  crev_slice-file : crev_slice (index_of t) ≡ done (table call_row t.crev)
  unfolding crev_slice header_of sections_of offsets
  crev_slice-file = (file-Readable t p small).1.1.1.1.1.1.1.0

  -- The queries on the tables.
  pub inherits_of-table :
      (child : ℕ)
      → IsSorted t.inh
      → child + 1 < u64_mod
      → inherits_of (index_of t) child
        ≡ done (map (field 1) (select (λ r. field 0 r == child) t.inh))
  unfolding inherits_of header_of
  inherits_of-table child s h = rw inh_slice-file (inh_range-table t.inh p.inh s child h)

  pub inherited_by-table :
      (parent : ℕ)
      → IsSorted t.inhrev
      → parent + 1 < u64_mod
      → inherited_by (index_of t) parent
        ≡ done (map (field 1) (select (λ r. field 0 r == parent) t.inhrev))
  unfolding inherited_by header_of
  inherited_by-table parent s h =
      rw inhrev_slice-file (inh_range-table t.inhrev p.inhrev s parent h)

  pub members-table :
      (parent : ℕ)
      → IsSorted t.childrev
      → parent + 1 < u64_mod
      → members (index_of t) parent
        ≡ done (map (field 1) (select (λ r. field 0 r == parent) t.childrev))
  unfolding members header_of
  members-table parent s h =
      rw childrev_slice-file (inh_range-table t.childrev p.childrev s parent h)

  pub calls_from-table :
      (caller : ℕ)
      → IsSorted t.calls
      → caller + 1 < u64_mod
      → calls_from (index_of t) caller
        ≡ done (map call_out (select (λ r. field 0 r == caller) t.calls))
  unfolding calls_from header_of
  calls_from-table caller s h = rw calls_slice-file (call_range-table t.calls p.calls s caller h)

  pub called_by-table :
      (callee : ℕ)
      → IsSorted t.crev
      → callee + 1 < u64_mod
      → called_by (index_of t) callee
        ≡ done (map call_out (select (λ r. field 0 r == callee) t.crev))
  unfolding called_by header_of
  called_by-table callee s h = rw crev_slice-file (call_range-table t.crev p.crev s callee h)
