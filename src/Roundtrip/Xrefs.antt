-- ===== src/Roundtrip/Xrefs.antt =====
-- References in the written file, and the queries for the last symbol id.
use scry.Prelude.{ℕ, ◌+◌, ◌-◌, ◌<◌, ◌≤◌, ◌≡◌, true, [], ◌∷◌, map, select, ◌∙◌}
use scry.Bytes.{u64_mod}
use scry.Format.{table, xref_row}
use scry.Run.{done, panic}
use scry.Sorted.{IsSorted, mem_row}
use scry.Sorted.SortLaws.{sort_dedup-IsStrict, IsStrict→IsSorted, mem_row-sort_dedup}
use scry.Reader.{xrefs_slice, xrefs, inherits_of}
use scry.Reader.XrefLaws.{xref_range-table, xref_out, in_roles}
use scry.Reader.LastKey.{inh_range-last}
use scry.Writer.Builder.{IndexBuilder, sort_dedup}
use scry.Writer.Layout.{offsets}
use scry.Writer.Finish.{Tables, tables_of, header_of, sections_of}
use scry.Roundtrip.Sections.{IsPackable, IsSmall, file-Readable}
use scry.Roundtrip.Whole.{index_of, IsWritable, IsWritable→IsPackable}
use scry.Roundtrip.Edges.{inh_slice-file}

module _ (t : Tables) (p : IsPackable t) (small : IsSmall t) where
  pub xrefs_slice-file : xrefs_slice (index_of t) ≡ done (table xref_row t.xrefs)
  unfolding xrefs_slice header_of sections_of offsets
  xrefs_slice-file = (file-Readable t p small).0

  xrefs-table :
      (key role_lo role_hi : ℕ)
      → IsSorted t.xrefs
      → key + 1 < u64_mod
      → role_lo ≤ role_hi
      → role_hi < 256
      → xrefs (index_of t) key role_lo role_hi
        ≡ done (map xref_out (select (in_roles key role_lo role_hi) t.xrefs))
  unfolding xrefs header_of
  xrefs-table key role_lo role_hi s h le k =
      rw xrefs_slice-file (xref_range-table t.xrefs p.xrefs s key role_lo role_hi h le k)

  inherits_of-last :
      (child parent : ℕ)
      → IsSorted t.inh
      → mem_row (child ∷ parent ∷ []) t.inh ≡ true
      → child < u64_mod - 1
      → inherits_of (index_of t) (u64_mod - 1) ≡ panic
  unfolding inherits_of header_of
  inherits_of-last child parent s m h =
      rw (inh_slice-file t p small) (inh_range-last t.inh p.inh s child parent m h)

module _ (b : IndexBuilder) (w : IsWritable b) where
  -- For a symbol below 2^64 - 1 and a range of roles that is not empty, up to 255, `xrefs` answers
  -- with the references of the symbol whose role is in the range, each once and in ascending order of
  -- role, file and offset.
  pub xrefs_lem :
      (sym role_lo role_hi : ℕ)
      → sym + 1 < u64_mod
      → role_lo ≤ role_hi
      → role_hi < 256
      → xrefs (index_of (tables_of b)) sym role_lo role_hi
        ≡ done (map xref_out (select (in_roles sym role_lo role_hi) (sort_dedup b.xrefs)))
  unfolding tables_of
  xrefs_lem sym role_lo role_hi h le k =
      xrefs-table (tables_of b) (IsWritable→IsPackable b w) w.1 sym role_lo role_hi
        (IsStrict→IsSorted (sort_dedup b.xrefs) (sort_dedup-IsStrict b.xrefs)) h le k

  -- Asked for the symbol 2^64 - 1, `inherits_of` panics as soon as any smaller symbol has a parent.
  pub inherits_of-panic :
      (child parent : ℕ)
      → mem_row (child ∷ parent ∷ []) b.inherits ≡ true
      → child < u64_mod - 1
      → inherits_of (index_of (tables_of b)) (u64_mod - 1) ≡ panic
  unfolding tables_of
  inherits_of-panic child parent m h =
      inherits_of-last (tables_of b) (IsWritable→IsPackable b w) w.1 child parent
        (IsStrict→IsSorted (sort_dedup b.inherits) (sort_dedup-IsStrict b.inherits))
        (mem_row-sort_dedup (child ∷ parent ∷ []) b.inherits ∙ m) h
