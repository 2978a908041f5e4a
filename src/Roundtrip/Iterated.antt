-- ===== src/Roundtrip/Iterated.antt =====
-- The iterators over a written file, which load_from_index replays.
use scry.Prelude.{◌≡◌, map}
use scry.Run.{done}
use scry.Sorted.{IsSorted}
use scry.Sorted.SortLaws.{sort_dedup-IsStrict, IsStrict→IsSorted}
use scry.Reader.XrefLaws.{xref_at-table, xref_out}
use scry.Reader.Iter.{iter_xrefs, iter_inherits}
use scry.Reader.IterLaws.{collect-all, pair_at-table, pair_out}
use scry.Writer.Builder.{IndexBuilder, sort_dedup}
use scry.Writer.Finish.{Tables, tables_of, header_of}
use scry.Roundtrip.Sections.{IsPackable, IsSmall}
use scry.Roundtrip.Whole.{index_of, IsWritable, IsWritable→IsPackable}
use scry.Roundtrip.Edges.{inh_slice-file}
use scry.Roundtrip.Xrefs.{xrefs_slice-file}

module _ (t : Tables) (p : IsPackable t) (small : IsSmall t) where
  iter_xrefs-table : IsSorted t.xrefs → iter_xrefs (index_of t) ≡ done (map xref_out t.xrefs)
  unfolding iter_xrefs header_of
  iter_xrefs-table s =
      rw (xrefs_slice-file t p small)
        (collect-all t.xrefs _ xref_out (xref_at-table t.xrefs p.xrefs s))

  iter_inherits-table : IsSorted t.inh → iter_inherits (index_of t) ≡ done (map pair_out t.inh)
  unfolding iter_inherits header_of
  iter_inherits-table s =
      rw (inh_slice-file t p small) (collect-all t.inh _ pair_out (pair_at-table t.inh p.inh s))

module _ (b : IndexBuilder) (w : IsWritable b) where
  -- On the file that `finish` writes, below 2^64 bytes, for a builder whose values fit their types,
  -- `iter_xrefs` and `iter_inherits` run to their ends without a panic, and yield the references
  -- and the inheritance edges that were added, sorted and each once.
  pub iter_edges_lem :
      (iter_xrefs (index_of (tables_of b)) ≡ done (map xref_out (sort_dedup b.xrefs)))
      × (iter_inherits (index_of (tables_of b)) ≡ done (map pair_out (sort_dedup b.inherits)))
  unfolding tables_of
  iter_edges_lem = (
    iter_xrefs-table (tables_of b) (IsWritable→IsPackable b w) w.1
        (IsStrict→IsSorted (sort_dedup b.xrefs) (sort_dedup-IsStrict b.xrefs)),
    iter_inherits-table (tables_of b) (IsWritable→IsPackable b w) w.1
        (IsStrict→IsSorted (sort_dedup b.inherits) (sort_dedup-IsStrict b.inherits)),
  )
