-- ===== src/Roundtrip/ByName.antt =====
-- `syms_for_name` of reader.rs on the file that `finish` of writer.rs writes.
use scry.Prelude.{
  ℕ, ◌+◌, ◌*◌, ◌≡◌, refl, arith, [], ◌∷◌, map, select, get_elem?, some, All, All-get_elem?, ◌∙◌,
}
use scry.Bytes.{read_int}
use scry.Format.{table, name_row, name_len}
use scry.Format.Rows.{
  Fits, read_int-table, read_int-table_first, read_int-pack_first, read_int-pack_later,
}
use scry.Run.{done}
use scry.Sorted.{Row, IsSorted, field}
use scry.Reader.Names.{names_slice, name_at, sym_at, sort_dedup_syms, syms_for_name}
use scry.Reader.NamesLaws.{syms_for_name-rows, named}
use scry.Writer.Layout.{offsets}
use scry.Writer.Finish.{Tables, header_of, sections_of, name_bytes}
use scry.Roundtrip.Sections.{IsPackable, IsSmall, file-Readable}
use scry.Roundtrip.Whole.{index_of}
use scry.Roundtrip.Lookups.{str_at-file}
use scry.Roundtrip.NameRows.{IsNameRow, slice-name_bytes}

module _ (t : Tables) (p : IsPackable t) (small : IsSmall t) where
  names_slice-file : names_slice (index_of t) ≡ done (table name_row t.names)
  unfolding names_slice header_of sections_of offsets
  names_slice-file = (file-Readable t p small).1.1.0

  name_row-reads :
      (i : ℕ) (r : Row)
      → get_elem? t.names i ≡ some r
      → (read_int (table name_row t.names) (i * name_len) (i * name_len + 8) ≡ done (field 0 r))
        × (read_int (table name_row t.names) (i * name_len + 8) (i * name_len + 10)
            ≡ done (field 1 r))
        × (read_int (table name_row t.names) (i * name_len + 10) (i * name_len + 18)
            ≡ done (field 2 r))
  name_row-reads i r e = fields r e (All-get_elem? (Fits name_row) t.names i p.names e)
    where
      fields :
          (r : Row)
          → get_elem? t.names i ≡ some r
          → Fits name_row r
          → (read_int (table name_row t.names) (i * name_len) (i * name_len + 8) ≡ done (field 0 r))
            × (read_int (table name_row t.names) (i * name_len + 8) (i * name_len + 10)
                ≡ done (field 1 r))
            × (read_int (table name_row t.names) (i * name_len + 10) (i * name_len + 18)
                ≡ done (field 2 r))
      fields [] e f = elim f [ ]
      fields (a ∷ []) e f = elim f.1 [ ]
      fields (a ∷ b ∷ []) e f = elim f.1.1 [ ]
      fields (a ∷ b ∷ c ∷ d ∷ r) e f = elim f.1.1.1 [ ]
      fields (a ∷ b ∷ c ∷ []) e f = (
        read_int-table_first name_row t.names i 8 18 p.names e refl (omega arith)
            ∙ read_int-pack_first 8 (2 ∷ 8 ∷ []) a (b ∷ c ∷ []) f.0,
        read_int-table name_row t.names i 8 10 18 p.names e refl (omega arith)
            ∙ read_int-pack_later 8 (2 ∷ 8 ∷ []) a (b ∷ c ∷ []) 0 2
            ∙ read_int-pack_first 2 (8 ∷ []) b (c ∷ []) f.1.0,
        read_int-table name_row t.names i 10 18 18 p.names e refl (omega arith)
            ∙ read_int-pack_later 8 (2 ∷ 8 ∷ []) a (b ∷ c ∷ []) 2 10
            ∙ read_int-pack_later 2 (8 ∷ []) b (c ∷ []) 0 8
            ∙ read_int-pack_first 8 [] c [] f.1.1.0,
      )

  names-read :
      All (IsNameRow t.blob) t.names
      → (i : ℕ) (r : Row) → get_elem? t.names i ≡ some r
      → (name_at (index_of t) (table name_row t.names) i ≡ done (name_bytes t.blob r))
        × (sym_at (table name_row t.names) i ≡ done (field 2 r))
  unfolding name_at sym_at
  names-read h i r e =
      let (off, len, key) = name_row-reads i r e in
      let (inside, valid) = All-get_elem? (IsNameRow t.blob) t.names i h e in
      (
        str_at-file t p small _ (i * name_len) (field 0 r) (field 1 r) off len
              (slice-name_bytes t.blob r inside)
            ∙ rw valid refl,
        key,
      )

  pub syms_for_name-table :
      (q : Row)
      → All (IsNameRow t.blob) t.names
      → IsSorted (map (name_bytes t.blob) t.names)
      → syms_for_name (index_of t) q
        ≡ done (sort_dedup_syms (map (field 2) (select (named (name_bytes t.blob) q) t.names)))
  syms_for_name-table q h s =
      syms_for_name-rows (index_of t) (table name_row t.names) t.names (name_bytes t.blob)
        (unfold header_of in refl) names_slice-file (names-read h) s q
