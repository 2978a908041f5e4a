-- ===== src/Roundtrip/NameIndex.antt =====
-- Every name and alias that was added is found again by `syms_for_name` of reader.rs.
use scry.Prelude.{
  ℕ, ◌≡◌, refl, sym, arith, List, [], ◌∷◌, ◌++◌, true, ◌||◌, ◌&&◌, not, length, map, All, All-map,
  All-append, ap, ◌∙◌, length-append, select_congr,
}
use mathlib.Core.List.{append_assoc}
use scry.Bytes.{cmp}
use scry.Run.{done}
use scry.Sorted.{Row, IsSorted, field, is_eq, sort_by, contains}
use scry.Text.{is_utf8}
use scry.Text.Clamp.{clamp_blob_str, clamp_blob_str_lem}
use scry.Reader.Names.{syms_for_name}
use scry.Reader.NamesLaws.{named}
use scry.Writer.Builder.{IndexBuilder, SymInfo}
use scry.Writer.Finish.{tables_of, name_bytes, name_order, by_key, string_of, kept_aliases}
use scry.Roundtrip.Whole.{index_of, IsWritable, IsWritable→IsPackable}
use scry.Roundtrip.Preserved.{All-sort_by}
use scry.Roundtrip.Aliases.{is_variable, holds-kept_aliases}
use scry.Roundtrip.Fields.{kept_aliases-All}
use scry.Roundtrip.Found.{names, aliases, paths, types, sigs}
use scry.Roundtrip.Symbols.{sym_name}
use scry.Roundtrip.NameRows.{
  IsNameRow, name_rows, name_rows-IsNameRow, name_bytes-append, sort_by-IsSorted,
}
use scry.Roundtrip.Named.{
  holds, found, found-append, found-sort_by, found-name_rows, holds-sort_by,
  contains-sort_dedup_syms,
}
use scry.Roundtrip.ByName.{syms_for_name-table}

-- The names and the aliases are valid strings.
abbrev pub IsNamed : IndexBuilder → Type 0
IsNamed b =
    All (λ e. is_utf8 e.1.name ≡ true) b.syms × All (λ r. is_utf8 (string_of r) ≡ true) b.aliases

abbrev pub alias_name : Row → List ℕ
alias_name r = clamp_blob_str (string_of r)

-- More bytes behind the blob change nothing for the rows that point into it.
module _ (blob more : List ℕ) where
  widen : (r : Row) → IsNameRow blob r → IsNameRow (blob ++ more) r
  widen r h =
      (omega (arith, h.0, length-append blob more), rw (name_bytes-append blob more r h.0) h.1)

  same_names :
      (rs : List Row)
      → All (IsNameRow blob) rs
      → map (name_bytes (blob ++ more)) rs ≡ map (name_bytes blob) rs
  same_names [] h = refl
  same_names (r ∷ rs) h = rw (name_bytes-append blob more r h.0.0, same_names rs h.1) refl

  same_found :
      (q : List ℕ) (s : ℕ) (rs : List Row)
      → All (IsNameRow blob) rs
      → found (name_bytes (blob ++ more)) q s rs ≡ found (name_bytes blob) q s rs
  unfolding named
  same_found q s rs h =
      ap (λ l. contains s (map (field 2) l))
        (select_congr _ _ rs
          (All-map (λ r g. ap (λ n. is_eq (cmp n q)) (name_bytes-append blob more r g.0)) rs h))

module _ (b : IndexBuilder) (v : IsNamed b) where
  abbrev syms_vec : List (ℕ × SymInfo)
  syms_vec = sort_by by_key b.syms

  -- The blob up to the paths, and the name rows before and after sorting.
  abbrev front : List ℕ
  front = (names b ++ aliases b) ++ paths b

  abbrev placed : List Row
  placed =
      name_rows (λ (e : ℕ × SymInfo). e.0) sym_name 0 syms_vec
      ++ name_rows (field 0) alias_name (length (names b)) (kept_aliases b)

  syms_at : [] ++ (names b ++ (aliases b ++ paths b)) ≡ front
  syms_at = sym (append_assoc (names b) (aliases b) (paths b))

  aliases_at : names b ++ (aliases b ++ paths b) ≡ front
  aliases_at = sym (append_assoc (names b) (aliases b) (paths b))

  placed-IsNameRow : All (IsNameRow front) placed
  placed-IsNameRow =
      All-append (IsNameRow front) _ _
        (rw syms_at at (
          name_rows-IsNameRow (λ (e : ℕ × SymInfo). e.0) sym_name [] (aliases b ++ paths b) syms_vec
            (All-map (λ e h. (clamp_blob_str_lem e.1.name h).1) _
              (All-sort_by _ by_key b.syms v.0))))
        (rw aliases_at at (
          name_rows-IsNameRow (field 0) alias_name (names b) (paths b) (kept_aliases b)
            (All-map (λ r h. (clamp_blob_str_lem (string_of r) h).1) _ (kept_aliases-All _ b v.1))))

  -- What the rows before sorting hold for a name.
  placed-holds :
      (q : List ℕ) (s : ℕ)
      → found (name_bytes front) q s placed ≡ (
          holds (λ (e : ℕ × SymInfo). e.0) sym_name q s b.syms
          || holds (field 0) alias_name q s (kept_aliases b))
  placed-holds q s =
      found-append (name_bytes front) q s (name_rows (λ (e : ℕ × SymInfo). e.0) sym_name 0 syms_vec)
        (name_rows (field 0) alias_name (length (names b)) (kept_aliases b))
      ∙ rw
          (
            rw syms_at at (
                found-name_rows (λ (e : ℕ × SymInfo). e.0) sym_name q s [] (aliases b ++ paths b)
                  syms_vec),
            rw aliases_at at
                (found-name_rows (field 0) alias_name q s (names b) (paths b) (kept_aliases b)),
            holds-sort_by (λ (e : ℕ × SymInfo). e.0) sym_name q s by_key b.syms,
          )
          refl

  -- The same on the rows of the file and its whole blob.
  whole : front ++ (types b ++ sigs b) ≡ (front ++ types b) ++ sigs b
  whole = sym (append_assoc front (types b) (sigs b))

  abbrev sorted : List Row
  sorted = sort_by (name_order front) placed

  sorted-IsNameRow : All (IsNameRow front) sorted
  sorted-IsNameRow = All-sort_by (IsNameRow front) (name_order front) placed placed-IsNameRow

  file-IsNameRow : All (IsNameRow ((front ++ types b) ++ sigs b)) sorted
  file-IsNameRow =
      rw whole at (All-map (λ r h. widen front (types b ++ sigs b) r h) sorted sorted-IsNameRow)

  file-IsSorted : IsSorted (map (name_bytes ((front ++ types b) ++ sigs b)) sorted)
  file-IsSorted =
      let wide : IsSorted (map (name_bytes (front ++ (types b ++ sigs b))) sorted) =
        rw (same_names front (types b ++ sigs b) sorted sorted-IsNameRow)
          (sort_by-IsSorted front placed) in
      rw whole at wide

  file-holds :
      (q : List ℕ) (s : ℕ)
      → found (name_bytes ((front ++ types b) ++ sigs b)) q s sorted ≡ (
          holds (λ (e : ℕ × SymInfo). e.0) sym_name q s b.syms
          || holds (field 0) alias_name q s (kept_aliases b))
  file-holds q s =
      rw whole at (same_found front (types b ++ sigs b) q s sorted sorted-IsNameRow)
      ∙ found-sort_by (name_bytes front) q s (name_order front) placed
      ∙ placed-holds q s

module _ (b : IndexBuilder) (w : IsWritable b) where
  -- `syms_for_name` answers, for names and aliases of valid UTF-8, with exactly the symbols whose
  -- name is the query, or that the builder does not have as variables and one of whose aliases is
  -- the query. Names and aliases count as they are cut to their length field.
  pub syms_for_name_lem :
      (query : List ℕ) (key : ℕ)
      → IsNamed b
      → (out : List ℕ) × (syms_for_name (index_of (tables_of b)) query ≡ done out)
        × (contains key out ≡ (
            holds (λ (e : ℕ × SymInfo). e.0) sym_name query key b.syms
            || (not (is_variable key b.syms) && holds (field 0) alias_name query key b.aliases)))
  unfolding tables_of
  syms_for_name_lem query key v = (
    _,
    syms_for_name-table (tables_of b) (IsWritable→IsPackable b w) w.1 query (file-IsNameRow b v)
        (file-IsSorted b v),
    contains-sort_dedup_syms key _
        ∙ file-holds b v query key
        ∙ ap (λ a. holds (λ (e : ℕ × SymInfo). e.0) sym_name query key b.syms || a)
            (holds-kept_aliases alias_name query key b),
  )
