-- ===== src/Roundtrip/Found.antt =====
-- The lookups of reader.rs on the file that `finish` of writer.rs writes, against what was added.
use scry.Prelude.{ℕ, ◌<◌, ◌≡◌, refl, List, [], ◌++◌, none, map, ap, ◌∙◌}
use mathlib.Core.List.{append-nil, append_assoc, flatten}
use mathlib.Core.Option
use scry.Bytes.{u64_mod, u32_mod}
use scry.Run.{done}
use scry.Sorted.{Row, field, sort_by}
use scry.Sorted.SortLaws.{sort_dedup-IsStrict, IsStrict→IsSorted}
use scry.Text.Clamp.{clamp_blob_str}
use scry.Reader.Lookup.{file_path, type_of, sig_of}
use scry.Writer.Builder.{IndexBuilder, SymInfo, sort_dedup}
use scry.Writer.Finish.{tables_of, header_of, string_of, first_per_sym, by_key, kept_aliases}
use scry.Writer.MergeByKey.{lookup}
use scry.Roundtrip.Sections.{IsPackable}
use scry.Roundtrip.Whole.{index_of, IsWritable, IsWritable→IsPackable}
use scry.Roundtrip.Strings.{find_by}
use scry.Roundtrip.Keyed.{
  IsMap, sort_by-IsAscending, lookup-sort_by, find_by-lookup, first_per_sym-IsAscendingBy,
  find_by-first_per_sym,
}
use scry.Roundtrip.Lookups.{shown, lookup-table, files_slice-file, typed_slice-file, sig_slice-file}

-- The string of the first row of a symbol, as a reader shows it.
abbrev pub shown_row : Row → List ℕ
shown_row r = shown (clamp_blob_str (string_of r))

-- Where each group of strings stands in the blob.
module _ (n a p t s : List ℕ) where
  pub names_at : (((n ++ a) ++ p) ++ t) ++ s ≡ [] ++ (n ++ (a ++ (p ++ (t ++ s))))
  names_at = simp append_assoc

  paths_at : (((n ++ a) ++ p) ++ t) ++ s ≡ (n ++ a) ++ (p ++ (t ++ s))
  paths_at = simp append_assoc

  typed_at : (((n ++ a) ++ p) ++ t) ++ s ≡ ((n ++ a) ++ p) ++ (t ++ s)
  typed_at = simp append_assoc

  sig_at : (((n ++ a) ++ p) ++ t) ++ s ≡ (((n ++ a) ++ p) ++ t) ++ (s ++ [])
  sig_at = simp (append_assoc, append-nil)

-- The groups of strings of a builder's file.
module _ (b : IndexBuilder) where
  abbrev pub names : List ℕ
  names = flatten (map (λ (e : ℕ × SymInfo). clamp_blob_str e.1.name) (sort_by by_key b.syms))

  abbrev pub aliases : List ℕ
  aliases = flatten (map (λ r. clamp_blob_str (string_of r)) (kept_aliases b))

  abbrev pub paths : List ℕ
  paths = flatten (map (λ (e : ℕ × List ℕ). clamp_blob_str e.1) (sort_by by_key b.files))

  abbrev pub types : List ℕ
  types =
      flatten (map (λ r. clamp_blob_str (string_of r)) (first_per_sym none (sort_dedup b.typed)))

  abbrev pub sigs : List ℕ
  sigs = flatten (map (λ r. clamp_blob_str (string_of r)) (first_per_sym none (sort_dedup b.sig)))

module _ (b : IndexBuilder) (w : IsWritable b) where
  packable : IsPackable (tables_of b)
  packable = IsWritable→IsPackable b w

  -- `file_path` answers with the path that the file was given, cut to what its length field can
  -- hold and `<bad utf8>` in place of invalid UTF-8, and with none for a file that was not added.
  pub file_path_lem :
      (file : ℕ)
      → IsMap b.files
      → file < u32_mod
      → file_path (index_of (tables_of b)) file
        ≡ done (Option.map (λ p. shown (clamp_blob_str p)) (lookup file b.files))
  unfolding tables_of file_path header_of
  file_path_lem file m h =
      rw (files_slice-file (tables_of b) packable w.1, ← lookup-sort_by file b.files)
        (lookup-table (tables_of b) packable w.1 (λ e. e.0) (λ e. clamp_blob_str e.1) 4 14 refl
            (names b ++ aliases b) (types b ++ sigs b) (sort_by by_key b.files)
            (paths_at (names b) (aliases b) (paths b) (types b) (sigs b))
            (sort_by-IsAscending b.files m) file h packable.files
          ∙ ap done (find_by-lookup _ _ file (sort_by by_key b.files) (λ e. refl)))

  -- `type_of` answers with the least of the types that were recorded for the symbol, cut to what its
  -- length field can hold and `<bad utf8>` in place of invalid UTF-8, and with none for a symbol
  -- without a type.
  pub type_of_lem :
      (key : ℕ)
      → key < u64_mod
      → type_of (index_of (tables_of b)) key
        ≡ done (Option.map shown_row (find_by (field 0) key (sort_dedup b.typed)))
  unfolding tables_of type_of header_of
  type_of_lem key h =
      rw
        (
          typed_slice-file (tables_of b) packable w.1,
          ← find_by-first_per_sym key (sort_dedup b.typed),
        )
        (lookup-table (tables_of b) packable w.1 (field 0) (λ r. clamp_blob_str (string_of r)) 8 18
          refl ((names b ++ aliases b) ++ paths b) (sigs b)
          (first_per_sym none (sort_dedup b.typed))
          (typed_at (names b) (aliases b) (paths b) (types b) (sigs b))
          (first_per_sym-IsAscendingBy (sort_dedup b.typed)
            (IsStrict→IsSorted _ (sort_dedup-IsStrict b.typed)))
          key h packable.typed)

  -- `sig_of` answers with the least of the signatures that were recorded for the symbol, cut to what
  -- its length field can hold and `<bad utf8>` in place of invalid UTF-8, and with none for a symbol
  -- without a signature.
  pub sig_of_lem :
      (key : ℕ)
      → key < u64_mod
      → sig_of (index_of (tables_of b)) key
        ≡ done (Option.map shown_row (find_by (field 0) key (sort_dedup b.sig)))
  unfolding tables_of sig_of header_of
  sig_of_lem key h =
      rw (sig_slice-file (tables_of b) packable w.1, ← find_by-first_per_sym key (sort_dedup b.sig))
        (lookup-table (tables_of b) packable w.1 (field 0) (λ r. clamp_blob_str (string_of r)) 8 18
          refl (((names b ++ aliases b) ++ paths b) ++ types b) []
          (first_per_sym none (sort_dedup b.sig))
          (sig_at (names b) (aliases b) (paths b) (types b) (sigs b))
          (first_per_sym-IsAscendingBy (sort_dedup b.sig)
            (IsStrict→IsSorted _ (sort_dedup-IsStrict b.sig)))
          key h packable.sig)
