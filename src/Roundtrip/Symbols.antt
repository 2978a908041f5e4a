-- ===== src/Roundtrip/Symbols.antt =====
-- `sym_meta` of reader.rs on the file that `finish` of writer.rs writes.
use scry.Prelude.{
  ℕ, ◌+◌, ◌*◌, ◌<◌, ◌≡◌, refl, sym, arith, List, [], ◌∷◌, ◌++◌, some, All, ap, ◌∙◌, get_elem?,
  All-get_elem?,
}
use mathlib.Core.Option
use scry.Bytes.{u64_mod, read_int}
use scry.Format.{table, sym_row, sym_len}
use scry.Format.Rows.{Fits, read_int-table, read_int-pack_first, read_int-pack_later}
use scry.Run.{done}
use scry.Sorted.{Row, sort_by}
use scry.Text.Clamp.{clamp_blob_str}
use scry.Reader.Lookup.{sym_meta}
use scry.Reader.LookupLaws.{find_row-Looked}
use scry.Writer.Builder.{IndexBuilder, SymInfo}
use scry.Writer.Finish.{tables_of, header_of, by_key}
use scry.Writer.MergeByKey.{lookup}
use scry.Roundtrip.Sections.{IsPackable}
use scry.Roundtrip.Whole.{index_of, IsWritable, IsWritable→IsPackable}
use scry.Roundtrip.Strings.{rows, rows-IsKeyed, rows-absent, rows-Present, on_row-Looked}
use scry.Roundtrip.Keyed.{IsMap, sort_by-IsAscending, lookup-sort_by, find_by-lookup}
use scry.Roundtrip.Lookups.{shown, str_at-file, syms_slice-file}
use scry.Roundtrip.Found.{names_at, names, aliases, paths, types, sigs}

sym_row-reads :
    (rs : List Row) (i key kind lang off len : ℕ)
    → All (Fits sym_row) rs
    → get_elem? rs i ≡ some (key ∷ kind ∷ lang ∷ off ∷ len ∷ [])
    → (read_int (table sym_row rs) (i * sym_len + 8) (i * sym_len + 9) ≡ done kind)
      × (read_int (table sym_row rs) (i * sym_len + 9) (i * sym_len + 10) ≡ done lang)
      × (read_int (table sym_row rs) (i * sym_len + 10) (i * sym_len + 10 + 8) ≡ done off)
      × (read_int (table sym_row rs) (i * sym_len + 10 + 8) (i * sym_len + 10 + 10) ≡ done len)
sym_row-reads rs i key kind lang off len fits e =
    let fit : Fits sym_row (key ∷ kind ∷ lang ∷ off ∷ len ∷ []) =
      All-get_elem? (Fits sym_row) rs i fits e in
    let at18 : i * sym_len + 10 + 8 ≡ i * sym_len + 18 = omega arith in
    let at20 : i * sym_len + 10 + 10 ≡ i * sym_len + 20 = omega arith in
    (
      read_int-table sym_row rs i 8 9 20 fits e refl (omega arith)
          ∙ read_int-pack_later 8 (1 ∷ 1 ∷ 8 ∷ 2 ∷ []) key (kind ∷ lang ∷ off ∷ len ∷ []) 0 1
          ∙ read_int-pack_first 1 (1 ∷ 8 ∷ 2 ∷ []) kind (lang ∷ off ∷ len ∷ []) fit.1.0,
      read_int-table sym_row rs i 9 10 20 fits e refl (omega arith)
          ∙ read_int-pack_later 8 (1 ∷ 1 ∷ 8 ∷ 2 ∷ []) key (kind ∷ lang ∷ off ∷ len ∷ []) 1 2
          ∙ read_int-pack_later 1 (1 ∷ 8 ∷ 2 ∷ []) kind (lang ∷ off ∷ len ∷ []) 0 1
          ∙ read_int-pack_first 1 (8 ∷ 2 ∷ []) lang (off ∷ len ∷ []) fit.1.1.0,
      rw at18 (
          read_int-table sym_row rs i 10 18 20 fits e refl (omega arith)
          ∙ read_int-pack_later 8 (1 ∷ 1 ∷ 8 ∷ 2 ∷ []) key (kind ∷ lang ∷ off ∷ len ∷ []) 2 10
          ∙ read_int-pack_later 1 (1 ∷ 8 ∷ 2 ∷ []) kind (lang ∷ off ∷ len ∷ []) 1 9
          ∙ read_int-pack_later 1 (8 ∷ 2 ∷ []) lang (off ∷ len ∷ []) 0 8
          ∙ read_int-pack_first 8 (2 ∷ []) off (len ∷ []) fit.1.1.1.0),
      rw (at18, at20)
          (read_int-table sym_row rs i 18 20 20 fits e refl (omega arith)
            ∙ read_int-pack_later 8 (1 ∷ 1 ∷ 8 ∷ 2 ∷ []) key (kind ∷ lang ∷ off ∷ len ∷ []) 10 12
            ∙ read_int-pack_later 1 (1 ∷ 8 ∷ 2 ∷ []) kind (lang ∷ off ∷ len ∷ []) 9 11
            ∙ read_int-pack_later 1 (8 ∷ 2 ∷ []) lang (off ∷ len ∷ []) 8 10
            ∙ read_int-pack_later 8 (2 ∷ []) off (len ∷ []) 0 2
            ∙ read_int-pack_first 2 [] len [] fit.1.1.1.1.0),
    )

-- The row of a symbol, and what `sym_meta` makes of it.
abbrev place_sym : ℕ × SymInfo → ℕ × ℕ → Row
place_sym e q = e.0 ∷ e.1.kind ∷ e.1.lang ∷ q.0 ∷ q.1 ∷ []

abbrev pub shown_info : SymInfo → List ℕ × ℕ × ℕ
shown_info i = (shown (clamp_blob_str i.name), i.kind, i.lang)

abbrev pub sym_name : ℕ × SymInfo → List ℕ
sym_name e = clamp_blob_str e.1.name

module _ (b : IndexBuilder) (w : IsWritable b) where
  packable : IsPackable (tables_of b)
  packable = IsWritable→IsPackable b w

  -- `sym_meta` answers with the name, the kind and the language that the builder holds for the
  -- symbol, the name cut to what its length field can hold and `<bad utf8>` in place of invalid UTF-8,
  -- and with none for any other symbol.
  pub sym_meta_lem :
      (key : ℕ)
      → IsMap b.syms
      → key < u64_mod
      → sym_meta (index_of (tables_of b)) key ≡ done (Option.map shown_info (lookup key b.syms))
  unfolding tables_of sym_meta header_of
  sym_meta_lem key m h =
      rw (syms_slice-file (tables_of b) packable w.1, ← lookup-sort_by key b.syms)
        (on_row-Looked (rows sym_name place_sym 0 xs) key _ _ _
          (find_row-Looked 8 (1 ∷ 1 ∷ 8 ∷ 2 ∷ []) 20 _ refl packable.syms
            (rows-IsKeyed (λ e. e.0) sym_name place_sym (λ e q. refl) 0 xs
              (sort_by-IsAscending b.syms m))
            key h)
          (λ e.
            sym (find_by-lookup _ shown_info key xs (λ e. refl))
            ∙ ap (Option.map (λ a. shown_info a.1))
                (rows-absent (λ e. e.0) sym_name place_sym (λ e q. refl) key 0 xs e))
          (λ i r e found.
            let (a, q, is_a, is_row, string) =
              rows-Present (λ e. e.0) sym_name place_sym (λ e q. refl) key []
                (aliases b ++ (paths b ++ (types b ++ sigs b))) xs found in
            let (kind, lang, off, len) =
              sym_row-reads _ i a.0 a.1.kind a.1.lang q.0 q.1 packable.syms (e ∙ ap some is_row) in
            (
              shown_info a.1,
              rw (
                kind,
                lang,
                str_at-file (tables_of b) packable w.1 _ _ q.0 q.1 {s = sym_name a} off len
                    (rw (names_at (names b) (aliases b) (paths b) (types b) (sigs b)) string),
              ),
              sym (find_by-lookup _ shown_info key xs (λ e. refl))
                  ∙ ap (Option.map (λ a. shown_info a.1)) is_a,
            )))
    where
      xs : List (ℕ × SymInfo)
      xs = sort_by by_key b.syms
