-- ===== src/Roundtrip/Lookups.antt =====
-- The lookups of reader.rs on tables that were written: files, types, signatures and symbols.
use scry.Prelude.{
  ℕ, ◌+◌, ◌*◌, ◌^◌, ◌<◌, ◌≡◌, refl, arith, List, [], ◌∷◌, ◌++◌, some, length, map, All, ap, ◌∙◌,
  get_elem?, All-get_elem?, if◌then◌else◌,
}
use mathlib.Core.List.{flatten}
use mathlib.Core.Option
use scry.Bytes.{slice, read_int}
use scry.Format.{table, file_row, type_row, sym_row}
use scry.Format.Rows.{Fits, read_int-table, read_int-pack_first, read_int-pack_later}
use scry.Run.{done}
use scry.Sorted.{Row}
use scry.Text.{is_utf8}
use scry.Reader.Lookup.{
  blob, syms_slice, typed_slice, sig_slice, files_slice, blob_str, bad_utf8, str_at, on_row,
  find_row,
}
use scry.Reader.LookupLaws.{find_row-Looked}
use scry.Writer.Layout.{offsets}
use scry.Writer.Finish.{Tables, header_of, sections_of}
use scry.Roundtrip.Sections.{IsPackable, IsSmall, file-Readable}
use scry.Roundtrip.Whole.{index_of}
use scry.Roundtrip.Strings.{
  rows, IsAscendingBy, find_by, rows-IsKeyed, rows-absent, rows-Present, on_row-Looked,
}

-- A string as `blob_str` shows it.
abbrev pub shown : List ℕ → List ℕ
shown s = if is_utf8 s then s else bad_utf8

-- A row with a key of `w` bytes and the place of a string: the place is read behind the key.
string_row-reads :
    (w n : ℕ) (rs : List Row) (i f off len : ℕ)
    → n ≡ w + 10
    → All (Fits (w ∷ 8 ∷ 2 ∷ [])) rs
    → get_elem? rs i ≡ some (f ∷ off ∷ len ∷ [])
    → (read_int (table (w ∷ 8 ∷ 2 ∷ []) rs) (i * n + w) (i * n + w + 8) ≡ done off)
      × (read_int (table (w ∷ 8 ∷ 2 ∷ []) rs) (i * n + w + 8) (i * n + w + 10) ≡ done len)
string_row-reads w n rs i f off len hn fits e =
    let fit : Fits (w ∷ 8 ∷ 2 ∷ []) (f ∷ off ∷ len ∷ []) =
      All-get_elem? (Fits (w ∷ 8 ∷ 2 ∷ [])) rs i fits e in
    let at8 : i * n + w + 8 ≡ i * n + (w + 8) = omega arith in
    let at10 : i * n + w + 10 ≡ i * n + (w + 10) = omega arith in
    let start : w + 0 ≡ w = omega arith in
    let total : n ≡ w + (8 + (2 + 0)) = omega arith in
    (
      rw at8 (
          read_int-table (w ∷ 8 ∷ 2 ∷ []) rs i w (w + 8) n fits e total (omega arith)
          ∙ rw start at (read_int-pack_later w (8 ∷ 2 ∷ []) f (off ∷ len ∷ []) 0 8)
          ∙ read_int-pack_first 8 (2 ∷ []) off (len ∷ []) fit.1.0),
      rw (at8, at10)
          (read_int-table (w ∷ 8 ∷ 2 ∷ []) rs i (w + 8) (w + 10) n fits e total (omega arith)
            ∙ read_int-pack_later w (8 ∷ 2 ∷ []) f (off ∷ len ∷ []) 8 10
            ∙ read_int-pack_later 8 (2 ∷ []) off (len ∷ []) 0 2
            ∙ read_int-pack_first 2 [] len [] fit.1.1.0),
    )

module _ (t : Tables) (p : IsPackable t) (small : IsSmall t) where
  pub blob-file : blob (index_of t) ≡ done t.blob
  unfolding blob header_of sections_of offsets
  blob-file = (file-Readable t p small).1.1.1.1.1.1.1.1.1.1.1.0

  pub files_slice-file : files_slice (index_of t) ≡ done (table file_row t.files)
  unfolding files_slice header_of sections_of offsets
  files_slice-file = (file-Readable t p small).1.1.1.0

  pub typed_slice-file : typed_slice (index_of t) ≡ done (table type_row t.typed)
  unfolding typed_slice header_of sections_of offsets
  typed_slice-file = (file-Readable t p small).1.1.1.1.1.1.1.1.0

  pub sig_slice-file : sig_slice (index_of t) ≡ done (table type_row t.sig)
  unfolding sig_slice header_of sections_of offsets
  sig_slice-file = (file-Readable t p small).1.1.1.1.1.1.1.1.1.1.0

  pub syms_slice-file : syms_slice (index_of t) ≡ done (table sym_row t.syms)
  unfolding syms_slice header_of sections_of offsets
  syms_slice-file = (file-Readable t p small).1.0

  pub str_at-file :
      (bytes : List ℕ) (at off len : ℕ) {s : List ℕ}
      → read_int bytes at (at + 8) ≡ done off
      → read_int bytes (at + 8) (at + 10) ≡ done len
      → slice t.blob off (off + len) ≡ done s
      → str_at (index_of t) bytes at ≡ done (shown s)
  unfolding str_at blob_str
  str_at-file bytes at off len a b c = rw (a, b, blob-file, c)

  -- A lookup in a table of keys and strings.
  module _ {ℓ} {A : Type ℓ} (key : A → ℕ) (str : A → List ℕ) (w n : ℕ) (hn : n ≡ w + 10)
      (pre post : List ℕ) (xs : List A) (hb : t.blob ≡ pre ++ (flatten (map str xs) ++ post))
      (asc : IsAscendingBy key xs) where
    abbrev place_row : A → ℕ × ℕ → Row
    place_row a q = key a ∷ q.0 ∷ q.1 ∷ []

    abbrev the_rows : List Row
    the_rows = rows str place_row (length pre) xs

    pub lookup-table :
        (k : ℕ)
        → k < 256 ^ w
        → All (Fits (w ∷ 8 ∷ 2 ∷ [])) the_rows
        → on_row
            (find_row (table (w ∷ 8 ∷ 2 ∷ []) the_rows) (length the_rows) n w k)
            (λ i. str_at (index_of t) (table (w ∷ 8 ∷ 2 ∷ []) the_rows) (i * n + w))
          ≡ done (Option.map (λ a. shown (str a)) (find_by key k xs))
    lookup-table k hk fits =
        on_row-Looked the_rows k _ _ (Option.map (λ a. shown (str a)) (find_by key k xs))
          (find_row-Looked w (8 ∷ 2 ∷ []) n the_rows (omega arith) fits
            (rows-IsKeyed key str place_row (λ a q. refl) (length pre) xs asc) k hk)
          (λ e.
            ap (Option.map (λ a. shown (str a)))
              (rows-absent key str place_row (λ a q. refl) k (length pre) xs e))
          (λ i r e found.
            let (a, q, is_a, is_row, string) =
              rows-Present key str place_row (λ a q. refl) k pre post xs found in
            let (reads_off, reads_len) =
              string_row-reads w n the_rows i (key a) q.0 q.1 hn fits (e ∙ ap some is_row) in
            (
              shown (str a),
              str_at-file _ _ q.0 q.1 reads_off reads_len (rw hb string),
              ap (Option.map (λ a. shown (str a))) is_a,
            ))
