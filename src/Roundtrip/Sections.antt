-- ===== src/Roundtrip/Sections.antt =====
-- The file that `finish` of writer.rs leaves: every section lies in it, at its place.
use scry.Prelude.{ℕ, ◌+◌, ◌<◌, ◌≤◌, ◌≡◌, refl, sym, arith, List, length, All, ap, length-append}
use scry.Bytes.{u64_mod}
use scry.Format.{
  magic, version, header_len, xref_row, sym_row, name_row, file_row, inh_row, call_row, type_row,
}
use scry.Format.Rows.{Fits, length-table}
use scry.Format.HeaderBytes.{header_bytes}
use scry.Reader.HeaderLaws.{length-header_bytes}
use scry.Writer.Layout.{file_of}
use scry.Writer.LayoutLaws.{
  IsMeasured, size, image, Readable, Within, file_of-Readable, file_of-image, length-file_of,
  total-size, Readable→Within,
}
use scry.Writer.Finish.{Tables, sections_of, header_of}

-- The fields of every row are within the widths of its layout.
pub record IsPackable (t : Tables) : Type 0 where
  pub xrefs : All (Fits xref_row) t.xrefs
  pub syms : All (Fits sym_row) t.syms
  pub names : All (Fits name_row) t.names
  pub files : All (Fits file_row) t.files
  pub inh : All (Fits inh_row) t.inh
  pub inhrev : All (Fits inh_row) t.inhrev
  pub calls : All (Fits call_row) t.calls
  pub crev : All (Fits call_row) t.crev
  pub typed : All (Fits type_row) t.typed
  pub childrev : All (Fits inh_row) t.childrev
  pub sig : All (Fits type_row) t.sig

-- The file is shorter than 2^64 bytes, a page for each section counted in.
abbrev pub IsSmall : Tables → Type 0
IsSmall t = header_len + size (sections_of t) < u64_mod

module _ (t : Tables) (p : IsPackable t) where
  pub sections_of-IsMeasured : IsMeasured (sections_of t)
  unfolding sections_of
  sections_of-IsMeasured = (
    sym (length-table xref_row t.xrefs p.xrefs),
    (
      sym (length-table sym_row t.syms p.syms),
      (
        sym (length-table name_row t.names p.names),
        (
          sym (length-table file_row t.files p.files),
          (
            sym (length-table inh_row t.inh p.inh),
            (
              sym (length-table inh_row t.inhrev p.inhrev),
              (
                sym (length-table call_row t.calls p.calls),
                (
                  sym (length-table call_row t.crev p.crev),
                  (
                    sym (length-table type_row t.typed p.typed),
                    (
                      sym (length-table inh_row t.childrev p.childrev),
                      (sym (length-table type_row t.sig p.sig), (refl, (refl, (refl, tt)))),
                    ),
                  ),
                ),
              ),
            ),
          ),
        ),
      ),
    ),
  )

-- The bytes of the file.
abbrev pub file : Tables → List ℕ
file t = file_of (header_bytes (header_of t)) (sections_of t)

module _ (t : Tables) (p : IsPackable t) (small : IsSmall t) where
  pub header_magic : (header_of t).magic ≡ magic
  unfolding header_of
  header_magic = refl

  pub header_version : (header_of t).version ≡ version
  unfolding header_of
  header_version = refl

  pub length-header : length (header_bytes (header_of t)) ≡ header_len
  length-header = length-header_bytes (header_of t) (ap length header_magic)

  pub fits : length (header_bytes (header_of t)) + size (sections_of t) ≤ u64_mod
  fits = omega (arith, length-header, small)

  pub file-Readable : Readable (file t) header_len (sections_of t)
  file-Readable =
      rw length-header at
        (file_of-Readable (header_bytes (header_of t)) (sections_of t) (sections_of-IsMeasured t p)
          fits).1

  pub length-file : length (file t) < u64_mod
  length-file = omega (
    arith,
    length-file_of (header_bytes (header_of t)) (sections_of t) (sections_of-IsMeasured t p) fits,
    total-size (sections_of t) (length (header_bytes (header_of t))) fits,
    fits,
    length-header,
    small,
  )

  pub header_fits : header_len ≤ length (file t)
  header_fits =
      rw
        (file_of-image (header_bytes (header_of t)) (sections_of t) (sections_of-IsMeasured t p)
          fits)
        (omega (
          arith,
          length-header,
          length-append (header_bytes (header_of t))
              (image (length (header_bytes (header_of t))) (sections_of t)),
        ))

  pub within : Within (length (file t)) header_len (sections_of t)
  within = Readable→Within (file t) (sections_of t) header_len file-Readable
