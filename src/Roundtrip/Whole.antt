-- ===== src/Roundtrip/Whole.antt =====
-- What is added to the builder of writer.rs is written by `finish` to a file that
-- `Index::open` of reader.rs opens.
use scry.Prelude.{◌<◌, ◌≡◌, arith, length}
use scry.Bytes.{u64_mod}
use scry.Reader.{Index}
use scry.Reader.Open.{ok, open'}
use scry.Writer.Builder.{IndexBuilder}
use scry.Writer.Finish.{Tables, tables_of, header_of, finish, sections_of}
use scry.Roundtrip.Sections.{IsPackable, IsSmall, file}
use scry.Roundtrip.Opened.{open-file}
use scry.Roundtrip.Fields.{IsTyped, tables_of-IsPackable}

-- The index over the written tables.
abbrev pub index_of : Tables → Index
index_of t = record { bytes = file t; hdr = header_of t }

-- The builder holds values of the right types, and its file is not too long.
abbrev pub IsWritable : IndexBuilder → Type 0
IsWritable b = IsTyped b × IsSmall (tables_of b)

blob_small : (t : Tables) → IsSmall t → length t.blob < u64_mod
unfolding sections_of
blob_small t h = omega arith

pub IsWritable→IsPackable : (b : IndexBuilder) → IsWritable b → IsPackable (tables_of b)
IsWritable→IsPackable b w = tables_of-IsPackable b w.0 (blob_small (tables_of b) w.1)

-- The file that `finish` writes opens, to the index over its bytes with the header that was written.
pub open-finish : (b : IndexBuilder) → IsWritable b → open' (finish b) ≡ ok (index_of (tables_of b))
unfolding finish
open-finish b w = open-file (tables_of b) (IsWritable→IsPackable b w) w.1
