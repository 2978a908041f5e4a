-- ===== src/Examples/Sample.antt =====
-- A builder with a field and a variable that have one alias, a file and an edge of each kind, and the tables of the standard library
-- as far as ASCII goes.
use scry.Prelude.{refl, arith, [], ◌∷◌, leb, ◌==◌, ◌||◌, ◌&&◌, ltb→lt}
use mathlib.Core.List.{flatten}
use scry.Bytes.{cmp, to_be_bytes}
use scry.Format.{table, pack}
use scry.Format.Varint.{varint_len, varint_len_loop, write_varint, write_varint_loop}
use scry.Sorted.{sort_unstable, insert_row, dedup, dedup_behind, sort_by, insert_by, contains}
use scry.Text.{Unicode}
use scry.Text.Clamp.{clamp_blob_str, clamp_to}
use scry.Writer.Builder.{IndexBuilder}
use scry.Writer.Finish.{
  tables_of, sections_of, place, first_per_sym, zip_with, name_bytes, name_order, kept_aliases,
}
use scry.Writer.Trigram.{
  build_trigram_index, visit, windows, distinct_from, delta_of, count_posting, at_key, update_key,
  count_pass, assign_regions, overwrite, write_posting, write_pass,
}
use scry.Roundtrip.Fields.{IsTyped}
use scry.Roundtrip.Sections.{IsSmall}
use scry.Roundtrip.Whole.{IsWritable}
use scry.Roundtrip.Keyed.{IsMap}

abbrev pub ascii : Unicode
ascii = record {
  is_alphanumeric =
      λ c. (leb 48 c && leb c 57) || ((leb 65 c && leb c 90) || (leb 97 c && leb c 122));
  is_whitespace = λ c. c == 32;
}

abbrev pub sample : IndexBuilder
sample = record {
  xrefs = (1 ∷ 2 ∷ 7 ∷ 10 ∷ []) ∷ (1 ∷ 1 ∷ 7 ∷ 3 ∷ []) ∷ (2 ∷ 1 ∷ 7 ∷ 20 ∷ []) ∷ [];
  syms =
      (2, record { kind = 3; lang = 1; name = b'a' ∷ b'b' ∷ b'c' ∷ [] })
      ∷ (1, record { kind = 4; lang = 1; name = b'A' ∷ [] })
      ∷ [];
  files = (7, b'f' ∷ []) ∷ [];
  inherits = (1 ∷ 2 ∷ []) ∷ [];
  aliases = (1 ∷ b'w' ∷ []) ∷ (2 ∷ b'w' ∷ []) ∷ [];
  calls = (1 ∷ 2 ∷ 1 ∷ []) ∷ [];
  typed = (1 ∷ b'i' ∷ []) ∷ [];
  childof = (2 ∷ 1 ∷ []) ∷ [];
  sig = (1 ∷ b'v' ∷ []) ∷ [];
}

sample-IsTyped : IsTyped sample
sample-IsTyped = record {
  xrefs = omega arith;
  syms = omega arith;
  files = omega arith;
  inherits = omega arith;
  aliases = omega arith;
  calls = omega arith;
  typed = omega arith;
  childof = omega arith;
  sig = omega arith;
}

sample-IsSmall : IsSmall (tables_of sample)
unfolding flatten sections_of tables_of place first_per_sym zip_with name_bytes name_order
    kept_aliases build_trigram_index visit windows distinct_from delta_of count_posting at_key
    update_key count_pass assign_regions overwrite write_posting write_pass sort_unstable insert_row
    dedup dedup_behind sort_by insert_by contains clamp_blob_str clamp_to cmp to_be_bytes varint_len
    varint_len_loop write_varint write_varint_loop table pack
sample-IsSmall = ltb→lt _ _ refl

pub sample-IsWritable : IsWritable sample
sample-IsWritable = (sample-IsTyped, sample-IsSmall)

pub sample_files-IsMap : IsMap sample.files
sample_files-IsMap = (tt, tt)

pub sample_syms-IsMap : IsMap sample.syms
sample_syms-IsMap = ((λ e. absurd (omega arith), tt), (tt, tt))
