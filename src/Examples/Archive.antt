-- ===== src/Examples/Archive.antt =====
-- The theorems on compilation units and the shard cache, at small values.
use scry.Prelude.{◌≡◌, ◌↔◌, refl, arith, List, [], ◌∷◌, some, inl}
use scry.Text.{is_utf8, utf8_loop, lead_of}
use scry.Text.Str.{ascii as literal, one_of}
use scry.Kythe.Wire.{no_vname, varint, varint_bytes}
use scry.Kzip.Codec.{
  FileInput, CompilationUnit, IndexedCompilation, no_unit, parse_indexed_compilation,
  encode_indexed_compilation, encode_compilation_unit, encode_vname, encode_file_info,
  encode_file_input, write_tag_len, write_some, write_all,
}
use scry.Kzip.CodecLaws.{
  IsTextInput, IsTextUnit, parse_indexed_compilation-encode_indexed_compilation,
}
use scry.Kzip.Peek.{filter_unit, filter_decoded}
use scry.Kzip.PeekLaws.{filter_unit-encode}
use scry.Kzip.Units.{listed_path}
use scry.Cache.Digest.{content_of}
use scry.Cache.DigestLaws.{SameContent, content_of_iff}
use scry.Cache.Shards.{CacheOp, stored, finalized, contains, run_ops, cleared}
use scry.Cache.ShardLaws.{run_set, contains-run_ops}

abbrev an_input : FileInput
an_input = record {
  v_name = record no_vname { path = literal "A.java" };
  info = record { path = literal "A"; digest = literal "d" };
}

abbrev a_unit : CompilationUnit
a_unit = record no_unit {
  v_name = record no_vname { language = literal "java" };
  required_input = an_input ∷ [];
  argument = literal "-g" ∷ [];
}

abbrev a_compilation : IndexedCompilation
a_compilation = record { unit = a_unit }

an_input-IsTextInput : IsTextInput an_input
unfolding is_utf8 utf8_loop lead_of encode_vname encode_file_info encode_file_input write_some
    write_tag_len varint varint_bytes
an_input-IsTextInput = (
  (
    (refl, omega arith),
    (refl, omega arith),
    (refl, omega arith),
    (refl, omega arith),
    (refl, omega arith),
  ),
  ((refl, omega arith), (refl, omega arith)),
  omega arith,
  omega arith,
  omega arith,
)

a_unit-IsTextUnit : IsTextUnit a_unit
unfolding is_utf8 utf8_loop lead_of encode_vname write_some write_tag_len varint varint_bytes
a_unit-IsTextUnit = record {
  v_name = (
    (refl, omega arith),
    (refl, omega arith),
    (refl, omega arith),
    (refl, omega arith),
    (refl, omega arith),
  );
  required_input = (an_input-IsTextInput, tt);
  argument = ((refl, omega arith), tt);
  source_file = tt;
  output_key = (refl, omega arith);
  working_directory = (refl, omega arith);
  entry_context = (refl, omega arith);
  within = omega arith;
}

parse_indexed_compilation-encode_indexed_compilation_example :
    parse_indexed_compilation (encode_indexed_compilation a_compilation) ≡ some a_compilation
unfolding encode_compilation_unit encode_vname encode_file_info encode_file_input write_all
    write_some write_tag_len varint varint_bytes
parse_indexed_compilation-encode_indexed_compilation_example =
    parse_indexed_compilation-encode_indexed_compilation a_compilation a_unit-IsTextUnit
      (omega arith)

filter_unit-encode_example :
    filter_unit (λ p. one_of p (literal "A.java" ∷ [])) (encode_indexed_compilation a_compilation)
    ≡ some (filter_decoded (λ p. one_of p (literal "A.java" ∷ [])) a_compilation)
unfolding encode_indexed_compilation encode_compilation_unit encode_vname encode_file_info
    encode_file_input write_all write_some write_tag_len varint varint_bytes listed_path
filter_unit-encode_example =
    filter_unit-encode a_compilation a_unit-IsTextUnit (omega arith)
      (λ p. one_of p (literal "A.java" ∷ [])) (inl (λ e. cc))

-- The same unit with its input twice.
abbrev same_unit : CompilationUnit
same_unit = record a_unit { required_input = an_input ∷ an_input ∷ [] }

content_of_iff_example :
    (content_of a_unit (literal "v1") ≡ content_of same_unit (literal "v1"))
    ↔ SameContent a_unit (literal "v1") same_unit (literal "v1")
content_of_iff_example =
    content_of_iff a_unit same_unit (literal "v1") (literal "v1")
      (record {
        tag_short = omega arith;
        language = omega arith;
        argument = (omega arith, tt);
        arguments = omega arith;
        input = ((omega arith, omega arith), tt);
        inputs = omega arith;
      })
      (record {
        tag_short = omega arith;
        language = omega arith;
        argument = (omega arith, tt);
        arguments = omega arith;
        input = ((omega arith, omega arith), ((omega arith, omega arith), tt));
        inputs = omega arith;
      })

abbrev some_ops : List CacheOp
some_ops = stored (literal "d1") [] ∷ finalized (literal "d1" ∷ []) ∷ []

contains-run_ops_example :
    contains (run_ops some_ops cleared) (literal "d1")
    ≡ run_set some_ops (contains cleared) (literal "d1")
contains-run_ops_example = contains-run_ops some_ops cleared (literal "d1")
