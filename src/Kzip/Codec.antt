-- ===== src/Kzip/Codec.antt =====
-- The protobuf codec of kzip.rs. Decoding takes a buffer apart as Kythe/Wire.antt does: a position is
-- the list of the bytes from there on, and `none` is an error, whose text is not modelled.
use Prim.Native.Nat.{bit_or}
use scry.Prelude.{ℕ, ◌*◌, ◌%◌, List, [], ◌∷◌, ◌++◌, ◌==◌, if◌then◌else◌, map, length, Option, some}
use scry.Bytes.{u32_mod}
use scry.Text.Str.{from_utf8_lossy}
use scry.Kythe.State.{push}
use scry.Kythe.Wire.{message_loop, varint, VName, no_vname, vname_field, ◌>>=◌}

-- `VName` is the record of kythe.rs, field by field.
pub record FileInfo : Type 0 where
  pub path : List ℕ
  pub digest : List ℕ

pub record FileInput : Type 0 where
  pub v_name : VName
  pub info : FileInfo

pub record CompilationUnit : Type 0 where
  pub v_name : VName
  pub required_input : List FileInput
  pub argument : List (List ℕ)
  pub source_file : List (List ℕ)
  pub output_key : List ℕ
  pub working_directory : List ℕ
  pub entry_context : List ℕ

pub record IndexedCompilation : Type 0 where
  pub unit : CompilationUnit

-- The defaults.
abbrev pub no_info : FileInfo
no_info = record { path = []; digest = [] }

abbrev pub no_input : FileInput
no_input = record { v_name = no_vname; info = no_info }

abbrev pub no_unit : CompilationUnit
no_unit = record {
  v_name = no_vname;
  required_input = [];
  argument = [];
  source_file = [];
  output_key = [];
  working_directory = [];
  entry_context = [];
}

-- `while pos < buf.len()` with `read_field_header` and `take`: the field number is cut to 32 bits,
-- and a wire type other than 2 is an error.
unfoldable pub decode {ℓ} : {M : Type ℓ} → (ℕ → List ℕ → M → Option M) → M → List ℕ → Option M
unfolding message_loop
decode store m buf = message_loop (λ field. store (field % u32_mod)) (length buf) buf m

unfoldable pub parse_vname : List ℕ → Option VName
unfolding decode
parse_vname buf = decode vname_field no_vname buf

unfoldable pub info_field : ℕ → List ℕ → FileInfo → Option FileInfo
info_field field slice out =
    if field == 1
    then some (record out { path = from_utf8_lossy slice })
    else if field == 2
    then some (record out { digest = from_utf8_lossy slice })
    else some out

unfoldable pub parse_file_info : List ℕ → Option FileInfo
unfolding decode
parse_file_info buf = decode info_field no_info buf

unfoldable pub input_field : ℕ → List ℕ → FileInput → Option FileInput
input_field field slice out =
    if field == 1
    then (parse_vname slice >>= λ v. some (record out { v_name = v }))
    else if field == 2
    then (parse_file_info slice >>= λ i. some (record out { info = i }))
    else some out

unfoldable pub parse_file_input : List ℕ → Option FileInput
unfolding decode
parse_file_input buf = decode input_field no_input buf

unfoldable pub unit_field : ℕ → List ℕ → CompilationUnit → Option CompilationUnit
unit_field field slice out =
    if field == 1
    then (parse_vname slice >>= λ v. some (record out { v_name = v }))
    else if field == 3
    then (parse_file_input slice >>= λ i.
        some (record out { required_input = push i out.required_input }))
    else if field == 5
    then some (record out { argument = push (from_utf8_lossy slice) out.argument })
    else if field == 6
    then some (record out { source_file = push (from_utf8_lossy slice) out.source_file })
    else if field == 7
    then some (record out { output_key = from_utf8_lossy slice })
    else if field == 8
    then some (record out { working_directory = from_utf8_lossy slice })
    else if field == 9
    then some (record out { entry_context = from_utf8_lossy slice })
    else some out

unfoldable pub parse_compilation_unit : List ℕ → Option CompilationUnit
unfolding decode
parse_compilation_unit buf = decode unit_field no_unit buf

unfoldable pub indexed_field : ℕ → List ℕ → IndexedCompilation → Option IndexedCompilation
indexed_field field slice out =
    if field == 1
    then (parse_compilation_unit slice >>= λ u. some (record out { unit = u }))
    else some out

unfoldable pub parse_indexed_compilation : List ℕ → Option IndexedCompilation
unfolding decode
parse_indexed_compilation buf = decode indexed_field (record { unit = no_unit }) buf

-- The encoders; `write_varint` is `varint` of Kythe/Wire.antt.
unfoldable pub write_tag_len : ℕ → List ℕ → List ℕ
unfolding varint
write_tag_len field bytes = varint (bit_or (field * 8) 2) ++ (varint (length bytes) ++ bytes)

-- `if !bytes.is_empty() { write_tag_len(field, bytes, out) }`
unfoldable pub write_some : ℕ → List ℕ → List ℕ
write_some field [] = []
write_some field (b ∷ bs) = write_tag_len field (b ∷ bs)

unfoldable pub encode_vname : VName → List ℕ
encode_vname v =
    write_some 1 v.signature
    ++ (write_some 2 v.corpus
        ++ (write_some 3 v.root ++ (write_some 4 v.path ++ write_some 5 v.language)))

unfoldable pub encode_file_info : FileInfo → List ℕ
encode_file_info i = write_some 1 i.path ++ write_some 2 i.digest

unfoldable pub encode_file_input : FileInput → List ℕ
encode_file_input i = write_some 1 (encode_vname i.v_name) ++ write_some 2 (encode_file_info i.info)

-- `for x in xs { write_tag_len(field, x, out) }`
unfoldable pub write_all : ℕ → List (List ℕ) → List ℕ
write_all field [] = []
write_all field (x ∷ xs) = write_tag_len field x ++ write_all field xs

unfoldable pub encode_compilation_unit : CompilationUnit → List ℕ
encode_compilation_unit c =
    write_some 1 (encode_vname c.v_name)
    ++ (write_all 3 (map encode_file_input c.required_input)
        ++ (write_all 5 c.argument
            ++ (write_all 6 c.source_file
                ++ (write_some 7 c.output_key
                    ++ (write_some 8 c.working_directory ++ write_some 9 c.entry_context)))))

unfoldable pub encode_indexed_compilation : IndexedCompilation → List ℕ
encode_indexed_compilation c = write_tag_len 1 (encode_compilation_unit c.unit)
