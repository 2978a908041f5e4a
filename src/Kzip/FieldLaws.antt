-- ===== src/Kzip/FieldLaws.antt =====
-- What the search of kzip.rs finds in an encoded unit and in its parts.
use scry.Prelude.{
  ℕ, ◌<◌, ◌≡◌, ◌≢◌, arith, List, [], ◌∷◌, ◌++◌, if◌then◌else◌, length, map, Option, some, none, All,
  All-map,
}
use mathlib.Core.List.{map-id}
use scry.Bytes.{u64_mod}
use scry.Kythe.Wire.{VName}
use scry.Kythe.EntryLaws.{IsText, IsTextName}
use scry.Writer.Names.{is_empty}
use scry.Kzip.Codec.{
  FileInfo, FileInput, CompilationUnit, write_some, write_all, encode_vname, encode_file_info,
  encode_file_input, encode_compilation_unit,
}
use scry.Kzip.CodecLaws.{IsTextInput, IsTextInfo, IsTextUnit}
use scry.Kzip.FindLaws.{
  Finds, Finds-nil, Finds-some_miss, Finds-some_hit, Finds-all_miss, Finds-all_hit, Finds-last,
  find_field-Finds,
}
use scry.Kzip.Peek.{find_field_ld_truncating}

-- Strings that are valid UTF-8 have a bounded length each.
strings_within : (xs : List (List ℕ)) → All IsText xs → All (λ x. length x < u64_mod) xs
strings_within = All-map (λ x h. h.1)

inputs_within :
    (xs : List FileInput)
    → All IsTextInput xs
    → All (λ x. length (encode_file_input x) < u64_mod) xs
inputs_within = All-map (λ x h. h.4)

-- Strings as repeated fields.
Finds-strings_miss :
    (target n field : ℕ) (xs : List (List ℕ)) (rest : List ℕ) (o : Option (List ℕ))
    → field < 16
    → field ≢ target
    → All IsText xs
    → Finds target n rest o
    → Finds target n (write_all field xs ++ rest) o
Finds-strings_miss target n field xs rest o hf e h k =
    let all = Finds-all_miss (λ x. x) target n field xs rest o hf e (strings_within xs h) k in
    rw (map-id xs) at all

Finds-strings_hit :
    (target n : ℕ) (x : List ℕ) (xs : List (List ℕ)) (rest : List ℕ)
    → target < 16
    → length x < u64_mod
    → n < u64_mod
    → Finds target n (write_all target (x ∷ xs) ++ rest) (some x)
Finds-strings_hit target n x xs rest hf hb hn =
    let first = Finds-all_hit (λ x. x) target n x xs rest hf hb hn in rw (map-id xs) at first

abbrev pub first_input : List FileInput → Option (List ℕ)
first_input [] = none
first_input (i ∷ is) = some (encode_file_input i)

abbrev pub first_string : List (List ℕ) → Option (List ℕ)
first_string [] = none
first_string (x ∷ xs) = some x

module _ (c : CompilationUnit) (h : IsTextUnit c) (n : ℕ) (hn : n < u64_mod) where
  -- The fields behind the source files.
  tail_fields :
      (target : ℕ)
      → target < 7
      → Finds target n
          (write_some 7 c.output_key
            ++ (write_some 8 c.working_directory ++ write_some 9 c.entry_context))
          none
  tail_fields target lt =
      Finds-some_miss target n 7 c.output_key
        (write_some 8 c.working_directory ++ write_some 9 c.entry_context) none (omega arith)
        (λ e. omega arith) h.output_key.1
        (Finds-some_miss target n 8 c.working_directory (write_some 9 c.entry_context) none
          (omega arith) (λ e. omega arith) h.working_directory.1
          (Finds-last target n 9 c.entry_context none (
            Finds-some_miss target n 9 c.entry_context [] none (omega arith) (λ e. omega arith)
              h.entry_context.1 (Finds-nil target n))))

  tail_strings : List ℕ
  tail_strings =
      write_some 7 c.output_key
      ++ (write_some 8 c.working_directory ++ write_some 9 c.entry_context)

  sources :
      (xs : List (List ℕ))
      → All IsText xs
      → Finds 6 n (write_all 6 xs ++ tail_strings) (first_string xs)
  unfolding write_all tail_strings
  sources [] k = tail_fields 6 (omega arith)
  sources (x ∷ xs) k = Finds-strings_hit 6 n x xs tail_strings (omega arith) k.0.1 hn

  pub source_found : Finds 6 n (encode_compilation_unit c) (first_string c.source_file)
  unfolding encode_compilation_unit tail_strings
  source_found =
      let f6 = write_all 6 c.source_file ++ tail_strings in
      let f5 = write_all 5 c.argument ++ f6 in
      let f3 = write_all 3 (map encode_file_input c.required_input) ++ f5 in
      Finds-some_miss 6 n 1 (encode_vname c.v_name) f3 (first_string c.source_file) (omega arith)
        (λ e. omega arith) h.within
        (Finds-all_miss encode_file_input 6 n 3 c.required_input f5 (first_string c.source_file)
          (omega arith) (λ e. omega arith) (inputs_within c.required_input h.required_input)
          (Finds-strings_miss 6 n 5 c.argument f6 (first_string c.source_file) (omega arith)
            (λ e. omega arith) h.argument (sources c.source_file h.source_file)))

  inputs :
      (xs : List FileInput)
      → All IsTextInput xs
      → Finds 3 n
          (write_all 3 (map encode_file_input xs)
            ++ (write_all 5 c.argument ++ (write_all 6 c.source_file ++ tail_strings)))
          (first_input xs)
  unfolding write_all tail_strings
  inputs [] k =
      Finds-strings_miss 3 n 5 c.argument (write_all 6 c.source_file ++ tail_strings) none
        (omega arith) (λ e. omega arith) h.argument
        (Finds-strings_miss 3 n 6 c.source_file tail_strings none (omega arith) (λ e. omega arith)
          h.source_file (tail_fields 3 (omega arith)))
  inputs (x ∷ xs) k =
      Finds-all_hit encode_file_input 3 n x xs
        (write_all 5 c.argument ++ (write_all 6 c.source_file ++ tail_strings)) (omega arith) k.0.4
        hn

  pub input_found : Finds 3 n (encode_compilation_unit c) (first_input c.required_input)
  unfolding encode_compilation_unit tail_strings
  input_found =
      Finds-some_miss 3 n 1 (encode_vname c.v_name)
        (write_all 3 (map encode_file_input c.required_input)
          ++ (write_all 5 c.argument ++ (write_all 6 c.source_file ++ tail_strings)))
        (first_input c.required_input) (omega arith) (λ e. omega arith) h.within
        (inputs c.required_input h.required_input)

-- A string, unless it is empty.
abbrev pub unless_empty : List ℕ → Option (List ℕ)
unless_empty s = if is_empty s then none else some s

pub vname_path :
    (v : VName)
    → IsTextName v
    → length (encode_vname v) < u64_mod
    → find_field_ld_truncating 4 (encode_vname v) ≡ unless_empty v.path
unfolding encode_vname
vname_path v (a, b, c, d, e) hn =
    let n = length (encode_vname v) in
    let o = unless_empty v.path in
    let f5 = write_some 5 v.language in
    let f4 = write_some 4 v.path ++ f5 in
    let f3 = write_some 3 v.root ++ f4 in
    let f2 = write_some 2 v.corpus ++ f3 in
    find_field-Finds 4 (encode_vname v) o (
      Finds-some_miss 4 n 1 v.signature f2 o (omega arith) (λ e. omega arith) a.1
        (Finds-some_miss 4 n 2 v.corpus f3 o (omega arith) (λ e. omega arith) b.1
          (Finds-some_miss 4 n 3 v.root f4 o (omega arith) (λ e. omega arith) c.1
            (Finds-some_hit 4 n v.path f5 none (omega arith) d.1 hn (
              Finds-last 4 n 5 v.language none (
                Finds-some_miss 4 n 5 v.language [] none (omega arith) (λ e. omega arith) e.1
                  (Finds-nil 4 n)))))))

pub info_path :
    (i : FileInfo)
    → IsTextInfo i
    → length (encode_file_info i) < u64_mod
    → find_field_ld_truncating 1 (encode_file_info i) ≡ unless_empty i.path
unfolding encode_file_info
info_path i (a, b) hn =
    let n = length (encode_file_info i) in
    find_field-Finds 1 (encode_file_info i) (unless_empty i.path) (
      Finds-some_hit 1 n i.path (write_some 2 i.digest) none (omega arith) a.1 hn (
        Finds-last 1 n 2 i.digest none (
          Finds-some_miss 1 n 2 i.digest [] none (omega arith) (λ e. omega arith) b.1
            (Finds-nil 1 n))))

module _ (i : FileInput) (h : IsTextInput i) where
  pub input_vname :
      find_field_ld_truncating 1 (encode_file_input i) ≡ unless_empty (encode_vname i.v_name)
  unfolding encode_file_input
  input_vname =
      let n = length (encode_file_input i) in
      find_field-Finds 1 (encode_file_input i) (unless_empty (encode_vname i.v_name)) (
        Finds-some_hit 1 n (encode_vname i.v_name) (write_some 2 (encode_file_info i.info)) none
          (omega arith) h.2 h.4
          (Finds-last 1 n 2 (encode_file_info i.info) none (
            Finds-some_miss 1 n 2 (encode_file_info i.info) [] none (omega arith) (λ e. omega arith)
              h.3 (Finds-nil 1 n))))

  pub input_info :
      find_field_ld_truncating 2 (encode_file_input i) ≡ unless_empty (encode_file_info i.info)
  unfolding encode_file_input
  input_info =
      let n = length (encode_file_input i) in
      let o = unless_empty (encode_file_info i.info) in
      find_field-Finds 2 (encode_file_input i) o (
        Finds-some_miss 2 n 1 (encode_vname i.v_name) (write_some 2 (encode_file_info i.info)) o
          (omega arith) (λ e. omega arith) h.2
          (Finds-last 2 n 2 (encode_file_info i.info) o (
            Finds-some_hit 2 n (encode_file_info i.info) [] none (omega arith) h.3 h.4
              (Finds-nil 2 n))))
