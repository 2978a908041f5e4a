-- ===== src/Kzip/PeekLaws.antt =====
-- The peek of kzip.rs at an encoded unit, against the path of the decoded unit.
use scry.Prelude.{
  ℕ, ◌*◌, ◌<◌, ◌≡◌, ◌≢◌, refl, arith, List, [], ◌∷◌, ◌++◌, Bool, true, false, not, if◌then◌else◌,
  length, length-append, Option, some, none, ◌⊎◌, inl, inr, All, ◌∙◌, ap, sym, Bool-cases,
  Option-cases,
}
use Prim.Native.Nat.{bit_or}
use mathlib.Core.List.{append-nil}
use scry.Bytes.{u64_mod}
use scry.Text.{is_utf8}
use scry.Kythe.Wire.{varint, ◌>>=◌}
use scry.Kythe.EntryLaws.{IsText}
use scry.Writer.Names.{is_empty}
use scry.Kzip.Codec.{
  FileInput, IndexedCompilation, write_tag_len, encode_vname, encode_file_info, encode_file_input,
  encode_compilation_unit, encode_indexed_compilation,
}
use scry.Kzip.CodecLaws.{
  IsTextInput, IsTextUnit, parse_indexed_compilation-encode_indexed_compilation,
}
use scry.Kzip.FindLaws.{Finds-hit, find_field-Finds}
use scry.Kzip.FieldLaws.{
  first_input, first_string, unless_empty, source_found, input_found, vname_path, info_path,
  input_vname, input_info,
}
use scry.Kzip.Peek.{
  find_field_ld_truncating, find_first_field_string, peek_input, peek_proto_primary_path, first_of,
  filter_decoded, filter_full, filter_peeked, filter_unit,
}
use scry.Kzip.Units.{listed_path, cu_primary_path}

abbrev IsUtf8 : Option (List ℕ) → Type 0
IsUtf8 none = Unit
IsUtf8 (some s) = is_utf8 s ≡ true

-- A field that is valid UTF-8 is found as a string.
string_found :
    (target : ℕ) (bs : List ℕ) (o : Option (List ℕ))
    → find_field_ld_truncating target bs ≡ o
    → IsUtf8 o
    → find_first_field_string target bs ≡ o
unfolding find_first_field_string
string_found target bs none e h = rw e refl
string_found target bs (some s) e h = rw (e, h) refl

unless-IsUtf8 : (s : List ℕ) → is_utf8 s ≡ true → IsUtf8 (unless_empty s)
unless-IsUtf8 [] h = tt
unless-IsUtf8 (b ∷ s) h = h

-- What the peek makes of an input: of the input without a name it makes nothing.
peeked_input : FileInput → Option (List ℕ)
peeked_input i =
    if is_empty (encode_vname i.v_name)
    then none
    else first_of (unless_empty i.v_name.path) (
        if is_empty (encode_file_info i.info)
        then none
        else first_of (unless_empty i.info.path) (some []))

peek_input-encode_file_input :
    (i : FileInput) → IsTextInput i → peek_input (encode_file_input i) ≡ peeked_input i
unfolding peek_input peeked_input
peek_input-encode_file_input i h =
    let name =
      string_found 4 (encode_vname i.v_name) (unless_empty i.v_name.path)
        (vname_path i.v_name h.0 h.2) (unless-IsUtf8 i.v_name.path h.0.3.0) in
    let info =
      string_found 1 (encode_file_info i.info) (unless_empty i.info.path) (info_path i.info h.1 h.3)
        (unless-IsUtf8 i.info.path h.1.0.0) in
    rw (input_vname i h, input_info i h)
      (elim (Bool-cases (is_empty (encode_vname i.v_name))) [
        | inl e ↦ rw e refl
        | inr e ↦ elim (Bool-cases (is_empty (encode_file_info i.info))) [
          | inl f ↦ rw (e, f, name) refl
          | inr f ↦ rw (e, f, name, info) refl
        ]
      ])

-- A path that the peek gives is the listed one, or it is empty and none is listed.
peeked_input-listed :
    (i : FileInput) (is : List FileInput) (p : List ℕ)
    → peeked_input i ≡ some p
    → (listed_path [] (i ∷ is) ≡ some p) ⊎ ((p ≡ []) × (listed_path [] (i ∷ is) ≡ none))
unfolding peeked_input listed_path
peeked_input-listed i is p h =
    by_tests (is_empty (encode_vname i.v_name)) (is_empty (encode_file_info i.info)) i.v_name.path
      i.info.path h
  where
    by_tests :
        (a b : Bool) (v w : List ℕ)
        → (if a
            then none
            else first_of
                (unless_empty v)
                (if b then none else first_of (unless_empty w) (some [])))
          ≡ some p
        → ((if not (is_empty v) then some v else if not (is_empty w) then some w else none)
            ≡ some p)
          ⊎ ((p ≡ [])
              × ((if not (is_empty v) then some v else if not (is_empty w) then some w else none)
                  ≡ none))
    by_tests true b v w h = cc
    by_tests false b (x ∷ v) w h = inl h
    by_tests false true [] w h = cc
    by_tests false false [] (x ∷ w) h = inl h
    by_tests false false [] [] h = inr (ground arith, refl)

first_string-IsUtf8 : (xs : List (List ℕ)) → All IsText xs → IsUtf8 (first_string xs)
first_string-IsUtf8 [] h = tt
first_string-IsUtf8 (x ∷ xs) h = h.0.0

-- The peek at an encoded unit, in terms of the unit.
peeked : List (List ℕ) → List FileInput → Option (List ℕ)
peeked sources inputs = first_of (first_string sources) (first_input inputs >>= peek_input)

peeked-listed :
    (sources : List (List ℕ)) (inputs : List FileInput) (p : List ℕ)
    → All IsTextInput inputs
    → peeked sources inputs ≡ some p
    → (listed_path sources inputs ≡ some p) ⊎ ((p ≡ []) × (listed_path sources inputs ≡ none))
unfolding peeked listed_path
peeked-listed (s ∷ ss) inputs p h e = inl e
peeked-listed [] [] p h e = cc
peeked-listed [] (i ∷ is) p h e =
    peeked_input-listed i is p (sym (peek_input-encode_file_input i h.0) ∙ e)

module _ (c : IndexedCompilation) (h : IsTextUnit c.unit)
    (within : length (encode_indexed_compilation c) < u64_mod) where
  unit_within : length (encode_compilation_unit c.unit) < u64_mod
  unfolding encode_indexed_compilation write_tag_len
  unit_within =
      let n = length (encode_compilation_unit c.unit) in
      omega (
        arith,
        length-append (varint n) (encode_compilation_unit c.unit),
        length-append (varint (bit_or (1 * 8) 2)) (varint n ++ encode_compilation_unit c.unit),
      )

  unit_found :
      find_field_ld_truncating 1 (encode_indexed_compilation c)
      ≡ some (encode_compilation_unit c.unit)
  unfolding encode_indexed_compilation
  unit_found =
      let bytes = encode_compilation_unit c.unit in
      let whole = write_tag_len 1 bytes in
      let hit = Finds-hit 1 (length whole) bytes [] (omega arith) unit_within within in
      find_field-Finds 1 whole (some bytes) (rw (append-nil whole) at hit)

  peek-encode :
      peek_proto_primary_path (encode_indexed_compilation c)
      ≡ peeked c.unit.source_file c.unit.required_input
  unfolding peek_proto_primary_path peeked
  peek-encode =
      let bytes = encode_compilation_unit c.unit in
      let source =
        string_found 6 bytes (first_string c.unit.source_file)
          (find_field-Finds 6 bytes (first_string c.unit.source_file)
            (source_found c.unit h (length bytes) unit_within))
          (first_string-IsUtf8 c.unit.source_file h.source_file) in
      let input =
        find_field-Finds 3 bytes (first_input c.unit.required_input)
          (input_found c.unit h (length bytes) unit_within) in
      rw (unit_found, source, input) refl

  module _ (accept : List ℕ → Bool) where
    full-encode : filter_full accept (encode_indexed_compilation c) ≡ some (filter_decoded accept c)
    unfolding filter_full
    full-encode = rw (parse_indexed_compilation-encode_indexed_compilation c h unit_within) refl

    -- A peek at the listed path decides as the decoded unit does.
    peeked-decoded :
        (p : List ℕ)
        → listed_path c.unit.source_file c.unit.required_input ≡ some p
        → filter_peeked accept (encode_indexed_compilation c) (some p)
          ≡ some (filter_decoded accept c)
    unfolding filter_peeked filter_decoded cu_primary_path
    peeked-decoded p e = elim (Bool-cases (accept p)) [
      | inl t ↦ rw t full-encode
      | inr f ↦ rw (e, f) refl
    ]

    peeked-empty :
        accept [] ≡ true
        → filter_peeked accept (encode_indexed_compilation c) (some [])
          ≡ some (filter_decoded accept c)
    unfolding filter_peeked
    peeked-empty t = rw t full-encode

    -- On an encoded unit the filter with its peek decides as decoding the unit and testing its path
    -- does, if a source file or the first input names a path, or the filter accepts the empty path.
    pub filter_unit-encode :
        (listed_path c.unit.source_file c.unit.required_input ≢ none) ⊎ (accept [] ≡ true)
        → filter_unit accept (encode_indexed_compilation c) ≡ some (filter_decoded accept c)
    unfolding filter_unit
    filter_unit-encode known =
        ap (λ o. filter_peeked accept (encode_indexed_compilation c) o) peek-encode
        ∙ elim (Option-cases (peeked c.unit.source_file c.unit.required_input)) [
          | inl e ↦ rw e (unfold filter_peeked in full-encode)
          | inr (p, e) ↦
              elim (peeked-listed c.unit.source_file c.unit.required_input p h.required_input e) [
                | inl l ↦ rw e (peeked-decoded p l)
                | inr (empty, l) ↦ elim known [
                  | inl k ↦ absurd (k l)
                  | inr t ↦ rw (e, empty) (peeked-empty t)
                ]
              ]
        ]
