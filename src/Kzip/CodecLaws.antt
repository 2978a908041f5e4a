-- ===== src/Kzip/CodecLaws.antt =====
-- What the encoders of kzip.rs write, its decoders read.
use Prim.Native.Nat.{bit_or}
use scry.Prelude.{
  ℕ, zero, suc, ◌+◌, ◌*◌, ◌%◌, ◌<◌, ◌≡◌, refl, arith, List, [], ◌∷◌, ◌++◌, length, Option, some,
  none, All, map, ◌∙◌, ap, sym,
}
use mathlib.Core.List.{append-nil, append_assoc, map-id}
use scry.Bits.{bit_or-delimited}
use scry.Bytes.{u64_mod, u32_mod}
use scry.Text.Str.{from_utf8_lossy}
use scry.Text.StrLaws.{from_utf8_lossy-utf8}
use scry.Kythe.Wire.{VName, no_vname, vname_field, ld, varint, varint_bytes, message_loop, ◌>>=◌}
use scry.Kythe.EntryLaws.{IsText, IsTextName, message_loop-ld, lossy_empty}
use scry.Kythe.State.{push}
use scry.Kzip.Codec.{
  FileInfo, FileInput, CompilationUnit, IndexedCompilation, no_info, no_input, no_unit, decode,
  parse_vname, info_field, parse_file_info, input_field, parse_file_input, unit_field,
  parse_compilation_unit, indexed_field, parse_indexed_compilation, write_tag_len, write_some,
  encode_vname, encode_file_info, encode_file_input, write_all, encode_compilation_unit,
  encode_indexed_compilation,
}

varint_small : (v : ℕ) → v < 128 → varint v ≡ (v % 256) ∷ []
unfolding varint varint_bytes
varint_small zero h = refl
varint_small (suc v) h = ground arith

-- The tag of a small field number is one byte.
pub write_tag_len-ld :
    (field : ℕ) (bytes : List ℕ) → field < 16 → write_tag_len field bytes ≡ ld field bytes
unfolding write_tag_len ld
write_tag_len-ld field bytes h =
    let tag : bit_or (field * 8) 2 ≡ field * 8 + 2 =
      ap (λ (n : ℕ). bit_or n 2) (omega arith)
      ∙ bit_or-delimited (field * 8) (omega arith)
      ∙ omega arith in
    rw (tag, varint_small (field * 8 + 2) (omega arith)) refl

module _ {ℓ} {M : Type ℓ} (store : ℕ → List ℕ → M → Option M) where
  -- A field that was written is stored, and the decoder goes on behind it.
  decode-write_tag_len :
      (field : ℕ) (bytes rest : List ℕ) (m : M)
      → field < 16
      → length bytes < u64_mod
      → decode store m (write_tag_len field bytes ++ rest)
        ≡ (store field bytes m >>= λ m'. decode store m' rest)
  unfolding decode
  decode-write_tag_len field bytes rest m hf hb =
      let number : field % u32_mod ≡ field = omega arith in
      rw (write_tag_len-ld field bytes hf) (
        message_loop-ld (λ f. store (f % u32_mod)) field bytes rest m hf hb
        ∙ ap (λ (f : ℕ). store f bytes m >>= λ m'. decode store m' rest) number)

  -- So is one that is left out when it is empty, if storing nothing changes nothing.
  decode-write_some :
      (field : ℕ) (bytes rest : List ℕ) (m : M)
      → field < 16
      → length bytes < u64_mod
      → store field [] m ≡ some m
      → decode store m (write_some field bytes ++ rest)
        ≡ (store field bytes m >>= λ m'. decode store m' rest)
  unfolding write_some
  decode-write_some field [] rest m hf hb e = rw e refl
  decode-write_some field (b ∷ bs) rest m hf hb e = decode-write_tag_len field (b ∷ bs) rest m hf hb

  -- The last field, behind which nothing is left.
  decode-end :
      (field : ℕ) (bytes : List ℕ) (m : M)
      → field < 16
      → length bytes < u64_mod
      → store field [] m ≡ some m
      → decode store m (write_some field bytes) ≡ store field bytes m
  unfolding decode message_loop
  decode-end field bytes m hf hb e =
      ap (λ t. decode store m t) (sym (append-nil (write_some field bytes)))
      ∙ decode-write_some field bytes [] m hf hb e
      ∙ returned (store field bytes m)
    where
      returned : (o : Option M) → (o >>= λ m'. some m') ≡ o
      returned none = refl
      returned (some m) = refl

-- The repeated fields: what is decoded of each goes behind what is there.
module _ {ℓ κ} {M : Type ℓ} {A : Type κ} (store : ℕ → List ℕ → M → Option M) (field : ℕ)
    (enc : A → List ℕ) (set : List A → M) where
  abbrev Adds : A → Type (ℓ ⊔ κ)
  Adds x =
      (length (enc x) < u64_mod)
      × ((acc : List A) → store field (enc x) (set acc) ≡ some (set (push x acc)))

  decode-write_all :
      (xs acc : List A) (rest : List ℕ)
      → field < 16
      → All Adds xs
      → decode store (set acc) (write_all field (map enc xs) ++ rest)
        ≡ decode store (set (acc ++ xs)) rest
  unfolding write_all
  decode-write_all [] acc rest hf h = ap (λ t. decode store (set t) rest) (sym (append-nil acc))
  decode-write_all (x ∷ xs) acc rest hf h =
      let more = write_all field (map enc xs) in
      rw (append_assoc (write_tag_len field (enc x)) more rest) (
        decode-write_tag_len store field (enc x) (more ++ rest) (set acc) hf h.0.0
        ∙ rw (h.0.1 acc) (decode-write_all xs (push x acc) rest hf h.1)
        ∙ ap (λ t. decode store (set t) rest) (append_assoc acc (x ∷ []) xs))

pub parse_vname-encode_vname : (v : VName) → IsTextName v → parse_vname (encode_vname v) ≡ some v
unfolding parse_vname encode_vname vname_field
parse_vname-encode_vname v (a, b, c, d, e) =
    let f5 = write_some 5 v.language in
    let f4 = write_some 4 v.path ++ f5 in
    let f3 = write_some 3 v.root ++ f4 in
    let f2 = write_some 2 v.corpus ++ f3 in
    let m1 = record no_vname { signature = from_utf8_lossy v.signature } in
    let m2 = record m1 { corpus = from_utf8_lossy v.corpus } in
    let m3 = record m2 { root = from_utf8_lossy v.root } in
    let m4 = record m3 { path = from_utf8_lossy v.path } in
    decode-write_some vname_field 1 v.signature f2 no_vname (omega arith) a.1
      (ap (λ t. some (record no_vname { signature = t })) lossy_empty)
    ∙ decode-write_some vname_field 2 v.corpus f3 m1 (omega arith) b.1
        (ap (λ t. some (record m1 { corpus = t })) lossy_empty)
    ∙ decode-write_some vname_field 3 v.root f4 m2 (omega arith) c.1
        (ap (λ t. some (record m2 { root = t })) lossy_empty)
    ∙ decode-write_some vname_field 4 v.path f5 m3 (omega arith) d.1
        (ap (λ t. some (record m3 { path = t })) lossy_empty)
    ∙ decode-end vname_field 5 v.language m4 (omega arith) e.1
        (ap (λ t. some (record m4 { language = t })) lossy_empty)
    ∙ rw
        (
          from_utf8_lossy-utf8 v.signature a.0,
          from_utf8_lossy-utf8 v.corpus b.0,
          from_utf8_lossy-utf8 v.root c.0,
          from_utf8_lossy-utf8 v.path d.0,
          from_utf8_lossy-utf8 v.language e.0,
        )
        refl

abbrev pub IsTextInfo : FileInfo → Type 0
IsTextInfo i = IsText i.path × IsText i.digest

parse_file_info-encode_file_info :
    (i : FileInfo) → IsTextInfo i → parse_file_info (encode_file_info i) ≡ some i
unfolding parse_file_info encode_file_info info_field
parse_file_info-encode_file_info i (a, b) =
    let m1 = record no_info { path = from_utf8_lossy i.path } in
    decode-write_some info_field 1 i.path (write_some 2 i.digest) no_info (omega arith) a.1
      (ap (λ t. some (record no_info { path = t })) lossy_empty)
    ∙ decode-end info_field 2 i.digest m1 (omega arith) b.1
        (ap (λ t. some (record m1 { digest = t })) lossy_empty)
    ∙ rw (from_utf8_lossy-utf8 i.path a.0, from_utf8_lossy-utf8 i.digest b.0) refl

-- An input whose strings are valid UTF-8, and whose parts are no longer than memory.
abbrev pub IsTextInput : FileInput → Type 0
IsTextInput i =
    IsTextName i.v_name
    × IsTextInfo i.info
    × (length (encode_vname i.v_name) < u64_mod)
    × (length (encode_file_info i.info) < u64_mod)
    × (length (encode_file_input i) < u64_mod)

empty_vname : parse_vname [] ≡ some no_vname
unfolding parse_vname decode message_loop
empty_vname = refl

empty_info : parse_file_info [] ≡ some no_info
unfolding parse_file_info decode message_loop
empty_info = refl

parse_file_input-encode_file_input :
    (i : FileInput) → IsTextInput i → parse_file_input (encode_file_input i) ≡ some i
unfolding parse_file_input encode_file_input input_field
parse_file_input-encode_file_input i (v, info, lv, li, _) =
    decode-write_some input_field 1 (encode_vname i.v_name) (write_some 2 (encode_file_info i.info))
      no_input (omega arith) lv (rw empty_vname refl)
    ∙ rw (parse_vname-encode_vname i.v_name v) (
        decode-end input_field 2 (encode_file_info i.info) (record no_input { v_name = i.v_name })
          (omega arith) li (rw empty_info refl)
        ∙ rw (parse_file_info-encode_file_info i.info info) refl)

-- A unit whose strings are valid UTF-8, and whose parts are no longer than memory.
pub record IsTextUnit (c : CompilationUnit) : Type 0 where
  pub v_name : IsTextName c.v_name
  pub required_input : All IsTextInput c.required_input
  pub argument : All IsText c.argument
  pub source_file : All IsText c.source_file
  pub output_key : IsText c.output_key
  pub working_directory : IsText c.working_directory
  pub entry_context : IsText c.entry_context
  pub within : length (encode_vname c.v_name) < u64_mod

decode-inputs :
    (xs : List FileInput) (rest : List ℕ) (v : VName)
    → All IsTextInput xs
    → decode unit_field
        (record no_unit { v_name = v })
        (write_all 3 (map encode_file_input xs) ++ rest)
      ≡ decode unit_field (record no_unit { v_name = v; required_input = xs }) rest
unfolding unit_field
decode-inputs xs rest v h =
    decode-write_all unit_field 3 encode_file_input
      (λ acc. record no_unit { v_name = v; required_input = acc }) xs [] rest (omega arith)
      (adds xs h)
  where
    adds :
        (xs : List FileInput)
        → All IsTextInput xs
        → All
            (Adds unit_field 3 encode_file_input
              (λ acc. record no_unit { v_name = v; required_input = acc }))
            xs
    adds [] h = tt
    adds (x ∷ xs) h =
        ((h.0.4, λ acc. rw (parse_file_input-encode_file_input x h.0) refl), adds xs h.1)

-- The same for a list of strings.
decode-strings :
    (field : ℕ) (set : List (List ℕ) → CompilationUnit) (xs : List (List ℕ)) (rest : List ℕ)
    → field < 16
    → ((x : List ℕ) (acc : List (List ℕ))
        → unit_field field x (set acc) ≡ some (set (push (from_utf8_lossy x) acc)))
    → All IsText xs
    → decode unit_field (set []) (write_all field xs ++ rest) ≡ decode unit_field (set xs) rest
decode-strings field set xs rest hf stores h =
    ap (λ t. decode unit_field (set []) (write_all field t ++ rest)) (sym (map-id xs))
    ∙ decode-write_all unit_field field (λ x. x) set xs [] rest hf (adds xs h)
  where
    adds : (xs : List (List ℕ)) → All IsText xs → All (Adds unit_field field (λ x. x) set) xs
    adds [] h = tt
    adds (x ∷ xs) h = (
      (
        h.0.1,
        λ acc. stores x acc ∙ ap (λ t. some (set (push t acc))) (from_utf8_lossy-utf8 x h.0.0),
      ),
      adds xs h.1,
    )

parse_compilation_unit-encode_compilation_unit :
    (c : CompilationUnit)
    → IsTextUnit c
    → parse_compilation_unit (encode_compilation_unit c) ≡ some c
unfolding parse_compilation_unit encode_compilation_unit unit_field
parse_compilation_unit-encode_compilation_unit c h =
    let f9 = write_some 9 c.entry_context in
    let f8 = write_some 8 c.working_directory ++ f9 in
    let f7 = write_some 7 c.output_key ++ f8 in
    let f6 = write_all 6 c.source_file ++ f7 in
    let f5 = write_all 5 c.argument ++ f6 in
    let f3 = write_all 3 (map encode_file_input c.required_input) ++ f5 in
    let m3 = record no_unit { v_name = c.v_name; required_input = c.required_input } in
    let m5 = record m3 { argument = c.argument } in
    let m6 = record m5 { source_file = c.source_file } in
    let m7 = record m6 { output_key = from_utf8_lossy c.output_key } in
    let m8 = record m7 { working_directory = from_utf8_lossy c.working_directory } in
    decode-write_some unit_field 1 (encode_vname c.v_name) f3 no_unit (omega arith) h.within
      (rw empty_vname refl)
    ∙ rw (parse_vname-encode_vname c.v_name h.v_name) (
        decode-inputs c.required_input f5 c.v_name h.required_input
        ∙ decode-strings 5 (λ acc. record m3 { argument = acc }) c.argument f6 (omega arith)
            (λ x acc. refl) h.argument
        ∙ decode-strings 6 (λ acc. record m5 { source_file = acc }) c.source_file f7 (omega arith)
            (λ x acc. refl) h.source_file
        ∙ decode-write_some unit_field 7 c.output_key f8 m6 (omega arith) h.output_key.1
            (ap (λ t. some (record m6 { output_key = t })) lossy_empty)
        ∙ decode-write_some unit_field 8 c.working_directory f9 m7 (omega arith)
            h.working_directory.1 (ap (λ t. some (record m7 { working_directory = t })) lossy_empty)
        ∙ decode-end unit_field 9 c.entry_context m8 (omega arith) h.entry_context.1
            (ap (λ t. some (record m8 { entry_context = t })) lossy_empty)
        ∙ rw
            (
              from_utf8_lossy-utf8 c.output_key h.output_key.0,
              from_utf8_lossy-utf8 c.working_directory h.working_directory.0,
              from_utf8_lossy-utf8 c.entry_context h.entry_context.0,
            )
            refl)

-- Decoding the bytes that a compilation is encoded to gives the same compilation, its lists in the
-- same order, if its strings are valid UTF-8 and every length stays below 2^64.
pub parse_indexed_compilation-encode_indexed_compilation :
    (c : IndexedCompilation)
    → IsTextUnit c.unit
    → length (encode_compilation_unit c.unit) < u64_mod
    → parse_indexed_compilation (encode_indexed_compilation c) ≡ some c
unfolding parse_indexed_compilation encode_indexed_compilation indexed_field
parse_indexed_compilation-encode_indexed_compilation c h within =
    let bytes = encode_compilation_unit c.unit in
    ap (λ t. decode indexed_field (record { unit = no_unit }) t)
      (sym (append-nil (write_tag_len 1 bytes)))
    ∙ decode-write_tag_len indexed_field 1 bytes [] (record { unit = no_unit }) (omega arith) within
    ∙ rw (parse_compilation_unit-encode_compilation_unit c.unit h)
        (unfold decode message_loop in refl)
