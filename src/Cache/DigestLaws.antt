-- ===== src/Cache/DigestLaws.antt =====
-- The buffer of a digest in cache.rs tells apart exactly what it is meant to.
use scry.Prelude.{
  ℕ, ◌%◌, ◌<◌, ◌≡◌, ◌↔◌, arith, List, [], ◌∷◌, ◌++◌, map, length, length-map, All, ◌∙◌, ap, sym,
}
use mathlib.Core.List.{append-nil, append_assoc}
use scry.Bytes.{u64_mod}
use scry.Sorted.Set.{
  mem_set, from_list-IsOrdered, mem-from_list, IsOrdered-unique, from_list-shorter, from_list-All,
}
use scry.Kzip.Codec.{FileInput, CompilationUnit}
use scry.Cache.BufferLaws.{
  input-IsOrder, word, str_bytes, IsShort, word_split, str_split, strs, strs_split, flat,
  flat-injective, length-flat, add_str-buf, add_strs-buf, add_inputs-buf,
}
use scry.Cache.Digest.{
  add_u64, Input, input_of, input_order, inputs_of, content_of, ingest_schema_version,
}

-- The parts of the buffer in order.
abbrev behind_args : List Input → List ℕ
behind_args inputs = word (length inputs % u64_mod) ++ strs (flat inputs)

abbrev behind_language : List (List ℕ) → List Input → List ℕ
behind_language argument inputs =
    word (length argument % u64_mod) ++ (strs argument ++ behind_args inputs)

content_of-parts :
    (c : CompilationUnit) (tag : List ℕ)
    → content_of c tag
      ≡ word ingest_schema_version
        ++ (str_bytes tag
            ++ (str_bytes c.v_name.language ++ behind_language c.argument (inputs_of c)))
unfolding content_of add_u64
content_of-parts c tag = simp (add_inputs-buf, add_strs-buf, add_str-buf, append_assoc)

-- Strings and lists that are shorter than 2^64.
pub record IsDigestible (c : CompilationUnit) (tag : List ℕ) : Type 0 where
  pub tag_short : IsShort tag
  pub language : IsShort c.v_name.language
  pub argument : All IsShort c.argument
  pub arguments : length c.argument < u64_mod
  pub input : All (λ i. IsShort i.v_name.path × IsShort i.info.digest) c.required_input
  pub inputs : length c.required_input < u64_mod

inputs_within :
    (c : CompilationUnit) → length c.required_input < u64_mod → length (inputs_of c) < u64_mod
unfolding inputs_of
inputs_within c h = omega (
  arith,
  from_list-shorter input_order input-IsOrder (map input_of c.required_input),
  length-map input_of c.required_input,
)

abbrev IsShortInput : Input → Type 0
IsShortInput x = IsShort x.0 × IsShort x.1

flat-short : (xs : List Input) → All IsShortInput xs → All IsShort (flat xs)
unfolding flat
flat-short [] h = tt
flat-short ((p, d) ∷ xs) h = (h.0.0, (h.0.1, flat-short xs h.1))

inputs-short :
    (c : CompilationUnit) (tag : List ℕ) → IsDigestible c tag → All IsShort (flat (inputs_of c))
unfolding inputs_of
inputs-short c tag h = flat-short (inputs_of c) (
    from_list-All input_order input-IsOrder IsShortInput (map input_of c.required_input)
      (mapped c.required_input h.input))
  where
    mapped :
        (is : List FileInput)
        → All (λ i. IsShort i.v_name.path × IsShort i.info.digest) is
        → All IsShortInput (map input_of is)
    mapped [] k = tt
    mapped (i ∷ is) k = (k.0, mapped is k.1)

-- What a digest is meant to tell apart: the tag, the language, the arguments in their order, and
-- the paths and digests of the inputs in any order.
abbrev pub SameContent : CompilationUnit → List ℕ → CompilationUnit → List ℕ → Type 0
SameContent c tag d other =
    (tag ≡ other)
    × (c.v_name.language ≡ d.v_name.language)
    × (c.argument ≡ d.argument)
    × ((x : Input)
        → mem_set input_order x (map input_of c.required_input)
          ≡ mem_set input_order x (map input_of d.required_input))

module _ (c d : CompilationUnit) (tag other : List ℕ) (h : IsDigestible c tag)
    (k : IsDigestible d other) where
  inputs-same :
      ((x : Input)
        → mem_set input_order x (map input_of c.required_input)
          ≡ mem_set input_order x (map input_of d.required_input))
      → inputs_of c ≡ inputs_of d
  unfolding inputs_of
  inputs-same e =
      let xs = map input_of c.required_input in
      let ys = map input_of d.required_input in
      IsOrdered-unique input_order input-IsOrder (inputs_of c) (inputs_of d)
        (from_list-IsOrdered input_order input-IsOrder xs)
        (from_list-IsOrdered input_order input-IsOrder ys)
        (λ x.
          mem-from_list input_order input-IsOrder x xs
          ∙ e x
          ∙ sym (mem-from_list input_order input-IsOrder x ys))

  content-same : SameContent c tag d other → content_of c tag ≡ content_of d other
  content-same (t, l, a, e) =
      content_of-parts c tag ∙ rw (inputs-same e, t, l, a) (sym (content_of-parts d other))

  same_args :
      behind_language c.argument (inputs_of c) ≡ behind_language d.argument (inputs_of d)
      → (c.argument ≡ d.argument) × (behind_args (inputs_of c) ≡ behind_args (inputs_of d))
  same_args e =
      let (n, rest) =
        word_split (length c.argument % u64_mod) (length d.argument % u64_mod)
          (strs c.argument ++ behind_args (inputs_of c))
          (strs d.argument ++ behind_args (inputs_of d)) (omega arith) (omega arith) e in
      strs_split c.argument d.argument (behind_args (inputs_of c)) (behind_args (inputs_of d))
        h.argument k.argument (omega (arith, h.arguments, k.arguments, n)) rest

  same_inputs : behind_args (inputs_of c) ≡ behind_args (inputs_of d) → inputs_of c ≡ inputs_of d
  same_inputs e =
      let (n, rest) =
        word_split (length (inputs_of c) % u64_mod) (length (inputs_of d) % u64_mod)
          (strs (flat (inputs_of c))) (strs (flat (inputs_of d))) (omega arith) (omega arith) e in
      let count : length (flat (inputs_of c)) ≡ length (flat (inputs_of d)) = omega (
        arith,
        n,
        inputs_within c h.inputs,
        inputs_within d k.inputs,
        length-flat (inputs_of c),
        length-flat (inputs_of d),
      ) in
      flat-injective (inputs_of c) (inputs_of d)
        (strs_split (flat (inputs_of c)) (flat (inputs_of d)) [] [] (inputs-short c tag h)
          (inputs-short d other k) count
          (append-nil (strs (flat (inputs_of c)))
            ∙ rest
            ∙ sym (append-nil (strs (flat (inputs_of d)))))).0

  members_same :
      inputs_of c ≡ inputs_of d
      → (x : Input)
      → mem_set input_order x (map input_of c.required_input)
        ≡ mem_set input_order x (map input_of d.required_input)
  unfolding inputs_of
  members_same e x =
      sym (mem-from_list input_order input-IsOrder x (map input_of c.required_input))
      ∙ ap (λ s. mem_set input_order x s) e
      ∙ mem-from_list input_order input-IsOrder x (map input_of d.required_input)

  same-content : content_of c tag ≡ content_of d other → SameContent c tag d other
  same-content e =
      let whole = sym (content_of-parts c tag) ∙ e ∙ content_of-parts d other in
      let (_, named) =
        word_split ingest_schema_version ingest_schema_version
          (str_bytes tag
            ++ (str_bytes c.v_name.language ++ behind_language c.argument (inputs_of c)))
          (str_bytes other
            ++ (str_bytes d.v_name.language ++ behind_language d.argument (inputs_of d)))
          (omega arith) (omega arith) whole in
      let (t, spoken) =
        str_split tag other
          (str_bytes c.v_name.language ++ behind_language c.argument (inputs_of c))
          (str_bytes d.v_name.language ++ behind_language d.argument (inputs_of d)) h.tag_short
          k.tag_short named in
      let (l, argued) =
        str_split c.v_name.language d.v_name.language (behind_language c.argument (inputs_of c))
          (behind_language d.argument (inputs_of d)) h.language k.language spoken in
      let (a, rest) = same_args argued in (t, l, a, members_same (same_inputs rest))

  -- Two compilation units put the same bytes into their digests exactly if they have the same
  -- indexer tag, the same language, the same arguments in the same order, and the same set of pairs
  -- of path and digest among their inputs, in whatever order, as long as every length stays below
  -- 2^64.
  pub content_of_iff : (content_of c tag ≡ content_of d other) ↔ SameContent c tag d other
  content_of_iff = (same-content, content-same)
