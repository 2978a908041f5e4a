-- ===== src/Examples/Ingest.antt =====
-- The theorems on the ingest of Kythe data, at small values.
use scry.Prelude.{
  ℕ, ◌≡◌, ◌↔◌, refl, arith, List, [], ◌∷◌, ◌++◌, length, take, some, none, true, false, inl, inr,
  All,
}
use scry.Text.{is_utf8, utf8_loop, lead_of}
use scry.Text.Str.{ascii as literal}
use scry.Kythe.AnchorLaws.{
  kind, start', end, edge, permutations, Recorded, arrive_all, anchor_orders,
}
use scry.Kythe.Edges.{is_no_name}
use scry.Kythe.State.{no_state, no_stats, no_anchor, World}
use scry.Kythe.EntryLaws.{IsTextName, vname_bytes, parse_entry-entry}
use scry.Kythe.Files.{intern, new_files}
use scry.Kythe.FilesLaws.{IsAlloc, intern_ids}
use scry.Kythe.Ingest.{ingest_tolerant}
use scry.Kythe.Finalize.{finalize}
use scry.Kythe.NameLaws.{strip_jvm_method_descriptor_iff, IsDescriptor}
use scry.Kythe.Names.{strip_jvm_method_descriptor}
use scry.Kythe.Scope.{Anchor, innermost_containing}
use scry.Kythe.ScopeLaws.{smallest, sym_of_row, innermost_containing-smallest}
use scry.Kythe.Signature.{find}
use scry.Kythe.StreamLaws.{IsEncoded, stream_of, process_all}
use scry.Kythe.TruncationLaws.{ingest-stream_of, ingest-truncated, start}
use scry.Kythe.Wire.{VName, Entry, no_vname, parse_entry, entry, framed, ld, varint, varint_bytes}
use scry.Writer.Builder.{new}
use scry.Examples.Sample.{ascii}

abbrev a_file : VName
a_file = record no_vname { corpus = literal "c"; path = literal "a.java" }

a_file-IsTextName : IsTextName a_file
unfolding is_utf8 utf8_loop lead_of
a_file-IsTextName = (
  (refl, omega arith),
  (refl, omega arith),
  (refl, omega arith),
  (refl, omega arith),
  (refl, omega arith),
)

no_vname-IsTextName : IsTextName no_vname
unfolding is_utf8 utf8_loop
no_vname-IsTextName = (
  (refl, omega arith),
  (refl, omega arith),
  (refl, omega arith),
  (refl, omega arith),
  (refl, omega arith),
)

abbrev fact_bytes : List ℕ
fact_bytes =
    entry (vname_bytes a_file) [] (vname_bytes no_vname) (literal "/kythe/text") (literal "x")

abbrev a_fact : Entry
a_fact = record {
  source = a_file;
  edge_kind = [];
  target = no_vname;
  fact_name = literal "/kythe/text";
  fact_value = literal "x";
}

parse_entry-entry_example : parse_entry fact_bytes ≡ some a_fact
unfolding is_utf8 utf8_loop lead_of vname_bytes ld varint varint_bytes
parse_entry-entry_example =
    parse_entry-entry a_file no_vname [] (literal "/kythe/text") (literal "x") a_file-IsTextName
      no_vname-IsTextName (refl, omega arith) (refl, omega arith) (omega arith) (omega arith)
      (omega arith)

abbrev bodies : List Anchor
bodies =
    record { file = 1; start = 0; end = 100; sym = 10 }
    ∷ record { file = 1; start = 20; end = 40; sym = 11 }
    ∷ record { file = 2; start = 5; end = 60; sym = 12 }
    ∷ []

innermost_containing-smallest_example :
    innermost_containing bodies 1 50 ≡ sym_of_row (smallest 1 50 none bodies)
innermost_containing-smallest_example = innermost_containing-smallest bodies 1 50 (
  (inr (refl, omega arith), (inl (omega arith), tt)),
  ((λ e l. omega arith), ((λ e l. omega arith), tt)),
  ((inl (omega arith), tt), ((λ e l. omega arith), tt), (tt, tt, tt)),
)

strip_jvm_method_descriptor_iff_example :
    (strip_jvm_method_descriptor (literal "m(I)V") ≡ some (literal "m")) ↔ (
      (args : List ℕ) × (ret : List ℕ) × IsDescriptor args ret
      × (literal "m(I)V" ≡ literal "m" ++ (b'(' ∷ (args ++ (b')' ∷ ret)))))
strip_jvm_method_descriptor_iff_example =
    strip_jvm_method_descriptor_iff (literal "m(I)V") (literal "m")

new_files-IsAlloc : IsAlloc new_files
unfolding find
new_files-IsAlloc = record { below = λ p e h. cc; apart = λ p q e f h k i. cc }

intern_ids_example :
    ((intern (literal "b") (intern (literal "a") new_files).0).1
      ≡ (intern (literal "a") new_files).1)
    ↔ (literal "a" ≡ literal "b")
intern_ids_example =
    intern_ids (literal "a") (literal "b") new_files new_files-IsAlloc (omega arith)

abbrev one_fact : List (List ℕ × Entry)
one_fact = (fact_bytes, a_fact) ∷ []

one_fact-IsEncoded : All IsEncoded one_fact
unfolding is_utf8 utf8_loop lead_of vname_bytes entry ld varint varint_bytes
one_fact-IsEncoded = (
  (
    parse_entry-entry a_file no_vname [] (literal "/kythe/text") (literal "x") a_file-IsTextName
        no_vname-IsTextName (refl, omega arith) (refl, omega arith) (omega arith) (omega arith)
        (omega arith),
    omega arith,
  ),
  tt,
)

ingest-stream_of_example :
    ingest_tolerant ascii length true (stream_of one_fact) new new_files
    ≡ some (finalize ascii length (process_all ascii length true one_fact (start new new_files)))
ingest-stream_of_example =
    ingest-stream_of ascii length new new_files true one_fact one_fact-IsEncoded

ingest-truncated_example :
    (ingest_tolerant ascii length true
        (stream_of one_fact ++ take 3 (framed fact_bytes))
        new
        new_files
      ≡ ingest_tolerant ascii length true (stream_of one_fact) new new_files)
    × (ingest_tolerant ascii length false
          (stream_of one_fact ++ take 3 (framed fact_bytes))
          new
          new_files
        ≡ none)
unfolding vname_bytes framed entry ld varint varint_bytes
ingest-truncated_example =
    ingest-truncated ascii length new new_files one_fact fact_bytes 2 one_fact-IsEncoded
      (omega arith) (omega arith)

abbrev no_world : World
no_world = record { state = no_state; builder = new; files = new_files; stats = no_stats }

a_file_named : is_no_name a_file ≡ false
unfolding is_no_name
a_file_named = refl

anchor_orders_example :
    All
      (λ es.
        Recorded ascii length b'a' [] 3 9 a_file no_world
          (arrive_all ascii length b'a' [] 3 9 a_file es (no_anchor, no_world)))
      (permutations (kind ∷ start' ∷ end ∷ edge ∷ []))
anchor_orders_example = anchor_orders ascii length b'a' [] 3 9 a_file no_world a_file_named
