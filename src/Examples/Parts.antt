-- ===== src/Examples/Parts.antt =====
-- The theorems on the parts, at small values.
use Prim.Native.Nat.{compare}
use scry.Prelude.{ℕ, ◌≤◌, ◌≡◌, refl, arith, List, [], ◌∷◌, ◌++◌, length, take, true}
use mathlib.Core.List.{flatten}
use scry.Bytes.{cmp}
use scry.Format.{Header, magic, pack, inh_row, table}
use scry.Format.Varint.{write_varint, read_varint, varint_len}
use scry.Format.VarintLaws.{read_varint-write_varint}
use scry.Run.{done}
use scry.Sorted.{Row, count_while, row_lt}
use scry.Reader.Search.{find_loop, lower_bound}
use scry.Reader.SearchLaws.{find_loop-Finds, Finds}
use scry.Reader.TableLaws.{lower_bound-table}
use scry.Text.{is_utf8, utf8_loop, lead_of, chars, chars_loop, trim, skip_while, any}
use scry.Text.Clamp.{clamp_blob_str, clamp_blob_str_lem, u16_max}
use scry.Writer.Builder.{
  IndexBuilder, SymInfo, new, sort_dedup, upsert, upsert_sym, merge_syms, merge_files,
}
use scry.Writer.Layout.{Section, file_of}
use scry.Writer.LayoutLaws.{Readable, file_of-Readable}
use scry.Writer.Merge.{fold_sources, merge_syms_refine, merge_files_first_wins, merge_typed_by_sym}
use scry.Writer.MergeByKey.{IsAscending, lookup}
use scry.Writer.MergeLaws.{fold_sources_lem}
use scry.Writer.Names.{better_name, is_degenerate_name}
use scry.Writer.NameLaws.{better_name_comm}
use scry.Writer.KeptNames.{SymOp, apply_ops, HoldsOver, apply_ops-Gives, apply_op}
use scry.Writer.StreamLaws.{
  merge_syms_refine_lem, merge_files_first_wins_lem, merge_typed_by_sym_comm,
}
use scry.Reader.BlockLaws.{gaps}
use scry.Reader.PostingLaws.{trigram_postings_lem}
use scry.Reader.Trigram.{trigram_postings}
use scry.Examples.Sample.{ascii}

abbrev two_sources : List (List Row)
two_sources = ((1 ∷ 2 ∷ []) ∷ (1 ∷ 2 ∷ []) ∷ []) ∷ ((1 ∷ 2 ∷ []) ∷ (3 ∷ 4 ∷ []) ∷ []) ∷ []

fold_sources_lem_example : fold_sources two_sources ≡ sort_dedup (flatten two_sources)
unfolding cmp
fold_sources_lem_example =
    fold_sources_lem two_sources ((((λ e. cc), tt), (tt, tt)), ((((λ e. cc), tt), (tt, tt)), tt))

abbrev left_syms : List (ℕ × SymInfo)
left_syms =
    (1, record { kind = 0; lang = 1; name = b'a' ∷ [] })
    ∷ (2, record { kind = 3; lang = 1; name = [] })
    ∷ []

abbrev right_syms : List (ℕ × SymInfo)
right_syms =
    (1, record { kind = 4; lang = 2; name = b'b' ∷ [] })
    ∷ (5, record { kind = 3; lang = 1; name = [] })
    ∷ []

merge_syms_refine_lem_example :
    IsAscending (merge_syms_refine ascii left_syms right_syms)
    × (lookup 1 (merge_syms_refine ascii left_syms right_syms)
        ≡ lookup 1 (merge_syms ascii left_syms right_syms))
merge_syms_refine_lem_example =
    merge_syms_refine_lem ascii 1 left_syms right_syms ((omega arith, tt), (tt, tt))
      ((omega arith, tt), (tt, tt))

abbrev left_files : List (ℕ × List ℕ)
left_files = (1, b'a' ∷ []) ∷ (4, b'd' ∷ []) ∷ []

abbrev right_files : List (ℕ × List ℕ)
right_files = (1, b'b' ∷ []) ∷ (3, b'c' ∷ []) ∷ []

merge_files_first_wins_lem_example :
    IsAscending (merge_files_first_wins left_files right_files)
    × (lookup 1 (merge_files_first_wins left_files right_files)
        ≡ lookup 1 (merge_files left_files right_files))
merge_files_first_wins_lem_example =
    merge_files_first_wins_lem 1 left_files right_files ((omega arith, tt), (tt, tt))
      ((omega arith, tt), (tt, tt))

merge_typed_by_sym_comm_example :
    merge_typed_by_sym left_files right_files ≡ merge_typed_by_sym right_files left_files
merge_typed_by_sym_comm_example = merge_typed_by_sym_comm left_files right_files

abbrev two_sections : List Section
two_sections = record { len = 2; content = 1 ∷ 2 ∷ [] } ∷ record { len = 1; content = 3 ∷ [] } ∷ []

file_of-Readable_example :
    (take 1 (file_of (9 ∷ []) two_sections) ≡ 9 ∷ [])
    × Readable (file_of (9 ∷ []) two_sections) 1 two_sections
file_of-Readable_example = file_of-Readable (9 ∷ []) two_sections (refl, (refl, tt)) (omega arith)

abbrev a_header : Header
a_header = record {
  magic = magic;
  version = 6;
  xrefs_off = 4096;
  xrefs_n = 3;
  syms_off = 8192;
  syms_n = 2;
  names_off = 12288;
  names_n = 2;
  files_off = 16384;
  files_n = 1;
  inh_off = 0;
  inh_n = 0;
  calls_off = 0;
  calls_n = 0;
  crev_off = 0;
  crev_n = 0;
  blob_off = 20480;
  blob_len = 5;
  typed_off = 0;
  typed_n = 0;
  childrev_off = 0;
  childrev_n = 0;
  inhrev_off = 0;
  inhrev_n = 0;
  sig_off = 0;
  sig_n = 0;
  trigram_dict_off = 0;
  trigram_dict_n = 0;
  trigram_post_off = 0;
  trigram_post_len = 0;
}

better_name_comm_example :
    better_name ascii (b'a' ∷ []) (b'b' ∷ []) ≡ better_name ascii (b'b' ∷ []) (b'a' ∷ [])
unfolding is_degenerate_name chars chars_loop trim skip_while any lead_of
better_name_comm_example = better_name_comm ascii (b'a' ∷ []) (b'b' ∷ []) refl

-- Three names of symbol 1: the first from another builder.
abbrev other : IndexBuilder
other = upsert_sym ascii new 1 1 2 (b'f' ∷ b'o' ∷ b'o' ∷ [])

abbrev later : List SymOp
later = SymOp.named 1 (b'f' ∷ b'o' ∷ []) ∷ SymOp.upserted 1 1 1 (b'<' ∷ []) ∷ []

apply_ops-Gives_example :
    HoldsOver ascii 1
      (b'f' ∷ b'o' ∷ b'o' ∷ [])
      (apply_ops ascii later (apply_op ascii (SymOp.merged other) new)).syms
unfolding upsert_sym upsert lookup
apply_ops-Gives_example =
    apply_ops-Gives ascii new (SymOp.merged other) 1 (b'f' ∷ b'o' ∷ b'o' ∷ [])
      (record { kind = 1; lang = 2; name = b'f' ∷ b'o' ∷ b'o' ∷ [] }, refl, refl) later

find_loop-Finds_example : Finds (λ i. compare i 3) 0 5 (find_loop 5 (λ i. done (compare i 3)) 0 5)
find_loop-Finds_example =
    find_loop-Finds (λ i. compare i 3) 5 (λ i. done (compare i 3)) 0 5
      (record { less = λ i j h e. ground arith; greater = λ i j h e. ground arith }) (λ i h. refl)
      (omega arith)

abbrev three_rows : List Row
three_rows = (1 ∷ 2 ∷ []) ∷ (1 ∷ 3 ∷ []) ∷ (4 ∷ 0 ∷ []) ∷ []

lower_bound-table_example :
    lower_bound (table inh_row three_rows) 3 16 (pack inh_row (4 ∷ 0 ∷ []))
    ≡ done (count_while (λ r. row_lt r (4 ∷ 0 ∷ [])) three_rows)
unfolding cmp
lower_bound-table_example =
    lower_bound-table inh_row 16 three_rows refl (omega arith) (4 ∷ 0 ∷ []) (omega arith)
      (((λ e. cc), ((λ e. cc), tt)), ((((λ e. cc), tt)), (tt, tt)))

read_varint-write_varint_example :
    read_varint (write_varint (7 ∷ []) 300 ++ (5 ∷ [])) 1 ≡ done (300, varint_len 300)
read_varint-write_varint_example = read_varint-write_varint (7 ∷ []) (5 ∷ []) 300 (omega arith)

abbrev umlaut : List ℕ
umlaut = 0xC3 ∷ 0xA4 ∷ []

clamp_blob_str_lem_example :
    (length (clamp_blob_str umlaut) ≤ u16_max)
    × (is_utf8 (clamp_blob_str umlaut) ≡ true)
    × (take (length (clamp_blob_str umlaut)) umlaut ≡ clamp_blob_str umlaut)
    × (length umlaut ≤ u16_max → clamp_blob_str umlaut ≡ umlaut)
unfolding is_utf8 utf8_loop lead_of
clamp_blob_str_lem_example = clamp_blob_str_lem umlaut refl

abbrev skip_table : List ℕ
skip_table = 0 ∷ 0 ∷ 1 ∷ 44 ∷ 0 ∷ 0 ∷ 0 ∷ 8 ∷ []

trigram_postings_lem_example :
    trigram_postings
      (gaps ([] ++ skip_table) 0 7 (1 ∷ 300 ∷ []) ++ (9 ∷ []))
      (record { off = 0; len = 11; count = 2 })
    ≡ done (1 ∷ 300 ∷ [])
unfolding gaps write_varint scry.Writer.Trigram.delta_of
trigram_postings_lem_example =
    trigram_postings_lem [] skip_table (9 ∷ []) 11 7 (1 ∷ 300 ∷ []) (omega arith) refl (omega arith)
