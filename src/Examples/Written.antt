-- ===== src/Examples/Written.antt =====
-- The theorems on the written file, at the sample.
use scry.Prelude.{ℕ, ◌-◌, ◌≡◌, refl, arith, List, [], ◌∷◌, map, select}
use mathlib.Core.Option
use scry.Prelude.{◌||◌, ◌&&◌, not}
use scry.Roundtrip.Aliases.{is_variable}
use scry.Reader.Names.{syms_for_name}
use scry.Text.{is_utf8, utf8_loop, lead_of}
use scry.Writer.Builder.{SymInfo}
use scry.Roundtrip.Named.{holds}
use scry.Roundtrip.NameIndex.{syms_for_name_lem, alias_name}
use scry.Roundtrip.Symbols.{sym_name}
use scry.Bytes.{u64_mod, cmp}
use scry.Run.{done, panic}
use scry.Sorted.{field, contains, mem_row}
use scry.Reader.{inherits_of, inherited_by, members, calls_from, called_by, xrefs}
use scry.Reader.Lookup.{file_path, type_of, sig_of, sym_meta}
use scry.Reader.Open.{ok, open', read_header}
use scry.Reader.OpenLaws.{open-IsReadable, IsReadable}
use scry.Reader.XrefLaws.{xref_out, in_roles}
use scry.Text.Clamp.{clamp_blob_str}
use scry.Writer.Builder.{sort_dedup}
use scry.Writer.Finish.{tables_of, finish, header_of}
use scry.Writer.MergeByKey.{lookup}
use scry.Roundtrip.Members.{contains_pair}
use scry.Roundtrip.Whole.{index_of, open-finish}
use scry.Roundtrip.Queries.{
  inherits_of_lem, inherited_by_lem, members_lem, calls_from_lem, called_by_lem,
}
use scry.Roundtrip.Xrefs.{xrefs_lem, inherits_of-panic}
use scry.Roundtrip.Strings.{find_by}
use scry.Roundtrip.Lookups.{shown}
use scry.Roundtrip.Found.{file_path_lem, type_of_lem, sig_of_lem, shown_row}
use scry.Roundtrip.Symbols.{sym_meta_lem, shown_info}
use scry.Reader.Iter.{iter_xrefs, iter_inherits}
use scry.Reader.IterLaws.{pair_out}
use scry.Roundtrip.Iterated.{iter_edges_lem}
use scry.Examples.Sample.{sample, sample-IsWritable, sample_files-IsMap, sample_syms-IsMap}

open-finish_example : open' (finish sample) ≡ ok (index_of (tables_of sample))
open-finish_example = open-finish sample sample-IsWritable

open-IsReadable_example :
    (finish sample ≡ finish sample)
    × (header_of (tables_of sample) ≡ read_header (finish sample))
    × IsReadable (index_of (tables_of sample))
unfolding finish
open-IsReadable_example = open-IsReadable (finish sample) (open-finish sample sample-IsWritable)

xrefs_lem_example :
    xrefs (index_of (tables_of sample)) 1 1 2
    ≡ done (map xref_out (select (in_roles 1 1 2) (sort_dedup sample.xrefs)))
xrefs_lem_example =
    xrefs_lem sample sample-IsWritable 1 1 2 (omega arith) (omega arith) (omega arith)

inherits_of_lem_example :
    (out : List ℕ) × (inherits_of (index_of (tables_of sample)) 1 ≡ done out)
    × (contains 2 out ≡ mem_row (1 ∷ 2 ∷ []) sample.inherits)
inherits_of_lem_example = inherits_of_lem sample sample-IsWritable 1 2 (omega arith)

inherited_by_lem_example :
    (out : List ℕ) × (inherited_by (index_of (tables_of sample)) 2 ≡ done out)
    × (contains 1 out ≡ mem_row (1 ∷ 2 ∷ []) sample.inherits)
inherited_by_lem_example = inherited_by_lem sample sample-IsWritable 2 1 (omega arith)

members_lem_example :
    (out : List ℕ) × (members (index_of (tables_of sample)) 2 ≡ done out)
    × (contains 1 out ≡ mem_row (2 ∷ 1 ∷ []) sample.childof)
members_lem_example = members_lem sample sample-IsWritable 2 1 (omega arith)

calls_from_lem_example :
    (out : List (ℕ × ℕ)) × (calls_from (index_of (tables_of sample)) 1 ≡ done out)
    × (contains_pair (2, 1) out ≡ mem_row (1 ∷ 2 ∷ 1 ∷ []) sample.calls)
calls_from_lem_example = calls_from_lem sample sample-IsWritable 1 2 1 (omega arith)

called_by_lem_example :
    (out : List (ℕ × ℕ)) × (called_by (index_of (tables_of sample)) 2 ≡ done out)
    × (contains_pair (1, 1) out ≡ mem_row (1 ∷ 2 ∷ 1 ∷ []) sample.calls)
called_by_lem_example = called_by_lem sample sample-IsWritable 2 1 1 (omega arith)

inherits_of-panic_example : inherits_of (index_of (tables_of sample)) (u64_mod - 1) ≡ panic
unfolding mem_row cmp
inherits_of-panic_example = inherits_of-panic sample sample-IsWritable 1 2 refl (omega arith)

file_path_lem_example :
    file_path (index_of (tables_of sample)) 7
    ≡ done (Option.map (λ p. shown (clamp_blob_str p)) (lookup 7 sample.files))
file_path_lem_example = file_path_lem sample sample-IsWritable 7 sample_files-IsMap (omega arith)

type_of_lem_example :
    type_of (index_of (tables_of sample)) 1
    ≡ done (Option.map shown_row (find_by (field 0) 1 (sort_dedup sample.typed)))
type_of_lem_example = type_of_lem sample sample-IsWritable 1 (omega arith)

sig_of_lem_example :
    sig_of (index_of (tables_of sample)) 1
    ≡ done (Option.map shown_row (find_by (field 0) 1 (sort_dedup sample.sig)))
sig_of_lem_example = sig_of_lem sample sample-IsWritable 1 (omega arith)

sym_meta_lem_example :
    sym_meta (index_of (tables_of sample)) 1 ≡ done (Option.map shown_info (lookup 1 sample.syms))
sym_meta_lem_example = sym_meta_lem sample sample-IsWritable 1 sample_syms-IsMap (omega arith)

syms_for_name_lem_example :
    (out : List ℕ) × (syms_for_name (index_of (tables_of sample)) (b'w' ∷ []) ≡ done out)
    × (contains 2 out ≡ (
        holds (λ (e : ℕ × SymInfo). e.0) sym_name (b'w' ∷ []) 2 sample.syms
        || (not (is_variable 2 sample.syms)
            && holds (field 0) alias_name (b'w' ∷ []) 2 sample.aliases)))
unfolding is_utf8 utf8_loop lead_of
syms_for_name_lem_example =
    syms_for_name_lem sample sample-IsWritable (b'w' ∷ []) 2
      ((refl, (refl, tt)), (refl, (refl, tt)))

iter_edges_lem_example :
    (iter_xrefs (index_of (tables_of sample)) ≡ done (map xref_out (sort_dedup sample.xrefs)))
    × (iter_inherits (index_of (tables_of sample))
        ≡ done (map pair_out (sort_dedup sample.inherits)))
iter_edges_lem_example = iter_edges_lem sample sample-IsWritable
