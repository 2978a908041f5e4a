-- ===== src/Examples/Graph.antt =====
-- The theorems on the verbs of the server, at a small index.
use scry.Prelude.{◌≤◌, arith, [], ◌∷◌, ◌==◌, if◌then◌else◌, some, none, false, length}
use scry.Bytes.{u32_mod}
use scry.Kythe.Signature.{find}
use scry.Server.ForestLaws.{graphs_IsForest}
use scry.Server.Graphs.{
  keep, flat_map, count_roots, forest_reply, key_of, dup_syms, edges_of, defined_in, roots_of,
  when_asked, run_walk, callgraph_verb, inheritance_verb, do_callgraph, do_inheritance,
}
use scry.Server.Queries.{
  Queries, PathFilter, names_part, names_no_part, passes, has_in_out, logical_key, name_of, kind_of,
  sym_passes,
}
use scry.Server.Walk.{
  seen_at, admit_at, admit, add_root, admit_roots, admitted, visit_one, visit_all, visit_from,
  expand_all, hop_loop, walk_levels,
}
use scry.Server.WalkLaws.{IsForest}
use scry.Server.Xrefs.{syms_of, do_xrefs}
use scry.Server.XrefLaws.{Answers, all_groups, do_xrefs_lem}
use scry.Sorted.{contains}
use scry.Sorted.Set.{from_list, insert_set}
use scry.Text.Str.{ascii as literal, same, strip_prefix}

-- Two functions, of which the first calls the second and itself, and each has two references.
abbrev calls : Queries
calls = record {
  syms_for_name = λ name. if same name (literal "f") then 1 ∷ [] else 2 ∷ [];
  syms_matching_substring = λ name limit. [];
  sym_meta = λ s. if s == 1 then some (literal "f", 1, 1) else some (literal "g", 1, 1);
  sym_def_loc = λ s. none;
  sym_def_path = λ s. none;
  file_path = λ f. none;
  calls_from = λ s. if s == 1 then (1, 3) ∷ (2, 3) ∷ [] else [];
  called_by = λ s. (1, 3) ∷ [];
  inherits_of = λ s. [];
  inherited_by = λ s. [];
  members = λ s. [];
  syms_matching_substring_ci = λ name limit. [];
  type_of = λ s. none;
  sig_of = λ s. none;
  n_xrefs = 4;
  n_syms = 2;
  n_files = 1;
  n_inh = 0;
  n_calls = 2;
  xrefs = λ s lo hi. (1, 7, 5) ∷ (2, 7, 9) ∷ [];
}

abbrev no_filter : PathFilter
no_filter = record { in_ = none; not_in = none; def_in = none }

two_nodes :
    length (do_callgraph calls (literal "f") (literal "down") 2 10 false 16 no_filter).nodes
    ≤ u32_mod
unfolding find keep flat_map count_roots forest_reply key_of dup_syms edges_of defined_in roots_of
    when_asked run_walk callgraph_verb do_callgraph names_part names_no_part passes has_in_out
    logical_key name_of kind_of sym_passes seen_at admit_at admit add_root admit_roots admitted
    visit_one visit_all visit_from expand_all hop_loop walk_levels contains from_list insert_set
    same strip_prefix
two_nodes = omega arith

one_node :
    length (do_inheritance calls (literal "f") (literal "down") 2 10 false 16 no_filter).nodes
    ≤ u32_mod
unfolding find keep flat_map count_roots forest_reply key_of dup_syms edges_of defined_in roots_of
    when_asked run_walk inheritance_verb do_inheritance names_part names_no_part passes has_in_out
    logical_key name_of kind_of sym_passes seen_at admit_at admit add_root admit_roots admitted
    visit_one visit_all visit_from expand_all hop_loop walk_levels contains from_list insert_set
    same strip_prefix
one_node = omega arith

graphs_IsForest_example :
    IsForest (do_callgraph calls (literal "f") (literal "down") 2 10 false 16 no_filter).nodes
    × IsForest (do_inheritance calls (literal "f") (literal "down") 2 10 false 16 no_filter).nodes
graphs_IsForest_example =
    graphs_IsForest calls (literal "f") (literal "down") 2 10 false 16 no_filter two_nodes one_node

do_xrefs_lem_example :
    Answers 10
      (all_groups calls no_filter false 0 255 10
        (syms_of calls no_filter (literal "f") false false 16))
      (do_xrefs calls no_filter (literal "f") false false 16 (0, 255) 10 false)
do_xrefs_lem_example = do_xrefs_lem calls no_filter (literal "f") false false 16 0 255 10 false
