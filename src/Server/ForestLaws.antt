-- ===== src/Server/ForestLaws.antt =====
-- The replies of the graph verbs of server.rs are forests.
use scry.Prelude.{
  ℕ, ◌%◌, ◌≤◌, ◌<◌, ◌≡◌, refl, arith, List, [], ◌∷◌, Bool, length, length-append, get_elem?, Option,
  some, none, All, All-map, inl, inr, ◌∙◌, ap,
}
use scry.Bytes.{u32_mod}
use scry.Kythe.State.{push}
use scry.Server.Graphs.{
  roots_of, run_walk, forest_reply, callgraph_verb, inheritance_verb, do_callgraph, do_inheritance,
}
use scry.Server.Queries.{Queries, PathFilter}
use scry.Server.Reply.{CallNode}
use scry.Server.Walk.{Forest, Verb, no_forest, admit, add_root, admit_roots, walk_levels}
use scry.Server.WalkLaws.{
  IsForest, At, At-old, push-IsForest, get_elem?-last, new_node, Admits, admit-Admits, All-push,
  hop_loop-IsForest,
}
use scry.Text.Str.{ascii}

-- The roots, unless there are too many for their ids.
abbrev AreRoots : Forest × List (ℕ × ℕ) → Type 0
AreRoots s = length s.0.nodes ≤ u32_mod → IsForest s.0.nodes × All (At s.0.nodes 0) s.1

module _ (v : Verb) (max_syms : ℕ) where
  add_root-AreRoots :
      (root : ℕ) (f : Forest) (frontier : List (ℕ × ℕ))
      → AreRoots (f, frontier)
      → (r : Forest × Option ℕ) → Admits v max_syms root none (ascii "root") 0 f r
      → AreRoots (add_root v max_syms root r frontier)
  unfolding add_root
  add_root-AreRoots root f frontier h (f', none) (inl (_, e)) = rw e h
  add_root-AreRoots root f frontier h (f', none) (inr (e, _)) = cc
  add_root-AreRoots root f frontier h (f', some id) (inl (e, _)) = cc
  add_root-AreRoots root f frontier h (f', some id) (inr (i, e)) =
      rw (e, id_eq i)
        (λ le.
          let small : length f.nodes < u32_mod = omega (arith, length-append f.nodes (node ∷ [])) in
          let (forest, level) = h (omega arith) in
          let id : length f.nodes % u32_mod ≡ length f.nodes = omega arith in
          (
            push-IsForest f.nodes node forest id (inl (refl, refl)),
            All-push v max_syms (At (push node f.nodes) 0) (root, length f.nodes % u32_mod) frontier
                (All-map (At-old f.nodes (node ∷ []) 0) frontier level)
                (
                  node,
                  ap (λ (j : ℕ). get_elem? (push node f.nodes) j) id ∙ get_elem?-last f.nodes node,
                  refl,
                ),
          ))
    where
      node : CallNode
      node = new_node v max_syms root none (ascii "root") 0 f

      id_eq : {a b : ℕ} → some a ≡ some b → a ≡ b
      id_eq h = ap (λ (o : Option ℕ). elim o [ none ↦ 0 | some c ↦ c ]) h

  admit_roots-AreRoots :
      (roots : List ℕ) (f : Forest) (frontier : List (ℕ × ℕ))
      → AreRoots (f, frontier)
      → AreRoots (admit_roots v max_syms roots (f, frontier))
  unfolding admit_roots
  admit_roots-AreRoots [] f frontier h = h
  admit_roots-AreRoots (root ∷ roots) f frontier h =
      let r = admit v max_syms root none (ascii "root") 0 f in
      let s = add_root v max_syms root r frontier in
      admit_roots-AreRoots roots s.0 s.1 (
        add_root-AreRoots root f frontier h r
          (admit-Admits v max_syms root none (ascii "root") 0 f))

  walk_levels-IsForest :
      (depth : ℕ) (roots : List ℕ)
      → length (walk_levels v max_syms depth roots).0.nodes ≤ u32_mod
      → IsForest (walk_levels v max_syms depth roots).0.nodes
  unfolding walk_levels
  walk_levels-IsForest depth roots =
      let s = admit_roots v max_syms roots (no_forest, []) in
      hop_loop-IsForest v max_syms depth 0 s.1 s.0
        (admit_roots-AreRoots roots no_forest [] (λ le. ((λ j n e. cc), tt)))

run_walk-IsForest :
    (ix : Queries) (v : Verb) (depth max_syms : ℕ) (roots : List ℕ)
    → length (run_walk ix v depth max_syms roots).nodes ≤ u32_mod
    → IsForest (run_walk ix v depth max_syms roots).nodes
unfolding run_walk forest_reply
run_walk-IsForest ix v depth max_syms [] = λ le. λ j n e. cc
run_walk-IsForest ix v depth max_syms (root ∷ roots) =
    walk_levels-IsForest v max_syms depth (root ∷ roots)

-- The call graph and the inheritance graph are forests, whatever the index, the depth, the limit and
-- the filter, if they have at most 2^32 nodes: the id of a node is its position, and a node either
-- has no parent and hop 0, or its parent stands before it and its hop is one more than the parent's.
pub graphs_IsForest :
    (ix : Queries) (name direction : List ℕ) (depth max_syms : ℕ) (substr : Bool) (root_limit : ℕ)
    (filt : PathFilter)
    → length (do_callgraph ix name direction depth max_syms substr root_limit filt).nodes ≤ u32_mod
    → length (do_inheritance ix name direction depth max_syms substr root_limit filt).nodes
      ≤ u32_mod
    → IsForest (do_callgraph ix name direction depth max_syms substr root_limit filt).nodes
      × IsForest (do_inheritance ix name direction depth max_syms substr root_limit filt).nodes
unfolding do_callgraph do_inheritance
graphs_IsForest ix name direction depth max_syms substr root_limit filt c i = (
  run_walk-IsForest ix (callgraph_verb ix direction filt) depth max_syms
      (roots_of ix name substr root_limit filt) c,
  run_walk-IsForest ix (inheritance_verb ix direction filt) depth max_syms
      (roots_of ix name substr root_limit filt) i,
)
