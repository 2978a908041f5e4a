-- ===== src/Server/Graphs.antt =====
-- `do_callgraph` and `do_inheritance` of server.rs: two verbs of one search.
use Prim.Native.Nat.{compare}
use scry.Prelude.{
  ℕ, suc, ◌-◌, List, [], ◌∷◌, ◌++◌, Bool, true, false, not, ◌||◌, ◌==◌, if◌then◌else◌, map, length,
  Option, some, none,
}
use scry.Kythe.State.{push}
use scry.Server.Queries.{
  Queries, PathFilter, contains_str, logical_key, def_loc_str, display_name, name_of, kind_of,
  sym_passes,
}
use scry.Server.Reply.{CallNode, ForestReply}
use scry.Server.Walk.{Forest, Verb, walk_levels}
use scry.Sorted.{contains}
use scry.Sorted.Set.{from_list}
use scry.Text.Str.{ascii, same, before_word}
use scry.Writer.Names.{is_empty}

-- `iter().filter(p)`
unfoldable pub keep : (ℕ → Bool) → List ℕ → List ℕ
keep p [] = []
keep p (x ∷ xs) = let rest = keep p xs in if p x then x ∷ rest else rest

unfoldable pub flat_map : (ℕ → List ℕ) → List ℕ → List ℕ
flat_map f [] = []
flat_map f (x ∷ xs) = f x ++ flat_map f xs

-- `nodes.iter().filter(|n| n.hop == 0).count()`
unfoldable pub count_roots : List CallNode → ℕ
count_roots [] = 0
count_roots (n ∷ nodes) = let rest = count_roots nodes in if n.hop == 0 then suc rest else rest

unfoldable pub forest_reply : Forest × Bool → ForestReply
unfolding count_roots
forest_reply (f, truncated) = record {
  nodes = f.nodes;
  total = length f.nodes - count_roots f.nodes;
  truncated = truncated;
}

abbrev pub no_reply : ForestReply
no_reply = record { nodes = []; total = 0; truncated = false }

module _ (ix : Queries) where
  unfoldable pub key_of : ℕ → List ℕ
  unfolding logical_key name_of
  key_of sym = logical_key (name_of ix sym)

  -- The symbols with the logical key of `rep`.
  unfoldable pub dup_syms : ℕ → List ℕ
  unfolding keep key_of name_of contains same
  dup_syms rep =
      let group = keep (λ s. same (key_of s) (key_of rep)) (ix.syms_for_name (name_of ix rep)) in
      if not (contains rep group) then push rep group else group

  -- The edges of all of them, sorted, each once.
  unfoldable pub edges_of : (ℕ → List ℕ) → ℕ → List ℕ
  unfolding flat_map dup_syms from_list
  edges_of edges rep = from_list compare (flat_map edges (dup_syms rep))

  abbrev pub ends : List (ℕ × ℕ) → List ℕ
  ends edges = map (λ e. e.0) edges

  -- `--def-in` on the roots.
  unfoldable pub defined_in : Option (List ℕ) → ℕ → Bool
  unfolding before_word
  defined_in none root = true
  defined_in (some s) root =
      is_empty s || elim (ix.sym_def_path root) [ none ↦ false | some path ↦ contains_str path s ]

  unfoldable pub roots_of : List ℕ → Bool → ℕ → PathFilter → List ℕ
  unfolding keep defined_in sym_passes
  roots_of name substr root_limit filt =
      let found =
        if substr then ix.syms_matching_substring name root_limit else ix.syms_for_name name in
      keep (sym_passes ix filt) (keep (defined_in filt.def_in) found)

  -- A direction, if it is asked for.
  unfoldable pub when_asked : List ℕ → List ℕ → (ℕ → List ℕ) → Option (ℕ → List ℕ)
  unfolding same
  when_asked direction which edges =
      if same direction which || same direction (ascii "both") then some edges else none

  unfoldable pub run_walk : Verb → ℕ → ℕ → List ℕ → ForestReply
  unfolding forest_reply walk_levels
  run_walk v depth max_syms [] = no_reply
  run_walk v depth max_syms (root ∷ roots) =
      forest_reply (walk_levels v max_syms depth (root ∷ roots))

  unfoldable pub callgraph_verb : List ℕ → PathFilter → Verb
  unfolding key_of name_of kind_of def_loc_str sym_passes when_asked edges_of
  callgraph_verb direction filt = record {
    key = key_of;
    name = name_of ix;
    kind = kind_of ix;
    def = def_loc_str ix;
    pass = sym_passes ix filt;
    up = when_asked direction (ascii "up") (edges_of (λ s. ends (ix.called_by s)));
    down = when_asked direction (ascii "down") (edges_of (λ s. ends (ix.calls_from s)));
  }

  unfoldable pub inheritance_verb : List ℕ → PathFilter → Verb
  unfolding key_of name_of kind_of def_loc_str display_name sym_passes when_asked edges_of
  inheritance_verb direction filt = record {
    key = key_of;
    name = λ s. display_name ix s (name_of ix s);
    kind = kind_of ix;
    def = def_loc_str ix;
    pass = sym_passes ix filt;
    up = when_asked direction (ascii "up") (edges_of ix.inherits_of);
    down = when_asked direction (ascii "down") (edges_of ix.inherited_by);
  }

  unfoldable pub do_callgraph : List ℕ → List ℕ → ℕ → ℕ → Bool → ℕ → PathFilter → ForestReply
  unfolding run_walk callgraph_verb roots_of
  do_callgraph name direction depth max_syms substr root_limit filt =
      run_walk (callgraph_verb direction filt) depth max_syms (roots_of name substr root_limit filt)

  unfoldable pub do_inheritance : List ℕ → List ℕ → ℕ → ℕ → Bool → ℕ → PathFilter → ForestReply
  unfolding run_walk inheritance_verb roots_of
  do_inheritance name direction depth max_syms substr root_limit filt =
      run_walk (inheritance_verb direction filt) depth max_syms
        (roots_of name substr root_limit filt)
