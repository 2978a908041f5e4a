-- ===== src/Server/Walk.antt =====
-- The search by levels that `do_callgraph` and `do_inheritance` of server.rs share. `seen` has the
-- node of every symbol that was met, `rendered` the node of every logical key; a key that is new goes
-- to the front of either map.
use scry.Prelude.{
  ℕ, zero, suc, ◌%◌, List, [], ◌∷◌, Bool, true, false, not, leb, ◌==◌, if◌then◌else◌, length,
  Option, some, none,
}
use scry.Bytes.{u32_mod}
use scry.Kythe.Signature.{find}
use scry.Kythe.State.{push}
use scry.Server.Reply.{CallNode}
use scry.Text.Str.{ascii}

pub record Forest : Type 0 where
  pub nodes : List CallNode
  pub seen : List (ℕ × ℕ)
  pub rendered : List (List ℕ × ℕ)

abbrev pub no_forest : Forest
no_forest = record { nodes = []; seen = []; rendered = [] }

unfoldable pub seen_at : ℕ → List (ℕ × ℕ) → Option ℕ
seen_at sym [] = none
seen_at sym ((s, id) ∷ seen) = if s == sym then some id else seen_at sym seen

-- One level on the way: the forest, the next frontier, and whether the limit was reached.
pub record Level : Type 0 where
  pub forest : Forest
  pub next : List (ℕ × ℕ)
  pub truncated : Bool

-- What a verb makes of a symbol: its key, the node's name, kind and place, whether it passes the
-- filter, and its neighbours in either direction, where that direction is asked for.
pub record Verb : Type 0 where
  pub key : ℕ → List ℕ
  pub name : ℕ → List ℕ
  pub kind : ℕ → List ℕ
  pub def : ℕ → Option (List ℕ)
  pub pass : ℕ → Bool
  pub up : Option (ℕ → List ℕ)
  pub down : Option (ℕ → List ℕ)

module _ (v : Verb) (max_syms : ℕ) where
  -- The closure `admit`, given what `seen` and `rendered` have.
  unfoldable pub admit_at :
      ℕ → Option ℕ → List ℕ → ℕ → Forest → Option ℕ → Option ℕ → Forest × Option ℕ
  admit_at sym parent dir hop f (some _) r = (f, none)
  admit_at sym parent dir hop f none (some existing) =
      (record f { seen = (sym, existing) ∷ f.seen }, none)
  admit_at sym parent dir hop f none none =
      let id = length f.nodes % u32_mod in
      let node : CallNode = record {
        id = id;
        parent = parent;
        hop = hop;
        dir = dir;
        name = v.name sym;
        kind = v.kind sym;
        def = v.def sym;
      } in
      (
        record {
          nodes = push node f.nodes;
          seen = (sym, id) ∷ f.seen;
          rendered = (v.key sym, id) ∷ f.rendered;
        },
        some id,
      )

  unfoldable pub admit : ℕ → Option ℕ → List ℕ → ℕ → Forest → Forest × Option ℕ
  unfolding admit_at seen_at find
  admit sym parent dir hop f =
      admit_at sym parent dir hop f (seen_at sym f.seen) (find (v.key sym) f.rendered)

  -- The roots, with the frontier they make.
  unfoldable pub add_root : ℕ → Forest × Option ℕ → List (ℕ × ℕ) → Forest × List (ℕ × ℕ)
  add_root root (f, none) frontier = (f, frontier)
  add_root root (f, some id) frontier = (f, push (root, id) frontier)

  unfoldable pub admit_roots : List ℕ → Forest × List (ℕ × ℕ) → Forest × List (ℕ × ℕ)
  unfolding add_root admit
  admit_roots [] s = s
  admit_roots (root ∷ roots) (f, frontier) =
      admit_roots roots (add_root root (admit root none (ascii "root") 0 f) frontier)

  -- After `admit` of a neighbour: `break 'depth` at the limit.
  unfoldable pub admitted : ℕ → Level → Forest × Option ℕ → Level
  admitted sym w (f, none) = record w { forest = f }
  admitted sym w (f, some id) = record {
    forest = f;
    next = push (sym, id) w.next;
    truncated = leb max_syms (length f.nodes);
  }

  unfoldable pub visit_one : ℕ → List ℕ → ℕ → ℕ → Level → Level
  unfolding admitted admit
  visit_one parent dir hop sym w =
      if w.truncated
      then w
      else if not (v.pass sym)
      then w
      else admitted sym w (admit sym (some parent) dir hop w.forest)

  unfoldable pub visit_all : ℕ → List ℕ → ℕ → List ℕ → Level → Level
  unfolding visit_one
  visit_all parent dir hop [] w = w
  visit_all parent dir hop (sym ∷ syms) w =
      visit_all parent dir hop syms (visit_one parent dir hop sym w)

  unfoldable pub visit_from : Option (ℕ → List ℕ) → ℕ → ℕ → List ℕ → ℕ → Level → Level
  unfolding visit_all
  visit_from none sym parent dir hop w = w
  visit_from (some neighbours) sym parent dir hop w = visit_all parent dir hop (neighbours sym) w

  unfoldable pub expand_all : ℕ → List (ℕ × ℕ) → Level → Level
  unfolding visit_from
  expand_all hop [] w = w
  expand_all hop ((sym, id) ∷ frontier) w =
      expand_all hop frontier
        (visit_from v.down sym id (ascii "down") hop (visit_from v.up sym id (ascii "up") hop w))

  -- `for hop in 1..=depth`, with `n` hops left.
  unfoldable pub hop_loop : ℕ → ℕ → List (ℕ × ℕ) → Forest → Forest × Bool
  unfolding expand_all
  hop_loop zero hop frontier f = (f, false)
  hop_loop (suc n) hop frontier f =
      let w = expand_all hop frontier (record { forest = f; next = []; truncated = false }) in
      let deeper = hop_loop n (suc hop) w.next w.forest in
      if w.truncated
      then (w.forest, true)
      else if length w.next == 0
      then (w.forest, false)
      else deeper

  unfoldable pub walk_levels : ℕ → List ℕ → Forest × Bool
  unfolding admit_roots hop_loop
  walk_levels depth roots =
      let (f, frontier) = admit_roots roots (no_forest, []) in hop_loop depth 1 frontier f
