-- ===== src/Kythe/Finalize.antt =====
-- The end of a compilation unit in kythe.rs: the buffered rows go into the builder, each symbol
-- remapped from a definition to the declaration that it completes.
use scry.Prelude.{
  ℕ, ◌+◌, List, [], ◌∷◌, ltb, leb, ◌||◌, ◌&&◌, ◌==◌, if◌then◌else◌, length, map, Option, some, none,
}
use scry.Text.{Unicode}
use scry.Kythe.Scope.{Anchor, innermost_containing}
use scry.Kythe.Types.{render_type}
use scry.Kythe.Signature.{TypeSide, cu_type_graph, render_signature}
use scry.Kythe.State.{CallSite, Xref, IngestStats, World}
use scry.Writer.Builder.{
  IndexBuilder, upsert, add_xref, set_sym_name, add_inherit, add_alias, add_call, add_type,
  add_childof, add_sig,
}
use scry.Writer.Names.{better_name}

-- `bridge.get(&s)`: the last of the pairs with the key.
unfoldable pub bridged : List (ℕ × ℕ) → ℕ → Option ℕ → Option ℕ
bridged [] s found = found
bridged ((k, d) ∷ bridge) s found = bridged bridge s (if k == s then some d else found)

unfoldable pub remap : List (ℕ × ℕ) → ℕ → ℕ
unfolding bridged
remap bridge s = elim (bridged bridge s none) [ none ↦ s | some d ↦ d ]

-- What a call of `remap` adds to `applied`.
unfoldable pub applied : List (ℕ × ℕ) → ℕ → ℕ
unfolding bridged
applied bridge s = elim (bridged bridge s none) [ none ↦ 0 | some d ↦ 1 ]

-- `sort_unstable_by_key(|(f, s, _, _)| (f, s))`, here with equal keys in the order they came.
unfoldable pub insert_anchor : Anchor → List Anchor → List Anchor
insert_anchor a [] = a ∷ []
insert_anchor a (b ∷ rows) =
    let rest = insert_anchor a rows in
    if ltb b.file a.file || ((b.file == a.file) && leb b.start a.start)
    then b ∷ rest
    else a ∷ b ∷ rows

unfoldable pub sort_anchors : List Anchor → List Anchor → List Anchor
unfolding insert_anchor
sort_anchors sorted [] = sorted
sort_anchors sorted (a ∷ rows) = sort_anchors (insert_anchor a sorted) rows

-- The builder, the counters, and how many remaps had an entry in the bridge.
pub record Final : Type 0 where
  pub builder : IndexBuilder
  pub stats : IngestStats
  pub hits : ℕ

module _ (u : Unicode) (sym_of : List ℕ → ℕ) (bridge : List (ℕ × ℕ)) where
  unfoldable pub put_xrefs : List Xref → Final → Final
  unfolding remap applied
  put_xrefs [] f = f
  put_xrefs (x ∷ xs) f = put_xrefs xs (record f {
    builder = add_xref f.builder (remap bridge x.sym) x.role x.file x.offset;
    hits = f.hits + applied bridge x.sym;
  })

  -- Each alias, and the best one of each symbol.
  unfoldable pub put_aliases :
      List (ℕ × List ℕ) → List (ℕ × List ℕ) → Final → List (ℕ × List ℕ) × Final
  unfolding remap applied upsert
  put_aliases [] best f = (best, f)
  put_aliases ((sym, alias) ∷ rows) best f =
      put_aliases rows (upsert (remap bridge sym) (λ cur. better_name u cur alias) alias best)
        (record f {
          builder = add_alias f.builder (remap bridge sym) alias;
          hits = f.hits + applied bridge sym;
        })

  unfoldable pub put_names : List (ℕ × List ℕ) → IndexBuilder → IndexBuilder
  put_names [] b = b
  put_names ((sym, name) ∷ best) b = put_names best (set_sym_name u b sym name)

  -- Both ends of each pair.
  unfoldable pub put_pairs : (IndexBuilder → ℕ → ℕ → IndexBuilder) → List (ℕ × ℕ) → Final → Final
  unfolding remap applied
  put_pairs add [] f = f
  put_pairs add ((child, parent) ∷ rows) f = put_pairs add rows (record f {
    builder = add f.builder (remap bridge child) (remap bridge parent);
    hits = f.hits + (applied bridge child + applied bridge parent);
  })

  -- A readable name for each supertype that renders.
  unfoldable pub put_supertypes : TypeSide → List (List ℕ) → Final → Final
  unfolding remap applied
  put_supertypes side [] f = f
  put_supertypes side (key ∷ keys) f =
      put_supertypes side keys (elim (render_type u (cu_type_graph side) key) [
        | none ↦ f
        | some rendered ↦ record f {
          builder = set_sym_name u f.builder (remap bridge (sym_of key)) rendered;
          hits = f.hits + applied bridge (sym_of key);
        }
      ])

  -- A call goes to the innermost body around it, or is counted as unresolved.
  unfoldable pub put_calls : List Anchor → List CallSite → Final → Final
  unfolding remap applied
  put_calls bodies [] f = f
  put_calls bodies (c ∷ sites) f =
      put_calls bodies sites (elim (innermost_containing bodies c.file c.off) [
        | some enc ↦ record f {
          builder = add_call f.builder (remap bridge enc) (remap bridge c.target) c.role;
          stats = record f.stats { calls_emitted = f.stats.calls_emitted + 1 };
          hits = f.hits + (applied bridge enc + applied bridge c.target);
        }
        | none ↦ record f {
          stats = record f.stats { diag_unresolved = f.stats.diag_unresolved + 1 };
        }
      ])

  unfoldable pub put_types : TypeSide → List (List ℕ × List ℕ) → Final → Final
  unfolding remap applied
  put_types side [] f = f
  put_types side ((src_key, type_key) ∷ edges) f =
      put_types side edges (elim (render_type u (cu_type_graph side) type_key) [
        | none ↦ f
        | some rendered ↦ record f {
          builder = add_type f.builder (remap bridge (sym_of src_key)) rendered;
          stats = record f.stats { types_emitted = f.stats.types_emitted + 1 };
          hits = f.hits + applied bridge (sym_of src_key);
        }
      ])

  unfoldable pub put_sigs : TypeSide → List (List ℕ) → Final → Final
  unfolding remap applied
  put_sigs side [] f = f
  put_sigs side (fn_key ∷ keys) f = put_sigs side keys (elim (render_signature u side fn_key) [
    | none ↦ f
    | some sig ↦ record f {
      builder = add_sig f.builder (remap bridge (sym_of fn_key)) sig;
      stats = record f.stats { sigs_emitted = f.stats.sigs_emitted + 1 };
      hits = f.hits + applied bridge (sym_of fn_key);
    }
  ])

module _ (u : Unicode) (sym_of : List ℕ → ℕ) where
  unfoldable pub bridge_of : List (List ℕ × List ℕ) → List (ℕ × ℕ)
  bridge_of pairs = map (λ p. (sym_of p.0, sym_of p.1)) pairs

  unfoldable pub finalize : World → World
  unfolding bridge_of sort_anchors put_xrefs put_aliases put_names put_pairs put_supertypes
      put_calls put_types put_sigs
  finalize w =
      let s = w.state in
      let bridge = bridge_of s.completes_bridges in
      let f1 =
        put_xrefs u sym_of bridge s.xrefs
          (record { builder = w.builder; stats = w.stats; hits = 0 }) in
      let (best, f2) = put_aliases u sym_of bridge s.aliases [] f1 in
      let f3 : Final = record f2 { builder = put_names u sym_of bridge best f2.builder } in
      let f4 = put_pairs u sym_of bridge add_inherit s.inherits f3 in
      let f5 = put_supertypes u sym_of bridge s.types s.inherit_parent_keys f4 in
      let f6 = put_pairs u sym_of bridge add_childof s.childof f5 in
      let bodies = sort_anchors [] s.body_anchors in
      let f7 = put_calls u sym_of bridge bodies s.call_sites (record f6 {
        stats = record f6.stats {
          diag_defines_seen = length bodies;
          diag_pending = length s.call_sites;
        };
      }) in
      let f8 = put_types u sym_of bridge s.types s.types.edges f7 in
      let f9 = put_sigs u sym_of bridge s.types s.types.functions f8 in
      record w {
        state = record s { body_anchors = bodies };
        builder = f9.builder;
        stats = record f9.stats { completes_bridges = f9.hits };
      }
