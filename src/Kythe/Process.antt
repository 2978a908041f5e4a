-- ===== src/Kythe/Process.antt =====
-- `process_entry` of kythe.rs: what one entry of the stream does.
use scry.Prelude.{
  ℕ, ◌+◌, List, [], ◌∷◌, not, ◌&&◌, ◌||◌, ◌==◌, if◌then◌else◌, length, Option, some, none,
}
use scry.Format.Kind
use scry.Text.{Unicode, is_utf8}
use scry.Text.Str.{ascii, same}
use scry.Kythe.Wire.{Entry}
use scry.Kythe.Edges.{
  to_symbol_string, is_no_name, lang_byte, edge_to_role, is_inherit_edge, is_completes_edge,
  is_childof_edge, is_named_edge, node_kind_byte, parse_ascii_u32, parse_param_ordinal,
  is_type_node_kind, builtin_op_of,
}
use scry.Kythe.Names.{strip_jvm_method_descriptor, is_degenerate_render}
use scry.Kythe.MarkedSource.{parse_marked_source_fqn}
use scry.Kythe.Signature.{find, put, put_new, put_ordinal, TypeSide}
use scry.Kythe.State.{AnchorAccum, no_anchor, IngestState, World, push}
use scry.Kythe.Anchors.{anchor_edge, anchor_kind, anchor_start, anchor_end}
use scry.Writer.Builder.{upsert_sym, mark_field}
use scry.Writer.Names.{is_empty}

abbrev with_state : (IngestState → IngestState) → World → World
with_state f w = record w { state = f w.state }

abbrev with_types : (TypeSide → TypeSide) → World → World
with_types f w = with_state (λ s. record s { types = f s.types }) w

abbrev or_else {ℓ} : {A : Type ℓ} → A → Option A → A
or_else a none = a
or_else a (some b) = b

-- `anchors.entry(key).or_default()`, changed by `f`.
unfoldable pub at_anchor : List ℕ → (AnchorAccum → World → AnchorAccum × World) → World → World
unfolding find put
at_anchor key f w =
    let (a, w') = f (or_else no_anchor (find key w.state.anchors)) w in
    with_state (λ s. record s { anchors = put key a s.anchors }) w'

unfoldable pub push_alias : ℕ → List ℕ → World → World
push_alias sym alias w = record w {
  state = record w.state { aliases = push (sym, alias) w.state.aliases };
  stats = record w.stats { aliases_emitted = w.stats.aliases_emitted + 1 };
}

-- The raw name, and the name without its descriptor.
unfoldable pub named_edge : ℕ → List ℕ → World → World
unfolding push_alias
named_edge sym raw w =
    let w' = push_alias sym raw w in
    elim (strip_jvm_method_descriptor raw) [
      | none ↦ w'
      | some stripped ↦ if length stripped == length raw then w' else push_alias sym stripped w'
    ]

-- A set of keys.
unfoldable pub insert_key : List ℕ → List (List ℕ) → List (List ℕ)
insert_key k [] = k ∷ []
insert_key k (j ∷ ks) = let rest = insert_key k ks in if same j k then j ∷ ks else j ∷ rest

unfoldable pub add_param : List ℕ → ℕ → List ℕ → TypeSide → TypeSide
unfolding find put put_ordinal
add_param key ord target t = record t {
  params = put key (put_ordinal ord target (or_else [] (find key t.params))) t.params;
}

-- `from_utf8(bs).unwrap_or("")`
abbrev text_or_empty : List ℕ → List ℕ
text_or_empty bs = if is_utf8 bs then bs else []

module _ (u : Unicode) (sym_of : List ℕ → ℕ) where
  unfoldable pub inherit_edge : List ℕ → List ℕ → World → World
  unfolding insert_key
  inherit_edge key parent_key w = record w {
    state = record w.state {
      inherits = push (sym_of key, sym_of parent_key) w.state.inherits;
      inherit_parent_keys = insert_key parent_key w.state.inherit_parent_keys;
    };
    stats = record w.stats { inherits_emitted = w.stats.inherits_emitted + 1 };
  }

  unfoldable pub childof_edge : List ℕ → List ℕ → World → World
  childof_edge key parent_key w = record w {
    state = record w.state { childof = push (sym_of key, sym_of parent_key) w.state.childof };
    stats = record w.stats { childof_emitted = w.stats.childof_emitted + 1 };
  }

  unfoldable pub xref_edge : Entry → List ℕ → World → World
  unfolding at_anchor
  xref_edge e key w = elim (edge_to_role e.edge_kind) [
    | none ↦ w
    | some role ↦ at_anchor key (anchor_edge u sym_of e.source.path e.target role) w
  ]

  -- The edge kinds from `typed` on.
  unfoldable pub structure_edge : Entry → List ℕ → World → World
  unfolding childof_edge xref_edge add_param
  structure_edge e key w =
      let target_key = to_symbol_string e.target in
      let has_target = not (is_no_name e.target) in
      let typed = with_types (λ t. record t { edges = push (key, target_key) t.edges }) w in
      let later =
        if is_childof_edge e.edge_kind && has_target
        then childof_edge key target_key w
        else xref_edge e key w in
      if same e.edge_kind (ascii "/kythe/edge/typed") && has_target
      then typed
      else elim (parse_param_ordinal e.edge_kind) [
        | some ord ↦ if has_target then with_types (add_param key ord target_key) w else w
        | none ↦ later
      ]

  unfoldable pub process_edge : Entry → List ℕ → World → World
  unfolding named_edge inherit_edge structure_edge put
  process_edge e key w =
      let target_key = to_symbol_string e.target in
      let has_target = not (is_no_name e.target) in
      let bridged =
        with_state (λ s. record s { completes_bridges = put key target_key s.completes_bridges })
          w in
      if is_completes_edge e.edge_kind && has_target
      then bridged
      else if is_named_edge e.edge_kind && not (is_empty e.target.signature)
      then named_edge (sym_of key) e.target.signature w
      else if is_inherit_edge e.edge_kind && has_target
      then inherit_edge key target_key w
      else structure_edge e key w

  unfoldable pub code_fact : Entry → List ℕ → World → World
  unfolding push_alias put_new
  code_fact e key w =
      let w' : World = elim (parse_marked_source_fqn u e.fact_value) [
        | none ↦ w
        | some fqn ↦ if is_degenerate_render u fqn then w else push_alias (sym_of key) fqn w
      ] in
      with_types (λ t. record t { code = put_new key e.fact_value t.code }) w'

  -- The node kind of a symbol.
  unfoldable pub symbol_kind : Entry → List ℕ → List ℕ → World → World
  symbol_kind e key value w =
      let k = node_kind_byte value in
      let w' : World = record w {
        builder = upsert_sym u w.builder (sym_of key) k (lang_byte e.source) key;
      } in
      if k == Kind.function
      then with_types (λ t. record t { functions = push key t.functions }) w'
      else w'

  -- The kind and the operator of a type node.
  unfoldable pub type_kind : Entry → List ℕ → List ℕ → World → World
  unfolding put
  type_kind e key value w =
      let w' = with_types (λ t. record t { kind = put key value t.kind }) w in
      let w'' : World = elim (builtin_op_of e.source.signature) [
        | none ↦ w'
        | some op ↦ with_types (λ t. record t { builtin_op = put key op t.builtin_op }) w'
      ] in
      if is_type_node_kind value then (if same value (ascii "tbuiltin") then w'' else w') else w

  unfoldable pub kind_fact : Entry → List ℕ → World → World
  unfolding symbol_kind type_kind at_anchor
  kind_fact e key w =
      let value = text_or_empty e.fact_value in
      type_kind e key value (
        if same value (ascii "anchor")
        then at_anchor key (anchor_kind u sym_of e.source.path) w
        else symbol_kind e key value w)

  unfoldable pub subkind_fact : Entry → List ℕ → World → World
  subkind_fact e key w =
      let value = text_or_empty e.fact_value in
      if same value (ascii "field") || same value (ascii "constant")
      then record w { builder = mark_field w.builder (sym_of key) }
      else w

  unfoldable pub start_fact : Entry → List ℕ → World → World
  unfolding at_anchor
  start_fact e key w = elim (parse_ascii_u32 e.fact_value) [
    | none ↦ w
    | some v ↦ at_anchor key (anchor_start u sym_of e.source.path v) w
  ]

  unfoldable pub end_fact : Entry → List ℕ → World → World
  unfolding at_anchor
  end_fact e key w = elim (parse_ascii_u32 e.fact_value) [
    | none ↦ w
    | some v ↦ at_anchor key (anchor_end u sym_of v) w
  ]

  unfoldable pub process_fact : Entry → List ℕ → World → World
  unfolding code_fact kind_fact subkind_fact start_fact end_fact
  process_fact e key w =
      if same e.fact_name (ascii "/kythe/code")
      then code_fact e key w
      else if same e.fact_name (ascii "/kythe/node/kind")
      then kind_fact e key w
      else if same e.fact_name (ascii "/kythe/subkind")
      then subkind_fact e key w
      else if same e.fact_name (ascii "/kythe/loc/start")
      then start_fact e key w
      else if same e.fact_name (ascii "/kythe/loc/end")
      then end_fact e key w
      else w

  unfoldable pub process_entry : Entry → World → World
  unfolding process_edge process_fact
  process_entry e w =
      let key = to_symbol_string e.source in
      if is_no_name e.source
      then w
      else if not (is_empty e.edge_kind)
      then process_edge e key w
      else process_fact e key w
