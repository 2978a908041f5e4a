-- ===== src/Kythe/Anchors.antt =====
-- Anchors in kythe.rs: what happens to one anchor when a fact or an edge of it arrives. Each
-- operation returns the accumulator and the world.
use scry.Prelude.{ℕ, ◌+◌, List, [], ◌∷◌, true, ◌||◌, ◌==◌, if◌then◌else◌, Option, some, none}
use scry.Format.Kind
use scry.Format.Role
use scry.Text.{Unicode}
use scry.Kythe.Wire.{VName}
use scry.Kythe.Edges.{to_symbol_string, is_no_name, lang_byte}
use scry.Kythe.Scope.{Anchor}
use scry.Kythe.Files.{intern}
use scry.Kythe.State.{AnchorAccum, CallSite, Xref, World, push}
use scry.Writer.Builder.{upsert_sym, upsert_file}
use scry.Writer.Names.{is_empty}

-- `if a.path.is_empty() { a.path = path }`
abbrev pub with_path : List ℕ → AnchorAccum → AnchorAccum
with_path path a = if is_empty a.path then record a { path = path } else a

-- `file_ids.intern(path)` and `builder.upsert_file(id, path)`
unfoldable pub touch_file : List ℕ → World → World × ℕ
touch_file path w =
    let (files, id) = intern path w.files in
    (record w { files = files; builder = upsert_file w.builder id path }, id)

abbrev pub push_body : ℕ → ℕ → ℕ → ℕ → World → World
push_body file start end sym w =
    let body : Anchor = record { file = file; start = start; end = end; sym = sym } in
    record w { state = record w.state { body_anchors = push body w.state.body_anchors } }

-- A reference or a call waits for its enclosing function.
unfoldable pub push_site : ℕ → ℕ → ℕ → ℕ → World → World
push_site role file off target w =
    let site : CallSite = record { file = file; off = off; target = target; role = role } in
    if role == Role.ref || role == Role.call
    then record w { state = record w.state { call_sites = push site w.state.call_sites } }
    else w

module _ (u : Unicode) (sym_of : List ℕ → ℕ) where
  unfoldable pub emit_xref_resolved : VName → ℕ → ℕ → ℕ → World → World
  emit_xref_resolved target role file offset w =
      let sym_str = to_symbol_string target in
      let row : Xref = record { sym = sym_of sym_str; role = role; file = file; offset = offset } in
      if is_no_name target then w else record w {
        builder = upsert_sym u w.builder (sym_of sym_str) Kind.unk (lang_byte target) sym_str;
        state = record w.state { xrefs = push row w.state.xrefs };
        stats = record w.stats { xrefs_emitted = w.stats.xrefs_emitted + 1 };
      }

  -- One pending target of an anchor that is ready.
  unfoldable pub flush_target : ℕ → ℕ → Option ℕ → VName × ℕ → Option ℕ × World → Option ℕ × World
  flush_target file start end (target, role) (body, w) =
      let target_sym = sym_of (to_symbol_string target) in
      let w' = push_site role file start target_sym (emit_xref_resolved target role file start w) in
      let defined : Option ℕ × World = elim end [
        | some e ↦ (none, push_body file start e target_sym w')
        | none ↦ (some target_sym, w')
      ] in
      if role == Role.def then defined else (body, w')

  unfoldable pub flush_targets :
      ℕ → ℕ → Option ℕ → List (VName × ℕ) → Option ℕ × World → Option ℕ × World
  unfolding flush_target
  flush_targets file start end [] s = s
  flush_targets file start end (t ∷ ts) s =
      flush_targets file start end ts (flush_target file start end t s)

  -- With its start known.
  unfoldable pub flush_at : ℕ → AnchorAccum → World → AnchorAccum × World
  unfolding flush_targets
  flush_at start a w =
      let (w1, file) = touch_file a.path w in
      let (body, w2) = flush_targets file start a.end a.pending (a.body_def_sym, w1) in
      (
        record a { pending = []; body_def_sym = body },
        record w2 { stats = record w2.stats { anchors_flushed = w2.stats.anchors_flushed + 1 } },
      )

  unfoldable pub flush_ready : AnchorAccum → World → AnchorAccum × World
  unfolding flush_at
  flush_ready a w = elim a.start [
    | none ↦ (a, w)
    | some start ↦ if a.is_anchor then flush_at start a w else (a, w)
  ]

  -- The body of the anchor, if the target is a definition and the end is known.
  unfoldable pub edge_body : ℕ → ℕ → ℕ → Option ℕ → ℕ → World → World
  edge_body role file start none sym w = w
  edge_body role file start (some end) sym w =
      if role == Role.def then push_body file start end sym w else w

  unfoldable pub edge_at : ℕ → VName → ℕ → AnchorAccum → World → AnchorAccum × World
  unfolding edge_body
  edge_at start target role a w =
      let (w1, file) = touch_file a.path w in
      let sym = sym_of (to_symbol_string target) in
      let w2 = push_site role file start sym (emit_xref_resolved target role file start w1) in
      (a, edge_body role file start a.end sym w2)

  -- An xref edge of the anchor, whose source has the path.
  unfoldable pub anchor_edge : List ℕ → VName → ℕ → AnchorAccum → World → AnchorAccum × World
  unfolding edge_at
  anchor_edge path target role a0 w =
      let a1 = with_path path a0 in
      let a : AnchorAccum =
        if role == Role.def
        then record a1 { body_def_sym = some (sym_of (to_symbol_string target)) }
        else a1 in
      let waits : AnchorAccum × World = (record a { pending = push (target, role) a.pending }, w) in
      elim a.start [
        | none ↦ waits
        | some start ↦ if a.is_anchor then edge_at start target role a w else waits
      ]

  unfoldable pub anchor_kind : List ℕ → AnchorAccum → World → AnchorAccum × World
  unfolding flush_ready
  anchor_kind path a w = flush_ready (with_path path (record a { is_anchor = true })) w

  unfoldable pub anchor_start : List ℕ → ℕ → AnchorAccum → World → AnchorAccum × World
  unfolding flush_ready
  anchor_start path v a w = flush_ready (record (with_path path a) { start = some v }) w

  -- The end that completes a body.
  unfoldable pub body_at : ℕ → Option ℕ → Option ℕ → List ℕ → World → World
  body_at end none sym path w = w
  body_at end (some start) none path w = w
  body_at end (some start) (some sym) path w =
      let (w1, file) = touch_file path w in push_body file start end sym w1

  unfoldable pub anchor_end : ℕ → AnchorAccum → World → AnchorAccum × World
  unfolding body_at
  anchor_end v a0 w =
      let a = record a0 { end = some v } in
      (a, if a.is_anchor then body_at v a.start a.body_def_sym a.path w else w)
