-- ===== src/Kythe/MarkedSource.antt =====
-- `parse_marked_source_fqn` of kythe.rs: the name that a MarkedSource message renders to. A message
-- is its bytes; a child is a payload inside them and so shorter, hence the number of bytes is fuel
-- enough for every recursion.
use scry.Prelude.{
  ℕ, zero, suc, ◌%◌, List, [], ◌∷◌, ◌++◌, Bool, true, false, not, ◌&&◌, ◌||◌, ◌==◌, leb,
  if◌then◌else◌, length, Option, some, none,
}
use scry.Bytes.{u32_mod}
use scry.Text.{Unicode}
use scry.Text.Str.{from_utf8_lossy, has}
use scry.Text.Trim.{trim, trim_end, trim_end_byte}
use scry.Kythe.Wire.{read_varint_at, read_proto_field}
use scry.Writer.Names.{is_empty}

abbrev pub ms_box : ℕ
ms_box = 0

abbrev pub ms_type : ℕ
ms_type = 1

abbrev pub ms_parameter : ℕ
ms_parameter = 2

abbrev pub ms_identifier : ℕ
ms_identifier = 3

abbrev pub ms_context : ℕ
ms_context = 4

abbrev pub ms_initializer : ℕ
ms_initializer = 5

abbrev pub ms_lookup_lo : ℕ
ms_lookup_lo = 6

abbrev pub ms_lookup_hi : ℕ
ms_lookup_hi = 11

abbrev pub ms_modifier : ℕ
ms_modifier = 12

-- `read_varint_at(payload, 0)`, or else a default.
abbrev varint_or : ℕ → List ℕ → ℕ
varint_or d payload = elim (read_varint_at payload) [ none ↦ d | some (v, _) ↦ v ]

-- `node_kind`: the first kind field.
unfoldable pub kind_loop : ℕ → List ℕ → ℕ
kind_loop fuel [] = ms_box
kind_loop zero (b ∷ bs) = ms_box
kind_loop (suc fuel) (b ∷ bs) = elim (read_proto_field (b ∷ bs)) [
  | none ↦ ms_box
  | some (field, wire, payload, rest) ↦ elim ((field == 1) && (wire == 0)) [
    | true ↦ varint_or ms_box payload % u32_mod
    | false ↦ kind_loop fuel rest
  ]
]

unfoldable pub node_kind : List ℕ → ℕ
unfolding kind_loop
node_kind buf = kind_loop (length buf) buf

unfoldable pub name_excluded : ℕ → Bool
name_excluded kind =
    kind == ms_type
    || kind == ms_parameter
    || kind == ms_initializer
    || kind == ms_modifier
    || (leb ms_lookup_lo kind && leb kind ms_lookup_hi)

-- What `fields` reads of a node.
pub record Node : Type 0 where
  pub pre : List ℕ
  pub joiner : List ℕ
  pub post : List ℕ
  pub add_final : Bool
  pub kids : List (List ℕ)

abbrev pub no_node : Node
no_node = record { pre = []; joiner = []; post = []; add_final = false; kids = [] }

abbrev final_of : List ℕ → Bool → Bool
final_of payload before = elim (read_varint_at payload) [
  | none ↦ before
  | some (v, _) ↦ not (v == 0)
]

-- One arm of the `match (field, wire)`.
unfoldable pub node_field : ℕ → ℕ → List ℕ → Node → Node
node_field field wire payload n =
    if (wire == 2) && (field == 2)
    then record n { pre = from_utf8_lossy payload }
    else if (wire == 2) && (field == 3)
    then record n { kids = n.kids ++ (payload ∷ []) }
    else if (wire == 2) && (field == 4)
    then record n { joiner = from_utf8_lossy payload }
    else if (wire == 2) && (field == 5)
    then record n { post = from_utf8_lossy payload }
    else if (wire == 0) && (field == 10)
    then record n { add_final = final_of payload n.add_final }
    else n

unfoldable pub fields_loop : ℕ → List ℕ → Node → Node
fields_loop fuel [] n = n
fields_loop zero (b ∷ bs) n = n
fields_loop (suc fuel) (b ∷ bs) n = elim (read_proto_field (b ∷ bs)) [
  | none ↦ n
  | some (field, wire, payload, rest) ↦ fields_loop fuel rest (node_field field wire payload n)
]

unfoldable pub fields : List ℕ → Node
unfolding fields_loop node_field
fields buf = fields_loop (length buf) buf no_node

-- The children that are kept, with the joiner between them; whether any was written.
unfoldable pub render_kids :
    (List ℕ → List ℕ) → (List ℕ → Bool) → List ℕ → List (List ℕ) → Bool → List ℕ × Bool
render_kids render keep joiner [] wrote = ([], wrote)
render_kids render keep joiner (c ∷ kids) wrote =
    let rest = render_kids render keep joiner kids true in
    let skipped = render_kids render keep joiner kids wrote in
    let written : List ℕ × Bool =
      ((if wrote then joiner else []) ++ (render c ++ rest.0), rest.1) in
    if keep c then written else skipped

-- Text before, children, trailing joiner, text behind.
unfoldable pub render_node : (List ℕ → List ℕ) → (List ℕ → Bool) → Bool → Node → List ℕ
unfolding render_kids
render_node render keep with_post n =
    let (inner, wrote) = render_kids render keep n.joiner n.kids false in
    n.pre
    ++ (inner
        ++ ((if wrote && n.add_final then n.joiner else []) ++ (if with_post then n.post else [])))

-- A child that goes into a name: of an identifier only identifiers, else all but the excluded kinds.
unfoldable pub kept_in : Bool → List ℕ → Bool
kept_in ident c = if ident then node_kind c == ms_identifier else not (name_excluded (node_kind c))

unfoldable pub render_name : ℕ → List ℕ → List ℕ
render_name zero buf = []
render_name (suc fuel) buf =
    let ident = node_kind buf == ms_identifier in
    render_node (render_name fuel) (kept_in ident) (not ident) (fields buf)

unfoldable pub render_faithful : ℕ → List ℕ → List ℕ
render_faithful zero buf = []
render_faithful (suc fuel) buf = render_node (render_faithful fuel) (λ _. true) true (fields buf)

-- The renders of the children in turn.
unfoldable pub collect_kids : (List ℕ → List ℕ) → List (List ℕ) → List ℕ
collect_kids collect [] = []
collect_kids collect (c ∷ kids) = collect c ++ collect_kids collect kids

-- The names of the contexts and identifiers.
unfoldable pub collect : ℕ → Bool → List ℕ → List ℕ
collect zero is_root buf = []
collect (suc fuel) is_root buf =
    let kind = node_kind buf in
    let name = render_name (suc fuel) buf in
    let inner = collect_kids (collect fuel false) (fields buf).kids in
    if not is_root && name_excluded kind
    then []
    else if kind == ms_context || kind == ms_identifier
    then name
    else inner

unfoldable pub is_name : List ℕ → Bool
unfolding has
is_name s =
    not (is_empty s)
    && not (has 10 s)
    && not (has 13 s)
    && not (has b'{' s)
    && not (has b'}' s)
    && not (has b';' s)

module _ (u : Unicode) where
  unfoldable pub parse_marked_source_fqn : List ℕ → Option (List ℕ)
  parse_marked_source_fqn buf =
      let fuel = suc (length buf) in
      let name = trim_end u (trim_end_byte b':' (trim u (collect fuel true buf))) in
      let full = trim u (render_faithful fuel buf) in
      if not (is_empty name)
      then (if is_name name then some name else none)
      else if is_name full
      then some full
      else none
