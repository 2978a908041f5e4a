-- ===== src/Kythe/Types.antt =====
-- The renderer of type nodes in kythe.rs, over any graph of them. The depth cap is a budget: with
-- `left` rounds left the depth is 65 - left, and `depth > 64` is an empty budget.
use scry.Prelude.{
  ℕ, zero, suc, List, [], ◌∷◌, ◌++◌, Bool, true, false, ◌&&◌, if◌then◌else◌, Option, some, none,
  map,
}
use scry.Text.{Unicode}
use scry.Text.Str.{ascii, same, one_of, join}
use scry.Text.Trim.{trim_end, trim_end_pair}
use scry.Kythe.Wire.{◌>>=◌}
use scry.Kythe.Names.{short_name}
use scry.Kythe.MarkedSource.{parse_marked_source_fqn}
use scry.Writer.Names.{is_empty}

-- `trait TypeGraph`
pub record TypeGraph (Tk : Type 0) : Type 0 where
  pub node_kind : Tk → List ℕ
  pub node_code : Tk → Option (List ℕ)
  pub params : Tk → List Tk
  pub builtin_op : Tk → List ℕ

abbrev pub type_render_max_depth : ℕ
type_render_max_depth = 64

unfoldable pub is_array_op : List ℕ → Bool
unfolding one_of
is_array_op op = one_of op (ascii "carr" ∷ ascii "array" ∷ [])

unfoldable pub ptr_ref_decl_sym : List ℕ → Option (List ℕ)
unfolding same
ptr_ref_decl_sym op =
    if same op (ascii "ptr")
    then some (ascii "*")
    else if same op (ascii "lvr")
    then some (ascii "&")
    else if same op (ascii "rvr")
    then some (ascii "&&")
    else none

-- `unwrap_or("?")`
abbrev pub or_unknown : Option (List ℕ) → List ℕ
or_unknown none = ascii "?"
or_unknown (some s) = s

abbrev first_or : List (List ℕ) → List ℕ
first_or [] = ascii "?"
first_or (a ∷ args) = a

abbrev tail_args : List (List ℕ) → List (List ℕ)
tail_args [] = []
tail_args (a ∷ args) = args

abbrev no_args : List (List ℕ) → Bool
no_args [] = true
no_args (a ∷ args) = false

unfoldable pub render_builtin_app : List ℕ → List (List ℕ) → List ℕ
unfolding same join
render_builtin_app op args =
    if same op (ascii "ptr")
    then first_or args ++ ascii " *"
    else if same op (ascii "lvr")
    then first_or args ++ ascii " &"
    else if same op (ascii "rvr")
    then first_or args ++ ascii " &&"
    else if same op (ascii "const")
    then ascii "const " ++ first_or args
    else if same op (ascii "volatile")
    then ascii "volatile " ++ first_or args
    else if same op (ascii "fn")
    then first_or args ++ (ascii "(" ++ (join (ascii ", ") (tail_args args) ++ ascii ")"))
    else if no_args args
    then op
    else op ++ (ascii "<" ++ (join (ascii ", ") args ++ ascii ">"))

module _ (u : Unicode) where
  unfoldable pub typename_from_marked_source : List ℕ → Option (List ℕ)
  typename_from_marked_source code = parse_marked_source_fqn u code >>= λ name.
      let trimmed = trim_end u (trim_end_pair b'<' b'>' name) in
      if is_empty trimmed then none else some trimmed

  module _ {Tk : Type 0} (g : TypeGraph Tk) where
    abbrev is_kind : Tk → List ℕ → Bool
    is_kind tk kind = same (g.node_kind tk) kind

    -- The element of an array-typed application. `render` is the renderer one level down.
    unfoldable pub array_element : (Tk → Option (List ℕ)) → List Tk → Option (List ℕ)
    unfolding same is_array_op
    array_element render [] = none
    array_element render (head ∷ []) = none
    array_element render (head ∷ elem ∷ rest) =
        if is_kind head (ascii "tbuiltin") && is_array_op (g.builtin_op head)
        then render elem
        else none

    unfoldable pub array_element_render : (Tk → Option (List ℕ)) → Tk → Option (List ℕ)
    unfolding array_element
    array_element_render render tk =
        if is_kind tk (ascii "tapp") then array_element render (g.params tk) else none

    -- The arguments of a pointer or reference whose argument is an array.
    unfoldable pub declarator : (Tk → Option (List ℕ)) → List ℕ → List Tk → Option (List ℕ)
    unfolding array_element_render
    declarator render decl [] = none
    declarator render decl (arg ∷ args) = array_element_render render arg >>= λ elem.
        some (elem ++ (ascii " (" ++ (decl ++ ascii ")[]")))

    abbrev element : (Tk → Option (List ℕ)) → List Tk → Option (List ℕ)
    element render [] = none
    element render (e ∷ args) = render e

    unfoldable pub render_builtin : (Tk → Option (List ℕ)) → List ℕ → List Tk → List ℕ
    unfolding declarator render_builtin_app
    render_builtin render op args =
        let plain = render_builtin_app op (map (λ a. or_unknown (render a)) args) in
        let pointer : List ℕ = elim (ptr_ref_decl_sym op >>= λ decl. declarator render decl args) [
          | some s ↦ s
          | none ↦ plain
        ] in
        if is_array_op op then or_unknown (element render args) ++ ascii "[]" else pointer

    -- A head that is no builtin, with its arguments.
    unfoldable pub render_applied : (Tk → Option (List ℕ)) → Tk → List Tk → Option (List ℕ)
    unfolding join
    render_applied render head [] = render head
    render_applied render head (a ∷ args) = render head >>= λ name. some (
        name
        ++ (ascii "<"
            ++ (join (ascii ", ") (map (λ t. or_unknown (render t)) (a ∷ args)) ++ ascii ">")))

    unfoldable pub render_app : (Tk → Option (List ℕ)) → Tk → List Tk → Option (List ℕ)
    unfolding render_builtin render_applied
    render_app render tk [] = g.node_code tk >>= typename_from_marked_source
    render_app render tk (head ∷ args) =
        if is_kind head (ascii "tbuiltin")
        then some (render_builtin render (g.builtin_op head) args)
        else render_applied render head args

    -- A named leaf: its MarkedSource, or else its operator.
    unfoldable pub render_leaf : Tk → Option (List ℕ)
    render_leaf tk =
        let op = g.builtin_op tk in
        elim (g.node_code tk >>= typename_from_marked_source) [
          | some name ↦ if is_kind tk (ascii "tvar") then some (short_name name) else some name
          | none ↦ if is_empty op then none else some op
        ]

    unfoldable pub render_type_rec : ℕ → Tk → Option (List ℕ)
    unfolding render_app render_leaf
    render_type_rec zero tk = none
    render_type_rec (suc left) tk =
        if is_kind tk (ascii "tapp")
        then render_app (render_type_rec left) tk (g.params tk)
        else render_leaf tk

    unfoldable pub render_type : Tk → Option (List ℕ)
    unfolding render_type_rec
    render_type tk = render_type_rec (suc type_render_max_depth) tk
