-- ===== src/Kythe/Edges.antt =====
-- The words of Kythe in kythe.rs: edge kinds, node kinds, languages, and the symbol string.
use scry.Prelude.{ℕ, List, [], ◌∷◌, ◌++◌, Bool, if◌then◌else◌, Option, some, none, ◌&&◌}
use scry.Format.Kind
use scry.Format.Lang
use scry.Format.Role
use scry.Text.{is_utf8}
use scry.Text.Str.{ascii, same, one_of, before, before_word, strip_prefix, parse_u32}
use scry.Kythe.Wire.{VName, ◌>>=◌}
use scry.Writer.Names.{is_empty}

unfoldable pub to_symbol_string : VName → List ℕ
to_symbol_string v =
    ascii "kythe:"
    ++ (v.language
        ++ (ascii ":"
            ++ (v.corpus
                ++ (ascii "#"
                    ++ (v.root ++ (ascii "#" ++ (v.path ++ (ascii "#" ++ v.signature))))))))

-- `VName::is_empty`
unfoldable pub is_no_name : VName → Bool
is_no_name v =
    is_empty v.signature
    && is_empty v.corpus
    && is_empty v.root
    && is_empty v.path
    && is_empty v.language

unfoldable pub lang_byte : VName → ℕ
lang_byte v =
    if same v.language (ascii "c++")
    then Lang.cxx
    else if same v.language (ascii "java")
    then Lang.java
    else if same v.language (ascii "jvm")
    then Lang.jvm
    else if same v.language (ascii "go")
    then Lang.go
    else if same v.language (ascii "proto")
    then Lang.proto
    else if same v.language (ascii "rust")
    then Lang.rust
    else if same v.language (ascii "kotlin")
    then Lang.kotlin
    else Lang.unk

-- `kind.split('.').next()`
abbrev pub base_of : List ℕ → List ℕ
base_of kind = before b'.' kind

unfoldable pub edge_to_role : List ℕ → Option ℕ
unfolding same one_of before
edge_to_role kind =
    if same (base_of kind) (ascii "/kythe/edge/defines/binding")
    then some Role.decl
    else if same (base_of kind) (ascii "/kythe/edge/defines")
    then some Role.def
    else if same (base_of kind) (ascii "/kythe/edge/ref/call")
    then some Role.call
    else if one_of (base_of kind) (
        ascii "/kythe/edge/ref"
        ∷ ascii "/kythe/edge/ref/writes"
        ∷ ascii "/kythe/edge/ref/imports"
        ∷ [])
    then some Role.ref
    else none

unfoldable pub is_inherit_edge : List ℕ → Bool
unfolding one_of before
is_inherit_edge kind = one_of (base_of kind) (
    ascii "/kythe/edge/extends"
    ∷ ascii "/kythe/edge/extends/private"
    ∷ ascii "/kythe/edge/extends/protected"
    ∷ ascii "/kythe/edge/extends/public"
    ∷ ascii "/kythe/edge/overrides"
    ∷ ascii "/kythe/edge/satisfies"
    ∷ [])

unfoldable pub is_completes_edge : List ℕ → Bool
unfolding one_of before
is_completes_edge kind =
    one_of (base_of kind)
      (ascii "/kythe/edge/completes" ∷ ascii "/kythe/edge/completes/uniquely" ∷ [])

unfoldable pub is_childof_edge : List ℕ → Bool
unfolding same before
is_childof_edge kind = same (base_of kind) (ascii "/kythe/edge/childof")

unfoldable pub is_named_edge : List ℕ → Bool
unfolding same before
is_named_edge kind = same (base_of kind) (ascii "/kythe/edge/named")

unfoldable pub node_kind_byte : List ℕ → ℕ
unfolding same one_of
node_kind_byte s =
    if same s (ascii "function")
    then Kind.function
    else if one_of s (ascii "record" ∷ ascii "interface" ∷ [])
    then Kind.type
    else if same s (ascii "variable")
    then Kind.variable
    else if one_of s (ascii "constant" ∷ ascii "field" ∷ [])
    then Kind.field
    else if same s (ascii "package")
    then Kind.package'
    else Kind.unk

unfoldable pub parse_ascii_u32 : List ℕ → Option ℕ
parse_ascii_u32 b = if is_utf8 b then parse_u32 b else none

unfoldable pub parse_param_ordinal : List ℕ → Option ℕ
unfolding strip_prefix
parse_param_ordinal kind = strip_prefix (ascii "/kythe/edge/param.") kind >>= parse_u32

unfoldable pub is_type_node_kind : List ℕ → Bool
unfolding one_of
is_type_node_kind kind = one_of kind (
    ascii "tapp"
    ∷ ascii "tbuiltin"
    ∷ ascii "tvar"
    ∷ ascii "record"
    ∷ ascii "interface"
    ∷ ascii "sum"
    ∷ ascii "talias"
    ∷ [])

-- `signature.strip_suffix("#builtin")`
unfoldable pub strip_builtin : List ℕ → Option (List ℕ)
unfolding same
strip_builtin [] = none
strip_builtin (b ∷ s) = elim (strip_builtin s) [
  | some op ↦ some (b ∷ op)
  | none ↦ if same (b ∷ s) (ascii "#builtin") then some [] else none
]

-- That, or else what stands before the first `#builtin`; the empty operator is none.
unfoldable pub builtin_op_of : List ℕ → Option (List ℕ)
unfolding strip_builtin before_word
builtin_op_of signature =
    let op : Option (List ℕ) = elim (strip_builtin signature) [
      | some op ↦ some op
      | none ↦
          let (p, found) = before_word (ascii "#builtin") signature in
          if found then some p else none
    ] in
    op >>= λ p. if is_empty p then none else some p
