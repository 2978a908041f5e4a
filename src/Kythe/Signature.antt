-- ===== src/Kythe/Signature.antt =====
-- `render_signature` of kythe.rs, over the type side table of one compilation unit. A `HashMap` is
-- an association list with one entry for each key; a `BTreeMap` of parameters is the list of its
-- entries in ascending order.
use scry.Prelude.{
  ℕ, List, [], ◌∷◌, ◌++◌, Bool, true, false, ◌||◌, ltb, ◌==◌, if◌then◌else◌, Option, some, none,
  map,
}
use scry.Text.{Unicode}
use scry.Text.Str.{ascii, same, join, split_first}
use scry.Text.Trim.{trim_end}
use scry.Kythe.Wire.{◌>>=◌}
use scry.Kythe.Names.{short_name, bare_param_name}
use scry.Kythe.MarkedSource.{parse_marked_source_fqn}
use scry.Kythe.Types.{TypeGraph, render_type}
use scry.Writer.Names.{is_empty}

-- A map keyed by strings.
module _ {ℓ} {V : Type ℓ} where
  unfoldable pub find : List ℕ → List (List ℕ × V) → Option V
  unfolding same
  find k [] = none
  find k ((j, v) ∷ m) = if same j k then some v else find k m

  -- `map.insert(k, v)`
  unfoldable pub put : List ℕ → V → List (List ℕ × V) → List (List ℕ × V)
  unfolding same
  put k v [] = (k, v) ∷ []
  put k v ((j, w) ∷ m) = let rest = put k v m in if same j k then (j, v) ∷ m else (j, w) ∷ rest

  -- `map.entry(k).or_insert(v)`
  unfoldable pub put_new : List ℕ → V → List (List ℕ × V) → List (List ℕ × V)
  unfolding same
  put_new k v [] = (k, v) ∷ []
  put_new k v ((j, w) ∷ m) =
      let rest = put_new k v m in if same j k then (j, w) ∷ m else (j, w) ∷ rest

-- `BTreeMap::insert`
unfoldable pub put_ordinal : ℕ → List ℕ → List (ℕ × List ℕ) → List (ℕ × List ℕ)
put_ordinal n v [] = (n, v) ∷ []
put_ordinal n v ((k, w) ∷ m) =
    let rest = put_ordinal n v m in
    if n == k then (n, v) ∷ m else if ltb n k then (n, v) ∷ (k, w) ∷ m else (k, w) ∷ rest

pub record TypeSide : Type 0 where
  pub edges : List (List ℕ × List ℕ)
  pub kind : List (List ℕ × List ℕ)
  pub code : List (List ℕ × List ℕ)
  pub params : List (List ℕ × List (ℕ × List ℕ))
  pub builtin_op : List (List ℕ × List ℕ)
  pub functions : List (List ℕ)

abbrev pub no_types : TypeSide
no_types = record { edges = []; kind = []; code = []; params = []; builtin_op = []; functions = [] }

abbrev or_empty : Option (List ℕ) → List ℕ
or_empty none = []
or_empty (some s) = s

abbrev targets : Option (List (ℕ × List ℕ)) → List (List ℕ)
targets none = []
targets (some m) = map (λ e. e.1) m

-- `CuTypeGraph`
unfoldable pub cu_type_graph : TypeSide → TypeGraph (List ℕ)
unfolding find
cu_type_graph side = record {
  node_kind = λ tk. or_empty (find tk side.kind);
  node_code = λ tk. find tk side.code;
  params = λ tk. targets (find tk side.params);
  builtin_op = λ tk. or_empty (find tk side.builtin_op);
}

-- `edges.iter().map(..).collect()` into a map: the last edge of a key.
unfoldable pub typed_of : List (List ℕ × List ℕ) → List ℕ → Option (List ℕ) → Option (List ℕ)
unfolding same
typed_of [] k found = found
typed_of ((s, t) ∷ edges) k found = typed_of edges k (if same s k then some t else found)

-- `filter(|s| !s.is_empty())`
abbrev pub non_empty : Option (List ℕ) → Option (List ℕ)
non_empty none = none
non_empty (some s) = if is_empty s then none else some s

-- `full[..full.find('(')]`
abbrev before_paren : List ℕ → List ℕ
before_paren s = elim (split_first b'(' s) [ none ↦ s | some (front, _) ↦ front ]

-- Type and name, or what there is of them.
unfoldable pub param_part : Option (List ℕ) → Option (List ℕ) → List ℕ
param_part (some t) (some n) = t ++ (ascii " " ++ n)
param_part (some t) none = t
param_part none (some n) = n
param_part none none = ascii "?"

unfoldable pub sig_head : Option (List ℕ) → List ℕ → List ℕ
sig_head (some r) [] = r
sig_head (some r) (c ∷ name) = r ++ (ascii " " ++ (c ∷ name))
sig_head none name = name

unfoldable pub no_param_sig : Option (List ℕ) → Option (List ℕ) → Option (List ℕ)
no_param_sig (some r) (some n) =
    if is_empty n then none else some (r ++ (ascii " " ++ (n ++ ascii "()")))
no_param_sig _ _ = none

abbrev is_some {ℓ} : {A : Type ℓ} → Option A → Bool
is_some none = false
is_some (some a) = true

module _ (u : Unicode) (side : TypeSide) where
  unfoldable pub type_of_key : List ℕ → Option (List ℕ)
  unfolding typed_of
  type_of_key key = typed_of side.edges key none >>= render_type u (cu_type_graph side)

  -- The name in the code of a node, shortened.
  unfoldable pub name_of_key : List ℕ → Option (List ℕ)
  unfolding find
  name_of_key key =
      find key side.code >>= λ c. parse_marked_source_fqn u c >>= λ fqn. some (short_name fqn)

  unfoldable pub param_name : List ℕ → Option (List ℕ)
  param_name key = non_empty (name_of_key key >>= λ n. some (bare_param_name u n))

  unfoldable pub any_named : List (List ℕ) → Bool
  any_named [] = false
  any_named (p ∷ ps) = is_some (param_name p) || any_named ps

  unfoldable pub params_sig : Option (List ℕ) → Option (List ℕ) → List (List ℕ) → Option (List ℕ)
  unfolding sig_head param_part join any_named
  params_sig ret_type fn_name ps =
      let parts = map (λ p. param_part (non_empty (type_of_key p)) (param_name p)) ps in
      if any_named ps
      then some (
          sig_head ret_type (or_empty fn_name)
          ++ (ascii "(" ++ (join (ascii ", ") parts ++ ascii ")")))
      else none

  unfoldable pub sig_of_params : Option (List ℕ) → Option (List ℕ) → List (List ℕ) → Option (List ℕ)
  unfolding no_param_sig params_sig
  sig_of_params ret_type fn_name [] = no_param_sig ret_type fn_name
  sig_of_params ret_type fn_name (p ∷ ps) = params_sig ret_type fn_name (p ∷ ps)

  unfoldable pub render_signature : List ℕ → Option (List ℕ)
  unfolding sig_of_params find type_of_key name_of_key
  render_signature fn_key =
      let ret_type =
        non_empty (type_of_key fn_key >>= λ full. some (trim_end u (before_paren full))) in
      sig_of_params ret_type (name_of_key fn_key) (targets (find fn_key side.params))
