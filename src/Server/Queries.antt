-- ===== src/Server/Queries.antt =====
-- What server.rs asks of an index, its path filter, and the names and places of symbols.
use scry.Prelude.{
  ℕ, zero, suc, ◌+◌, ◌/◌, ◌%◌, List, [], ◌∷◌, ◌++◌, Bool, true, false, not, ◌&&◌, ◌||◌, ltb,
  if◌then◌else◌, Option, some, none,
}
use scry.Cache.Digest.{hex_digits}
use scry.Kythe.Wire.{◌>>=◌}
use scry.Server.Reply.{kind_str}
use scry.Text.Str.{ascii, before_word, behind_last, strip_prefix}
use scry.Writer.Names.{is_empty}

-- The queries of reader.rs that the verbs use.
pub record Queries : Type 0 where
  pub syms_for_name : List ℕ → List ℕ
  pub syms_matching_substring : List ℕ → ℕ → List ℕ
  -- Name, kind and language.
  pub sym_meta : ℕ → Option (List ℕ × ℕ × ℕ)
  -- File and offset.
  pub sym_def_loc : ℕ → Option (ℕ × ℕ)
  pub sym_def_path : ℕ → Option (List ℕ)
  pub file_path : ℕ → Option (List ℕ)
  -- The other symbols of call edges, with their roles.
  pub calls_from : ℕ → List (ℕ × ℕ)
  pub called_by : ℕ → List (ℕ × ℕ)
  pub inherits_of : ℕ → List ℕ
  pub inherited_by : ℕ → List ℕ
  pub members : ℕ → List ℕ
  pub syms_matching_substring_ci : List ℕ → ℕ → List ℕ
  pub type_of : ℕ → Option (List ℕ)
  pub sig_of : ℕ → Option (List ℕ)
  pub n_xrefs : ℕ
  pub n_syms : ℕ
  pub n_files : ℕ
  pub n_inh : ℕ
  pub n_calls : ℕ
  -- The references between two roles: role, file and offset.
  pub xrefs : ℕ → ℕ → ℕ → List (ℕ × ℕ × ℕ)

-- `sym_meta(sym).unwrap_or(("?", 0, 0))`
abbrev pub meta_or : Option (List ℕ × ℕ × ℕ) → List ℕ × ℕ × ℕ
meta_or none = (ascii "?", 0, 0)
meta_or (some (name, kind, lang)) = (name, kind, lang)

-- `path.contains(s)`
abbrev pub contains_str : List ℕ → List ℕ → Bool
contains_str path s = (before_word s path).1

pub record PathFilter : Type 0 where
  pub in_ : Option (List ℕ)
  pub not_in : Option (List ℕ)
  pub def_in : Option (List ℕ)

-- `if let Some(s)` with a string that is not empty, and the path with it.
unfoldable pub names_part : Option (List ℕ) → List ℕ → Bool
unfolding before_word
names_part none path = true
names_part (some s) path = is_empty s || contains_str path s

unfoldable pub names_no_part : Option (List ℕ) → List ℕ → Bool
unfolding before_word
names_no_part none path = true
names_no_part (some s) path = is_empty s || not (contains_str path s)

unfoldable pub passes : PathFilter → List ℕ → Bool
unfolding names_part names_no_part
passes filt path = names_part filt.in_ path && names_no_part filt.not_in path

abbrev pub is_set : Option (List ℕ) → Bool
is_set none = false
is_set (some s) = not (is_empty s)

unfoldable pub has_in_out : PathFilter → Bool
has_in_out filt = is_set filt.in_ || is_set filt.not_in

unfoldable pub logical_key : List ℕ → List ℕ
unfolding strip_prefix behind_last
logical_key name = elim (strip_prefix (ascii "kythe:") name) [
  | some _ ↦ behind_last b'#' [] name
  | none ↦ name
]

-- `{off}`
unfoldable pub decimal_loop : ℕ → ℕ → List ℕ → List ℕ
decimal_loop zero n acc = acc
decimal_loop (suc fuel) n acc =
    let digits = (48 + n % 10) ∷ acc in
    let more = decimal_loop fuel (n / 10) digits in if ltb n 10 then digits else more

unfoldable pub decimal : ℕ → List ℕ
unfolding decimal_loop
decimal n = decimal_loop (suc n) n []

module _ (ix : Queries) where
  unfoldable pub def_loc_str : ℕ → Option (List ℕ)
  unfolding decimal
  def_loc_str sym = ix.sym_def_loc sym >>= λ (file, off).
      ix.file_path file >>= λ path. some (path ++ (b'@' ∷ decimal off))

  -- `anon@{path}@{off}`, or what stands behind the last `#`.
  unfoldable pub display_name : ℕ → List ℕ → List ℕ
  unfolding strip_prefix behind_last def_loc_str
  display_name sym name = elim (strip_prefix (ascii "kythe:") name) [
    | none ↦ name
    | some _ ↦ elim (def_loc_str sym) [
      | some place ↦ ascii "anon@" ++ place
      | none ↦ if is_empty (behind_last b'#' [] name) then name else behind_last b'#' [] name
    ]
  ]

  unfoldable pub name_of : ℕ → List ℕ
  unfolding hex_digits
  name_of sym = elim (ix.sym_meta sym) [
    | some (name, _, _) ↦ name
    | none ↦ ascii "<sym " ++ (hex_digits 16 sym ++ ascii ">")
  ]

  unfoldable pub kind_of : ℕ → List ℕ
  unfolding kind_str
  kind_of sym = kind_str (elim (ix.sym_meta sym) [ some (_, kind, _) ↦ kind | none ↦ 0 ])

  -- Whether a symbol passes `--in` and `--not-in` by the file of its definition.
  unfoldable pub sym_passes : PathFilter → ℕ → Bool
  unfolding has_in_out passes
  sym_passes filt sym =
      if not (has_in_out filt)
      then true
      else passes filt (elim (ix.sym_def_path sym) [ none ↦ [] | some path ↦ path ])
