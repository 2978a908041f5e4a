-- ===== src/Writer/Builder.antt =====
-- `IndexBuilder` of writer.rs and the operations that fill it. A `HashMap` is an association list
-- with one entry for each key; a row is the list of its fields, and a row that ends in a string
-- holds the string's bytes behind the symbol, so that rows compare like the tuples.
use scry.Prelude.{ℕ, ◌+◌, List, [], ◌∷◌, ◌++◌, if◌then◌else◌, ◌==◌, length}
use scry.Format.Kind
use scry.Format.Lang
use scry.Sorted.{Row, sort_unstable, dedup}
use scry.Text.{Unicode}
use scry.Writer.Names.{is_empty, better_name}

-- `(kind, lang, name)` of a symbol.
pub record SymInfo : Type 0 where
  pub kind : ℕ
  pub lang : ℕ
  pub name : List ℕ

pub record IndexBuilder : Type 0 where
  pub xrefs : List Row
  pub syms : List (ℕ × SymInfo)
  pub files : List (ℕ × List ℕ)
  pub inherits : List Row
  pub aliases : List Row
  pub calls : List Row
  pub typed : List Row
  pub childof : List Row
  pub sig : List Row

abbrev pub new : IndexBuilder
new = record {
  xrefs = [];
  syms = [];
  files = [];
  inherits = [];
  aliases = [];
  calls = [];
  typed = [];
  childof = [];
  sig = [];
}

-- `map.entry(k).and_modify(f).or_insert(v)`
module _ {ℓ} {V : Type ℓ} where
  unfoldable pub upsert : ℕ → (V → V) → V → List (ℕ × V) → List (ℕ × V)
  upsert k f v [] = (k, v) ∷ []
  upsert k f v ((j, w) ∷ m) =
      let rest = upsert k f v m in if j == k then (j, f w) ∷ m else (j, w) ∷ rest

-- `v.push(row)`
abbrev push : Row → List Row → List Row
push r rs = rs ++ (r ∷ [])

unfoldable pub add_xref : IndexBuilder → ℕ → ℕ → ℕ → ℕ → IndexBuilder
add_xref b sym role file offset = record b {
  xrefs = push (sym ∷ role ∷ file ∷ offset ∷ []) b.xrefs;
}

-- A known kind and language stay; the better name is kept.
unfoldable pub refine : Unicode → SymInfo → SymInfo → SymInfo
refine u e new_info = record {
  kind = if e.kind == Kind.unk then new_info.kind else e.kind;
  lang = if e.lang == Lang.unk then new_info.lang else e.lang;
  name = better_name u e.name new_info.name;
}

unfoldable pub upsert_sym : Unicode → IndexBuilder → ℕ → ℕ → ℕ → List ℕ → IndexBuilder
unfolding upsert refine
upsert_sym u b sym kind lang name =
    let info : SymInfo = record { kind = kind; lang = lang; name = name } in
    record b { syms = upsert sym (λ e. refine u e info) info b.syms }

unfoldable pub set_sym_name : Unicode → IndexBuilder → ℕ → List ℕ → IndexBuilder
unfolding upsert
set_sym_name u b sym name =
    let info : SymInfo = record { kind = Kind.unk; lang = Lang.unk; name = name } in
    if is_empty name then b else record b {
      syms = upsert sym (λ e. record e { name = better_name u e.name name }) info b.syms;
    }

unfoldable pub mark_field : IndexBuilder → ℕ → IndexBuilder
unfolding upsert
mark_field b sym =
    let info : SymInfo = record { kind = Kind.field; lang = Lang.unk; name = [] } in
    record b { syms = upsert sym (λ e. record e { kind = Kind.field }) info b.syms }

unfoldable pub upsert_file : IndexBuilder → ℕ → List ℕ → IndexBuilder
unfolding upsert
upsert_file b file path = record b { files = upsert file (λ p. p) path b.files }

unfoldable pub add_inherit : IndexBuilder → ℕ → ℕ → IndexBuilder
add_inherit b child parent = record b { inherits = push (child ∷ parent ∷ []) b.inherits }

unfoldable pub add_alias : IndexBuilder → ℕ → List ℕ → IndexBuilder
add_alias b sym alias =
    if is_empty alias then b else record b { aliases = push (sym ∷ alias) b.aliases }

unfoldable pub add_call : IndexBuilder → ℕ → ℕ → ℕ → IndexBuilder
add_call b caller callee role = record b { calls = push (caller ∷ callee ∷ role ∷ []) b.calls }

unfoldable pub add_type : IndexBuilder → ℕ → List ℕ → IndexBuilder
add_type b sym type_str =
    if is_empty type_str then b else record b { typed = push (sym ∷ type_str) b.typed }

-- Stored with the parent first.
unfoldable pub add_childof : IndexBuilder → ℕ → ℕ → IndexBuilder
add_childof b child parent = record b { childof = push (parent ∷ child ∷ []) b.childof }

unfoldable pub add_sig : IndexBuilder → ℕ → List ℕ → IndexBuilder
add_sig b sym sig = if is_empty sig then b else record b { sig = push (sym ∷ sig) b.sig }

unfoldable pub delta_row_count : IndexBuilder → ℕ
delta_row_count b =
    length b.xrefs
    + length b.inherits
    + length b.calls
    + length b.aliases
    + length b.typed
    + length b.childof
    + length b.sig

-- The entries of the other map in turn.
unfoldable pub merge_syms : Unicode → List (ℕ × SymInfo) → List (ℕ × SymInfo) → List (ℕ × SymInfo)
unfolding upsert refine
merge_syms u m [] = m
merge_syms u m ((k, info) ∷ rest) = merge_syms u (upsert k (λ e. refine u e info) info m) rest

unfoldable pub merge_files : List (ℕ × List ℕ) → List (ℕ × List ℕ) → List (ℕ × List ℕ)
unfolding upsert
merge_files m [] = m
merge_files m ((k, path) ∷ rest) = merge_files (upsert k (λ p. p) path m) rest

unfoldable pub merge_from : Unicode → IndexBuilder → IndexBuilder → IndexBuilder
unfolding merge_syms merge_files
merge_from u b other = record {
  xrefs = b.xrefs ++ other.xrefs;
  syms = merge_syms u b.syms other.syms;
  files = merge_files b.files other.files;
  inherits = b.inherits ++ other.inherits;
  aliases = b.aliases ++ other.aliases;
  calls = b.calls ++ other.calls;
  typed = b.typed ++ other.typed;
  childof = b.childof ++ other.childof;
  sig = b.sig ++ other.sig;
}

-- `t.sort_unstable(); t.dedup()`
abbrev pub sort_dedup : List Row → List Row
sort_dedup rs = dedup (sort_unstable rs)

-- The builder afterwards, and the rows that are left.
unfoldable pub dedup_tables : IndexBuilder → IndexBuilder × ℕ
unfolding delta_row_count
dedup_tables b =
    let b' : IndexBuilder = record b {
      xrefs = sort_dedup b.xrefs;
      inherits = sort_dedup b.inherits;
      calls = sort_dedup b.calls;
      aliases = sort_dedup b.aliases;
      typed = sort_dedup b.typed;
      childof = sort_dedup b.childof;
      sig = sort_dedup b.sig;
    } in
    (b', delta_row_count b')
