-- ===== src/Server/Xrefs.antt =====
-- `do_xrefs` of server.rs: the references of every symbol of a name, up to a limit.
use scry.Prelude.{
  ℕ, ◌+◌, List, [], ◌∷◌, Bool, true, false, not, ◌&&◌, ◌||◌, leb, if◌then◌else◌, length, Option,
  some, none,
}
use scry.Kythe.State.{push}
use scry.Server.Graphs.{defined_in}
use scry.Server.Queries.{Queries, PathFilter, passes, meta_or}
use scry.Server.Reply.{role_str, kind_str, lang_str, XrefHit, SymbolGroup, XrefsReply}
use scry.Text.Str.{ascii}

abbrev pub Row : Type 0
Row = ℕ × ℕ × ℕ

-- The rows of one symbol so far, the rows of all, and whether the limit was reached.
pub record RowsDone : Type 0 where
  pub rows : List XrefHit
  pub total : ℕ
  pub full : Bool

pub record GroupsDone : Type 0 where
  pub groups : List SymbolGroup
  pub total : ℕ
  pub full : Bool

abbrev pub is_nil {ℓ} : {A : Type ℓ} → List A → Bool
is_nil [] = true
is_nil (x ∷ xs) = false

module _ (ix : Queries) (filt : PathFilter) where
  -- `file_path(file).unwrap_or("?")`
  abbrev pub path_or : Option (List ℕ) → List ℕ
  path_or none = ascii "?"
  path_or (some path) = path

  unfoldable pub path_of : ℕ → List ℕ
  path_of file = path_or (ix.file_path file)

  unfoldable pub hit_of : Row → XrefHit
  unfolding role_str path_of
  hit_of (r, file, off) = record { role = role_str r; file = path_of file; off = off }

  unfoldable pub take_rows : ℕ → List Row → List XrefHit → ℕ → RowsDone
  unfolding passes path_of hit_of
  take_rows max_hits [] rows total = record { rows = rows; total = total; full = false }
  take_rows max_hits ((r, file, off) ∷ xs) rows total =
      let more = push (hit_of (r, file, off)) rows in
      let skipped = take_rows max_hits xs rows total in
      let next = take_rows max_hits xs more (total + 1) in
      if not (passes filt (path_of file))
      then skipped
      else if leb max_hits (total + 1)
      then record { rows = more; total = total + 1; full = true }
      else next

  module _ (with_type : Bool) (role_lo role_hi max_hits : ℕ) where
    unfoldable pub group_of : ℕ → List XrefHit → SymbolGroup
    unfolding kind_str lang_str
    group_of sym rows =
        let (name, kind, lang) = meta_or (ix.sym_meta sym) in
        record {
          name = name;
          kind = kind_str kind;
          lang = lang_str lang;
          typed = if with_type then ix.type_of sym else none;
          sig = if with_type then ix.sig_of sym else none;
          rows = rows;
        }

    unfoldable pub take_groups : List ℕ → List SymbolGroup → ℕ → GroupsDone
    unfolding take_rows group_of defined_in
    take_groups [] groups total = record { groups = groups; total = total; full = false }
    take_groups (sym ∷ syms) groups total =
        let d = take_rows max_hits (ix.xrefs sym role_lo role_hi) [] total in
        let more = push (group_of sym d.rows) groups in
        let skipped = take_groups syms groups total in
        let none_found = take_groups syms groups d.total in
        let next = take_groups syms more d.total in
        if not (defined_in ix filt.def_in sym)
        then skipped
        else if d.full
        then record { groups = more; total = d.total; full = true }
        else if is_nil d.rows
        then none_found
        else next

  unfoldable pub syms_of : List ℕ → Bool → Bool → ℕ → List ℕ
  syms_of name substr ignore_case sym_cap =
      if substr
      then (if ignore_case
          then ix.syms_matching_substring_ci name sym_cap
          else ix.syms_matching_substring name sym_cap)
      else ix.syms_for_name name

  unfoldable pub do_xrefs : List ℕ → Bool → Bool → ℕ → ℕ × ℕ → ℕ → Bool → XrefsReply
  unfolding take_groups syms_of
  do_xrefs name substr ignore_case sym_cap (role_lo, role_hi) max_hits with_type =
      let syms = syms_of name substr ignore_case sym_cap in
      let d = take_groups with_type role_lo role_hi max_hits syms [] 0 in
      record {
        groups = d.groups;
        total = d.total;
        truncated = d.full || (substr && leb sym_cap (length syms));
      }
