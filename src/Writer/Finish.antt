-- ===== src/Writer/Finish.antt =====
-- `IndexBuilder::finish` of writer.rs: the tables are sorted, the strings laid out in one blob, and
-- the sections written behind the header.
use Prim.Native.Nat.{Ordering, compare}
use scry.Prelude.{
  ℕ, ◌+◌, ◌*◌, ◌/◌, List, [], ◌∷◌, ◌++◌, if◌then◌else◌, ◌==◌, not, length, take, drop, map, select,
  Option, none, some, get_or,
}
use mathlib.Core.List.{flatten}
use scry.Bytes.{cmp, then_order}
use scry.Format.{
  Header, magic, version, table, header_len, xref_row, xref_len, sym_row, sym_len, name_row,
  name_len, file_row, file_len, inh_row, inh_len, call_row, call_len, type_row, type_len,
  trigram_len,
}
use scry.Format.Kind
use scry.Format.HeaderBytes.{header_bytes}
use scry.Sorted.{Row, field, contains, sort_by, sort_unstable}
use scry.Text.Clamp.{clamp_blob_str}
use scry.Writer.Builder.{IndexBuilder, SymInfo, sort_dedup}
use scry.Writer.Layout.{Section, offsets, file_of}
use scry.Writer.Trigram.{build_trigram_index}

-- The fields of a row behind the first: the string of an alias, a type or a signature.
abbrev pub string_of : Row → List ℕ
string_of [] = []
string_of (x ∷ xs) = xs

-- `sort_unstable_by_key(|r| r.0)` on the entries of a map, whose keys differ.
abbrev pub by_key {ℓ} : {V : Type ℓ} → ℕ × V → ℕ × V → Ordering
by_key a b = compare a.0 b.0

-- `(offset, length)` of strings that are laid out one after the other from `off` on.
unfoldable pub place : ℕ → List (List ℕ) → List (ℕ × ℕ)
place off [] = []
place off (s ∷ ss) = (off, length s) ∷ place (off + length s) ss

-- One row for each sym: the first.
unfoldable pub first_per_sym : Option ℕ → List Row → List Row
first_per_sym last [] = []
first_per_sym none (r ∷ rs) = r ∷ first_per_sym (some (field 0 r)) rs
first_per_sym (some s) (r ∷ rs) =
    let rest = first_per_sym (some (field 0 r)) rs in if s == field 0 r then rest else r ∷ rest

-- Items joined to the places of their strings.
unfoldable pub zip_with {ℓ κ μ} :
    {A : Type ℓ} {B : Type κ} {C : Type μ} → (A → B → C) → List A → List B → List C
zip_with f [] bs = []
zip_with f (a ∷ as') [] = []
zip_with f (a ∷ as') (b ∷ bs) = f a b ∷ zip_with f as' bs

-- The name rows in the order of their bytes in the blob, and of the sym where these are the same.
unfoldable pub name_bytes : List ℕ → Row → List ℕ
name_bytes blob r = take (field 1 r) (drop (field 0 r) blob)

unfoldable pub name_order : List ℕ → Row → Row → Ordering
unfolding cmp name_bytes
name_order blob a b =
    then_order (cmp (name_bytes blob a) (name_bytes blob b)) (compare (field 2 a) (field 2 b))

-- The tables as they go into the file.
pub record Tables : Type 0 where
  pub xrefs : List Row
  pub syms : List Row
  pub names : List Row
  pub files : List Row
  pub inh : List Row
  pub inhrev : List Row
  pub calls : List Row
  pub crev : List Row
  pub typed : List Row
  pub childrev : List Row
  pub sig : List Row
  pub blob : List ℕ

-- The edges turned round: `(parent, child)`, and `(callee, caller, role)`.
abbrev pub swap_inh : Row → Row
swap_inh r = field 1 r ∷ field 0 r ∷ []

abbrev pub swap_call : Row → Row
swap_call r = field 1 r ∷ field 0 r ∷ field 2 r ∷ []

-- The aliases of variables are left out.
unfoldable pub kept_aliases : IndexBuilder → List Row
unfolding contains
kept_aliases b =
    let var_syms =
      map (λ e. e.0) (select (λ (e : ℕ × SymInfo). e.1.kind == Kind.variable) b.syms) in
    sort_dedup (select (λ r. not (contains (field 0 r) var_syms)) b.aliases)

unfoldable pub tables_of : IndexBuilder → Tables
unfolding sort_by kept_aliases place first_per_sym zip_with name_order
tables_of b =
    let syms_vec = sort_by by_key b.syms in
    let files_vec = sort_by by_key b.files in
    let aliases = kept_aliases b in
    let typed = first_per_sym none (sort_dedup b.typed) in
    let sig = first_per_sym none (sort_dedup b.sig) in
    let name_strs = map (λ (e : ℕ × SymInfo). clamp_blob_str e.1.name) syms_vec in
    let alias_strs = map (λ r. clamp_blob_str (string_of r)) aliases in
    let path_strs = map (λ (e : ℕ × List ℕ). clamp_blob_str e.1) files_vec in
    let typed_strs = map (λ r. clamp_blob_str (string_of r)) typed in
    let sig_strs = map (λ r. clamp_blob_str (string_of r)) sig in
    let blob_names = flatten name_strs in
    let blob_aliases = blob_names ++ flatten alias_strs in
    let blob_paths = blob_aliases ++ flatten path_strs in
    let blob_typed = blob_paths ++ flatten typed_strs in
    let blob = blob_typed ++ flatten sig_strs in
    let name_pos = place 0 name_strs in
    let alias_pos = place (length blob_names) alias_strs in
    let inherits = sort_dedup b.inherits in
    let calls = sort_dedup b.calls in
    record {
      xrefs = sort_dedup b.xrefs;
      syms = zip_with (λ e p. e.0 ∷ e.1.kind ∷ e.1.lang ∷ p.0 ∷ p.1 ∷ []) syms_vec name_pos;
      names = sort_by (name_order blob_paths) (
          zip_with (λ e p. p.0 ∷ p.1 ∷ e.0 ∷ []) syms_vec name_pos
          ++ zip_with (λ r p. p.0 ∷ p.1 ∷ field 0 r ∷ []) aliases alias_pos);
      files =
          zip_with (λ e p. e.0 ∷ p.0 ∷ p.1 ∷ []) files_vec (place (length blob_aliases) path_strs);
      inh = inherits;
      inhrev = sort_unstable (map swap_inh inherits);
      calls = calls;
      crev = sort_unstable (map swap_call calls);
      typed =
          zip_with (λ r p. field 0 r ∷ p.0 ∷ p.1 ∷ []) typed (place (length blob_paths) typed_strs);
      childrev = sort_dedup b.childof;
      sig = zip_with (λ r p. field 0 r ∷ p.0 ∷ p.1 ∷ []) sig (place (length blob_typed) sig_strs);
      blob = blob;
    }

-- A table of rows of `len` bytes.
abbrev pub rows_section : List ℕ → ℕ → List Row → Section
rows_section ws len rs = record { len = length rs * len; content = table ws rs }

-- Bytes whose number the header holds.
abbrev pub bytes_section : List ℕ → Section
bytes_section bs = record { len = length bs; content = bs }

-- The sections in the order of the file.
unfoldable pub sections_of : Tables → List Section
sections_of t =
    let (dict, post) = build_trigram_index (map (name_bytes t.blob) t.names) in
    rows_section xref_row xref_len t.xrefs
    ∷ rows_section sym_row sym_len t.syms
    ∷ rows_section name_row name_len t.names
    ∷ rows_section file_row file_len t.files
    ∷ rows_section inh_row inh_len t.inh
    ∷ rows_section inh_row inh_len t.inhrev
    ∷ rows_section call_row call_len t.calls
    ∷ rows_section call_row call_len t.crev
    ∷ rows_section type_row type_len t.typed
    ∷ rows_section inh_row inh_len t.childrev
    ∷ rows_section type_row type_len t.sig
    ∷ bytes_section t.blob
    ∷ bytes_section dict
    ∷ bytes_section post
    ∷ []

-- The header, with the offsets in the order of the file.
unfoldable pub header_of : Tables → Header
unfolding sections_of
header_of t =
    let ss = sections_of t in
    let off = offsets header_len ss in
    let (dict, post) = build_trigram_index (map (name_bytes t.blob) t.names) in
    record {
      magic = magic;
      version = version;
      xrefs_off = get_or off 0 0;
      xrefs_n = length t.xrefs;
      syms_off = get_or off 1 0;
      syms_n = length t.syms;
      names_off = get_or off 2 0;
      names_n = length t.names;
      files_off = get_or off 3 0;
      files_n = length t.files;
      inh_off = get_or off 4 0;
      inh_n = length t.inh;
      inhrev_off = get_or off 5 0;
      inhrev_n = length t.inhrev;
      calls_off = get_or off 6 0;
      calls_n = length t.calls;
      crev_off = get_or off 7 0;
      crev_n = length t.crev;
      typed_off = get_or off 8 0;
      typed_n = length t.typed;
      childrev_off = get_or off 9 0;
      childrev_n = length t.childrev;
      sig_off = get_or off 10 0;
      sig_n = length t.sig;
      blob_off = get_or off 11 0;
      blob_len = length t.blob;
      trigram_dict_off = get_or off 12 0;
      trigram_dict_n = length dict / trigram_len;
      trigram_post_off = get_or off 13 0;
      trigram_post_len = length post;
    }

-- The bytes of the file that `finish` leaves at its path.
unfoldable pub finish : IndexBuilder → List ℕ
finish b = let t = tables_of b in file_of (header_bytes (header_of t)) (sections_of t)
