-- ===== src/Roundtrip/Fields.antt =====
-- The tables that `IndexBuilder::finish` of writer.rs makes have fields within their widths, when the
-- rows that were added have.
use scry.Prelude.{
  ℕ, ◌+◌, ◌<◌, ◌≡◌, arith, List, [], ◌∷◌, ◌++◌, length, map, All, All-map, All_of, All-append,
  length-append, none,
}
use mathlib.Core.List.{flatten}
use scry.Bytes.{u64_mod, u32_mod, u16_mod}
use scry.Format.{xref_row, sym_row, name_row, file_row, inh_row, call_row, type_row}
use scry.Format.Rows.{Fits}
use scry.Sorted.{Row, field, sort_by}
use scry.Sorted.SortLaws.{All-sort_dedup, All-sort_unstable}
use scry.Text.Clamp.{clamp_blob_str, length-clamp_blob_str}
use scry.Writer.Builder.{IndexBuilder, SymInfo, sort_dedup}
use scry.Writer.Finish.{
  tables_of, place, first_per_sym, kept_aliases, string_of, swap_inh, swap_call, by_key,
}
use scry.Roundtrip.Sections.{IsPackable}
use scry.Roundtrip.Preserved.{All-sort_by, All-select, All-first_per_sym, All-of-map, All-zip_with}

-- A symbol with its kind and language, a file, and a row that ends in a string.
abbrev pub IsSymEntry : ℕ × SymInfo → Type 0
IsSymEntry e = (e.0 < u64_mod) × (e.1.kind < 256) × (e.1.lang < 256)

abbrev pub IsFileEntry : ℕ × List ℕ → Type 0
IsFileEntry e = e.0 < u32_mod

abbrev pub IsStringRow : Row → Type 0
IsStringRow r = field 0 r < u64_mod

-- Every value that was added has the type that the method takes it at.
pub record IsTyped (b : IndexBuilder) : Type 0 where
  pub xrefs : All (Fits xref_row) b.xrefs
  pub syms : All IsSymEntry b.syms
  pub files : All IsFileEntry b.files
  pub inherits : All (Fits inh_row) b.inherits
  pub aliases : All IsStringRow b.aliases
  pub calls : All (Fits call_row) b.calls
  pub typed : All IsStringRow b.typed
  pub childof : All (Fits inh_row) b.childof
  pub sig : All IsStringRow b.sig

-- A place in a blob of fewer than 2^64 bytes, of a string that was cut to 65,535 bytes.
abbrev IsPlace : ℕ × ℕ → Type 0
IsPlace p = (p.0 < u64_mod) × (p.1 < u16_mod)

place-IsPlace :
    (off : ℕ) (ss : List (List ℕ))
    → All (λ s. length s < u16_mod) ss
    → off + length (flatten ss) < u64_mod
    → All IsPlace (place off ss)
unfolding place flatten
place-IsPlace off [] h k = tt
place-IsPlace off (s ∷ ss) h k = (
  (omega arith, h.0),
  place-IsPlace (off + length s) ss h.1 (omega (arith, length-append s (flatten ss))),
)

-- The five groups of strings lie one behind the other.
module _ (names aliases paths typed sig : List (List ℕ)) (hn : All (λ s. length s < u16_mod) names)
    (ha : All (λ s. length s < u16_mod) aliases) (hp : All (λ s. length s < u16_mod) paths)
    (ht : All (λ s. length s < u16_mod) typed) (hs : All (λ s. length s < u16_mod) sig) where
  abbrev blob_names : List ℕ
  blob_names = flatten names

  abbrev blob_aliases : List ℕ
  blob_aliases = blob_names ++ flatten aliases

  abbrev blob_paths : List ℕ
  blob_paths = blob_aliases ++ flatten paths

  abbrev blob_typed : List ℕ
  blob_typed = blob_paths ++ flatten typed

  groups-IsPlace :
      length (blob_typed ++ flatten sig) < u64_mod
      → All IsPlace (place 0 names)
        × All IsPlace (place (length blob_names) aliases)
        × All IsPlace (place (length blob_aliases) paths)
        × All IsPlace (place (length blob_paths) typed)
        × All IsPlace (place (length blob_typed) sig)
  groups-IsPlace h =
      let a : length blob_aliases ≡ length blob_names + length (flatten aliases) =
        length-append blob_names (flatten aliases) in
      let p : length blob_paths ≡ length blob_aliases + length (flatten paths) =
        length-append blob_aliases (flatten paths) in
      let t : length blob_typed ≡ length blob_paths + length (flatten typed) =
        length-append blob_paths (flatten typed) in
      let s : length (blob_typed ++ flatten sig) ≡ length blob_typed + length (flatten sig) =
        length-append blob_typed (flatten sig) in
      (
        place-IsPlace 0 names hn (omega arith),
        place-IsPlace (length blob_names) aliases ha (omega arith),
        place-IsPlace (length blob_aliases) paths hp (omega arith),
        place-IsPlace (length blob_paths) typed ht (omega arith),
        place-IsPlace (length blob_typed) sig hs (omega arith),
      )

clamped {ℓ} :
    {A : Type ℓ} (f : A → List ℕ) (xs : List A)
    → All (λ s. length s < u16_mod) (map (λ x. clamp_blob_str (f x)) xs)
clamped f xs =
    All-of-map _ (λ x. clamp_blob_str (f x)) xs
      (All_of _ (λ x. omega (arith, length-clamp_blob_str (f x))) xs)

swap_inh-Fits : (r : Row) → Fits inh_row r → Fits inh_row (swap_inh r)
swap_inh-Fits [] h = elim h [ ]
swap_inh-Fits (a ∷ []) h = elim h.1 [ ]
swap_inh-Fits (a ∷ b ∷ []) h = (h.1.0, (h.0, tt))
swap_inh-Fits (a ∷ b ∷ c ∷ r) h = elim h.1.1 [ ]

swap_call-Fits : (r : Row) → Fits call_row r → Fits call_row (swap_call r)
swap_call-Fits [] h = elim h [ ]
swap_call-Fits (a ∷ []) h = elim h.1 [ ]
swap_call-Fits (a ∷ b ∷ []) h = elim h.1.1 [ ]
swap_call-Fits (a ∷ b ∷ c ∷ []) h = (h.1.0, (h.0, h.1.1))
swap_call-Fits (a ∷ b ∷ c ∷ d ∷ r) h = elim h.1.1.1 [ ]

pub kept_aliases-All :
    (P : Row → Type 0) (b : IndexBuilder) → All P b.aliases → All P (kept_aliases b)
unfolding kept_aliases
kept_aliases-All P b h = All-sort_dedup P _ (All-select P _ b.aliases h)

pub tables_of-IsPackable :
    (b : IndexBuilder) → IsTyped b → length (tables_of b).blob < u64_mod → IsPackable (tables_of b)
unfolding tables_of
tables_of-IsPackable b h small =
    let typed = first_per_sym none (sort_dedup b.typed) in
    let sig = first_per_sym none (sort_dedup b.sig) in
    let typed_ok : All IsStringRow typed =
      All-first_per_sym _ none _ (All-sort_dedup _ b.typed h.typed) in
    let sig_ok : All IsStringRow sig = All-first_per_sym _ none _ (All-sort_dedup _ b.sig h.sig) in
    let aliases_ok : All IsStringRow (kept_aliases b) = kept_aliases-All _ b h.aliases in
    let syms_ok : All IsSymEntry (sort_by by_key b.syms) = All-sort_by _ by_key b.syms h.syms in
    let files_ok : All IsFileEntry (sort_by by_key b.files) =
      All-sort_by _ by_key b.files h.files in
    let inherits_ok = All-sort_dedup (Fits inh_row) b.inherits h.inherits in
    let calls_ok = All-sort_dedup (Fits call_row) b.calls h.calls in
    let (names_at, aliases_at, paths_at, typed_at, sig_at) =
      groups-IsPlace (map (λ (e : ℕ × SymInfo). clamp_blob_str e.1.name) (sort_by by_key b.syms))
        (map (λ r. clamp_blob_str (string_of r)) (kept_aliases b))
        (map (λ (e : ℕ × List ℕ). clamp_blob_str e.1) (sort_by by_key b.files))
        (map (λ r. clamp_blob_str (string_of r)) typed)
        (map (λ r. clamp_blob_str (string_of r)) sig) (clamped _ _) (clamped _ _) (clamped _ _)
        (clamped _ _) (clamped _ _) small in
    record {
      xrefs = All-sort_dedup (Fits xref_row) b.xrefs h.xrefs;
      syms =
          All-zip_with IsSymEntry IsPlace (Fits sym_row) _ _ _
            (λ a b' x y. (x.0, (x.1, (x.2, (y.0, (y.1, tt)))))) syms_ok names_at;
      names = All-sort_by _ _ _ (
          All-append _ _ _
            (All-zip_with IsSymEntry IsPlace (Fits name_row) _ _ _
              (λ a b' x y. (y.0, (y.1, (x.0, tt)))) syms_ok names_at)
            (All-zip_with IsStringRow IsPlace (Fits name_row) _ _ _
              (λ a b' x y. (y.0, (y.1, (x, tt)))) aliases_ok aliases_at));
      files =
          All-zip_with IsFileEntry IsPlace (Fits file_row) _ _ _ (λ a b' x y. (x, (y.0, (y.1, tt))))
            files_ok paths_at;
      inh = inherits_ok;
      inhrev =
          All-sort_unstable (Fits inh_row) _
            (All-of-map (Fits inh_row) swap_inh _ (All-map swap_inh-Fits _ inherits_ok));
      calls = calls_ok;
      crev =
          All-sort_unstable (Fits call_row) _
            (All-of-map (Fits call_row) swap_call _ (All-map swap_call-Fits _ calls_ok));
      typed =
          All-zip_with IsStringRow IsPlace (Fits type_row) _ _ _ (λ a b' x y. (x, (y.0, (y.1, tt))))
            typed_ok typed_at;
      childrev = All-sort_dedup (Fits inh_row) b.childof h.childof;
      sig =
          All-zip_with IsStringRow IsPlace (Fits type_row) _ _ _ (λ a b' x y. (x, (y.0, (y.1, tt))))
            sig_ok sig_at;
    }
