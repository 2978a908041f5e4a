-- ===== src/Reader/Names.antt =====
-- The queries over the alphabetical name index of reader.rs.
use scry.Prelude.{
  ℕ, zero, suc, ◌+◌, ◌-◌, ◌*◌, List, [], ◌∷◌, Bool, true, false, if◌then◌else◌, ltb, min, map,
  Option,
}
use scry.Bytes.{cmp, read_int}
use scry.Format.{name_len}
use scry.Run.{Run, done, stuck, ◌>>=◌}
use scry.Sorted.{field, is_eq, is_lt, sort_unstable, dedup}
use scry.Text.{starts_with}
use scry.Reader.{Index, section}
use scry.Reader.Search.{lower_loop, find_loop}
use scry.Reader.Lookup.{str_at, on_row}

unfoldable pub names_slice : Index → Run (List ℕ)
names_slice ix = section ix ix.hdr.names_off (ix.hdr.names_n * name_len)

-- The name and the symbol of a row.
unfoldable pub name_at : Index → List ℕ → ℕ → Run (List ℕ)
name_at ix names i = str_at ix names (i * name_len)

unfoldable pub sym_at : List ℕ → ℕ → Run ℕ
sym_at names i = read_int names (i * name_len + 10) (i * name_len + 18)

-- The symbol of the row that the search lands on.
unfoldable pub sym_for_name : Index → List ℕ → Run (Option ℕ)
sym_for_name ix query = do
  names ← names_slice ix
  on_row
      (find_loop ix.hdr.names_n (λ mid. do name ← name_at ix names mid; done (cmp name query)) 0
        ix.hdr.names_n)
      (sym_at names)

-- The first row whose name is not below the query.
unfoldable pub first_name : Index → List ℕ → List ℕ → Run ℕ
first_name ix names query =
    lower_loop ix.hdr.names_n (λ mid. do name ← name_at ix names mid; done (is_lt (cmp name query)))
      0 ix.hdr.names_n

-- `while i < n { if !matches(name(i)) { break }; out.push(item(i)); i += 1 }`
unfoldable pub walk {ℓ} : {B : Type ℓ} → ℕ → ℕ → ℕ → (ℕ → Run Bool) → (ℕ → Run B) → Run (List B)
walk zero i n matches item = if ltb i n then stuck else done []
walk (suc rounds) i n matches item =
    let rest = walk rounds (suc i) n matches item in
    let next = matches i >>= λ m. elim m [
      | false ↦ done []
      | true ↦ item i >>= λ x. rest >>= λ xs. done (x ∷ xs)
    ] in
    if ltb i n then next else done []

-- `out.sort_unstable(); out.dedup()` on numbers, as rows of one field.
unfoldable pub sort_dedup_syms : List ℕ → List ℕ
sort_dedup_syms syms = map (field 0) (dedup (sort_unstable (map (λ s. s ∷ []) syms)))

unfoldable pub syms_for_name : Index → List ℕ → Run (List ℕ)
syms_for_name ix query = do
  names ← names_slice ix
  lo ← first_name ix names query
  out ←
      walk (ix.hdr.names_n - lo) lo ix.hdr.names_n
        (λ i. do name ← name_at ix names i; done (is_eq (cmp name query))) (sym_at names)
  done (sort_dedup_syms out)

-- At most `limit` rows, each with its name: the walk ends where either runs out.
unfoldable pub names_with_prefix : Index → List ℕ → ℕ → Run (List (List ℕ × ℕ))
names_with_prefix ix prefix limit = do
  names ← names_slice ix
  lo ← first_name ix names prefix
  walk (ix.hdr.names_n - lo) lo (min ix.hdr.names_n (lo + limit))
      (λ i. do name ← name_at ix names i; done (starts_with name prefix))
      (λ i. do name ← name_at ix names i; sym ← sym_at names i; done (name, sym))
