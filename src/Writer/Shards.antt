-- ===== src/Writer/Shards.antt =====
-- The shards of one compilation unit in writer.rs: file ids local to a shard, and a builder filled
-- from an index that was opened. `debug_assert` is left out.
use scry.Prelude.{ℕ, suc, ◌%◌, List, [], ◌∷◌, if◌then◌else◌, map, Option, some, none}
use Prim.Native.Nat.{compare}
use scry.Bytes.{u32_mod}
use scry.Kythe.Signature.{find}
use scry.Reader.Iter.{
  iter_xrefs, iter_syms, iter_files, iter_inherits, iter_calls, iter_aliases, iter_typed,
  iter_childrev, iter_sig,
}
use scry.Reader.{Index}
use scry.Run.{Run, done, ◌>>=◌}
use scry.Sorted.{Row, sort_by}
use scry.Text.{Unicode}
use scry.Text.Str.{same}
use scry.Writer.Builder.{
  IndexBuilder, sort_dedup, upsert, add_xref, upsert_sym, upsert_file, add_inherit, add_call,
  add_alias, add_type, add_childof, add_sig,
}
use scry.Writer.MergeByKey.{lookup}

-- The rank of a path among the distinct ones, a `u32`.
unfoldable pub rank_from : ℕ → List ℕ → List (List ℕ) → Option ℕ
unfolding same
rank_from i p [] = none
rank_from i p (q ∷ paths) =
    let rest = rank_from (suc i) p paths in if same q p then some (i % u32_mod) else rest

-- `local_of[p]`
unfoldable pub local_of : List (List ℕ) → List ℕ → Option ℕ
unfolding rank_from
local_of paths p = rank_from 0 p paths

abbrev pub local_id : List (List ℕ) → Option (List ℕ) → ℕ → ℕ
local_id paths none file = file
local_id paths (some p) file = elim (local_of paths p) [ some l ↦ l | none ↦ file ]

-- The id of a file in the shard; an id without a path stays.
unfoldable pub localized : List (List ℕ) → List (ℕ × List ℕ) → ℕ → ℕ
unfolding local_of lookup
localized paths files file = local_id paths (lookup file files) file

abbrev pub localize_row : (ℕ → ℕ) → Row → Row
localize_row f (s ∷ r ∷ file ∷ rest) = s ∷ r ∷ f file ∷ rest
localize_row f row = row

-- `drain().map(..).collect()` into a `HashMap`.
unfoldable pub collect_files : (ℕ → ℕ) → List (ℕ × List ℕ) → List (ℕ × List ℕ) → List (ℕ × List ℕ)
unfolding upsert
collect_files f [] m = m
collect_files f ((g, p) ∷ files) m = collect_files f files (upsert (f g) (λ q. p) p m)

unfoldable pub localize_file_ids : IndexBuilder → IndexBuilder × List (ℕ × List ℕ)
unfolding localized collect_files sort_by
localize_file_ids b =
    let paths = sort_dedup (map (λ f. f.1) b.files) in
    let local = localized paths b.files in
    let files = collect_files local b.files [] in
    (
      record b { xrefs = map (localize_row local) b.xrefs; files = files },
      sort_by (λ x y. compare x.0 y.0) files,
    )

-- `for row in rows { self.add(row) }`
unfoldable pub add_each {ℓ} :
    {A : Type ℓ} → (IndexBuilder → A → IndexBuilder) → List A → IndexBuilder → IndexBuilder
add_each add [] b = b
add_each add (x ∷ xs) b = add_each add xs (add b x)

module _ (u : Unicode) where
  -- Everything but files and references.
  unfoldable pub populate_rows : Index → IndexBuilder → Run IndexBuilder
  unfolding add_each add_inherit add_call add_alias add_type add_childof add_sig
  populate_rows ix b = do
    inherits ← iter_inherits ix
    calls ← iter_calls ix
    aliases ← iter_aliases ix
    typed ← iter_typed ix
    children ← iter_childrev ix
    sigs ← iter_sig ix
    done (
        add_each (λ b (sym, sig). add_sig b sym sig) sigs
          (add_each (λ b (parent, child). add_childof b child parent) children
            (add_each (λ b (sym, ty). add_type b sym ty) typed
              (add_each (λ b (sym, alias). add_alias b sym alias) aliases
                (add_each (λ b (caller, callee, role). add_call b caller callee role) calls
                  (add_each (λ b (child, parent). add_inherit b child parent) inherits b))))))

  unfoldable pub populate_from_index : Index → IndexBuilder → Run IndexBuilder
  unfolding add_each add_xref upsert_sym upsert_file populate_rows
  populate_from_index ix b = do
    xrefs ← iter_xrefs ix
    syms ← iter_syms ix
    files ← iter_files ix
    populate_rows ix (
        add_each (λ b (file, path). upsert_file b file path) files
          (add_each (λ b (sym, kind, lang, name). upsert_sym u b sym kind lang name) syms
            (add_each (λ b (sym, role, file, offset). add_xref b sym role file offset) xrefs b)))

  -- The global ids by path, as the seed has them: local id to global id.
  unfoldable pub local_to_global :
      List (List ℕ × ℕ) → List (ℕ × List ℕ) → List (ℕ × ℕ) → List (ℕ × ℕ)
  unfolding find upsert
  local_to_global global_of [] l2g = l2g
  local_to_global global_of ((local, path) ∷ files) l2g =
      local_to_global global_of files
        (elim (find path global_of) [ some g ↦ upsert local (λ _. g) g l2g | none ↦ l2g ])

  -- A row whose file has no global id is left out.
  unfoldable pub add_remapped_xref : List (ℕ × ℕ) → IndexBuilder → ℕ × ℕ × ℕ × ℕ → IndexBuilder
  unfolding lookup add_xref
  add_remapped_xref l2g b (sym, role, file, offset) = elim (lookup file l2g) [
    | some g ↦ add_xref b sym role g offset
    | none ↦ b
  ]

  unfoldable pub add_remapped_file : List (ℕ × ℕ) → IndexBuilder → ℕ × List ℕ → IndexBuilder
  unfolding lookup upsert_file
  add_remapped_file l2g b (local, path) = elim (lookup local l2g) [
    | some g ↦ upsert_file b g path
    | none ↦ b
  ]

  unfoldable pub populate_from_shard_remapped :
      Index → List (List ℕ × ℕ) → IndexBuilder → Run IndexBuilder
  unfolding local_to_global add_each add_remapped_xref add_remapped_file upsert_sym populate_rows
  populate_from_shard_remapped shard global_of b = do
    files ← iter_files shard
    xrefs ← iter_xrefs shard
    syms ← iter_syms shard
    let l2g = local_to_global global_of files []
    populate_rows shard (
        add_each (add_remapped_file l2g) files (
          add_each (λ b (sym, kind, lang, name). upsert_sym u b sym kind lang name) syms
            (add_each (add_remapped_xref l2g) xrefs b)))
