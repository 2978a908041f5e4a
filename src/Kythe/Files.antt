-- ===== src/Kythe/Files.antt =====
-- `FileIdAllocator` of kythe.rs: the ids of file paths. The mutex makes each operation one step.
use scry.Prelude.{
  ℕ, ◌+◌, ◌%◌, List, [], ◌∷◌, ◌++◌, Bool, true, false, leb, if◌then◌else◌, Option, some, none,
}
use scry.Bytes.{u32_mod}
use scry.Kythe.Signature.{find, put, put_new}
use scry.Writer.Builder.{IndexBuilder, upsert_file}

-- An id, and whether the path was interned.
pub record Slot : Type 0 where
  pub id : ℕ
  pub accessed : Bool

-- `AllocState`: the table, and the next id to hand out.
pub record AllocState : Type 0 where
  pub table : List (List ℕ × Slot)
  pub next : ℕ

abbrev pub new_files : AllocState
new_files = record { table = []; next = 0 }

-- A fresh path at the end of the table; the counter is a `u32`.
unfoldable pub add_path : Bool → List ℕ → AllocState → AllocState
add_path accessed path g = record {
  table = g.table ++ ((path, record { id = g.next; accessed = accessed }) ∷ []);
  next = (g.next + 1) % u32_mod;
}

-- `entry(path)`, occupied or vacant: the slot that was there, or the next id.
unfoldable pub intern_at : List ℕ → AllocState → Option Slot → AllocState × ℕ
unfolding put add_path
intern_at path g (some e) =
    (record g { table = put path (record { id = e.id; accessed = true }) g.table }, e.id)
intern_at path g none = (add_path true path g, g.next)

unfoldable pub intern : List ℕ → AllocState → AllocState × ℕ
unfolding find intern_at
intern path g = intern_at path g (find path g.table)

unfoldable pub seed_paths : List (List ℕ) → AllocState → AllocState
unfolding find add_path
seed_paths [] g = g
seed_paths (path ∷ paths) g =
    seed_paths paths (elim (find path g.table) [ some e ↦ g | none ↦ add_path false path g ])

-- The rows of an earlier index, as `iter_files` yields them.
unfoldable pub seed_from : List (ℕ × List ℕ) → AllocState → AllocState
unfolding put_new
seed_from [] g = g
seed_from ((id, path) ∷ rows) g = seed_from rows (record {
  table = put_new path (record { id = id; accessed = false }) g.table;
  next = if leb g.next id then (id + 1) % u32_mod else g.next;
})

-- `push_to` and `drain_into`: the interned paths go into the builder.
unfoldable pub push_rows : List (List ℕ × Slot) → IndexBuilder → IndexBuilder
push_rows [] b = b
push_rows ((path, e) ∷ rows) b = push_rows rows (if e.accessed then upsert_file b e.id path else b)

unfoldable pub push_to : AllocState → IndexBuilder → IndexBuilder
unfolding push_rows
push_to g b = push_rows g.table b
