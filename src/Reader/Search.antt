-- ===== src/Reader/Search.antt =====
-- The binary searches of reader.rs. Every query of the reader runs one of these two loops over the
-- row numbers of a section; they differ in how a row is read and compared. The fuel is the width
-- of the range, which each round shrinks.
use Prim.Native.Nat.{Ordering}
use scry.Prelude.{ℕ, zero, suc, ◌+◌, ◌*◌, ◌/◌, Bool, true, false, List, Option, some, none, ltb}
use scry.Bytes.{cmp, slice}
use scry.Sorted.{is_lt}
use scry.Run.{Run, done, stuck, ◌>>=◌}

-- `while lo < hi { mid = (lo + hi) / 2; if below(mid) { lo = mid + 1 } else { hi = mid } }; lo`
unfoldable pub lower_loop : ℕ → (ℕ → Run Bool) → ℕ → ℕ → Run ℕ
lower_loop zero below lo hi = elim (ltb lo hi) [ true ↦ stuck | false ↦ done lo ]
lower_loop (suc fuel) below lo hi = elim (ltb lo hi) [
  | true ↦ below ((lo + hi) / 2) >>= λ b. elim b [
    | true ↦ lower_loop fuel below ((lo + hi) / 2 + 1) hi
    | false ↦ lower_loop fuel below lo ((lo + hi) / 2)
  ]
  | false ↦ done lo
]

-- The same with `match row.cmp(..)`: `Equal` returns the row number at once.
unfoldable pub find_loop : ℕ → (ℕ → Run Ordering) → ℕ → ℕ → Run (Option ℕ)
find_loop zero order lo hi = elim (ltb lo hi) [ true ↦ stuck | false ↦ done none ]
find_loop (suc fuel) order lo hi = elim (ltb lo hi) [
  | true ↦ order ((lo + hi) / 2) >>= λ o. elim o [
    | Ordering.lt ↦ find_loop fuel order ((lo + hi) / 2 + 1) hi
    | Ordering.gt ↦ find_loop fuel order lo ((lo + hi) / 2)
    | Ordering.eq ↦ done (some ((lo + hi) / 2))
  ]
  | false ↦ done none
]

-- The comparison of `lower_bound` at a row.
unfoldable pub row_below : List ℕ → ℕ → List ℕ → ℕ → Run Bool
row_below t stride needle mid = do
  row ← slice t (mid * stride) ((mid + 1) * stride)
  done (is_lt (cmp row needle))

unfoldable pub lower_bound : List ℕ → ℕ → ℕ → List ℕ → Run ℕ
lower_bound t n stride needle = lower_loop n (row_below t stride needle) 0 n
