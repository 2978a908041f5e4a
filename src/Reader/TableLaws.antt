-- ===== src/Reader/TableLaws.antt =====
-- A range query on a packed, sorted section returns the fields of exactly the rows in its range.
use Prim.Native.Nat.{Ordering}
use scry.Prelude.{
  ℕ, zero, suc, ◌+◌, ◌-◌, ◌*◌, ◌<◌, ◌≤◌, ◌≡◌, ◌≢◌, refl, sym, arith, true, List, [], ◌∷◌, some, ltb,
  ◌==◌, length, get_elem?, All, take, drop, select, not, ◌&&◌, map, ap, ◌∙◌, All-get_elem?, All-map,
  All_of, le→leb, drop_next, select_congr,
}
use scry.Bytes.{cmp, slice, u64_mod}
use scry.Format.{pack, table}
use scry.Format.Rows.{Fits, sum, cmp-pack, length-pack, slice-table, slice_whole}
use scry.Run.{Run, done}
use scry.Sorted.{Row, Le, IsSorted, count_while, row_lt, is_lt, field}
use scry.Sorted.Prefix.{
  row_lt_mono, row_lt-IsSplit, count_while_mono, count_while-get_elem?, count_while-le,
  take-drop-count_while,
}
use scry.Reader.Search.{lower_bound, row_below}
use scry.Reader.SearchLaws.{lower_loop_lem}
use scry.Reader.Table.{collect, capacity, start_key, key_range}
use native.Mathlib.Nat.{one-le-pow, mod-eq_of_lt}

module _ (ws : List ℕ) (n : ℕ) (rs : List Row) (hn : n ≡ sum ws) (fits : All (Fits ws) rs) where
  row_below-table :
      (key : Row) (i : ℕ) {r : Row}
      → Fits ws key
      → get_elem? rs i ≡ some r
      → row_below (table ws rs) n (pack ws key) i ≡ done (row_lt r key)
  unfolding row_below
  row_below-table key i {r} hk e =
      rw
        (
          row_slice,
          slice_whole (pack ws r) n
              (hn ∙ sym (length-pack ws r (All-get_elem? (Fits ws) rs i fits e))),
        )
        (ap (λ o. done (is_lt o)) (cmp-pack ws r key (All-get_elem? (Fits ws) rs i fits e) hk))
    where
      first : (i : ℕ) → i * n + 0 ≡ i * n
      first i = omega arith

      last : (i : ℕ) → i * n + n ≡ (i + 1) * n
      last i = omega arith

      row_slice : slice (table ws rs) (i * n) ((i + 1) * n) ≡ slice (pack ws r) 0 n
      row_slice = rw (first, last) at (slice-table ws rs i 0 n n fits e hn (omega arith))

  -- The lower bound of a packed key is the number of rows below it.
  pub lower_bound-table :
      (key : Row)
      → Fits ws key
      → IsSorted rs
      → lower_bound (table ws rs) (length rs) n (pack ws key)
        ≡ done (count_while (λ r. row_lt r key) rs)
  unfolding lower_bound
  lower_bound-table key hk s =
      lower_loop_lem _ (length rs) _ 0 (length rs)
        (λ i h.
          let (r, e, _) = drop_next rs i h in
          row_below-table key i hk e
          ∙ ap done (count_while-get_elem? (λ r. row_lt r key) rs i (row_lt-IsSplit key rs s) e))
        (omega arith) (count_while-le _ rs) (omega arith)

-- Reading the rows from `lo` on, with a reader that is right on each row.
pub collect-rows {ℓ} :
    {B : Type ℓ} (rs : List Row) (read : ℕ → Run B) (field : Row → B)
    → ((i : ℕ) (r : Row) → get_elem? rs i ≡ some r → read i ≡ done (field r))
    → (m lo : ℕ) → lo + m ≤ length rs
    → collect m lo read ≡ done (map field (take m (drop lo rs)))
unfolding collect
collect-rows rs read field ok zero lo h = refl
collect-rows {B = B} rs read field ok (suc m) lo h =
    let (r, e, split) = drop_next rs lo (omega arith) in
    rw (ok lo r e, collect-rows rs read field ok m (suc lo) (omega arith), split)

-- The rows of `rs` from the first that is not below `lo` up to the first not below `hi`.
abbrev pub between : Row → Row → List Row → List Row
between lo hi rs = select (λ r. row_lt r hi && not (row_lt r lo)) rs

module _ (rs : List Row) (s : IsSorted rs) (lo hi : Row) (le : Le lo hi) where
  abbrev low : ℕ
  low = count_while (λ r. row_lt r lo) rs

  abbrev high : ℕ
  high = count_while (λ r. row_lt r hi) rs

  low_lt_high : All (λ r. row_lt r lo ≡ true → row_lt r hi ≡ true) rs
  low_lt_high = All_of _ (λ r. row_lt_mono lo hi r le) rs

  pub low-le-high : low ≤ high
  low-le-high = count_while_mono (λ r. row_lt r lo) (λ r. row_lt r hi) rs low_lt_high

  -- The walk between the lower bounds of two keys.
  pub collect-between {ℓ} :
      {B : Type ℓ} (read : ℕ → Run B) (out : Row → B)
      → ((i : ℕ) (r : Row) → get_elem? rs i ≡ some r → read i ≡ done (out r))
      → collect (high - low) low read ≡ done (map out (between lo hi rs))
  collect-between read out ok =
      collect-rows rs read out ok (high - low) low
        (omega (arith, low-le-high, count_while-le (λ r. row_lt r hi) rs))
      ∙ ap (λ t. done (map out t))
          (take-drop-count_while (λ r. row_lt r lo) (λ r. row_lt r hi) rs (row_lt-IsSplit lo rs s)
            (row_lt-IsSplit hi rs s) low_lt_high)

-- A key followed by the least values of the other fields.
abbrev pub zeros : List ℕ → List ℕ
zeros [] = []
zeros (w ∷ ws) = 0 ∷ zeros ws

pub zeros-Fits : (ws : List ℕ) → Fits ws (zeros ws)
zeros-Fits [] = tt
zeros-Fits (w ∷ ws) = (one-le-pow w 256 (omega arith), zeros-Fits ws)

pub zeros_least : (ws xs : List ℕ) → Fits ws xs → cmp xs (zeros ws) ≢ Ordering.lt
unfolding cmp
zeros_least [] [] h e = cc
zeros_least [] (x ∷ xs) h e = elim h [ ]
zeros_least (w ∷ ws) [] h e = elim h [ ]
zeros_least (w ∷ ws) (x ∷ xs) h e = ground (arith, zeros_least ws xs h.1)

row_lt_key :
    (ws : List ℕ) (x key : ℕ) (xs : List ℕ)
    → Fits ws xs
    → row_lt (x ∷ xs) (key ∷ zeros ws) ≡ ltb x key
unfolding cmp
row_lt_key ws x key xs h = ground (arith, zeros_least ws xs h)

has_key :
    (ws : List ℕ) (key : ℕ) (r : Row)
    → Fits (8 ∷ ws) r
    → (row_lt r ((key + 1) ∷ zeros ws) && not (row_lt r (key ∷ zeros ws))) ≡ (field 0 r == key)
has_key ws key [] h = elim h [ ]
has_key ws key (x ∷ xs) h =
    rw (row_lt_key ws x key xs h.1, row_lt_key ws x (key + 1) xs h.1) (ground arith)

key-Le : (ws : List ℕ) (key : ℕ) → Le (key ∷ zeros ws) ((key + 1) ∷ zeros ws)
unfolding cmp
key-Le ws key = ground arith

module _ (ws : List ℕ) (n : ℕ) (rs : List Row) (hn : n ≡ sum (8 ∷ ws))
    (start : (key : ℕ) → start_key n key ≡ pack (8 ∷ ws) (key ∷ zeros ws))
    (fits : All (Fits (8 ∷ ws)) rs) (s : IsSorted rs) where
  pub start-lower_bound :
      (key : ℕ)
      → key < u64_mod
      → lower_bound (table (8 ∷ ws) rs) (length rs) n (start_key n key)
        ≡ done (count_while (λ r. row_lt r (key ∷ zeros ws)) rs)
  start-lower_bound key h =
      rw (start key) (lower_bound-table (8 ∷ ws) n rs hn fits (key ∷ zeros ws) (h, zeros-Fits ws) s)

  -- A range query returns the rows with the key, in order.
  pub key_range-table {ℓ} :
      {B : Type ℓ} (key : ℕ) (read : ℕ → Run B) (out : Row → B)
      → key + 1 < u64_mod
      → ((i : ℕ) (r : Row) → get_elem? rs i ≡ some r → read i ≡ done (out r))
      → key_range (table (8 ∷ ws) rs) (length rs) n key read
        ≡ done (map out (select (λ r. field 0 r == key) rs))
  unfolding key_range capacity
  key_range-table key read out h ok =
      rw
        (
          start-lower_bound key (omega arith),
          mod-eq_of_lt h,
          start-lower_bound (key + 1) h,
          le→leb _ _ (low-le-high rs s (key ∷ zeros ws) ((key + 1) ∷ zeros ws) (key-Le ws key)),
          ← select_congr _ _ rs (All-map (has_key ws key) rs fits),
        )
        (collect-between rs s (key ∷ zeros ws) ((key + 1) ∷ zeros ws) (key-Le ws key) read out ok)
