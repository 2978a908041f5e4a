-- ===== src/Reader/LookupLaws.antt =====
-- A point lookup on a packed section finds the row with the key when there is one.
use Prim.Native.Nat.{Ordering, compare}
use scry.Prelude.{
  ℕ, zero, suc, ◌+◌, ◌*◌, ◌^◌, ◌<◌, ◌≤◌, ◌≡◌, ◌≢◌, refl, sym, arith, List, [], ◌∷◌, ◌++◌, Option,
  none, some, length, get_elem?, All, ap, ◌∙◌, All-get_elem?, All-map, drop_next,
}
use mathlib.Core.List.{append-nil}
use native.Mathlib.Decide.{dec_lt}
use scry.Bytes.{cmp, slice, to_be_bytes}
use scry.Bytes.Order.{cmp-to_be_bytes, length-to_be_bytes}
use scry.Format.{pack, table}
use scry.Format.Rows.{Fits, sum, slice-table, slice_within, slice_whole}
use scry.Run.{Run, done, panic, stuck}
use scry.Sorted.{Row, field}
use scry.Reader.SearchLaws.{Finds, IsMonotone, find_loop-Finds}
use scry.Reader.Lookup.{key_order, find_row}

-- The first fields ascend.
abbrev pub IsKeyed : List Row → Type 0
IsKeyed [] = Unit {0}
IsKeyed (x ∷ xs) = All (λ y. field 0 x < field 0 y) xs × IsKeyed xs

-- The row with a key.
unfoldable pub row_with : ℕ → List Row → Option Row
row_with k [] = none
row_with k (r ∷ rs) = elim (compare (field 0 r) k) [ Ordering.eq ↦ some r | _ ↦ row_with k rs ]

-- How the key of a row compares; behind the last row every key is greater.
order_at : List Row → ℕ → ℕ → Ordering
order_at [] key i = Ordering.gt
order_at (r ∷ rs) key zero = compare (field 0 r) key
order_at (r ∷ rs) key (suc i) = order_at rs key i

order_above :
    (rs : List Row) (key i : ℕ) → All (λ y. key ≤ field 0 y) rs → order_at rs key i ≢ Ordering.lt
unfolding order_at
order_above [] key i h e = cc
order_above (r ∷ rs) key zero h e = ground arith
order_above (r ∷ rs) key (suc i) h e = order_above rs key i h.1 e

order_greater_all :
    (rs : List Row) (key i : ℕ) → All (λ y. key < field 0 y) rs → order_at rs key i ≡ Ordering.gt
unfolding order_at
order_greater_all [] key i h = refl
order_greater_all (r ∷ rs) key zero h = ground arith
order_greater_all (r ∷ rs) key (suc i) h = order_greater_all rs key i h.1

order_less :
    (rs : List Row) (key m i : ℕ)
    → IsKeyed rs
    → i ≤ m
    → order_at rs key m ≡ Ordering.lt
    → order_at rs key i ≡ Ordering.lt
unfolding order_at
order_less [] key m i s h e = cc
order_less (r ∷ rs) key zero zero s h e = e
order_less (r ∷ rs) key zero (suc i) s h e = absurd (omega arith)
order_less (r ∷ rs) key (suc m) (suc i) s h e = order_less rs key m i s.1 (omega arith) e
order_less (r ∷ rs) key (suc m) zero s h e = elim (dec_lt (field 0 r) key) [
  | yes below ↦ ground arith
  | no above ↦ absurd (order_above rs key m (All-map (λ y g. omega arith) rs s.0) e)
]

order_greater :
    (rs : List Row) (key m i : ℕ)
    → IsKeyed rs
    → m ≤ i
    → order_at rs key m ≡ Ordering.gt
    → order_at rs key i ≡ Ordering.gt
unfolding order_at
order_greater [] key m i s h e = refl
order_greater (r ∷ rs) key zero zero s h e = e
order_greater (r ∷ rs) key (suc m) zero s h e = absurd (omega arith)
order_greater (r ∷ rs) key (suc m) (suc i) s h e = order_greater rs key m i s.1 (omega arith) e
order_greater (r ∷ rs) key zero (suc i) s h e =
    let above : key < field 0 r = ground arith in
    order_greater_all rs key i (All-map (λ y g. omega arith) rs s.0)

order-IsMonotone : (rs : List Row) (key : ℕ) → IsKeyed rs → IsMonotone (order_at rs key)
order-IsMonotone rs key s = record {
  less = λ m i h e. order_less rs key m i s h e;
  greater = λ m i h e. order_greater rs key m i s h e;
}

-- At the row that compares equal stands the row with the key, and without one there is none.
row_with-absent : (k : ℕ) (rs : List Row) → All (λ y. k < field 0 y) rs → row_with k rs ≡ none
unfolding row_with
row_with-absent k [] h = refl
row_with-absent k (r ∷ rs) h = ground (arith, row_with-absent k rs h.1)

row_with-key : (k : ℕ) (rs : List Row) {r : Row} → row_with k rs ≡ some r → field 0 r ≡ k
unfolding row_with
row_with-key k [] e = cc
row_with-key k (x ∷ xs) {r} e = ground (arith, row_with-key k xs {r = r})

row_with-found :
    (rs : List Row) (key i : ℕ)
    → IsKeyed rs
    → order_at rs key i ≡ Ordering.eq
    → (r : Row) × (get_elem? rs i ≡ some r) × (row_with key rs ≡ some r)
unfolding order_at row_with
row_with-found [] key i s e = cc
row_with-found (r ∷ rs) key zero s e = (r, refl, ground arith)
row_with-found (r ∷ rs) key (suc i) s e =
    let (x, at_i, found) = row_with-found rs key i s.1 e in
    let above : field 0 r < field 0 x = All-get_elem? (λ y. field 0 r < field 0 y) rs i s.0 at_i in
    let same : field 0 x ≡ key = row_with-key key rs found in (x, at_i, ground arith)

row_with-none :
    (rs : List Row) (key : ℕ)
    → ((i : ℕ) → i < length rs → order_at rs key i ≢ Ordering.eq)
    → row_with key rs ≡ none
unfolding order_at row_with
row_with-none [] key h = refl
row_with-none (r ∷ rs) key h =
    ground (arith, h 0 (omega arith), row_with-none rs key (λ i g. h (suc i) (omega arith)))

order_at-row :
    (rs : List Row) (key i : ℕ) {r : Row}
    → get_elem? rs i ≡ some r
    → order_at rs key i ≡ compare (field 0 r) key
unfolding order_at
order_at-row [] key i e = cc
order_at-row (x ∷ xs) key zero e = cc
order_at-row (x ∷ xs) key (suc i) e = order_at-row xs key i e

cmp_keys :
    (w a b : ℕ) → a < 256 ^ w → b < 256 ^ w → cmp (to_be_bytes w a) (to_be_bytes w b) ≡ compare a b
unfolding cmp
cmp_keys w a b ha hb =
    ap (λ l. cmp l (to_be_bytes w b)) (sym (append-nil (to_be_bytes w a)))
    ∙ ap (λ l. cmp (to_be_bytes w a ++ []) l) (sym (append-nil (to_be_bytes w b)))
    ∙ cmp-to_be_bytes w a b [] [] ha hb
    ∙ ground arith

-- The outcome of a lookup: the row number and the row, or no row.
abbrev pub Looked : List Row → ℕ → Run (Option ℕ) → Type 0
Looked rs key (done (some i)) = (r : Row) × (get_elem? rs i ≡ some r) × (row_with key rs ≡ some r)
Looked rs key (done none) = row_with key rs ≡ none
Looked rs key panic = ⊥
Looked rs key stuck = ⊥

module _ (w : ℕ) (ws : List ℕ) (n : ℕ) (rs : List Row) (hn : n ≡ sum (w ∷ ws))
    (fits : All (Fits (w ∷ ws)) rs) (s : IsKeyed rs) where
  row_key :
      (i : ℕ) (r : Row)
      → get_elem? rs i ≡ some r
      → Fits (w ∷ ws) r
      → (slice (table (w ∷ ws) rs) (i * n) (i * n + w) ≡ done (to_be_bytes w (field 0 r)))
        × (field 0 r < 256 ^ w)
  unfolding pack
  row_key i [] e f = elim f [ ]
  row_key i (x ∷ xs) e f =
      let start : i * n + 0 ≡ i * n = omega arith in
      (
        rw start at (slice-table (w ∷ ws) rs i 0 w n fits e hn (omega arith))
            ∙ slice_within (to_be_bytes w x) (pack ws xs) 0 w
                (omega (arith, length-to_be_bytes w x))
            ∙ slice_whole (to_be_bytes w x) w (sym (length-to_be_bytes w x)),
        f.0,
      )

  key_order-table :
      (key i : ℕ) {r : Row}
      → key < 256 ^ w
      → get_elem? rs i ≡ some r
      → key_order (table (w ∷ ws) rs) n w (to_be_bytes w key) i ≡ done (order_at rs key i)
  unfolding key_order
  key_order-table key i {r} hk e =
      let (bytes, small) = row_key i r e (All-get_elem? (Fits (w ∷ ws)) rs i fits e) in
      rw (bytes, order_at-row rs key i e) (ap done (cmp_keys w (field 0 r) key small hk))

  pub find_row-Looked :
      (key : ℕ) → key < 256 ^ w → Looked rs key (find_row (table (w ∷ ws) rs) (length rs) n w key)
  unfolding find_row
  find_row-Looked key hk = Looked_of _ (
      find_loop-Finds (order_at rs key) (length rs) _ 0 (length rs) (order-IsMonotone rs key s)
        (λ i h. let (r, e, _) = drop_next rs i h in key_order-table key i hk e) (omega arith))
    where
      Looked_of : (r : Run (Option ℕ)) → Finds (order_at rs key) 0 (length rs) r → Looked rs key r
      Looked_of (done (some i)) h = row_with-found rs key i s h.2
      Looked_of (done none) h = row_with-none rs key (λ i g. h i (omega arith) g)
      Looked_of panic h = elim h [ ]
      Looked_of stuck h = elim h [ ]
