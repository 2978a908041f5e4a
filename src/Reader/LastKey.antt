-- ===== src/Reader/LastKey.antt =====
-- The end of the range behind the last 64-bit key wraps around to key 0.
use scry.Prelude.{
  ℕ, ◌+◌, ◌-◌, ◌%◌, ◌<◌, ◌≡◌, refl, arith, List, [], ◌∷◌, Bool, true, false, All, length, leb,
}
use scry.Bytes.{cmp, u64_mod}
use scry.Format.{table, inh_row, call_row}
use scry.Format.Rows.{Fits, sum}
use scry.Run.{Run, panic}
use scry.Sorted.{Row, IsSorted, count_while, row_lt, mem_row}
use scry.Sorted.Compare.{eq_of_cmp}
use scry.Sorted.Prefix.{IsSplit, row_lt-IsSplit}
use scry.Reader.Table.{key_range, capacity, start_key, inh_range, call_range}
use scry.Reader.TableLaws.{start-lower_bound, zeros, zeros_least}
use scry.Reader.RangeLaws.{start_inh, start_call}
use scry.Format.{pack}

mem-false :
    (p : Row → Bool) (x : Row) (ys : List Row)
    → All (λ y. p y ≡ false) ys
    → mem_row x ys ≡ true
    → p x ≡ false
unfolding mem_row
mem-false p x [] h m = absurd (ground arith)
mem-false p x (y ∷ ys) h m = ground (arith, mem-false p x ys h.1, eq_of_cmp x y)

-- A test that accepts some row accepts the first.
count_while-mem :
    (p : Row → Bool) (x : Row) (ys : List Row)
    → IsSplit p ys
    → mem_row x ys ≡ true
    → p x ≡ true
    → 0 < count_while p ys
unfolding mem_row count_while
count_while-mem p x [] s m e = absurd (ground arith)
count_while-mem p x (y ∷ ys) s m e =
    ground (arith, eq_of_cmp x y, λ (n : p y ≡ false). mem-false p x ys (s.0 n))

none_below_zero :
    (ws : List ℕ) (rs : List Row)
    → All (Fits (8 ∷ ws)) rs
    → count_while (λ r. row_lt r (0 ∷ zeros ws)) rs ≡ 0
unfolding count_while
none_below_zero ws [] h = refl
none_below_zero ws (r ∷ rs) h = ground (arith, zeros_least (8 ∷ ws) r h.0)

not_le : (m : ℕ) → 0 < m → leb m 0 ≡ false
not_le m h = ground arith

module _ (ws : List ℕ) (n : ℕ) (rs : List Row) (hn : n ≡ sum (8 ∷ ws))
    (start : (key : ℕ) → start_key n key ≡ pack (8 ∷ ws) (key ∷ zeros ws))
    (fits : All (Fits (8 ∷ ws)) rs) (s : IsSorted rs) where
  key_range-last {ℓ} :
      {B : Type ℓ} (read : ℕ → Run B) (x : Row)
      → mem_row x rs ≡ true
      → row_lt x ((u64_mod - 1) ∷ zeros ws) ≡ true
      → key_range (table (8 ∷ ws) rs) (length rs) n (u64_mod - 1) read ≡ panic
  unfolding key_range capacity
  key_range-last read x m e =
      let some_below =
        count_while-mem (λ r. row_lt r ((u64_mod - 1) ∷ zeros ws)) x rs (row_lt-IsSplit _ rs s) m
          e in
      let wrap : (u64_mod - 1 + 1) % u64_mod ≡ 0 = refl in
      let below : leb (count_while (λ r. row_lt r ((u64_mod - 1) ∷ zeros ws)) rs) 0 ≡ false =
        not_le _ some_below in
      rw (
        start-lower_bound ws n rs hn start fits s (u64_mod - 1) (omega arith),
        start-lower_bound ws n rs hn start fits s 0 (omega arith),
        none_below_zero ws rs fits,
        below,
      )

below_last : (x : ℕ) (ws r : Row) → x < u64_mod - 1 → row_lt (x ∷ r) ((u64_mod - 1) ∷ ws) ≡ true
unfolding cmp
below_last x ws r h = ground arith

-- The query for the key 2^64 - 1 panics when a row has a smaller key.
pub inh_range-last :
    (rs : List Row)
    → All (Fits inh_row) rs
    → IsSorted rs
    → (x y : ℕ) → mem_row (x ∷ y ∷ []) rs ≡ true
    → x < u64_mod - 1
    → inh_range (table inh_row rs) (length rs) (u64_mod - 1) ≡ panic
unfolding inh_range
inh_range-last rs fits s x y m h =
    key_range-last (8 ∷ []) 16 rs refl (start_inh rs fits s) fits s _ (x ∷ y ∷ []) m
      (below_last x (0 ∷ []) (y ∷ []) h)

pub call_range-last :
    (rs : List Row)
    → All (Fits call_row) rs
    → IsSorted rs
    → (x y z : ℕ) → mem_row (x ∷ y ∷ z ∷ []) rs ≡ true
    → x < u64_mod - 1
    → call_range (table call_row rs) (length rs) (u64_mod - 1) ≡ panic
unfolding call_range
call_range-last rs fits s x y z m h =
    key_range-last (8 ∷ 1 ∷ []) 17 rs refl (start_call rs fits s) fits s _ (x ∷ y ∷ z ∷ []) m
      (below_last x (0 ∷ 0 ∷ []) (y ∷ z ∷ []) h)
