-- ===== src/Format/Rows.antt =====
-- Packed rows: a byte comparison is a comparison of the fields, and a subslice of a section is a
-- subslice of the row that it lies in.
use Prim.Native.Nat.{compare}
use scry.Prelude.{
  ℕ, zero, suc, ◌+◌, ◌-◌, ◌*◌, ◌^◌, ◌<◌, ◌≤◌, ◌≡◌, refl, arith, List, [], ◌∷◌, ◌++◌, length,
  length-append, length-drop, take, drop, some, get_elem?, All, ap, sym, ◌∙◌, leb, drop_behind,
  drop_within, take_within, take_all, Bool-cases, inl, inr,
}
use native.Mathlib.Nat.{zero-mul, zero-add}
use scry.Bytes.{to_be_bytes, cmp, then_order, slice, read_int}
use scry.Bytes.Order.{length-to_be_bytes, cmp-to_be_bytes, from_be_bytes-to_be_bytes}
use scry.Run.{done}
use scry.Format.{pack, table}

-- A row has the layout's fields, each within its width.
abbrev pub Fits : List ℕ → List ℕ → Type 0
Fits [] [] = Unit {0}
Fits (w ∷ ws) (x ∷ xs) = (x < 256 ^ w) × Fits ws xs
Fits [] (x ∷ xs) = ⊥
Fits (w ∷ ws) [] = ⊥

abbrev pub sum : List ℕ → ℕ
sum [] = 0
sum (w ∷ ws) = w + sum ws

-- Comparing the bytes of two rows compares their fields in order.
pub cmp-pack :
    (ws xs ys : List ℕ) → Fits ws xs → Fits ws ys → cmp (pack ws xs) (pack ws ys) ≡ cmp xs ys
unfolding pack cmp
cmp-pack [] [] [] hx hy = refl
cmp-pack [] [] (y ∷ ys) hx hy = elim hy [ ]
cmp-pack [] (x ∷ xs) ys hx hy = elim hx [ ]
cmp-pack (w ∷ ws) [] ys hx hy = elim hx [ ]
cmp-pack (w ∷ ws) (x ∷ xs) [] hx hy = elim hy [ ]
cmp-pack (w ∷ ws) (x ∷ xs) (y ∷ ys) (hx, hxs) (hy, hys) =
    cmp-to_be_bytes w x y (pack ws xs) (pack ws ys) hx hy
    ∙ ap (then_order (compare x y)) (cmp-pack ws xs ys hxs hys)

pub length-pack : (ws xs : List ℕ) → Fits ws xs → length (pack ws xs) ≡ sum ws
unfolding pack
length-pack [] xs h = refl
length-pack (w ∷ ws) [] h = elim h [ ]
length-pack (w ∷ ws) (x ∷ xs) (h, hs) = omega (
  arith,
  length-append (to_be_bytes w x) (pack ws xs),
  length-to_be_bytes w x,
  length-pack ws xs hs,
)

pub length-table :
    (ws : List ℕ) (rs : List (List ℕ))
    → All (Fits ws) rs
    → length (table ws rs) ≡ length rs * sum ws
unfolding table
length-table ws [] h = omega arith
length-table ws (r ∷ rs) (h, hs) =
    omega
      (arith, length-append (pack ws r) (table ws rs), length-pack ws r h, length-table ws rs hs)

-- A subslice behind a known front, and one that ends within it.
pub slice_behind :
    (xs ys : List ℕ) (a b : ℕ) → slice (xs ++ ys) (length xs + a) (length xs + b) ≡ slice ys a b
unfolding slice
slice_behind xs ys a b = ground (
  arith,
  length-append xs ys,
  drop_behind xs ys a,
  ap (λ (t : ℕ). take t (drop a ys))
      (let e : length xs + b - (length xs + a) ≡ b - a = omega arith in e),
)

pub slice_within : (xs ys : List ℕ) (a b : ℕ) → b ≤ length xs → slice (xs ++ ys) a b ≡ slice xs a b
unfolding slice
slice_within xs ys a b h = elim (Bool-cases (leb a b)) [
  | inl e ↦ ground (
    arith,
    length-append xs ys,
    drop_within xs ys a,
    take_within (drop a xs) ys (b - a),
    length-drop a xs,
  )
  | inr e ↦ rw e
]

pub slice_whole : (xs : List ℕ) (n : ℕ) → n ≡ length xs → slice xs 0 n ≡ done xs
unfolding slice
slice_whole xs n h =
    ground
      (arith, take_all xs n h, ap (λ (t : ℕ). take t xs) (let e : n - 0 ≡ n = omega arith in e))

pub slice_at :
    (xs ys zs : List ℕ) (off n : ℕ)
    → length xs ≡ off
    → n ≡ length ys
    → slice (xs ++ (ys ++ zs)) off (off + n) ≡ done ys
slice_at xs ys zs off n h k =
    let start : off ≡ length xs + 0 = omega arith in
    let end : off + n ≡ length xs + n = omega arith in
    rw (end, start)
      (slice_behind xs (ys ++ zs) 0 n ∙ slice_within ys zs 0 n (omega arith) ∙ slice_whole ys n k)

pub slice-table :
    (ws : List ℕ) (rs : List (List ℕ)) (i a b n : ℕ) {r : List ℕ}
    → All (Fits ws) rs
    → get_elem? rs i ≡ some r
    → n ≡ sum ws
    → b ≤ n
    → slice (table ws rs) (i * n + a) (i * n + b) ≡ slice (pack ws r) a b
unfolding table
slice-table ws [] i a b n h e hn hb = cc
slice-table ws (s ∷ rs) zero a b n {r} (h, hs) e hn hb =
    let same : s ≡ r = cc in
    rw (same, zero-mul, zero-add, zero-add)
      (slice_within (pack ws r) (table ws rs) a b (omega (arith, rw same at (length-pack ws s h))))
slice-table ws (s ∷ rs) (suc i) a b n {r} (h, hs) e hn hb =
    let skip : (c : ℕ) → suc i * n + c ≡ length (pack ws s) + (i * n + c) =
      λ c. omega (arith, length-pack ws s h) in
    rw (skip a, skip b)
      (slice_behind (pack ws s) (table ws rs) (i * n + a) (i * n + b)
        ∙ slice-table ws rs i a b n hs e hn hb)

-- Reading a field back.
pub read_int-pack_first :
    (w : ℕ) (ws : List ℕ) (x : ℕ) (xs : List ℕ)
    → x < 256 ^ w
    → read_int (pack (w ∷ ws) (x ∷ xs)) 0 w ≡ done x
unfolding pack
read_int-pack_first w ws x xs h =
    unfold read_int in
    rw (
      slice_within (to_be_bytes w x) (pack ws xs) 0 w (omega (arith, length-to_be_bytes w x)),
      slice_whole (to_be_bytes w x) w (sym (length-to_be_bytes w x)),
      from_be_bytes-to_be_bytes w x h,
    )

pub read_int-pack_later :
    (w : ℕ) (ws : List ℕ) (x : ℕ) (xs : List ℕ) (a b : ℕ)
    → read_int (pack (w ∷ ws) (x ∷ xs)) (w + a) (w + b) ≡ read_int (pack ws xs) a b
unfolding pack
read_int-pack_later w ws x xs a b =
    unfold read_int in
    rw (rw length-to_be_bytes at (slice_behind (to_be_bytes w x) (pack ws xs) a b))

pub read_int-table :
    (ws : List ℕ) (rs : List (List ℕ)) (i a b n : ℕ) {r : List ℕ}
    → All (Fits ws) rs
    → get_elem? rs i ≡ some r
    → n ≡ sum ws
    → b ≤ n
    → read_int (table ws rs) (i * n + a) (i * n + b) ≡ read_int (pack ws r) a b
read_int-table ws rs i a b n h e hn hb = unfold read_int in rw (slice-table ws rs i a b n h e hn hb)

pub read_int-table_first :
    (ws : List ℕ) (rs : List (List ℕ)) (i b n : ℕ) {r : List ℕ}
    → All (Fits ws) rs
    → get_elem? rs i ≡ some r
    → n ≡ sum ws
    → b ≤ n
    → read_int (table ws rs) (i * n) (i * n + b) ≡ read_int (pack ws r) 0 b
read_int-table_first ws rs i b n h e hn hb =
    let zero_end : i * n + 0 ≡ i * n = omega arith in
    rw zero_end at (read_int-table ws rs i 0 b n h e hn hb)
