-- ===== src/Format/VarintLaws.antt =====
-- Reading back what `write_varint` wrote, and its length.
use Prim.Native.Nat.{bit_or}
use scry.Prelude.{
  ℕ, zero, suc, ◌+◌, ◌*◌, ◌/◌, ◌%◌, ◌^◌, ◌≤◌, ◌<◌, ◌≡◌, refl, arith, List, [], ◌∷◌, ◌++◌, leb,
  if◌then◌else◌, length, length-append, drop-append, ap,
}
use mathlib.Core.List.{append_assoc}
use native.Mathlib.Nat.{mod-eq_of_lt}
use native.Mathlib.Numerals.{towards_suc}
use scry.Bits.{bit_or-top, bit_and-low, bit_and-top, bit_or-shifted}
use scry.Bytes.{u32_mod}
use scry.Run.{done}
use scry.Format.Varint.{
  write_varint_loop, write_varint, varint_len_loop, varint_len, read_varint_loop, read_varint,
}

-- The groups of seven bits of `v`, lowest first, for `v` below 128 ^ (k + 1).
unfoldable pub groups : ℕ → ℕ → List ℕ
groups zero v = v ∷ []
groups (suc k) v =
    let rest = groups k (v / 128) in if leb 0x80 v then (v % 128 + 128) ∷ rest else v ∷ []

write_varint_loop-groups :
    (k rounds : ℕ) (out : List ℕ) (v : ℕ)
    → v < 128 ^ suc k
    → v ≤ rounds
    → write_varint_loop rounds out v ≡ out ++ groups k v
unfolding write_varint_loop groups
write_varint_loop-groups zero zero out v h r = ground arith
write_varint_loop-groups zero (suc rounds) out v h r = ground arith
write_varint_loop-groups (suc k) zero out v h r = ground arith
write_varint_loop-groups (suc k) (suc rounds) out v h r = ground (
  arith,
  bit_or-top (v % 256),
  write_varint_loop-groups k rounds (out ++ (bit_or (v % 256) 0x80 ∷ [])) (v / 128),
  append_assoc out ((v % 128 + 128) ∷ []) (groups k (v / 128)),
)

-- On a `u32` five groups are enough, and they go behind what is there.
pub write_varint-groups :
    (out : List ℕ) (v : ℕ) → v < u32_mod → write_varint out v ≡ out ++ groups 4 v
unfolding write_varint
write_varint-groups out v h = write_varint_loop-groups 4 v out v (omega arith) (omega arith)

varint_len_loop-groups :
    (k rounds v n : ℕ)
    → v < 128 ^ suc k
    → v ≤ rounds
    → varint_len_loop rounds v (suc n) ≡ n + length (groups k v)
unfolding varint_len_loop groups
varint_len_loop-groups zero zero v n h r = ground arith
varint_len_loop-groups zero (suc rounds) v n h r = ground arith
varint_len_loop-groups (suc k) zero v n h r = ground arith
varint_len_loop-groups (suc k) (suc rounds) v n h r = ground (
  arith,
  ap (λ (t : ℕ). varint_len_loop rounds (v / 128) t) (suc_one n),
  varint_len_loop-groups k rounds (v / 128) (suc n),
)
  where
    suc_one : (n : ℕ) → suc n + 1 ≡ suc (suc n)
    suc_one n = omega arith

pub varint_len-groups : (v : ℕ) → v < u32_mod → varint_len v ≡ length (groups 4 v)
unfolding varint_len
varint_len-groups v h = omega (arith, varint_len_loop-groups 4 v v 0 (omega arith) (omega arith))

last_byte :
    (w acc shift used : ℕ) (rest : List ℕ)
    → w < 128
    → acc < 2 ^ shift
    → shift < 32
    → acc + w * 2 ^ shift < u32_mod
    → read_varint_loop (w ∷ rest) acc shift used ≡ done (acc + w * 2 ^ shift, used + 1)
unfolding read_varint_loop
last_byte w acc shift used rest hw ha hs fits = ground (
  arith,
  bit_and-low w,
  bit_and-top w,
  mod-eq_of_lt hs,
  ap (λ (t : ℕ). w % 128 * 2 ^ t) (mod-eq_of_lt hs),
  bit_or-shifted shift acc w ha,
)

inner_byte :
    (g acc shift used : ℕ) (rest : List ℕ)
    → g < 128
    → acc < 2 ^ shift
    → shift < 32
    → acc + g * 2 ^ shift < u32_mod
    → read_varint_loop ((g + 128) ∷ rest) acc shift used
      ≡ read_varint_loop rest (acc + g * 2 ^ shift) (shift + 7) (used + 1)
unfolding read_varint_loop
inner_byte g acc shift used rest hg ha hs fits = ground (
  arith,
  bit_and-low (g + 128),
  bit_and-top (g + 128),
  ap (λ (t : ℕ). g * 2 ^ t) (mod-eq_of_lt hs),
  bit_or-shifted shift acc g ha,
  mod-eq_of_lt (let e : shift + 7 < u32_mod = omega arith in e),
)

-- Seven bits further on: what the shift multiplies by, for the byte read and for the bits to come.
module _ (at : ℕ) where
  further : 2 ^ (at + 7) ≡ 2 ^ at * 128
  further = simp towards_suc (omega arith)

  low_and_high : (v : ℕ) → (v % 128) * 2 ^ at + (v / 128) * 2 ^ (at + 7) ≡ v * 2 ^ at
  low_and_high v =
      let whole : v / 128 * 128 + v % 128 ≡ v = omega arith in
      rw further (grind (arith, ap (λ (x : ℕ). x * 2 ^ at) whole))

next_bound : (g acc s : ℕ) → g < 128 → acc < 2 ^ s → acc + g * 2 ^ s < 2 ^ (s + 7)
next_bound g acc s hg ha = rw further (grind arith)

-- `w` is what is still to be read; it counts from bit `7 * j` on.
read_varint_loop-groups :
    (k j w acc shift used : ℕ) (rest : List ℕ)
    → w < 128 ^ suc k
    → k + j ≤ 4
    → shift ≡ 7 * j
    → acc < 2 ^ shift
    → acc + w * 2 ^ shift < u32_mod
    → read_varint_loop (groups k w ++ rest) acc shift used
      ≡ done (acc + w * 2 ^ shift, used + length (groups k w))
unfolding groups
read_varint_loop-groups zero j w acc shift used rest hw hj hs ha fits =
    last_byte w acc shift used rest hw ha (omega arith) fits
read_varint_loop-groups (suc k) j w acc shift used rest hw hj hs ha fits = ground (
  arith,
  last_byte w acc shift used rest,
  low_and_high shift w,
  inner_byte (w % 128) acc shift used (groups k (w / 128) ++ rest),
  next_bound (w % 128) acc shift,
  read_varint_loop-groups k (j + 1) (w / 128) (acc + w % 128 * 2 ^ shift) (shift + 7) (used + 1)
      rest,
)

-- Reading a `u32` that `write_varint` wrote behind `before` gives it back, whatever follows, with
-- its length; that is the length that `varint_len` computes.
pub read_varint-write_varint :
    (before rest : List ℕ) (v : ℕ)
    → v < u32_mod
    → read_varint (write_varint before v ++ rest) (length before) ≡ done (v, varint_len v)
unfolding read_varint
read_varint-write_varint before rest v h =
    rw
      (
        write_varint-groups before v h,
        varint_len-groups v h,
        append_assoc before (groups 4 v) rest,
        drop-append before (groups 4 v ++ rest) (length before) refl,
      )
      (ground (arith, read_varint_loop-groups 4 0 v 0 0 0 rest))

length-groups : (k v : ℕ) → (1 ≤ length (groups k v)) × (length (groups k v) ≤ k + 1)
unfolding groups
length-groups zero v = omega arith
length-groups (suc k) v = ground (arith, length-groups k (v / 128))

-- `varint_len` is the number of bytes that `write_varint` appends, and it is 1 to 5.
pub length-write_varint :
    (out : List ℕ) (v : ℕ)
    → v < u32_mod
    → (length (write_varint out v) ≡ length out + varint_len v)
      × (1 ≤ varint_len v)
      × (varint_len v ≤ 5)
length-write_varint out v h =
    rw (write_varint-groups out v h, varint_len-groups v h)
      (length-append out (groups 4 v), (length-groups 4 v).0, (length-groups 4 v).1)
