-- ===== src/Kythe/WireLaws.antt =====
-- Reading back what the encoders of kythe.rs wrote: varints and length-delimited fields.
use Prim.Native.Nat.{bit_and, bit_or}
use scry.Prelude.{
  ℕ, zero, suc, ◌+◌, ◌*◌, ◌/◌, ◌%◌, ◌^◌, ◌≤◌, ◌<◌, ◌≡◌, refl, arith, List, ◌∷◌, ◌++◌, length,
  length-append, take-append, drop-append, some, ap, ◌∙◌,
}
use native.Mathlib.Nat.{pow-suc}
use native.Mathlib.Numerals.{towards_suc}
use mathlib.Core.List.{append_assoc}
use scry.Bits.{bit_and-mask, bit_or-top, bit_and-low, bit_and-top, bit_or-shifted, bit_or-delimited}
use scry.Bytes.{u64_mod}
use scry.Kythe.Wire.{varint_loop, read_varint_at, split_at, delimited, varint_bytes, varint, ld}

further : (at : ℕ) → 2 ^ (at + 7) ≡ 2 ^ at * 128
further at = simp towards_suc (omega arith)

low_and_high : (at v : ℕ) → (v % 128) * 2 ^ at + (v / 128) * 2 ^ (at + 7) ≡ v * 2 ^ at
low_and_high at v =
    let whole : v / 128 * 128 + v % 128 ≡ v = omega arith in
    rw (further at) (grind (arith, ap (λ (x : ℕ). x * 2 ^ at) whole))

next_bound : (g acc s : ℕ) → g < 128 → acc < 2 ^ s → acc + g * 2 ^ s < 2 ^ (s + 7)
next_bound g acc s hg ha = rw (further s) (grind arith)

last_byte :
    (rounds w acc shift : ℕ) (rest : List ℕ)
    → w < 128
    → acc < 2 ^ shift
    → acc + w * 2 ^ shift < u64_mod
    → varint_loop (suc rounds) acc shift (w ∷ rest) ≡ some (acc + w * 2 ^ shift, rest)
unfolding varint_loop
last_byte rounds w acc shift rest hw ha fits =
    ground (arith, bit_and-low w, bit_and-top w, bit_or-shifted shift acc w ha)

inner_byte :
    (rounds g acc shift : ℕ) (rest : List ℕ)
    → g < 128
    → acc < 2 ^ shift
    → acc + g * 2 ^ shift < u64_mod
    → varint_loop (suc rounds) acc shift ((g + 128) ∷ rest)
      ≡ varint_loop rounds (acc + g * 2 ^ shift) (shift + 7) rest
unfolding varint_loop
inner_byte rounds g acc shift rest hg ha fits =
    ground (arith, bit_and-low (g + 128), bit_and-top (g + 128), bit_or-shifted shift acc g ha)

pub top_byte : (v : ℕ) → bit_or (bit_and v 0x7F) 0x80 ≡ v % 128 + 128
top_byte v = rw (bit_and-mask 7 v) (omega (arith, bit_or-top (v % 128) (omega arith)))

varint_loop-bytes :
    (rounds fuel v acc shift : ℕ) (rest : List ℕ)
    → v < 128 ^ suc rounds
    → v ≤ fuel
    → acc < 2 ^ shift
    → acc + v * 2 ^ shift < u64_mod
    → varint_loop (suc rounds) acc shift (varint_bytes fuel v ++ rest)
      ≡ some (acc + v * 2 ^ shift, rest)
unfolding varint_bytes
varint_loop-bytes rounds zero v acc shift rest hv hf ha fits =
    ground (arith, last_byte rounds v acc shift rest)
varint_loop-bytes zero (suc fuel) v acc shift rest hv hf ha fits =
    ground (arith, last_byte 0 v acc shift rest)
varint_loop-bytes (suc rounds) (suc fuel) v acc shift rest hv hf ha fits = ground (
  arith,
  top_byte v,
  last_byte (suc rounds) v acc shift rest,
  low_and_high shift v,
  inner_byte (suc rounds) (v % 128) acc shift (varint_bytes fuel (v / 128) ++ rest),
  next_bound (v % 128) acc shift,
  varint_loop-bytes rounds fuel (v / 128) (acc + v % 128 * 2 ^ shift) (shift + 7) rest,
  pow-suc 128 (suc rounds),
)

-- A varint below 2^64 reads back, and leaves what follows it.
pub read_varint_at-varint :
    (v : ℕ) (rest : List ℕ) → v < u64_mod → read_varint_at (varint v ++ rest) ≡ some (v, rest)
unfolding read_varint_at varint
read_varint_at-varint v rest h =
    varint_loop-bytes 9 v v 0 0 rest (omega arith) (omega arith) (omega arith) (omega arith)
    ∙ ap (λ (t : ℕ). some (t, rest)) (omega arith)

pub split_at-append :
    (bytes rest : List ℕ) → split_at (length bytes) (bytes ++ rest) ≡ some (bytes, rest)
unfolding split_at
split_at-append bytes rest = ground (
  arith,
  length-append bytes rest,
  take-append bytes rest (length bytes) refl,
  drop-append bytes rest (length bytes) refl,
)

pub tag_byte : (field : ℕ) → field < 16 → bit_or (field * 8) 2 % 256 ≡ field * 8 + 2
tag_byte field h =
    let whole : field * 8 / 8 * 8 ≡ field * 8 = omega arith in
    rw (rw whole at (bit_or-delimited (field * 8) (omega arith))) (omega arith)

pub read_tag : (t : ℕ) (rest : List ℕ) → t < 128 → read_varint_at (t ∷ rest) ≡ some (t, rest)
unfolding read_varint_at
read_tag t rest h =
    last_byte 9 t 0 0 rest h (omega arith) (omega arith)
    ∙ ap (λ (n : ℕ). some (n, rest)) (omega arith)

-- A field that `ld` wrote: its number, its bytes, and what follows.
pub delimited-ld :
    (field : ℕ) (bytes rest : List ℕ)
    → field < 16
    → length bytes < u64_mod
    → delimited (ld field bytes ++ rest) ≡ some (field, bytes, rest)
unfolding delimited ld
delimited-ld field bytes rest hf hb =
    rw
      (
        tag_byte field hf,
        read_tag (field * 8 + 2) ((varint (length bytes) ++ bytes) ++ rest) (omega arith),
        append_assoc (varint (length bytes)) bytes rest,
        read_varint_at-varint (length bytes) (bytes ++ rest) hb,
        split_at-append bytes rest,
      )
      (ground arith)
