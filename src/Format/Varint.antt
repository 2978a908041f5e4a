-- ===== src/Format/Varint.antt =====
-- The LEB128 integers of format.rs. `u32` shifts are those of a release build: the amount is
-- taken modulo 32. Reading past the buffer panics.
use Prim.Native.Nat.{bit_and, bit_or}
use scry.Prelude.{
  ℕ, zero, suc, ◌+◌, ◌*◌, ◌/◌, ◌%◌, ◌^◌, List, [], ◌∷◌, ◌++◌, leb, ◌==◌, if◌then◌else◌, drop,
}
use scry.Bytes.{u32_mod}
use scry.Run.{Run, done, panic}

-- The loop divides `v` by 128, so `v` rounds are enough; with none left `v` is 0.
unfoldable pub write_varint_loop : ℕ → List ℕ → ℕ → List ℕ
write_varint_loop zero out v = out ++ (v % 256 ∷ [])
write_varint_loop (suc rounds) out v =
    let rest = write_varint_loop rounds (out ++ (bit_or (v % 256) 0x80 ∷ [])) (v / 128) in
    if leb 0x80 v then rest else out ++ (v % 256 ∷ [])

unfoldable pub write_varint : List ℕ → ℕ → List ℕ
unfolding write_varint_loop
write_varint out v = write_varint_loop v out v

unfoldable pub varint_len_loop : ℕ → ℕ → ℕ → ℕ
varint_len_loop zero v n = n
varint_len_loop (suc rounds) v n =
    let rest = varint_len_loop rounds (v / 128) (n + 1) in if leb 0x80 v then rest else n

unfoldable pub varint_len : ℕ → ℕ
unfolding varint_len_loop
varint_len v = varint_len_loop v v 1

-- The list is what stands at `i` and behind it; `used` is `i - pos`.
unfoldable pub read_varint_loop : List ℕ → ℕ → ℕ → ℕ → Run (ℕ × ℕ)
read_varint_loop [] v shift used = panic
read_varint_loop (b ∷ bs) v shift used =
    let v' = bit_or v (bit_and b 0x7f * 2 ^ (shift % 32) % u32_mod) in
    let rest = read_varint_loop bs v' ((shift + 7) % u32_mod) (used + 1) in
    if bit_and b 0x80 == 0 then done (v', used + 1) else rest

-- The value and the number of bytes read.
unfoldable pub read_varint : List ℕ → ℕ → Run (ℕ × ℕ)
unfolding read_varint_loop
read_varint buf pos = read_varint_loop (drop pos buf) 0 0 0
