-- ===== src/Format/Pad.antt =====
-- `pad_up` of format.rs rounds up to a whole page.

use scry.Prelude.{ℕ, ◌+◌, ◌-◌, ◌*◌, ◌/◌, ◌%◌, ◌^◌, ◌<◌, ◌≤◌, ◌≡◌, arith}
use scry.Bits.{bit_and-mask, bit_and-high}
use scry.Bytes.{u64_mod}
use scry.Format.{page, pad_up}

pub pad_up_closed : (n : ℕ) → n + page ≤ u64_mod → pad_up n ≡ (n + (page - 1)) / page * page
unfolding pad_up
pad_up_closed n h = omega (
  arith,
  bit_and-high 12 ((n + page - 1) % u64_mod) (2 ^ 52 - 1),
  bit_and-mask 52 ((n + page - 1) % u64_mod / page),
)

-- For an offset that leaves room for one more page below 2^64, `pad_up` returns a multiple of the
-- page size that is not below the offset and less than a page above it.
pub pad_up_bounds :
    (n : ℕ) → n + page ≤ u64_mod → (pad_up n % page ≡ 0) × (n ≤ pad_up n) × (pad_up n < n + page)
pad_up_bounds n h = omega (arith, pad_up_closed n h)
