-- ===== src/Bytes.antt =====
-- Byte slices as lists of numbers: the big-endian bytes of an integer, the lexicographic order
-- of slices, and the subslice `&s[a..b]`, which panics when its end lies past the slice.
pub mod Order
use Prim.Native.Nat.{compare, Ordering}
use scry.Prelude.{
  ℕ, zero, suc, ◌+◌, ◌-◌, ◌*◌, ◌/◌, ◌%◌, ◌^◌, ◌<◌, List, [], ◌∷◌, ◌++◌, take, drop, length, leb,
  ◌&&◌, if◌then◌else◌,
}
use scry.Run.{Run, done, panic, ◌>>=◌}

abbrev pub IsByte : ℕ → Type 0
IsByte b = b < 256

abbrev pub u64_mod : ℕ
u64_mod = 2 ^ 64

abbrev pub u32_mod : ℕ
u32_mod = 2 ^ 32

abbrev pub u16_mod : ℕ
u16_mod = 2 ^ 16

-- `n.to_be_bytes()` of a `w`-byte integer.
unfoldable pub to_be_bytes : ℕ → ℕ → List ℕ
to_be_bytes zero n = []
to_be_bytes (suc w) n = (n / 256 ^ w % 256) ∷ to_be_bytes w (n % 256 ^ w)

from_be_loop : ℕ → List ℕ → ℕ
from_be_loop acc [] = acc
from_be_loop acc (b ∷ bs) = from_be_loop (acc * 256 + b) bs

-- `from_be_bytes(bs)`
unfoldable pub from_be_bytes : List ℕ → ℕ
unfolding from_be_loop
from_be_bytes bs = from_be_loop 0 bs

-- `Ordering::then`
abbrev pub then_order : Ordering → Ordering → Ordering
then_order Ordering.eq o = o
then_order Ordering.lt o = Ordering.lt
then_order Ordering.gt o = Ordering.gt

-- `Ord::cmp` of two slices, and of two tuples with the same fields.
unfoldable pub cmp : List ℕ → List ℕ → Ordering
cmp [] [] = Ordering.eq
cmp [] (y ∷ ys) = Ordering.lt
cmp (x ∷ xs) [] = Ordering.gt
cmp (x ∷ xs) (y ∷ ys) = then_order (compare x y) (cmp xs ys)

-- `&s[a..b]`
unfoldable pub slice : List ℕ → ℕ → ℕ → Run (List ℕ)
slice s a b = if leb a b && leb b (length s) then done (take (b - a) (drop a s)) else panic

-- `from_be_bytes(s[a..b].try_into().unwrap())`
unfoldable pub read_int : List ℕ → ℕ → ℕ → Run ℕ
unfolding from_be_bytes slice
read_int s a b = do bs ← slice s a b; done (from_be_bytes bs)
