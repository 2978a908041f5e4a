-- ===== src/Sorted.antt =====
-- Sorted lists of rows: `sort_unstable` and `dedup` of the standard library on rows, the number of
-- rows below a key, and the run of rows between two keys.
pub mod Compare
pub mod Prefix
pub mod Set
pub mod SortLaws
pub mod Unique
use Prim.Native.Nat.{Ordering}
use scry.Prelude.{
  ℕ, suc, List, [], ◌∷◌, Bool, true, false, if◌then◌else◌, ◌≡◌, ◌≢◌, All, get_or, ◌||◌, ◌==◌,
}
use scry.Bytes.{cmp}

-- A row: its fields in the order of the tuple.
abbrev pub Row : Type 0
Row = List ℕ

abbrev pub is_lt : Ordering → Bool
is_lt Ordering.lt = true
is_lt Ordering.eq = false
is_lt Ordering.gt = false

-- A field of a row.
abbrev pub field : ℕ → Row → ℕ
field k r = get_or r k 0

-- `a < b` and `a <= b` on rows.
abbrev pub row_lt : Row → Row → Bool
row_lt a b = is_lt (cmp a b)

abbrev pub Le : Row → Row → Type 0
Le a b = cmp a b ≢ Ordering.gt

abbrev pub Lt : Row → Row → Type 0
Lt a b = cmp a b ≡ Ordering.lt

abbrev pub IsSorted : List Row → Type 0
IsSorted [] = Unit {0}
IsSorted (x ∷ xs) = All (Le x) xs × IsSorted xs

-- Sorted, with no row twice.
abbrev pub IsStrict : List Row → Type 0
IsStrict [] = Unit {0}
IsStrict (x ∷ xs) = All (Lt x) xs × IsStrict xs

-- The length of the longest prefix that a test accepts.
unfoldable pub count_while {ℓ} : {A : Type ℓ} → (A → Bool) → List A → ℕ
count_while p [] = 0
count_while p (x ∷ xs) = if p x then suc (count_while p xs) else 0

-- `sort_unstable`: equal rows are the same row, so the result does not depend on the algorithm.
unfoldable pub insert_row : Row → List Row → List Row
unfolding cmp
insert_row x [] = x ∷ []
insert_row x (y ∷ ys) = elim (cmp y x) [ Ordering.lt ↦ y ∷ insert_row x ys | _ ↦ x ∷ y ∷ ys ]

unfoldable pub sort_unstable : List Row → List Row
unfolding insert_row
sort_unstable [] = []
sort_unstable (x ∷ xs) = insert_row x (sort_unstable xs)

unfoldable pub dedup_behind : Row → List Row → List Row
unfolding cmp
dedup_behind x [] = []
dedup_behind x (y ∷ ys) =
    let rest = dedup_behind y ys in
    elim (cmp x y) [ Ordering.eq ↦ dedup_behind x ys | _ ↦ y ∷ rest ]

-- `dedup`: a row equal to the one before it goes.
unfoldable pub dedup : List Row → List Row
unfolding dedup_behind
dedup [] = []
dedup (x ∷ xs) = x ∷ dedup_behind x xs

abbrev pub is_eq : Ordering → Bool
is_eq Ordering.eq = true
is_eq Ordering.lt = false
is_eq Ordering.gt = false

-- Whether a row occurs in a list.
unfoldable pub mem_row : Row → List Row → Bool
mem_row x [] = false
mem_row x (y ∷ ys) = is_eq (cmp x y) || mem_row x ys

-- Whether a number occurs in a list.
unfoldable pub contains : ℕ → List ℕ → Bool
contains x [] = false
contains x (y ∷ ys) = x == y || contains x ys

-- `sort_by` with a comparison of one's own: stable, so of equal elements the first stays first.
module _ {ℓ} {A : Type ℓ} (order : A → A → Ordering) where
  unfoldable pub insert_by : A → List A → List A
  insert_by x [] = x ∷ []
  insert_by x (y ∷ ys) = elim (order y x) [ Ordering.lt ↦ y ∷ insert_by x ys | _ ↦ x ∷ y ∷ ys ]

  unfoldable pub sort_by : List A → List A
  unfolding insert_by
  sort_by [] = []
  sort_by (x ∷ xs) = insert_by x (sort_by xs)
