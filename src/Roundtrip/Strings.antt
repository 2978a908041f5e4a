-- ===== src/Roundtrip/Strings.antt =====
-- Rows that point to strings in the blob, as `finish` of writer.rs lays them out, and as the lookups
-- of reader.rs follow them.
use Prim.Native.Nat.{Ordering, compare}
use scry.Prelude.{
  ℕ, ◌+◌, ◌<◌, ◌≡◌, ◌≢◌, refl, sym, arith, List, [], ◌∷◌, ◌++◌, Option, none, some, length, map,
  All, ap, get_elem?, length-append, inl, inr,
}
use mathlib.Core.List.{flatten, append_assoc}
use scry.Bytes.{slice}
use scry.Format.Rows.{slice_at}
use scry.Run.{Run, done, panic, stuck}
use scry.Sorted.{Row, field}
use scry.Reader.Lookup.{on_row}
use scry.Reader.SearchLaws.{Ordering-cases}
use scry.Reader.LookupLaws.{IsKeyed, row_with, Looked}
use scry.Writer.Finish.{place, zip_with}

-- A lookup that reads the value at the row it finds.
pub on_row-Looked {ℓ} :
    {B : Type ℓ} (rs : List Row) (key : ℕ) (found : Run (Option ℕ)) (read : ℕ → Run B)
    (o : Option B)
    → Looked rs key found
    → (row_with key rs ≡ none → o ≡ none)
    → ((i : ℕ) (r : Row)
        → get_elem? rs i ≡ some r
        → row_with key rs ≡ some r
        → (v : B) × (read i ≡ done v) × (o ≡ some v))
    → on_row found read ≡ done o
unfolding on_row
on_row-Looked rs key (done none) read o h absent present = ap done (sym (absent h))
on_row-Looked rs key (done (some i)) read o h absent present =
    let (v, reads, is) = present i h.0 h.1 h.2 in rw (reads, is)
on_row-Looked rs key panic read o h absent present = elim h [ ]
on_row-Looked rs key stuck read o h absent present = elim h [ ]

module _ {ℓ} {A : Type ℓ} (key : A → ℕ) where
  -- The keys ascend.
  abbrev pub IsAscendingBy : List A → Type 0
  IsAscendingBy [] = Unit {0}
  IsAscendingBy (x ∷ xs) = All (λ y. key x < key y) xs × IsAscendingBy xs

  -- The first item with a key.
  unfoldable pub find_by : ℕ → List A → Option A
  find_by k [] = none
  find_by k (a ∷ xs) = elim (compare (key a) k) [ Ordering.eq ↦ some a | _ ↦ find_by k xs ]

-- The rows of items, each with the place of its string.
abbrev pub rows {ℓ} : {A : Type ℓ} → (A → List ℕ) → (A → ℕ × ℕ → Row) → ℕ → List A → List Row
rows str row base xs = zip_with row xs (place base (map str xs))

-- Items that have a key and a string, and the row of each with the place of the string.
module _ {ℓ} {A : Type ℓ} (key : A → ℕ) (str : A → List ℕ) (row : A → ℕ × ℕ → Row)
    (row_key : (a : A) (p : ℕ × ℕ) → field 0 (row a p) ≡ key a) where
  rows_above :
      (least base : ℕ) (xs : List A)
      → All (λ a. least < key a) xs
      → All (λ r. least < field 0 r) (rows str row base xs)
  unfolding zip_with place
  rows_above least base [] h = tt
  rows_above least base (x ∷ xs) h =
      (rw (row_key x (base, length (str x))) h.0, rows_above least (base + length (str x)) xs h.1)

  pub rows-IsKeyed :
      (base : ℕ) (xs : List A) → IsAscendingBy key xs → IsKeyed (rows str row base xs)
  unfolding zip_with place
  rows-IsKeyed base [] s = tt
  rows-IsKeyed base (x ∷ xs) s = (
    rw (row_key x (base, length (str x))) (rows_above (key x) (base + length (str x)) xs s.0),
    rows-IsKeyed (base + length (str x)) xs s.1,
  )

  pub rows-absent :
      (k base : ℕ) (xs : List A)
      → row_with k (rows str row base xs) ≡ none
      → find_by key k xs ≡ none
  unfolding row_with find_by zip_with place
  rows-absent k base [] h = refl
  rows-absent k base (x ∷ xs) h =
      ground (arith, rows-absent k (base + length (str x)) xs, row_key x (base, length (str x)))

  -- What a found row is: the row of an item, pointing to its string.
  abbrev pub Present : ℕ → List ℕ → List A → Row → Type ℓ
  Present k blob xs r =
      (a : A) × (p : ℕ × ℕ) × (find_by key k xs ≡ some a)
      × (r ≡ row a p)
      × (slice blob p.0 (p.0 + p.1) ≡ done (str a))

  regroup : (pre s f post : List ℕ) → (pre ++ s) ++ (f ++ post) ≡ pre ++ ((s ++ f) ++ post)
  regroup pre s f post = simp append_assoc

  skip :
      (k : ℕ) (pre post : List ℕ) (x : A) (xs : List A) (r : Row)
      → compare (key x) k ≢ Ordering.eq
      → Present k ((pre ++ str x) ++ (flatten (map str xs) ++ post)) xs r
      → Present k (pre ++ (flatten (map str (x ∷ xs)) ++ post)) (x ∷ xs) r
  unfolding find_by flatten
  skip k pre post x xs r n (a, p, found, is, s) =
      (a, p, ground arith, is, rw (regroup pre (str x) (flatten (map str xs)) post) at s)

  first :
      (k : ℕ) (pre post : List ℕ) (x : A) (xs : List A) (r : Row)
      → compare (key x) k ≡ Ordering.eq
      → r ≡ row x (length pre, length (str x))
      → Present k (pre ++ (flatten (map str (x ∷ xs)) ++ post)) (x ∷ xs) r
  unfolding find_by flatten
  first k pre post x xs r e is = (
    x,
    (length pre, length (str x)),
    ground arith,
    is,
    rw append_assoc (
        slice_at pre (str x) (flatten (map str xs) ++ post) (length pre) (length (str x)) refl
          refl),
  )

  pub rows-Present :
      (k : ℕ) (pre post : List ℕ) (xs : List A) {r : Row}
      → row_with k (rows str row (length pre) xs) ≡ some r
      → Present k (pre ++ (flatten (map str xs) ++ post)) xs r
  unfolding row_with zip_with place
  rows-Present k pre post [] {r} h = cc
  rows-Present k pre post (x ∷ xs) {r} h = elim (Ordering-cases (compare (key x) k)) [
    | inr (inl e) ↦ here e
    | inl e ↦
        skip k pre post x xs r (λ c. cc) (rows-Present k (pre ++ str x) post xs (later (λ c. cc)))
    | inr (inr e) ↦
        skip k pre post x xs r (λ c. cc) (rows-Present k (pre ++ str x) post xs (later (λ c. cc)))
  ]
    where
      later :
          compare (key x) k ≢ Ordering.eq
          → row_with k (rows str row (length (pre ++ str x)) xs) ≡ some r
      later n =
          rw (length-append pre (str x)) (ground (arith, row_key x (length pre, length (str x))))

      here :
          compare (key x) k ≡ Ordering.eq
          → Present k (pre ++ (flatten (map str (x ∷ xs)) ++ post)) (x ∷ xs) r
      here e = first k pre post x xs r e (ground (arith, row_key x (length pre, length (str x))))
