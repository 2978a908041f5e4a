-- ===== src/Roundtrip/Keyed.antt =====
-- The maps and the deduplicated lists of the builder of writer.rs, as `finish` orders them by key.
use Prim.Native.Nat.{Ordering, compare}
use scry.Prelude.{
  ℕ, ◌<◌, ◌≤◌, ◌≡◌, ◌≢◌, refl, arith, List, [], ◌∷◌, none, some, All, All-map, ◌==◌, Bool-cases,
  inl, inr,
}
use mathlib.Core.Option
use scry.Bytes.{cmp}
use scry.Sorted.{Row, Le, IsSorted, field, sort_by, insert_by}
use scry.Writer.Finish.{by_key, first_per_sym}
use scry.Writer.MergeByKey.{lookup, IsAscending}
use scry.Roundtrip.Strings.{IsAscendingBy, find_by}
use scry.Roundtrip.Preserved.{All-insert_by, All-sort_by}

module _ {ℓ} {V : Type ℓ} where
  -- No key twice.
  abbrev pub IsMap : List (ℕ × V) → Type 0
  IsMap [] = Unit {0}
  IsMap (x ∷ xs) = All (λ y. x.0 ≢ y.0) xs × IsMap xs

  insert_by-IsAscending :
      (x : ℕ × V) (ys : List (ℕ × V))
      → All (λ y. x.0 ≢ y.0) ys
      → IsAscending ys
      → IsAscending (insert_by by_key x ys)
  unfolding insert_by
  insert_by-IsAscending x [] h s = (tt, tt)
  insert_by-IsAscending x (y ∷ ys) h s =
      go (compare y.0 x.0) refl (insert_by-IsAscending x ys h.1 s.1)
    where
      go :
          (o : Ordering)
          → compare y.0 x.0 ≡ o
          → IsAscending (insert_by by_key x ys)
          → IsAscending (elim o [ Ordering.lt ↦ y ∷ insert_by by_key x ys | _ ↦ x ∷ y ∷ ys ])
      go Ordering.lt e r = (All-insert_by (λ z. y.0 < z.0) by_key x ys (ground arith) s.0, r)
      go Ordering.eq e r = absurd (h.0 (ground arith))
      go Ordering.gt e r =
          let less : x.0 < y.0 = ground arith in ((less, All-map (λ z g. omega arith) ys s.0), s)

  pub sort_by-IsAscending : (m : List (ℕ × V)) → IsMap m → IsAscending (sort_by by_key m)
  unfolding sort_by
  sort_by-IsAscending [] h = tt
  sort_by-IsAscending (x ∷ m) h =
      insert_by-IsAscending x (sort_by by_key m) (All-sort_by (λ y. x.0 ≢ y.0) by_key m h.0)
        (sort_by-IsAscending m h.1)

  lookup-insert_by :
      (k : ℕ) (x : ℕ × V) (ys : List (ℕ × V)) → lookup k (insert_by by_key x ys) ≡ lookup k (x ∷ ys)
  unfolding lookup insert_by
  lookup-insert_by k x [] = refl
  lookup-insert_by k x (y ∷ ys) = ground (arith, lookup-insert_by k x ys)

  -- Sorting changes no entry.
  pub lookup-sort_by : (k : ℕ) (m : List (ℕ × V)) → lookup k (sort_by by_key m) ≡ lookup k m
  unfolding sort_by lookup
  lookup-sort_by k [] = refl
  lookup-sort_by k (x ∷ m) =
      ground (arith, lookup-insert_by k x (sort_by by_key m), lookup-sort_by k m)

  pub find_by-lookup {κ} :
      {B : Type κ} (g : ℕ × V → B) (h : V → B) (k : ℕ) (m : List (ℕ × V))
      → ((e : ℕ × V) → g e ≡ h e.1)
      → Option.map g (find_by (λ e. e.0) k m) ≡ Option.map h (lookup k m)
  unfolding find_by lookup
  find_by-lookup g h k [] c = refl
  find_by-lookup g h k (x ∷ m) c = ground (arith, find_by-lookup g h k m c, c x)

-- One row for each symbol.
field-Le : (x y : Row) → Le x y → field 0 x ≤ field 0 y
unfolding cmp
field-Le [] y h = omega arith
field-Le (a ∷ x) [] h = absurd (h refl)
field-Le (a ∷ x) (b ∷ y) h = ground arith

first_per_sym-ascending :
    (s : ℕ) (rs : List Row)
    → IsSorted rs
    → All (λ r. s ≤ field 0 r) rs
    → All (λ r. s < field 0 r) (first_per_sym (some s) rs)
      × IsAscendingBy (field 0) (first_per_sym (some s) rs)
unfolding first_per_sym
first_per_sym-ascending s [] t h = (tt, tt)
first_per_sym-ascending s (r ∷ rs) t h =
    let (above, asc) =
      first_per_sym-ascending (field 0 r) rs t.1 (All-map (λ y g. field-Le r y g) rs t.0) in
    elim (Bool-cases (s == field 0 r)) [
      | inl e ↦ rw (first_per_sym, e) (All-map (λ y g. omega (arith, h.0)) _ above, asc)
      | inr e ↦
          let less : s < field 0 r = ground arith in
          rw (first_per_sym, e) ((less, All-map (λ y g. omega arith) _ above), (above, asc))
    ]

pub first_per_sym-IsAscendingBy :
    (rs : List Row) → IsSorted rs → IsAscendingBy (field 0) (first_per_sym none rs)
unfolding first_per_sym
first_per_sym-IsAscendingBy [] t = tt
first_per_sym-IsAscendingBy (r ∷ rs) t =
    first_per_sym-ascending (field 0 r) rs t.1 (All-map (λ y g. field-Le r y g) rs t.0)

find_by-later :
    (k s : ℕ) (rs : List Row)
    → s ≢ k
    → find_by (field 0) k (first_per_sym (some s) rs) ≡ find_by (field 0) k rs
unfolding find_by first_per_sym
find_by-later k s [] n = refl
find_by-later k s (r ∷ rs) n = ground (arith, find_by-later k (field 0 r) rs)

-- Leaving out later rows of a symbol keeps the first.
pub find_by-first_per_sym :
    (k : ℕ) (rs : List Row) → find_by (field 0) k (first_per_sym none rs) ≡ find_by (field 0) k rs
unfolding find_by first_per_sym
find_by-first_per_sym k [] = refl
find_by-first_per_sym k (r ∷ rs) = ground (arith, find_by-later k (field 0 r) rs)
