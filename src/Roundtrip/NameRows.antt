-- ===== src/Roundtrip/NameRows.antt =====
-- The rows of the alphabetical index, as `finish` of writer.rs places and sorts them.
use Prim.Native.Nat.{Ordering}
use scry.Prelude.{
  ℕ, ◌+◌, ◌-◌, ◌≤◌, ◌≡◌, ◌≢◌, refl, arith, List, [], ◌∷◌, ◌++◌, true, length, map, take, drop, All,
  All-map, ap, length-append, drop-append, take-append, drop_within, take_within, length-drop,
}
use mathlib.Core.List.{flatten, append_assoc}
use scry.Bytes.{slice}
use scry.Run.{done}
use scry.Sorted.{Row, Le, IsSorted, field, sort_by, insert_by}
use scry.Sorted.Compare.{cmp_flip, le_trans}
use scry.Text.{is_utf8}
use scry.Writer.Finish.{place, zip_with, name_bytes, name_order}

-- A row points to a valid string within the blob.
abbrev pub IsNameRow : List ℕ → Row → Type 0
IsNameRow blob r = (field 0 r + field 1 r ≤ length blob) × (is_utf8 (name_bytes blob r) ≡ true)

pub name_bytes_at :
    (pre s post : List ℕ) (key : ℕ)
    → name_bytes (pre ++ (s ++ post)) (length pre ∷ length s ∷ key ∷ []) ≡ s
unfolding name_bytes
name_bytes_at pre s post key =
    rw (drop-append pre (s ++ post) (length pre) refl, take-append s post (length s) refl)

module _ {ℓ} {A : Type ℓ} (key : A → ℕ) (str : A → List ℕ) where
  abbrev pub name_rows : ℕ → List A → List Row
  name_rows base xs = zip_with (λ a q. q.0 ∷ q.1 ∷ key a ∷ []) xs (place base (map str xs))

  pub name_rows-IsNameRow :
      (pre post : List ℕ) (xs : List A)
      → All (λ a. is_utf8 (str a) ≡ true) xs
      → All (IsNameRow (pre ++ (flatten (map str xs) ++ post))) (name_rows (length pre) xs)
  unfolding zip_with place flatten
  name_rows-IsNameRow pre post [] h = tt
  name_rows-IsNameRow pre post (x ∷ xs) h =
      let rest : List ℕ = flatten (map str xs) ++ post in
      (
        (
          rw append_assoc
              (omega (arith, length-append pre (str x ++ rest), length-append (str x) rest)),
          rw (append_assoc, name_bytes_at pre (str x) rest (key x)) h.0,
        ),
        rw
            (
              length-append pre (str x),
              append_assoc,
              ← append_assoc (str x) (flatten (map str xs)) post,
            )
            at (name_rows-IsNameRow (pre ++ str x) post xs h.1),
      )

-- More bytes behind change nothing.
pub name_bytes-append :
    (blob more : List ℕ) (r : Row)
    → field 0 r + field 1 r ≤ length blob
    → name_bytes (blob ++ more) r ≡ name_bytes blob r
unfolding name_bytes
name_bytes-append blob more r h = rw (
  drop_within blob more (field 0 r) (omega arith),
  take_within (drop (field 0 r) blob) more (field 1 r)
      (omega (arith, length-drop (field 0 r) blob)),
)

pub slice-name_bytes :
    (blob : List ℕ) (r : Row)
    → field 0 r + field 1 r ≤ length blob
    → slice blob (field 0 r) (field 0 r + field 1 r) ≡ done (name_bytes blob r)
unfolding slice name_bytes
slice-name_bytes blob r h =
    let len : field 0 r + field 1 r - field 0 r ≡ field 1 r = omega arith in
    ground (arith, ap (λ (n : ℕ). take n (drop (field 0 r) blob)) len)

-- Sorting by name makes the names ascend.
module _ (blob : List ℕ) where
  All-name_order :
      (P : Row → Type 0) (x : Row) (ys : List Row)
      → P (name_bytes blob x)
      → All P (map (name_bytes blob) ys)
      → All P (map (name_bytes blob) (insert_by (name_order blob) x ys))
  unfolding insert_by
  All-name_order P x [] h k = (h, tt)
  All-name_order P x (y ∷ ys) h k =
      elim (name_order blob y x)
        as (λ o. All P (
          map (name_bytes blob)
            (elim o [ Ordering.lt ↦ y ∷ insert_by (name_order blob) x ys | _ ↦ x ∷ y ∷ ys ]))) [
              | Ordering.lt ↦ (k.0, All-name_order P x ys h k.1)
              | Ordering.eq ↦ (h, k)
              | Ordering.gt ↦ (h, k)
            ]

  less :
      (x y : Row) → name_order blob y x ≡ Ordering.lt → Le (name_bytes blob y) (name_bytes blob x)
  unfolding name_order
  less x y e g = ground arith

  not_less :
      (x y : Row) → name_order blob y x ≢ Ordering.lt → Le (name_bytes blob x) (name_bytes blob y)
  unfolding name_order
  not_less x y n g = n (ground (arith, cmp_flip (name_bytes blob x) (name_bytes blob y)))

  insert_by-IsSorted :
      (x : Row) (ys : List Row)
      → IsSorted (map (name_bytes blob) ys)
      → IsSorted (map (name_bytes blob) (insert_by (name_order blob) x ys))
  unfolding insert_by
  insert_by-IsSorted x [] s = (tt, tt)
  insert_by-IsSorted x (y ∷ ys) s = go (name_order blob y x) refl (insert_by-IsSorted x ys s.1)
    where
      above :
          Le (name_bytes blob x) (name_bytes blob y)
          → All (Le (name_bytes blob x)) (map (name_bytes blob) (y ∷ ys))
      above le =
          (le, All-map (λ z h. le_trans (name_bytes blob x) (name_bytes blob y) z le h) _ s.0)

      go :
          (o : Ordering)
          → name_order blob y x ≡ o
          → IsSorted (map (name_bytes blob) (insert_by (name_order blob) x ys))
          → IsSorted (
              map
                (name_bytes blob)
                (elim o [ Ordering.lt ↦ y ∷ insert_by (name_order blob) x ys | _ ↦ x ∷ y ∷ ys ]))
      go Ordering.lt e r = (All-name_order (Le (name_bytes blob y)) x ys (less x y e) s.0, r)
      go Ordering.eq e r = (above (not_less x y (λ g. cc)), s)
      go Ordering.gt e r = (above (not_less x y (λ g. cc)), s)

  pub sort_by-IsSorted :
      (rs : List Row) → IsSorted (map (name_bytes blob) (sort_by (name_order blob) rs))
  unfolding sort_by
  sort_by-IsSorted [] = tt
  sort_by-IsSorted (r ∷ rs) =
      insert_by-IsSorted r (sort_by (name_order blob) rs) (sort_by-IsSorted rs)
