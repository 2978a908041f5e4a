-- ===== src/Roundtrip/Named.antt =====
-- Which symbols the rows of the alphabetical index hold for a name.
use Prim.Native.Nat.{Ordering}
use scry.Prelude.{
  ℕ, ◌+◌, ◌≡◌, refl, arith, List, [], ◌∷◌, ◌++◌, Bool, false, ◌||◌, ◌&&◌, ◌==◌, length, map, select,
  ap, ◌∙◌, All, length-append, All_of,
}
use mathlib.Core.List.{flatten, append_assoc}
use scry.Bytes.{cmp}
use scry.Sorted.{Row, field, is_eq, contains, mem_row, sort_by, insert_by}
use scry.Sorted.SortLaws.{mem_row-sort_dedup, All-sort_dedup}
use scry.Roundtrip.Preserved.{All-of-map}
use scry.Reader.Names.{sort_dedup_syms}
use scry.Reader.NamesLaws.{named}
use scry.Writer.Finish.{place, zip_with, name_bytes}
use scry.Roundtrip.NameRows.{name_rows, name_bytes_at}

-- Whether one of the items has the key and the string.
unfoldable pub holds {ℓ} : {A : Type ℓ} → (A → ℕ) → (A → List ℕ) → List ℕ → ℕ → List A → Bool
holds key str q s [] = false
holds key str q s (a ∷ xs) = (s == key a && is_eq (cmp (str a) q)) || holds key str q s xs

-- Whether a row with the name has the symbol.
abbrev pub found : (Row → List ℕ) → List ℕ → ℕ → List Row → Bool
found nm q s rs = contains s (map (field 2) (select (named nm q) rs))

found_cons :
    (nm : Row → List ℕ) (q : List ℕ) (s : ℕ) (r : Row) (rs : List Row)
    → found nm q s (r ∷ rs) ≡ ((s == field 2 r && is_eq (cmp (nm r) q)) || found nm q s rs)
unfolding contains named
found_cons nm q s r rs = ground arith

pub found-append :
    (nm : Row → List ℕ) (q : List ℕ) (s : ℕ) (xs ys : List Row)
    → found nm q s (xs ++ ys) ≡ (found nm q s xs || found nm q s ys)
unfolding contains
found-append nm q s [] ys = refl
found-append nm q s (x ∷ xs) ys =
    ground
      (arith, found_cons nm q s x (xs ++ ys), found_cons nm q s x xs, found-append nm q s xs ys)

found-insert_by :
    (nm : Row → List ℕ) (q : List ℕ) (s : ℕ) (order : Row → Row → Ordering) (x : Row)
    (ys : List Row)
    → found nm q s (insert_by order x ys) ≡ found nm q s (x ∷ ys)
unfolding insert_by
found-insert_by nm q s order x [] = refl
found-insert_by nm q s order x (y ∷ ys) = ground (
  arith,
  found_cons nm q s y (insert_by order x ys),
  found_cons nm q s x (y ∷ ys),
  found_cons nm q s y ys,
  found_cons nm q s x ys,
  found-insert_by nm q s order x ys,
)

pub found-sort_by :
    (nm : Row → List ℕ) (q : List ℕ) (s : ℕ) (order : Row → Row → Ordering) (rs : List Row)
    → found nm q s (sort_by order rs) ≡ found nm q s rs
unfolding sort_by
found-sort_by nm q s order [] = refl
found-sort_by nm q s order (x ∷ rs) =
    found-insert_by nm q s order x (sort_by order rs)
    ∙ ground (
      arith,
      found_cons nm q s x (sort_by order rs),
      found_cons nm q s x rs,
      found-sort_by nm q s order rs,
    )

module _ {ℓ} {A : Type ℓ} (key : A → ℕ) (str : A → List ℕ) (q : List ℕ) (s : ℕ) where
  -- The rows of items hold what the items do.
  pub found-name_rows :
      (pre post : List ℕ) (xs : List A)
      → found
          (name_bytes (pre ++ (flatten (map str xs) ++ post)))
          q
          s
          (name_rows key str (length pre) xs)
        ≡ holds key str q s xs
  unfolding holds zip_with place flatten contains
  found-name_rows pre post [] = refl
  found-name_rows pre post (x ∷ xs) =
      let rest : List ℕ = flatten (map str xs) ++ post in
      let later =
        rw
          (
            length-append pre (str x),
            append_assoc,
            ← append_assoc (str x) (flatten (map str xs)) post,
          )
          at (found-name_rows (pre ++ str x) post xs) in
      let whole : List ℕ = pre ++ ((str x ++ flatten (map str xs)) ++ post) in
      let head : name_bytes whole (length pre ∷ length (str x) ∷ key x ∷ []) ≡ str x =
        rw append_assoc (name_bytes_at pre (str x) rest (key x)) in
      found_cons (name_bytes whole) q s _ _
      ∙ ap
          (λ n.
            (s == key x && is_eq (cmp n q))
            || found (name_bytes whole) q s (name_rows key str (length pre + length (str x)) xs))
          head
      ∙ ap (λ b. (s == key x && is_eq (cmp (str x) q)) || b) later

  holds-insert_by :
      (order : A → A → Ordering) (x : A) (ys : List A)
      → holds key str q s (insert_by order x ys) ≡ holds key str q s (x ∷ ys)
  unfolding holds insert_by
  holds-insert_by order x [] = refl
  holds-insert_by order x (y ∷ ys) = ground (arith, holds-insert_by order x ys)

  pub holds-sort_by :
      (order : A → A → Ordering) (xs : List A)
      → holds key str q s (sort_by order xs) ≡ holds key str q s xs
  unfolding holds sort_by
  holds-sort_by order [] = refl
  holds-sort_by order (x ∷ xs) =
      ground (arith, holds-insert_by order x (sort_by order xs), holds-sort_by order xs)

-- Numbers as rows of one field.
contains-rows : (s : ℕ) (xs : List ℕ) → mem_row (s ∷ []) (map (λ x. x ∷ []) xs) ≡ contains s xs
unfolding contains mem_row cmp
contains-rows s [] = refl
contains-rows s (x ∷ xs) = ground (arith, contains-rows s xs)

compare_one : (s : ℕ) (r : Row) → r ≡ field 0 r ∷ [] → is_eq (cmp (s ∷ []) r) ≡ (s == field 0 r)
unfolding cmp
compare_one s r e = rw e (ground arith)

contains-field :
    (s : ℕ) (rs : List Row)
    → All (λ r. r ≡ field 0 r ∷ []) rs
    → contains s (map (field 0) rs) ≡ mem_row (s ∷ []) rs
unfolding contains mem_row
contains-field s [] h = refl
contains-field s (r ∷ rs) h = ground (arith, contains-field s rs h.1, compare_one s r h.0)

pub contains-sort_dedup_syms :
    (s : ℕ) (xs : List ℕ) → contains s (sort_dedup_syms xs) ≡ contains s xs
unfolding sort_dedup_syms
contains-sort_dedup_syms s xs =
    contains-field s _ (
      All-sort_dedup (λ r. r ≡ field 0 r ∷ []) _
        (All-of-map _ (λ x. x ∷ []) xs (All_of _ (λ x. refl) xs)))
    ∙ mem_row-sort_dedup (s ∷ []) _
    ∙ contains-rows s xs
