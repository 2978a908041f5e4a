-- ===== src/Roundtrip/Preserved.antt =====
-- What holds of all elements holds after the steps of `IndexBuilder::finish` of writer.rs.
use Prim.Native.Nat.{Ordering}
use scry.Prelude.{
  ℕ, List, [], ◌∷◌, map, select, All, Bool, Option, none, some, ◌==◌, Bool-cases, inl, inr,
}
use scry.Sorted.{Row, field, sort_by, insert_by}
use scry.Writer.Finish.{first_per_sym, zip_with}

module _ {ℓ κ} {A : Type ℓ} (P : A → Type κ) where
  pub All-insert_by :
      (order : A → A → Ordering) (x : A) (ys : List A)
      → P x
      → All P ys
      → All P (insert_by order x ys)
  unfolding insert_by
  All-insert_by order x [] h k = (h, tt)
  All-insert_by order x (y ∷ ys) h k =
      elim (order y x)
        as (λ o. All P (elim o [ Ordering.lt ↦ y ∷ insert_by order x ys | _ ↦ x ∷ y ∷ ys ])) [
          | Ordering.lt ↦ (k.0, All-insert_by order x ys h k.1)
          | Ordering.eq ↦ (h, k)
          | Ordering.gt ↦ (h, k)
        ]

  pub All-sort_by : (order : A → A → Ordering) (xs : List A) → All P xs → All P (sort_by order xs)
  unfolding sort_by
  All-sort_by order [] h = tt
  All-sort_by order (x ∷ xs) h =
      All-insert_by order x (sort_by order xs) h.0 (All-sort_by order xs h.1)

  pub All-select : (p : A → Bool) (xs : List A) → All P xs → All P (select p xs)
  All-select p [] h = tt
  All-select p (x ∷ xs) h = elim (Bool-cases (p x)) [
    | inl e ↦ rw e (h.0, All-select p xs h.1)
    | inr e ↦ rw e (All-select p xs h.1)
  ]

pub All-first_per_sym {κ} :
    (P : Row → Type κ) (last : Option ℕ) (rs : List Row) → All P rs → All P (first_per_sym last rs)
unfolding first_per_sym
All-first_per_sym P last [] h = tt
All-first_per_sym P none (r ∷ rs) h = (h.0, All-first_per_sym P (some (field 0 r)) rs h.1)
All-first_per_sym P (some s) (r ∷ rs) h = elim (Bool-cases (s == field 0 r)) [
  | inl e ↦ rw (first_per_sym, e) (All-first_per_sym P (some (field 0 r)) rs h.1)
  | inr e ↦ rw (first_per_sym, e) (h.0, All-first_per_sym P (some (field 0 r)) rs h.1)
]

pub All-of-map {ℓ μ κ} :
    {A : Type ℓ} {B : Type μ} (P : B → Type κ) (f : A → B) (xs : List A)
    → All (λ x. P (f x)) xs
    → All P (map f xs)
All-of-map P f [] h = tt
All-of-map P f (x ∷ xs) h = (h.0, All-of-map P f xs h.1)

pub All-zip_with {ℓ κ μ ν ρ σ} :
    {A : Type ℓ} {B : Type κ} {C : Type μ} (P : A → Type ν) (Q : B → Type ρ) (R : C → Type σ)
    (f : A → B → C) (xs : List A) (ys : List B)
    → ((a : A) (b : B) → P a → Q b → R (f a b))
    → All P xs
    → All Q ys
    → All R (zip_with f xs ys)
unfolding zip_with
All-zip_with P Q R f [] ys g h k = tt
All-zip_with P Q R f (x ∷ xs) [] g h k = tt
All-zip_with P Q R f (x ∷ xs) (y ∷ ys) g h k = (g x y h.0 k.0, All-zip_with P Q R f xs ys g h.1 k.1)
