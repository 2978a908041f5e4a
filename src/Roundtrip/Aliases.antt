-- ===== src/Roundtrip/Aliases.antt =====
-- The aliases that `finish` of writer.rs keeps: those of variables are left out.
use scry.Prelude.{
  Bool-cases, inl, inr, ℕ, ◌≡◌, refl, arith, List, [], ◌∷◌, Bool, true, false, ◌||◌, ◌&&◌, ◌==◌,
  not, map, select, ◌∙◌, ap,
}
use scry.Bytes.{cmp}
use scry.Format.Kind
use scry.Sorted.{Row, field, is_eq, contains, insert_row, sort_unstable, dedup, dedup_behind}
use scry.Sorted.Compare.{eq_of_cmp}
use scry.Sorted.SortLaws.{cmp_cases}
use scry.Writer.Builder.{IndexBuilder, SymInfo}
use scry.Writer.Finish.{kept_aliases}
use scry.Roundtrip.Named.{holds}

-- Whether the builder has the symbol as a variable.
unfoldable pub is_variable : ℕ → List (ℕ × SymInfo) → Bool
is_variable s [] = false
is_variable s ((k, info) ∷ syms) = (s == k && info.kind == Kind.variable) || is_variable s syms

contains-variables :
    (s : ℕ) (syms : List (ℕ × SymInfo))
    → contains s (map (λ e. e.0) (select (λ (e : ℕ × SymInfo). e.1.kind == Kind.variable) syms))
      ≡ is_variable s syms
unfolding contains is_variable
contains-variables s [] = refl
contains-variables s (e ∷ syms) = ground (arith, contains-variables s syms)

eq_of_test : (m n : ℕ) → (m == n) ≡ true → m ≡ n
eq_of_test m n e = ground arith

module _ (str : Row → List ℕ) (q : List ℕ) (s : ℕ) where
  holds-select :
      (g : ℕ → Bool) (rs : List Row)
      → holds (field 0) str q s (select (λ r. g (field 0 r)) rs)
        ≡ (g s && holds (field 0) str q s rs)
  unfolding holds
  holds-select g [] = ground arith
  holds-select g (r ∷ rs) = elim (Bool-cases (s == field 0 r)) [
    | inl e ↦
        let same : g s ≡ g (field 0 r) = ap g (eq_of_test s (field 0 r) e) in
        ground (arith, holds-select g rs)
    | inr e ↦ ground (arith, holds-select g rs)
  ]

  holds-insert_row :
      (x : Row) (ys : List Row)
      → holds (field 0) str q s (insert_row x ys) ≡ holds (field 0) str q s (x ∷ ys)
  unfolding holds insert_row
  holds-insert_row x [] = refl
  holds-insert_row x (y ∷ ys) = ground (arith, holds-insert_row x ys)

  holds-sort_unstable :
      (rs : List Row) → holds (field 0) str q s (sort_unstable rs) ≡ holds (field 0) str q s rs
  unfolding holds sort_unstable
  holds-sort_unstable [] = refl
  holds-sort_unstable (x ∷ rs) =
      ground (arith, holds-insert_row x (sort_unstable rs), holds-sort_unstable rs)

  holds-dedup_behind :
      (x : Row) (ys : List Row)
      → holds (field 0) str q s (x ∷ dedup_behind x ys) ≡ holds (field 0) str q s (x ∷ ys)
  unfolding holds dedup_behind
  holds-dedup_behind x [] = refl
  holds-dedup_behind x (y ∷ ys) = elim (cmp_cases x y) [
    | inl e ↦ ground (arith, holds-dedup_behind y ys)
    | inr (inl e) ↦ ground (
      arith,
      holds-dedup_behind x ys,
      ap (λ r. s == field 0 r && is_eq (cmp (str r) q)) (eq_of_cmp x y e),
    )
    | inr (inr e) ↦ ground (arith, holds-dedup_behind y ys)
  ]

  holds-dedup : (rs : List Row) → holds (field 0) str q s (dedup rs) ≡ holds (field 0) str q s rs
  unfolding dedup
  holds-dedup [] = refl
  holds-dedup (x ∷ rs) = holds-dedup_behind x rs

  -- An alias is kept exactly if its symbol is no variable.
  pub holds-kept_aliases :
      (b : IndexBuilder)
      → holds (field 0) str q s (kept_aliases b)
        ≡ (not (is_variable s b.syms) && holds (field 0) str q s b.aliases)
  unfolding kept_aliases
  holds-kept_aliases b =
      holds-dedup _
      ∙ holds-sort_unstable _
      ∙ holds-select (λ k. not (contains k _)) b.aliases
      ∙ ap (λ v. not v && holds (field 0) str q s b.aliases) (contains-variables s b.syms)
