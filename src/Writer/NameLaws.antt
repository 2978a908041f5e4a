-- ===== src/Writer/NameLaws.antt =====
-- In what order names arrive does not matter, as long as they are usable.
use scry.Prelude.{
  ℕ, ◌≡◌, refl, arith, List, [], ◌∷◌, true, false, ◌&&◌, ◌||◌, if◌then◌else◌, length, ltb, leb,
  ◌==◌,
}
use scry.Sorted.Compare.{row_lt_trans, row_lt_asym, row_lt_negtrans, row_lt_total}
use scry.Text.{Unicode}
use scry.Writer.Names.{
  is_empty, is_ticket_name, is_degenerate_name, prefers_name, better_name, shorter,
}

-- How good a name is: empty, degenerate, ticket, or a name that a human can read.
rank : Unicode → List ℕ → ℕ
rank u n =
    if is_empty n
    then 0
    else if is_degenerate_name u n
    then 1
    else if is_ticket_name n
    then 2
    else 3

-- `prefers_name` compares ranks, and among usable names of one rank it takes the shorter.
prefers_name-rank :
    (u : Unicode) (cur cand : List ℕ)
    → prefers_name u cur cand ≡ (
        ltb (rank u cur) (rank u cand)
        || (rank u cur == rank u cand && (leb 2 (rank u cur) && shorter cand cur)))
unfolding prefers_name rank
prefers_name-rank u cur cand = ground arith

cons_tail : (a b : List ℕ) → length a ∷ a ≡ length b ∷ b → a ≡ b
cons_tail a b e = cc

shorter_total : (a b : List ℕ) → shorter a b ≡ false → shorter b a ≡ false → a ≡ b
shorter_total a b p q = cons_tail a b (row_lt_total (length a ∷ a) (length b ∷ b) p q)

empty_eq : (u : Unicode) (a b : List ℕ) → rank u a ≡ 0 → rank u b ≡ 0 → a ≡ b
unfolding rank
empty_eq u [] [] p q = refl
empty_eq u [] (y ∷ ys) p q = absurd (ground arith)
empty_eq u (x ∷ xs) b p q = absurd (ground arith)

module _ (u : Unicode) (a b c : List ℕ) where
  pub prefers_trans :
      prefers_name u a b ≡ true → prefers_name u b c ≡ true → prefers_name u a c ≡ true
  prefers_trans p q = ground (
    arith,
    prefers_name-rank u a b,
    prefers_name-rank u b c,
    prefers_name-rank u a c,
    row_lt_trans (length c ∷ c) (length b ∷ b) (length a ∷ a),
  )

  prefers_negtrans :
      prefers_name u a b ≡ false → prefers_name u b c ≡ false → prefers_name u a c ≡ false
  prefers_negtrans p q = ground (
    arith,
    prefers_name-rank u a b,
    prefers_name-rank u b c,
    prefers_name-rank u a c,
    row_lt_negtrans (length a ∷ a) (length b ∷ b) (length c ∷ c),
  )

pub prefers_self : (u : Unicode) (a : List ℕ) → prefers_name u a a ≡ false
prefers_self u a =
    ground (arith, prefers_name-rank u a a, row_lt_asym (length a ∷ a) (length a ∷ a))

rank_degenerate :
    (u : Unicode) (a b : List ℕ)
    → (is_degenerate_name u a && is_degenerate_name u b) ≡ false
    → (rank u a ≡ 1)
    → (rank u b ≡ 1)
    → ⊥
unfolding rank
rank_degenerate u a b h p q = ground arith

-- Of two names that are not both degenerate the same one is kept, whichever comes first.
pub better_name_comm :
    (u : Unicode) (a b : List ℕ)
    → (is_degenerate_name u a && is_degenerate_name u b) ≡ false
    → better_name u a b ≡ better_name u b a
unfolding better_name
better_name_comm u a b h = ground (
  arith,
  prefers_name-rank u a b,
  prefers_name-rank u b a,
  row_lt_asym (length a ∷ a) (length b ∷ b),
  shorter_total a b,
  empty_eq u a b,
  rank_degenerate u a b h,
)

-- Merging names in groups keeps the same name as merging them one by one, degenerate or not.
pub better_name_assoc :
    (u : Unicode) (a b c : List ℕ)
    → better_name u (better_name u a b) c ≡ better_name u a (better_name u b c)
unfolding better_name
better_name_assoc u a b c = ground (arith, prefers_trans u a b c, prefers_negtrans u a b c)
