-- ===== src/Roundtrip/Members.antt =====
-- Which numbers a query over packed rows returns, in terms of the rows.
use scry.Prelude.{
  ℕ, ◌≡◌, refl, arith, List, [], ◌∷◌, Bool, false, ◌==◌, ◌&&◌, ◌||◌, All, map, select,
}
use scry.Bytes.{cmp}
use scry.Format.{inh_row, call_row}
use scry.Format.Rows.{Fits}
use scry.Sorted.{Row, field, contains, mem_row}

-- Whether a pair occurs in a list.
unfoldable pub contains_pair : ℕ × ℕ → List (ℕ × ℕ) → Bool
contains_pair p [] = false
contains_pair p (q ∷ qs) = (p.0 == q.0 && p.1 == q.1) || contains_pair p qs

pub contains-second :
    (a b : ℕ) (rs : List Row)
    → All (Fits inh_row) rs
    → contains b (map (field 1) (select (λ r. field 0 r == a) rs)) ≡ mem_row (a ∷ b ∷ []) rs
unfolding contains mem_row cmp
contains-second a b [] h = refl
contains-second a b ([] ∷ rs) h = elim h.0 [ ]
contains-second a b ((x ∷ []) ∷ rs) h = elim h.0.1 [ ]
contains-second a b ((x ∷ y ∷ []) ∷ rs) h = ground (arith, contains-second a b rs h.1)
contains-second a b ((x ∷ y ∷ z ∷ r) ∷ rs) h = elim h.0.1.1 [ ]

pub contains_pair-second :
    (a b c : ℕ) (rs : List Row)
    → All (Fits call_row) rs
    → contains_pair (b, c) (map (λ r. (field 1 r, field 2 r)) (select (λ r. field 0 r == a) rs))
      ≡ mem_row (a ∷ b ∷ c ∷ []) rs
unfolding contains_pair mem_row cmp
contains_pair-second a b c [] h = refl
contains_pair-second a b c ([] ∷ rs) h = elim h.0 [ ]
contains_pair-second a b c ((x ∷ []) ∷ rs) h = elim h.0.1 [ ]
contains_pair-second a b c ((x ∷ y ∷ []) ∷ rs) h = elim h.0.1.1 [ ]
contains_pair-second a b c ((x ∷ y ∷ z ∷ []) ∷ rs) h =
    ground (arith, contains_pair-second a b c rs h.1)
contains_pair-second a b c ((x ∷ y ∷ z ∷ w ∷ r) ∷ rs) h = elim h.0.1.1.1 [ ]

-- Turned rows.
pub mem_row-swap_inh :
    (a b : ℕ) (rs : List Row)
    → All (Fits inh_row) rs
    → mem_row (b ∷ a ∷ []) (map (λ r. field 1 r ∷ field 0 r ∷ []) rs) ≡ mem_row (a ∷ b ∷ []) rs
unfolding mem_row cmp
mem_row-swap_inh a b [] h = refl
mem_row-swap_inh a b ([] ∷ rs) h = elim h.0 [ ]
mem_row-swap_inh a b ((x ∷ []) ∷ rs) h = elim h.0.1 [ ]
mem_row-swap_inh a b ((x ∷ y ∷ []) ∷ rs) h = ground (arith, mem_row-swap_inh a b rs h.1)
mem_row-swap_inh a b ((x ∷ y ∷ z ∷ r) ∷ rs) h = elim h.0.1.1 [ ]

pub mem_row-swap_call :
    (a b c : ℕ) (rs : List Row)
    → All (Fits call_row) rs
    → mem_row (b ∷ a ∷ c ∷ []) (map (λ r. field 1 r ∷ field 0 r ∷ field 2 r ∷ []) rs)
      ≡ mem_row (a ∷ b ∷ c ∷ []) rs
unfolding mem_row cmp
mem_row-swap_call a b c [] h = refl
mem_row-swap_call a b c ([] ∷ rs) h = elim h.0 [ ]
mem_row-swap_call a b c ((x ∷ []) ∷ rs) h = elim h.0.1 [ ]
mem_row-swap_call a b c ((x ∷ y ∷ []) ∷ rs) h = elim h.0.1.1 [ ]
mem_row-swap_call a b c ((x ∷ y ∷ z ∷ []) ∷ rs) h = ground (arith, mem_row-swap_call a b c rs h.1)
mem_row-swap_call a b c ((x ∷ y ∷ z ∷ w ∷ r) ∷ rs) h = elim h.0.1.1.1 [ ]
