-- ===== src/Text/Trim.antt =====
-- `trim`, `trim_end` and `trim_end_matches` on strings of bytes.
use scry.Prelude.{ℕ, List, [], ◌∷◌, Bool, false, ◌==◌, if◌then◌else◌}
use mathlib.Core.List.{reverse, flatten}
use scry.Text.{Unicode, chars, starts_char}

-- A byte goes to the group behind it, unless a character starts there.
abbrev joined : ℕ → List (List ℕ) → List (List ℕ)
joined b [] = (b ∷ []) ∷ []
joined b ([] ∷ gs) = (b ∷ []) ∷ gs
joined b ((c ∷ g) ∷ gs) = if starts_char c then (b ∷ []) ∷ (c ∷ g) ∷ gs else (b ∷ c ∷ g) ∷ gs

-- The characters of a string, each as its bytes.
unfoldable pub groups : List ℕ → List (List ℕ)
groups [] = []
groups (b ∷ bs) = joined b (groups bs)

unfoldable pub drop_while : (List ℕ → Bool) → List (List ℕ) → List (List ℕ)
drop_while p [] = []
drop_while p (g ∷ gs) = let rest = drop_while p gs in if p g then rest else g ∷ gs

module _ (u : Unicode) where
  abbrev white_code : List ℕ → Bool
  white_code [] = false
  white_code (c ∷ cs) = u.is_whitespace c

  unfoldable pub is_white : List ℕ → Bool
  is_white g = white_code (chars g)

  unfoldable pub trim_start : List ℕ → List ℕ
  unfolding groups drop_while is_white
  trim_start s = flatten (drop_while is_white (groups s))

  unfoldable pub trim_end : List ℕ → List ℕ
  unfolding groups drop_while is_white
  trim_end s = flatten (reverse (drop_while is_white (reverse (groups s))))

  -- `s.trim()`
  unfoldable pub trim : List ℕ → List ℕ
  unfolding trim_start trim_end
  trim s = trim_end (trim_start s)

-- `s.trim_end_matches(c)`, on the reversed bytes.
unfoldable pub drop_byte : ℕ → List ℕ → List ℕ
drop_byte c [] = []
drop_byte c (b ∷ s) = let rest = drop_byte c s in if b == c then rest else b ∷ s

unfoldable pub trim_end_byte : ℕ → List ℕ → List ℕ
unfolding drop_byte
trim_end_byte c s = reverse (drop_byte c (reverse s))

-- `s.trim_end_matches("ab")`, on the reversed bytes.
unfoldable pub drop_pair : ℕ → ℕ → List ℕ → List ℕ
drop_pair a b [] = []
drop_pair a b (x ∷ []) = x ∷ []
drop_pair a b (x ∷ y ∷ s) =
    let rest = drop_pair a b s in if x == b then (if y == a then rest else x ∷ y ∷ s) else x ∷ y ∷ s

unfoldable pub trim_end_pair : ℕ → ℕ → List ℕ → List ℕ
unfolding drop_pair
trim_end_pair a b s = reverse (drop_pair a b (reverse s))
