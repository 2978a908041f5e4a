-- ===== src/Writer/Names.antt =====
-- The choice between two display names of one symbol: `is_ticket_name`, `is_degenerate_name` and
-- `prefers_name` of writer.rs.
use scry.Prelude.{ℕ, List, [], ◌∷◌, Bool, true, false, not, ◌||◌, if◌then◌else◌, length}
use scry.Sorted.{row_lt}
use scry.Text.{Unicode, chars, trim, any, starts_with}

-- b"kythe:"
abbrev pub ticket_prefix : List ℕ
ticket_prefix = b'k' ∷ b'y' ∷ b't' ∷ b'h' ∷ b'e' ∷ b':' ∷ []

abbrev pub is_empty : List ℕ → Bool
is_empty [] = true
is_empty (x ∷ xs) = false

unfoldable pub is_ticket_name : List ℕ → Bool
is_ticket_name name = starts_with name ticket_prefix

-- `(cand.len(), cand) < (cur.len(), cur)`
abbrev pub shorter : List ℕ → List ℕ → Bool
shorter cand cur = row_lt (length cand ∷ cand) (length cur ∷ cur)

-- Two usable names: a ticket never replaces a name that is none, then the shorter wins.
unfoldable pub prefers_usable : Bool → Bool → List ℕ → List ℕ → Bool
prefers_usable true false cur cand = true
prefers_usable false true cur cand = false
prefers_usable _ _ cur cand = shorter cand cur

unfoldable pub prefers_by_use : Bool → Bool → List ℕ → List ℕ → Bool
prefers_by_use false true cur cand = false
prefers_by_use true false cur cand = true
prefers_by_use true true cur cand = false
prefers_by_use false false cur cand =
    prefers_usable (is_ticket_name cur) (is_ticket_name cand) cur cand

module _ (u : Unicode) where
  unfoldable pub is_degenerate_name : List ℕ → Bool
  is_degenerate_name name =
      let t = trim u (chars name) in is_empty t || not (any u.is_alphanumeric t)

  -- Whether `cand` replaces `cur`.
  unfoldable pub prefers_name : List ℕ → List ℕ → Bool
  unfolding prefers_by_use prefers_usable
  prefers_name cur cand =
      if is_empty cand
      then false
      else if is_empty cur
      then true
      else prefers_by_use (is_degenerate_name cur) (is_degenerate_name cand) cur cand

  -- `if prefers_name(cur, cand) { cand } else { cur }`
  unfoldable pub better_name : List ℕ → List ℕ → List ℕ
  unfolding prefers_name
  better_name cur cand = if prefers_name cur cand then cand else cur
