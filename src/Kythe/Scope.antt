-- ===== src/Kythe/Scope.antt =====
-- `innermost_containing` of kythe.rs: the function body that a call site lies in.
use scry.Prelude.{
  ℕ, zero, suc, List, [], ◌∷◌, Bool, ◌&&◌, ◌||◌, leb, ltb, ◌==◌, if◌then◌else◌, get_elem?, Option,
  some, none,
}

-- A row of `body_anchors`.
pub record Anchor : Type 0 where
  pub file : ℕ
  pub start : ℕ
  pub end : ℕ
  pub sym : ℕ

-- `(f, s) <= (file, off)`
abbrev pub key_le : ℕ → ℕ → Anchor → Bool
key_le file off a = ltb a.file file || ((a.file == file) && leb a.start off)

-- `slice.partition_point(p)` on a slice that is partitioned by `p`.
unfoldable pub partition_point : (Anchor → Bool) → List Anchor → ℕ
partition_point p [] = 0
partition_point p (a ∷ rows) = let rest = suc (partition_point p rows) in if p a then rest else 0

-- `while i > file_start { i -= 1; .. }`
unfoldable pub containing_loop : List Anchor → ℕ → ℕ → ℕ → Option ℕ
containing_loop anchors file_start off zero = none
containing_loop anchors file_start off (suc i) =
    let next = containing_loop anchors file_start off i in
    let here : Option ℕ = elim (get_elem? anchors i) [
      | none ↦ none
      | some a ↦ if ltb off a.end then some a.sym else next
    ] in
    if ltb file_start (suc i) then here else none

unfoldable pub innermost_containing : List Anchor → ℕ → ℕ → Option ℕ
innermost_containing anchors file off =
    containing_loop anchors (partition_point (λ a. ltb a.file file) anchors) off
      (partition_point (key_le file off) anchors)
