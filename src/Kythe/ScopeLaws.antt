-- ===== src/Kythe/ScopeLaws.antt =====
-- The backward scan of kythe.rs finds what a forward scan for the smallest span finds.
use scry.Prelude.{
  ℕ, zero, suc, ◌-◌, ◌≤◌, ◌<◌, ◌≡◌, refl, arith, List, [], ◌∷◌, ◌++◌, Bool, true, false, ◌&&◌, leb,
  ltb, ◌==◌, if◌then◌else◌, length, get_elem?, take, Option, some, none, All, ◌∙◌, ap, sym,
  Bool-cases, inl, inr, ◌⊎◌, All-get_elem?,
}
use scry.Kythe.Scope.{Anchor, key_le, partition_point, containing_loop, innermost_containing}

-- The row covers the point.
abbrev pub covers : ℕ → ℕ → Anchor → Bool
covers file off a = (a.file == file) && (leb a.start off && ltb off a.end)

-- In the order of the sort: by file, then by start.
abbrev pub NotBefore : Anchor → Anchor → Type 0
NotBefore a b = (a.file < b.file) ⊎ ((a.file ≡ b.file) × (a.start ≤ b.start))

-- Of two bodies in one file the later one lies behind the earlier one, or inside it.
abbrev pub Nested : Anchor → Anchor → Type 0
Nested a b = a.file ≡ b.file → b.start < a.end → b.end ≤ a.end

abbrev pub Bodies : List Anchor → Type 0
Bodies [] = Unit
Bodies (a ∷ rows) = All (NotBefore a) rows × All (Nested a) rows × Bodies rows

-- The forward scan: a row that covers the point replaces the best one so far unless it is longer.
unfoldable pub smallest : ℕ → ℕ → Option Anchor → List Anchor → Option Anchor
smallest file off best [] = best
smallest file off best (a ∷ rows) =
    smallest file off
      (if covers file off a
        then elim best [
          | none ↦ some a
          | some b ↦ if leb (a.end - a.start) (b.end - b.start) then some a else some b
        ]
        else best)
      rows

-- The last row that covers the point.
last_cover : ℕ → ℕ → Option Anchor → List Anchor → Option Anchor
last_cover file off best [] = best
last_cover file off best (a ∷ rows) =
    last_cover file off (if covers file off a then some a else best) rows

-- A later row that covers the point is no longer than an earlier one.
later-shorter :
    (file off : ℕ) (best a : Anchor)
    → covers file off best ≡ true
    → covers file off a ≡ true
    → NotBefore best a
    → Nested best a
    → leb (a.end - a.start) (best.end - best.start) ≡ true
later-shorter file off best a c e o n = ground (arith, n (ground arith) (ground arith))

smallest-last :
    (file off : ℕ) (best : Anchor) (rows : List Anchor)
    → covers file off best ≡ true
    → All (NotBefore best) rows
    → All (Nested best) rows
    → Bodies rows
    → smallest file off (some best) rows ≡ last_cover file off (some best) rows
unfolding smallest last_cover
smallest-last file off best [] c o n h = refl
smallest-last file off best (a ∷ rows) c o n h = elim (Bool-cases (covers file off a)) [
  | inl e ↦
      rw (e, later-shorter file off best a c e o.0 n.0)
        (smallest-last file off a rows e h.0 h.1 h.2)
  | inr e ↦ rw e (smallest-last file off best rows c o.1 n.1 h.2)
]

smallest-last_none :
    (file off : ℕ) (rows : List Anchor)
    → Bodies rows
    → smallest file off none rows ≡ last_cover file off none rows
unfolding smallest last_cover
smallest-last_none file off [] h = refl
smallest-last_none file off (a ∷ rows) h = elim (Bool-cases (covers file off a)) [
  | inl e ↦ rw e (smallest-last file off a rows e h.0 h.1 h.2)
  | inr e ↦ rw e (smallest-last_none file off rows h.2)
]

-- A test that holds on an initial part of a sorted list.
module _ (p : Anchor → Bool) (down : (a b : Anchor) → NotBefore a b → p b ≡ true → p a ≡ true) where
  partition_point-get_elem? :
      (rows : List Anchor) (j : ℕ) (a : Anchor)
      → Bodies rows
      → get_elem? rows j ≡ some a
      → ltb j (partition_point p rows) ≡ p a
  unfolding partition_point
  partition_point-get_elem? [] j a h e = cc
  partition_point-get_elem? (b ∷ rows) zero a h e = ground arith
  partition_point-get_elem? (b ∷ rows) (suc j) a h e = elim (Bool-cases (p b)) [
    | inl t ↦ rw t (ground (arith, partition_point-get_elem? rows j a h.2 e))
    | inr f ↦ ground (arith, f, down b a (All-get_elem? (NotBefore b) rows j h.0 e))
  ]

  -- The rows behind that part do not matter to the last cover, if none of them covers the point.
  module _ (file off : ℕ) (inside : (a : Anchor) → covers file off a ≡ true → p a ≡ true) where
    last_cover-behind :
        (best : Option Anchor) (a : Anchor) (rows : List Anchor)
        → p a ≡ false
        → All (NotBefore a) rows
        → last_cover file off best rows ≡ best
    unfolding last_cover
    last_cover-behind best a [] f o = refl
    last_cover-behind best a (b ∷ rows) f o =
        let cb : covers file off b ≡ false = ground (arith, down a b o.0, inside b) in
        rw cb (last_cover-behind best a rows f o.1)

    last_cover-take :
        (rows : List Anchor) (best : Option Anchor)
        → Bodies rows
        → last_cover file off best (take (partition_point p rows) rows)
          ≡ last_cover file off best rows
    unfolding last_cover partition_point
    last_cover-take [] best h = refl
    last_cover-take (a ∷ rows) best h = elim (Bool-cases (p a)) [
      | inl t ↦ rw t (last_cover-take rows (if covers file off a then some a else best) h.2)
      | inr f ↦
          let ca : covers file off a ≡ false = ground (arith, f, inside a) in
          rw (f, ca) (sym (last_cover-behind best a rows f h.0))
    ]

abbrev pub sym_of_row : Option Anchor → Option ℕ
sym_of_row none = none
sym_of_row (some a) = some a.sym

last_cover-snoc :
    (file off : ℕ) (best : Option Anchor) (rows : List Anchor) (a : Anchor)
    → last_cover file off best (rows ++ (a ∷ []))
      ≡ (if covers file off a then some a else last_cover file off best rows)
unfolding last_cover
last_cover-snoc file off best [] a = refl
last_cover-snoc file off best (b ∷ rows) a =
    last_cover-snoc file off (if covers file off b then some b else best) rows a

take-snoc :
    (rows : List Anchor) (i : ℕ) (a : Anchor)
    → get_elem? rows i ≡ some a
    → take (suc i) rows ≡ take i rows ++ (a ∷ [])
take-snoc [] i a e = cc
take-snoc (b ∷ rows) zero a e = cc
take-snoc (b ∷ rows) (suc i) a e = ap (λ t. b ∷ t) (take-snoc rows i a e)

get_elem?-within :
    (rows : List Anchor) (i : ℕ) → i < length rows → (a : Anchor) × (get_elem? rows i ≡ some a)
get_elem?-within [] i h = absurd (omega arith)
get_elem?-within (a ∷ rows) zero h = (a, refl)
get_elem?-within (a ∷ rows) (suc i) h = get_elem?-within rows i (omega arith)

-- One step of the scan, at a row that starts in the file, or one of an earlier file.
below_row :
    (file off : ℕ) (started : Bool) (a : Anchor) (next : Option ℕ) (before : Option Anchor)
    → next ≡ sym_of_row before
    → (started ≡ true → covers file off a ≡ ltb off a.end)
    → (started ≡ false → covers file off a ≡ false)
    → (started ≡ false → next ≡ none)
    → (if started then (if ltb off a.end then some a.sym else next) else none)
      ≡ sym_of_row (if covers file off a then some a else before)
below_row file off true a next before h k _ _ = rw (k refl) (ground (arith, h))
below_row file off false a next before h _ k l = rw (k refl) (sym (l refl) ∙ h)

module _ (file off : ℕ) (rows : List Anchor) (h : Bodies rows) where
  abbrev file_start : ℕ
  file_start = partition_point (λ a. ltb a.file file) rows

  abbrev upper : ℕ
  upper = partition_point (key_le file off) rows

  in_file :
      (j : ℕ) (a : Anchor)
      → get_elem? rows j ≡ some a
      → (ltb j file_start ≡ ltb a.file file) × (ltb j upper ≡ key_le file off a)
  in_file j a e = (
    partition_point-get_elem? (λ a. ltb a.file file) (λ a b o t. ground arith) rows j a h e,
    partition_point-get_elem? (key_le file off) (λ a b o t. ground arith) rows j a h e,
  )

  partition_point-le : (p : Anchor → Bool) (rs : List Anchor) → partition_point p rs ≤ length rs
  unfolding partition_point
  partition_point-le p [] = omega arith
  partition_point-le p (a ∷ rs) = ground (arith, partition_point-le p rs)

  containing_loop-low : (i : ℕ) → i ≤ file_start → containing_loop rows file_start off i ≡ none
  unfolding containing_loop
  containing_loop-low zero le = refl
  containing_loop-low (suc i) le = ground arith

  containing_loop-last :
      (i : ℕ)
      → i ≤ upper
      → containing_loop rows file_start off i ≡ sym_of_row (last_cover file off none (take i rows))
  unfolding containing_loop last_cover
  containing_loop-last zero le = refl
  containing_loop-last (suc i) le =
      let (a, e) =
        get_elem?-within rows i (omega (arith, partition_point-le (key_le file off) rows)) in
      let (f, k) = in_file i a e in
      rw (e, take-snoc rows i a e, last_cover-snoc file off none (take i rows) a)
        (below_row file off (ltb file_start (suc i)) a (containing_loop rows file_start off i)
          (last_cover file off none (take i rows)) (containing_loop-last i (omega arith))
          (λ t. ground arith) (λ t. ground arith) (λ t. containing_loop-low i (ground arith)))

  -- The scan returns the last row that covers the point.
  innermost_containing-last :
      innermost_containing rows file off ≡ sym_of_row (last_cover file off none rows)
  unfolding innermost_containing
  innermost_containing-last =
      containing_loop-last upper (omega arith)
      ∙ ap sym_of_row (
          last_cover-take (key_le file off) (λ a b o t. ground arith) file off (λ a c. ground arith)
            rows none h)

-- Take function bodies in the order of the sort, by file and start, each of which lies behind the
-- earlier ones of its file or inside them. The backward scan then finds the same function as a
-- forward scan over all bodies for the smallest span that covers the call site, the later of two
-- equal ones, and none where that scan finds none.
pub innermost_containing-smallest :
    (rows : List Anchor) (file off : ℕ)
    → Bodies rows
    → innermost_containing rows file off ≡ sym_of_row (smallest file off none rows)
innermost_containing-smallest rows file off h =
    innermost_containing-last file off rows h
    ∙ ap sym_of_row (sym (smallest-last_none file off rows h))
