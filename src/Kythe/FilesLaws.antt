-- ===== src/Kythe/FilesLaws.antt =====
-- The ids that the allocator of kythe.rs hands out: a path keeps its id, and two paths never share
-- one.
use scry.Prelude.{
  ℕ, ◌+◌, ◌<◌, ◌≡◌, refl, arith, List, [], ◌∷◌, ◌++◌, Bool, true, false, if◌then◌else◌, Option,
  some, none, ◌∙◌, ap, sym, Bool-cases, Option-cases, inl, inr, ◌⊎◌, ◌↔◌,
}
use scry.Bytes.{u32_mod}
use scry.Text.Str.{same}
use scry.Text.StrLaws.{eq_of_same, same_refl}
use scry.Kythe.Signature.{find, put}
use scry.Kythe.Files.{Slot, AllocState, add_path, intern, intern_at}

-- Of three strings, the first is the second and not the third.
apart_of : (i j k : List ℕ) → same i k ≡ false → same i j ≡ true → same k j ≡ false
apart_of i j k e f = elim (Bool-cases (same k j)) [
  | inl h ↦ cc (eq_of_same i j f, eq_of_same k j h, same_refl k, e)
  | inr h ↦ h
]

module _ {ℓ} {V : Type ℓ} where
  pub find-put :
      (k j : List ℕ) (v : V) (m : List (List ℕ × V))
      → find j (put k v m) ≡ (if same k j then some v else find j m)
  unfolding find put
  find-put k j v [] = refl
  find-put k j v ((i, w) ∷ m) = elim (Bool-cases (same i k)) [
    | inl e ↦ rw (e, eq_of_same i k e) (by_test (same k j))
    | inr e ↦ elim (Bool-cases (same i j)) [
      | inl f ↦ rw (e, f, apart_of i j k e f) refl
      | inr f ↦ rw (e, f) (find-put k j v m)
    ]
  ]
    where
      by_test :
          (b : Bool)
          → (if b then some v else find j m)
            ≡ (if b then some v else if b then some w else find j m)
      by_test true = refl
      by_test false = refl

  pub find-append :
      (j k : List ℕ) (v : V) (m : List (List ℕ × V))
      → find j m ≡ none
      → find j (m ++ ((k, v) ∷ [])) ≡ (if same k j then some v else none)
  unfolding find
  find-append j k v [] h = refl
  find-append j k v ((i, w) ∷ m) h = ground (arith, find-append j k v m)

  pub find-append_old :
      (j k : List ℕ) (v e : V) (m : List (List ℕ × V))
      → find j m ≡ some e
      → find j (m ++ ((k, v) ∷ [])) ≡ some e
  unfolding find
  find-append_old j k v e [] h = cc
  find-append_old j k v e ((i, w) ∷ m) h = ground (arith, find-append_old j k v e m)

-- Every id lies below the counter, and belongs to one path.
pub record IsAlloc (g : AllocState) : Type 0 where
  pub below : (p : List ℕ) (e : Slot) → find p g.table ≡ some e → e.id < g.next
  pub apart :
      (p q : List ℕ) (e f : Slot)
      → find p g.table ≡ some e
      → find q g.table ≡ some f
      → e.id ≡ f.id
      → p ≡ q

abbrev mark : ℕ → Slot
mark id = record { id = id; accessed = true }

intern-vacant :
    (p : List ℕ) (g : AllocState) → find p g.table ≡ none → intern p g ≡ (add_path true p g, g.next)
unfolding intern intern_at
intern-vacant p g e = rw e refl

intern-occupied :
    (p : List ℕ) (g : AllocState) (s : Slot)
    → find p g.table ≡ some s
    → intern p g ≡ (record g { table = put p (mark s.id) g.table }, s.id)
unfolding intern intern_at
intern-occupied p g s e = rw e refl

-- The path has the id that `intern` returned.
intern-found :
    (p : List ℕ) (g : AllocState) → find p (intern p g).0.table ≡ some (mark (intern p g).1)
unfolding add_path
intern-found p g = elim (Option-cases (find p g.table)) [
  | inl e ↦ rw (intern-vacant p g e, find-append p p (mark g.next) g.table e, same_refl p) refl
  | inr (s, e) ↦ rw (intern-occupied p g s e, find-put p p (mark s.id) g.table, same_refl p) refl
]

-- Any other path keeps its slot.
intern-other :
    (p q : List ℕ) (g : AllocState)
    → same p q ≡ false
    → find q (intern p g).0.table ≡ find q g.table
unfolding add_path
intern-other p q g n = elim (Option-cases (find p g.table)) [
  | inl e ↦ elim (Option-cases (find q g.table)) [
    | inl f ↦ rw (intern-vacant p g e, find-append q p (mark g.next) g.table f, n, f) refl
    | inr (s, f) ↦ rw (intern-vacant p g e, find-append_old q p (mark g.next) s g.table f, f) refl
  ]
  | inr (s, e) ↦ rw (intern-occupied p g s e, find-put p q (mark s.id) g.table, n) refl
]

-- The id is the one that the path had, or the counter, which moves on.
intern-origin :
    (p : List ℕ) (g : AllocState)
    → g.next + 1 < u32_mod
    → ((s : Slot) × (find p g.table ≡ some s)
        × (s.id ≡ (intern p g).1)
        × ((intern p g).0.next ≡ g.next))
      ⊎ (((intern p g).1 ≡ g.next) × ((intern p g).0.next ≡ g.next + 1))
unfolding add_path
intern-origin p g room = elim (Option-cases (find p g.table)) [
  | inl e ↦ rw (intern-vacant p g e) (inr (refl, omega arith))
  | inr (s, e) ↦ rw (intern-occupied p g s e) (inl (s, e, refl, refl))
]

id_eq : {e f : Slot} → some e ≡ some f → e.id ≡ f.id
id_eq h = ap (λ (o : Option Slot). elim o [ none ↦ 0 | some s ↦ s.id ]) h

-- A slot afterwards is that of the path itself, or an old one.
intern-slot :
    (p q : List ℕ) (g : AllocState) (e : Slot)
    → find q (intern p g).0.table ≡ some e
    → ((p ≡ q) × (e.id ≡ (intern p g).1)) ⊎ (find q g.table ≡ some e)
intern-slot p q g e h = elim (Bool-cases (same p q)) [
  | inl t ↦
      let pq = eq_of_same p q t in
      let found : find q (intern p g).0.table ≡ some (mark (intern p g).1) =
        rw (sym pq) (intern-found p g) in
      inl (pq, id_eq (sym h ∙ found))
  | inr f ↦ inr (sym (intern-other p q g f) ∙ h)
]

-- An id that the path shares with an older path's slot.
intern-shared :
    (p q : List ℕ) (g : AllocState) (f : Slot)
    → IsAlloc g
    → g.next + 1 < u32_mod
    → find q g.table ≡ some f
    → f.id ≡ (intern p g).1
    → p ≡ q
intern-shared p q g f a room h same_id = elim (intern-origin p g room) [
  | inl (s, found, id, next) ↦ a.apart p q s f found h (id ∙ sym same_id)
  | inr (id, next) ↦ absurd (omega (arith, a.below q f h))
]

pub intern-IsAlloc :
    (p : List ℕ) (g : AllocState) → IsAlloc g → g.next + 1 < u32_mod → IsAlloc (intern p g).0
intern-IsAlloc p g a room = record {
  below = λ q e h. elim (intern-slot p q g e h) [
    | inl (pq, id) ↦ elim (intern-origin p g room) [
      | inl (s, found, same_id, next) ↦ omega (arith, a.below p s found)
      | inr (fresh, next) ↦ omega arith
    ]
    | inr old ↦ elim (intern-origin p g room) [
      | inl (s, found, same_id, next) ↦ omega (arith, a.below q e old)
      | inr (fresh, next) ↦ omega (arith, a.below q e old)
    ]
  ];
  apart = λ q r e f h k same_id. elim (intern-slot p q g e h) [
    | inl (pq, id) ↦ elim (intern-slot p r g f k) [
      | inl (pr, _) ↦ sym pq ∙ pr
      | inr old ↦ sym pq ∙ intern-shared p r g f a room old (sym same_id ∙ id)
    ]
    | inr old ↦ elim (intern-slot p r g f k) [
      | inl (pr, id) ↦ sym (intern-shared p q g e a room old (same_id ∙ id)) ∙ pr
      | inr older ↦ a.apart q r e f old older same_id
    ]
  ];
}

-- Two paths that are interned one after the other get the same id exactly if they are the same
-- path, as long as the counter stays below 2^32 and the ids given out before lie below it and belong
-- to one path each.
pub intern_ids :
    (p q : List ℕ) (g : AllocState)
    → IsAlloc g
    → g.next + 2 < u32_mod
    → ((intern q (intern p g).0).1 ≡ (intern p g).1) ↔ (p ≡ q)
intern_ids p q g a room = (
  λ same_id. sym (
      intern-shared q p (intern p g).0 (mark (intern p g).1) (intern-IsAlloc p g a (omega arith))
        next_room (intern-found p g) (sym same_id)),
  λ pq. rw (sym pq) (
      ap (λ (r : AllocState × ℕ). r.1)
        (intern-occupied p (intern p g).0 (mark (intern p g).1) (intern-found p g))),
)
  where
    next_room : (intern p g).0.next + 1 < u32_mod
    next_room = elim (intern-origin p g (omega arith)) [
      | inl (s, found, id, next) ↦ omega arith
      | inr (id, next) ↦ omega arith
    ]

-- Interned again, a path has the id that it got.
pub intern_again : (p : List ℕ) (g : AllocState) → (intern p (intern p g).0).1 ≡ (intern p g).1
intern_again p g =
    ap (λ (r : AllocState × ℕ). r.1)
      (intern-occupied p (intern p g).0 (mark (intern p g).1) (intern-found p g))
