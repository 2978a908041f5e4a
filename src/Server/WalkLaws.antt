-- ===== src/Server/WalkLaws.antt =====
-- The forests that the search of server.rs builds.
use scry.Prelude.{
  ℕ, zero, suc, ◌+◌, ◌%◌, ◌≤◌, ◌<◌, ◌≡◌, refl, arith, List, [], ◌∷◌, ◌++◌, Bool, true, false, not,
  ◌==◌, if◌then◌else◌, length, length-append, get_elem?, Option, some, none, All, All-map, ◌⊎◌, inl,
  inr, ◌∙◌, ap, sym, Bool-cases,
}
use mathlib.Core.List.{append-nil, append_assoc}
use scry.Bytes.{u32_mod}
use scry.Kythe.Signature.{find}
use scry.Kythe.State.{push}
use scry.Server.Reply.{CallNode}
use scry.Text.Str.{ascii}
use scry.Server.Walk.{
  Forest, Level, Verb, seen_at, admit_at, admit, admitted, visit_one, visit_all, visit_from,
  expand_all, hop_loop,
}

-- A node at position `j`: a root, or one hop behind a node that stands before it.
abbrev pub Linked : List CallNode → ℕ → CallNode → Type 0
Linked nodes j n =
    ((n.parent ≡ none) × (n.hop ≡ 0))
    ⊎ ((p : ℕ) × (m : CallNode) × (n.parent ≡ some p)
        × (p < j)
        × (get_elem? nodes p ≡ some m)
        × (n.hop ≡ m.hop + 1))

abbrev pub IsForest : List CallNode → Type 0
IsForest nodes = (j : ℕ) (n : CallNode) → get_elem? nodes j ≡ some n → (n.id ≡ j) × Linked nodes j n

-- An entry of a frontier, whose node is `hop` hops from its root.
abbrev pub At : List CallNode → ℕ → ℕ × ℕ → Type 0
At nodes hop e = (m : CallNode) × (get_elem? nodes e.1 ≡ some m) × (m.hop ≡ hop)

get_elem?-push :
    (xs : List CallNode) (n m : CallNode) (j : ℕ)
    → get_elem? (push n xs) j ≡ some m
    → (get_elem? xs j ≡ some m) ⊎ ((j ≡ length xs) × (n ≡ m))
get_elem?-push [] n m zero h = inr (refl, some_eq h)
  where
    some_eq : {a b : CallNode} → some a ≡ some b → a ≡ b
    some_eq {a} e = ap (λ (o : Option CallNode). elim o [ none ↦ a | some c ↦ c ]) e
get_elem?-push [] n m (suc j) h = cc
get_elem?-push (x ∷ xs) n m zero h = inl h
get_elem?-push (x ∷ xs) n m (suc j) h = elim (get_elem?-push xs n m j h) [
  | inl e ↦ inl e
  | inr (e, f) ↦ inr (omega arith, f)
]

get_elem?-old :
    (xs ys : List CallNode) (j : ℕ) (m : CallNode)
    → get_elem? xs j ≡ some m
    → get_elem? (xs ++ ys) j ≡ some m
get_elem?-old [] ys j m h = cc
get_elem?-old (x ∷ xs) ys zero m h = h
get_elem?-old (x ∷ xs) ys (suc j) m h = get_elem?-old xs ys j m h

pub get_elem?-last :
    (xs : List CallNode) (n : CallNode) → get_elem? (push n xs) (length xs) ≡ some n
get_elem?-last [] n = refl
get_elem?-last (x ∷ xs) n = get_elem?-last xs n

get_elem?-below :
    (xs : List CallNode) (j : ℕ) (m : CallNode) → get_elem? xs j ≡ some m → j < length xs
get_elem?-below [] j m h = cc
get_elem?-below (x ∷ xs) zero m h = omega arith
get_elem?-below (x ∷ xs) (suc j) m h = omega (arith, get_elem?-below xs j m h)

Linked-old : (xs ys : List CallNode) (j : ℕ) (n : CallNode) → Linked xs j n → Linked (xs ++ ys) j n
Linked-old xs ys j n (inl h) = inl h
Linked-old xs ys j n (inr (p, m, a, b, c, d)) = inr (p, m, a, b, get_elem?-old xs ys p m c, d)

pub At-old : (xs ys : List CallNode) (hop : ℕ) (e : ℕ × ℕ) → At xs hop e → At (xs ++ ys) hop e
At-old xs ys hop e (m, a, b) = (m, get_elem?-old xs ys e.1 m a, b)

-- A node at the end that has the next id and is linked.
pub push-IsForest :
    (xs : List CallNode) (n : CallNode)
    → IsForest xs
    → n.id ≡ length xs
    → Linked xs (length xs) n
    → IsForest (push n xs)
push-IsForest xs n h id link j m e = elim (get_elem?-push xs n m j e) [
  | inl old ↦ ((h j m old).0, Linked-old xs (n ∷ []) j m (h j m old).1)
  | inr (last, same) ↦ rw (last, sym same) (id, Linked-old xs (n ∷ []) (length xs) n link)
]

module _ (v : Verb) (max_syms : ℕ) where
  abbrev pub new_node : ℕ → Option ℕ → List ℕ → ℕ → Forest → CallNode
  new_node s parent dir hop f = record {
    id = length f.nodes % u32_mod;
    parent = parent;
    hop = hop;
    dir = dir;
    name = v.name s;
    kind = v.kind s;
    def = v.def s;
  }

  -- No node is added, or one at the end.
  abbrev pub Admits : ℕ → Option ℕ → List ℕ → ℕ → Forest → Forest × Option ℕ → Type 0
  Admits s parent dir hop f r =
      ((r.1 ≡ none) × (r.0.nodes ≡ f.nodes))
      ⊎ ((r.1 ≡ some (length f.nodes % u32_mod))
          × (r.0.nodes ≡ push (new_node s parent dir hop f) f.nodes))

  admit_at-Admits :
      (s : ℕ) (parent : Option ℕ) (dir : List ℕ) (hop : ℕ) (f : Forest) (a b : Option ℕ)
      → Admits s parent dir hop f (admit_at v max_syms s parent dir hop f a b)
  unfolding admit_at
  admit_at-Admits s parent dir hop f (some a) b = inl (refl, refl)
  admit_at-Admits s parent dir hop f none (some b) = inl (refl, refl)
  admit_at-Admits s parent dir hop f none none = inr (refl, refl)

  pub admit-Admits :
      (s : ℕ) (parent : Option ℕ) (dir : List ℕ) (hop : ℕ) (f : Forest)
      → Admits s parent dir hop f (admit v max_syms s parent dir hop f)
  unfolding admit
  admit-Admits s parent dir hop f =
      admit_at-Admits s parent dir hop f (seen_at s f.seen) (find (v.key s) f.rendered)

  -- From `base` on nodes were added, and the next frontier is `hop` hops from its roots, unless there
  -- are too many nodes for their ids.
  abbrev Grown : ℕ → List CallNode → List CallNode → List (ℕ × ℕ) → Type 0
  Grown hop base nodes next =
      (more : List CallNode) × (nodes ≡ base ++ more)
      × (length nodes ≤ u32_mod → IsForest nodes × All (At nodes hop) next)

  pub All-push {ℓ} :
      {A : Type ℓ} (P : A → Type 0) (x : A) (xs : List A) → All P xs → P x → All P (push x xs)
  All-push P x [] h p = (p, tt)
  All-push P x (y ∷ xs) h p = (h.0, All-push P x xs h.1 p)

  -- One node more, linked to the parent.
  grow :
      (hop parent s : ℕ) (dir : List ℕ) (base : List CallNode) (f : Forest) (next : List (ℕ × ℕ))
      → Grown (suc hop) base f.nodes next
      → (length base ≤ u32_mod → At base hop (s, parent))
      → (t : ℕ)
      → Grown
          (suc hop)
          base
          (push (new_node t (some parent) dir (suc hop) f) f.nodes)
          (push (t, length f.nodes % u32_mod) next)
  grow hop parent s dir base f next (more, e, ok) at_parent t = (
    push node more,
    ap (λ l. push node l) e ∙ append_assoc base more (node ∷ []),
    λ le.
        let small : length f.nodes < u32_mod = omega (arith, length-append f.nodes (node ∷ [])) in
        let (forest, level) = ok (omega arith) in
        let (m, found, hops) =
          at_parent
            (omega (arith, ap (λ (l : List CallNode). length l) e, length-append base more)) in
        let old : get_elem? f.nodes parent ≡ some m =
          rw e (get_elem?-old base more parent m found) in
        let id : length f.nodes % u32_mod ≡ length f.nodes = omega arith in
        (
          push-IsForest f.nodes node forest id (
              inr
                (parent, m, refl, get_elem?-below f.nodes parent m old, old, omega (arith, hops))),
          All-push (At (push node f.nodes) (suc hop)) (t, length f.nodes % u32_mod) next
              (All-map (At-old f.nodes (node ∷ []) (suc hop)) next level)
              (
                node,
                ap (λ (j : ℕ). get_elem? (push node f.nodes) j) id ∙ get_elem?-last f.nodes node,
                refl,
              ),
        ),
  )
    where
      node : CallNode
      node = new_node t (some parent) dir (suc hop) f

  admitted-Grown :
      (hop parent s t : ℕ) (dir : List ℕ) (base : List CallNode) (w : Level)
      → Grown (suc hop) base w.forest.nodes w.next
      → (length base ≤ u32_mod → At base hop (s, parent))
      → (r : Forest × Option ℕ) → Admits t (some parent) dir (suc hop) w.forest r
      → Grown
          (suc hop)
          base
          (admitted v max_syms t w r).forest.nodes
          (admitted v max_syms t w r).next
  unfolding admitted
  admitted-Grown hop parent s t dir base w g p (f, none) (inl (_, e)) = rw e g
  admitted-Grown hop parent s t dir base w g p (f, none) (inr (e, _)) = cc
  admitted-Grown hop parent s t dir base w g p (f, some id) (inl (e, _)) = cc
  admitted-Grown hop parent s t dir base w g p (f, some id) (inr (i, e)) =
      rw (e, id_eq i) (grow hop parent s dir base w.forest w.next g p t)
    where
      id_eq : {a b : ℕ} → some a ≡ some b → a ≡ b
      id_eq h = ap (λ (o : Option ℕ). elim o [ none ↦ 0 | some c ↦ c ]) h

  visit_one-Grown :
      (hop parent s t : ℕ) (dir : List ℕ) (base : List CallNode) (w : Level)
      → Grown (suc hop) base w.forest.nodes w.next
      → (length base ≤ u32_mod → At base hop (s, parent))
      → Grown
          (suc hop)
          base
          (visit_one v max_syms parent dir (suc hop) t w).forest.nodes
          (visit_one v max_syms parent dir (suc hop) t w).next
  unfolding visit_one
  visit_one-Grown hop parent s t dir base w g p =
      by_tests w.truncated (v.pass t)
        (admitted v max_syms t w (admit v max_syms t (some parent) dir (suc hop) w.forest))
        (admitted-Grown hop parent s t dir base w g p
          (admit v max_syms t (some parent) dir (suc hop) w.forest)
          (admit-Admits t (some parent) dir (suc hop) w.forest))
    where
      by_tests :
          (a b : Bool) (w' : Level)
          → Grown (suc hop) base w'.forest.nodes w'.next
          → Grown
              (suc hop)
              base
              (if a then w else if not b then w else w').forest.nodes
              (if a then w else if not b then w else w').next
      by_tests true b w' g' = g
      by_tests false true w' g' = g'
      by_tests false false w' g' = g

  visit_all-Grown :
      (hop parent s : ℕ) (dir : List ℕ) (base : List CallNode) (ts : List ℕ) (w : Level)
      → Grown (suc hop) base w.forest.nodes w.next
      → (length base ≤ u32_mod → At base hop (s, parent))
      → Grown
          (suc hop)
          base
          (visit_all v max_syms parent dir (suc hop) ts w).forest.nodes
          (visit_all v max_syms parent dir (suc hop) ts w).next
  unfolding visit_all
  visit_all-Grown hop parent s dir base [] w g p = g
  visit_all-Grown hop parent s dir base (t ∷ ts) w g p =
      visit_all-Grown hop parent s dir base ts (visit_one v max_syms parent dir (suc hop) t w)
        (visit_one-Grown hop parent s t dir base w g p) p

  visit_from-Grown :
      (edges : Option (ℕ → List ℕ)) (hop parent s : ℕ) (dir : List ℕ) (base : List CallNode)
      (w : Level)
      → Grown (suc hop) base w.forest.nodes w.next
      → (length base ≤ u32_mod → At base hop (s, parent))
      → Grown
          (suc hop)
          base
          (visit_from v max_syms edges s parent dir (suc hop) w).forest.nodes
          (visit_from v max_syms edges s parent dir (suc hop) w).next
  unfolding visit_from
  visit_from-Grown none hop parent s dir base w g p = g
  visit_from-Grown (some edges) hop parent s dir base w g p =
      visit_all-Grown hop parent s dir base (edges s) w g p

  expand_all-Grown :
      (hop : ℕ) (base : List CallNode) (frontier : List (ℕ × ℕ)) (w : Level)
      → Grown (suc hop) base w.forest.nodes w.next
      → (length base ≤ u32_mod → All (At base hop) frontier)
      → Grown
          (suc hop)
          base
          (expand_all v max_syms (suc hop) frontier w).forest.nodes
          (expand_all v max_syms (suc hop) frontier w).next
  unfolding expand_all
  expand_all-Grown hop base [] w g p = g
  expand_all-Grown hop base ((s, id) ∷ frontier) w g p =
      let above = visit_from v max_syms v.up s id (ascii "up") (suc hop) w in
      expand_all-Grown hop base frontier
        (visit_from v max_syms v.down s id (ascii "down") (suc hop) above)
        (visit_from-Grown v.down hop id s (ascii "down") base above
          (visit_from-Grown v.up hop id s (ascii "up") base w g (λ le. (p le).0)) (λ le. (p le).0))
        (λ le. (p le).1)

  pub hop_loop-IsForest :
      (n hop : ℕ) (frontier : List (ℕ × ℕ)) (f : Forest)
      → (length f.nodes ≤ u32_mod → IsForest f.nodes × All (At f.nodes hop) frontier)
      → length (hop_loop v max_syms n (suc hop) frontier f).0.nodes ≤ u32_mod
      → IsForest (hop_loop v max_syms n (suc hop) frontier f).0.nodes
  unfolding hop_loop
  hop_loop-IsForest zero hop frontier f h = λ le. (h le).0
  hop_loop-IsForest (suc n) hop frontier f h =
      let w =
        expand_all v max_syms (suc hop) frontier
          (record { forest = f; next = []; truncated = false }) in
      let (more, e, ok) =
        expand_all-Grown hop f.nodes frontier (record { forest = f; next = []; truncated = false })
          ([], sym (append-nil f.nodes), λ le. ((h le).0, tt)) (λ le. (h le).1) in
      elim (Bool-cases w.truncated) [
        | inl t ↦ rw t (λ le. (ok le).0)
        | inr t ↦ elim (Bool-cases (length w.next == 0)) [
          | inl z ↦ rw (t, z) (λ le. (ok le).0)
          | inr z ↦ rw (t, z) (hop_loop-IsForest n (suc hop) w.next w.forest ok)
        ]
      ]
