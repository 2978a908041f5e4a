-- ===== src/Kythe/AnchorLaws.antt =====
-- The facts and the definition edge of one anchor in kythe.rs, in any order.
use scry.Prelude.{ℕ, ◌≡◌, List, [], ◌∷◌, ◌++◌, map, false, All}
use scry.Format.Role
use scry.Text.{Unicode}
use scry.Kythe.Wire.{VName}
use scry.Kythe.Edges.{to_symbol_string, is_no_name}
use scry.Kythe.Files.{intern}
use scry.Kythe.FilesLaws.{intern_again}
use scry.Kythe.State.{AnchorAccum, World, no_anchor, push}
use scry.Kythe.Anchors.{
  touch_file, push_site, emit_xref_resolved, flush_target, flush_targets, flush_at, flush_ready,
  edge_body, edge_at, anchor_edge, anchor_kind, anchor_start, body_at, anchor_end,
}

-- What may arrive for an anchor.
pub data Event : Type 0 where
  kind : Event
  start' : Event
  end : Event
  edge : Event

-- All orders of a list.
abbrev pub insertions {ℓ} : {A : Type ℓ} → A → List A → List (List A)
insertions x [] = (x ∷ []) ∷ []
insertions x (y ∷ ys) = (x ∷ y ∷ ys) ∷ map (λ l. y ∷ l) (insertions x ys)

abbrev pub insert_all {ℓ} : {A : Type ℓ} → A → List (List A) → List (List A)
insert_all x [] = []
insert_all x (l ∷ ls) = insertions x l ++ insert_all x ls

abbrev pub permutations {ℓ} : {A : Type ℓ} → List A → List (List A)
permutations [] = [] ∷ []
permutations (x ∷ xs) = insert_all x (permutations xs)

module _ (u : Unicode) (sym_of : List ℕ → ℕ) (c : ℕ) (cs : List ℕ) (from to : ℕ)
    (target : VName) where
  abbrev pub path : List ℕ
  path = c ∷ cs

  abbrev pub arrive : Event → AnchorAccum × World → AnchorAccum × World
  arrive kind (a, w) = anchor_kind u sym_of path a w
  arrive start' (a, w) = anchor_start u sym_of path from a w
  arrive end (a, w) = anchor_end u sym_of to a w
  arrive edge (a, w) = anchor_edge u sym_of path target Role.def a w

  abbrev pub arrive_all : List Event → AnchorAccum × World → AnchorAccum × World
  arrive_all [] s = s
  arrive_all (e ∷ es) s = arrive_all es (arrive e s)

  -- One body and one reference are added, both in the file of the path.
  abbrev pub Recorded : World → AnchorAccum × World → Type 0
  Recorded w s =
      (s.1.state.body_anchors
        ≡ push
            (record {
              file = (intern path w.files).1;
              start = from;
              end = to;
              sym = sym_of (to_symbol_string target);
            })
            w.state.body_anchors)
      × (s.1.state.xrefs
          ≡ push
              (record {
                sym = sym_of (to_symbol_string target);
                role = Role.def;
                file = (intern path w.files).1;
                offset = from;
              })
              w.state.xrefs)

  module _ (w : World) (named : is_no_name target ≡ false) where
    abbrev pub fresh : AnchorAccum × World
    fresh = (no_anchor, w)

    -- Whatever the order in which an anchor's kind, its start, its end and the edge to what it
    -- defines arrive, one body from the start to the end and one reference at the start are added,
    -- for a target that has a name and a path that is not empty.
    pub anchor_orders :
        All
          (λ es. Recorded w (arrive_all es fresh))
          (permutations (kind ∷ start' ∷ end ∷ edge ∷ []))
    unfolding touch_file push_site emit_xref_resolved flush_target flush_targets flush_at
        flush_ready edge_body edge_at anchor_edge anchor_kind anchor_start body_at anchor_end
    anchor_orders =
        ((
          (simp (named, intern_again), simp (named, intern_again)),
          (
            (simp (named, intern_again), simp (named, intern_again)),
            (
              (simp (named, intern_again), simp (named, intern_again)),
              (
                (simp (named, intern_again), simp (named, intern_again)),
                (
                  (simp (named, intern_again), simp (named, intern_again)),
                  (
                    (simp (named, intern_again), simp (named, intern_again)),
                    (
                      (simp (named, intern_again), simp (named, intern_again)),
                      (
                        (simp (named, intern_again), simp (named, intern_again)),
                        (
                          (simp (named, intern_again), simp (named, intern_again)),
                          (
                            (simp (named, intern_again), simp (named, intern_again)),
                            (
                              (simp (named, intern_again), simp (named, intern_again)),
                              (
                                (simp (named, intern_again), simp (named, intern_again)),
                                (
                                  (simp (named, intern_again), simp (named, intern_again)),
                                  (
                                    (simp (named, intern_again), simp (named, intern_again)),
                                    (
                                      (simp (named, intern_again), simp (named, intern_again)),
                                      (
                                        (simp (named, intern_again), simp (named, intern_again)),
                                        (
                                          (simp (named, intern_again), simp (named, intern_again)),
                                          (
                                            (
                                              simp (named, intern_again),
                                              simp (named, intern_again),
                                            ),
                                            (
                                              (
                                                simp (named, intern_again),
                                                simp (named, intern_again),
                                              ),
                                              (
                                                (
                                                  simp (named, intern_again),
                                                  simp (named, intern_again),
                                                ),
                                                (
                                                  (
                                                    simp (named, intern_again),
                                                    simp (named, intern_again),
                                                  ),
                                                  (
                                                    (
                                                      simp (named, intern_again),
                                                      simp (named, intern_again),
                                                    ),
                                                    (
                                                      (
                                                        simp (named, intern_again),
                                                        simp (named, intern_again),
                                                      ),
                                                      (
                                                        (
                                                          simp (named, intern_again),
                                                          simp (named, intern_again),
                                                        ),
                                                        tt,
                                                      ),
                                                    ),
                                                  ),
                                                ),
                                              ),
                                            ),
                                          ),
                                        ),
                                      ),
                                    ),
                                  ),
                                ),
                              ),
                            ),
                          ),
                        ),
                      ),
                    ),
                  ),
                ),
              ),
            ),
          ),
        ))
