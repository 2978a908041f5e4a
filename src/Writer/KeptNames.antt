-- ===== src/Writer/KeptNames.antt =====
-- The display name that a builder of writer.rs holds for a symbol, after any operations on symbols.
use scry.Prelude.{
  true, ap, ◌∙◌, ℕ, ◌≡◌, refl, arith, List, [], ◌∷◌, false, ◌==◌, some, Bool-cases, Option-cases,
  inl, inr,
}
use scry.Text.{Unicode}
use scry.Writer.Builder.{
  IndexBuilder, SymInfo, upsert, refine, merge_syms, upsert_sym, set_sym_name, mark_field,
  merge_from,
}
use scry.Writer.MergeByKey.{lookup, lookup-upsert}
use scry.Writer.Names.{is_empty, prefers_name, better_name}
use scry.Writer.NameLaws.{prefers_trans, prefers_self}

-- The operations on the symbols of a builder.
pub data SymOp : Type 0 where
  upserted : ℕ → ℕ → ℕ → List ℕ → SymOp
  named : ℕ → List ℕ → SymOp
  field_marked : ℕ → SymOp
  merged : IndexBuilder → SymOp

-- The operation gives the symbol the name; `set_sym_name` takes no empty name.
abbrev pub Gives : SymOp → ℕ → List ℕ → Type 0
Gives (SymOp.upserted k kind lang n) sym name = (k ≡ sym) × (n ≡ name)
Gives (SymOp.named k n) sym name = (k ≡ sym) × (n ≡ name) × (is_empty n ≡ false)
Gives (SymOp.field_marked k) sym name = ⊥
Gives (SymOp.merged other) sym name =
    (info : SymInfo) × (lookup sym other.syms ≡ some info) × (info.name ≡ name)

module _ (u : Unicode) where
  abbrev pub apply_op : SymOp → IndexBuilder → IndexBuilder
  apply_op (SymOp.upserted sym kind lang name) b = upsert_sym u b sym kind lang name
  apply_op (SymOp.named sym name) b = set_sym_name u b sym name
  apply_op (SymOp.field_marked sym) b = mark_field b sym
  apply_op (SymOp.merged other) b = merge_from u b other

  abbrev pub apply_ops : List SymOp → IndexBuilder → IndexBuilder
  apply_ops [] b = b
  apply_ops (op ∷ ops) b = apply_ops ops (apply_op op b)

  module _ (sym : ℕ) (name : List ℕ) where
    -- The symbol has a name to which the given one is not preferred.
    abbrev pub HoldsOver : List (ℕ × SymInfo) → Type 0
    HoldsOver syms =
        (info : SymInfo) × (lookup sym syms ≡ some info) × (prefers_name u info.name name ≡ false)

    better_name-kept :
        (cur cand : List ℕ)
        → prefers_name u cur name ≡ false
        → prefers_name u (better_name u cur cand) name ≡ false
    unfolding better_name
    better_name-kept cur cand h = ground (arith, prefers_trans u cur cand name)

    better_name-over : (cur : List ℕ) → prefers_name u (better_name u cur name) name ≡ false
    unfolding better_name
    better_name-over cur = ground (arith, prefers_self u name)

    upsert-HoldsOver :
        (k : ℕ) (f : SymInfo → SymInfo) (new_info : SymInfo) (m : List (ℕ × SymInfo))
        → ((e : SymInfo)
            → prefers_name u e.name name ≡ false
            → prefers_name u (f e).name name ≡ false)
        → HoldsOver m
        → HoldsOver (upsert k f new_info m)
    upsert-HoldsOver k f new_info m keep (info, at, over) = elim (Bool-cases (k == sym)) [
      | inl e ↦ (f info, rw (lookup-upsert sym k f new_info m, e, at) refl, keep info over)
      | inr e ↦ (info, rw (lookup-upsert sym k f new_info m, e) at, over)
    ]

    refine-kept :
        (info e : SymInfo)
        → prefers_name u e.name name ≡ false
        → prefers_name u (refine u e info).name name ≡ false
    unfolding refine
    refine-kept info e h = better_name-kept e.name info.name h

    merge_syms-HoldsOver :
        (other m : List (ℕ × SymInfo)) → HoldsOver m → HoldsOver (merge_syms u m other)
    unfolding merge_syms
    merge_syms-HoldsOver [] m h = h
    merge_syms-HoldsOver ((k, info) ∷ rest) m h =
        merge_syms-HoldsOver rest (upsert k (λ e. refine u e info) info m)
          (upsert-HoldsOver k (λ e. refine u e info) info m (refine-kept info) h)

    apply_op-HoldsOver :
        (op : SymOp) (b : IndexBuilder) → HoldsOver b.syms → HoldsOver (apply_op op b).syms
    unfolding upsert_sym set_sym_name mark_field merge_from
    apply_op-HoldsOver (SymOp.upserted k kind lang n) b h =
        upsert-HoldsOver k _ _ b.syms (refine-kept (record { kind = kind; lang = lang; name = n }))
          h
    apply_op-HoldsOver (SymOp.named k []) b h = h
    apply_op-HoldsOver (SymOp.named k (x ∷ n)) b h =
        upsert-HoldsOver k _ _ b.syms (λ e. better_name-kept e.name (x ∷ n)) h
    apply_op-HoldsOver (SymOp.field_marked k) b h = upsert-HoldsOver k _ _ b.syms (λ e g. g) h
    apply_op-HoldsOver (SymOp.merged other) b h = merge_syms-HoldsOver other.syms b.syms h

    apply_ops-HoldsOver :
        (ops : List SymOp) (b : IndexBuilder) → HoldsOver b.syms → HoldsOver (apply_ops ops b).syms
    apply_ops-HoldsOver [] b h = h
    apply_ops-HoldsOver (op ∷ ops) b h =
        apply_ops-HoldsOver ops (apply_op op b) (apply_op-HoldsOver op b h)

    -- The name goes in, whether or not the symbol has an entry.
    upsert-new :
        (k : ℕ) (f : SymInfo → SymInfo) (info : SymInfo) (m : List (ℕ × SymInfo))
        → (k == sym) ≡ true
        → info.name ≡ name
        → ((e : SymInfo) → (f e).name ≡ better_name u e.name info.name)
        → HoldsOver (upsert k f info m)
    upsert-new k f info m same n better = elim (Option-cases (lookup sym m)) [
      | inl absent ↦
          (info, rw (lookup-upsert sym k f info m, same, absent) refl, rw n (prefers_self u name))
      | inr (e, old) ↦ (
        f e,
        rw (lookup-upsert sym k f info m, same, old) refl,
        rw (better e, n) (better_name-over e.name),
      )
    ]

    merge_syms-new :
        (info : SymInfo) (other m : List (ℕ × SymInfo))
        → lookup sym other ≡ some info
        → info.name ≡ name
        → HoldsOver (merge_syms u m other)
    unfolding merge_syms lookup refine
    merge_syms-new info [] m at n = absurd (cc)
    merge_syms-new info ((k, new_info) ∷ rest) m at n = elim (Bool-cases (k == sym)) [
      | inl e ↦
          let first : new_info ≡ info = let shut : some new_info ≡ some info = rw e at at in cc in
          merge_syms-HoldsOver rest (upsert k (λ e. refine u e new_info) new_info m) (
            upsert-new k (λ e. refine u e new_info) new_info m e (ap (λ i. i.name) first ∙ n)
              (λ e. refl))
      | inr e ↦
          merge_syms-new info rest (upsert k (λ e. refine u e new_info) new_info m) (rw e at at) n
    ]

    apply_op-new :
        (op : SymOp) (b : IndexBuilder) → Gives op sym name → HoldsOver (apply_op op b).syms
    unfolding upsert_sym set_sym_name merge_from refine
    apply_op-new (SymOp.upserted k kind lang n) b (same, n_same) =
        upsert-new k _ _ b.syms (ground arith) n_same (λ e. refl)
    apply_op-new (SymOp.named k []) b (same, n_same, nonempty) = absurd (cc)
    apply_op-new (SymOp.named k (x ∷ n)) b (same, n_same, nonempty) =
        upsert-new k _ _ b.syms (ground arith) n_same (λ e. refl)
    apply_op-new (SymOp.field_marked k) b g = absurd g
    apply_op-new (SymOp.merged other) b (info, at, n) = merge_syms-new info other.syms b.syms at n

  -- Once `upsert_sym`, `set_sym_name` or `merge_from` gave a builder a name for a symbol, and whatever
  -- these three and `mark_field` do afterwards, to this symbol or another, the builder holds a name
  -- for the symbol to which the given one is not preferred.
  pub apply_ops-Gives :
      (b : IndexBuilder) (op : SymOp) (sym : ℕ) (name : List ℕ)
      → Gives op sym name
      → (later : List SymOp) → HoldsOver sym name (apply_ops later (apply_op op b)).syms
  apply_ops-Gives b op sym name given later =
      apply_ops-HoldsOver sym name later (apply_op op b) (apply_op-new sym name op b given)
