-- ===== src/Sorted/Set.antt =====
-- `BTreeSet`: insertion into an ascending list without repeats. A set is determined by what is in it.
use Prim.Native.Nat.{Ordering}
use scry.Prelude.{
  suc, ◌≤◌, ◌≡◌, refl, arith, true, false, Bool, List, [], ◌∷◌, All, ◌||◌, ap, sym, ◌∙◌, ◌⊎◌, inl,
  inr, length,
}
use scry.Sorted.{is_eq}
use scry.Sorted.Compare.{reversed}

-- `Ord`: a total order.
pub record IsOrder {ℓ} {A : Type ℓ} (order : A → A → Ordering) : Type ℓ where
  pub same : (x : A) → order x x ≡ Ordering.eq
  pub eq_of : (x y : A) → order x y ≡ Ordering.eq → x ≡ y
  pub flip : (x y : A) → order y x ≡ reversed (order x y)
  pub trans :
      (x y z : A) → order x y ≡ Ordering.lt → order y z ≡ Ordering.lt → order x z ≡ Ordering.lt

order_cases {ℓ} :
    {A : Type ℓ} (order : A → A → Ordering) (x y : A)
    → (order x y ≡ Ordering.lt) ⊎ (order x y ≡ Ordering.eq) ⊎ (order x y ≡ Ordering.gt)
order_cases order x y = go (order x y) refl
  where
    go :
        (o : Ordering)
        → order x y ≡ o
        → (order x y ≡ Ordering.lt) ⊎ (order x y ≡ Ordering.eq) ⊎ (order x y ≡ Ordering.gt)
    go Ordering.lt e = inl e
    go Ordering.eq e = inr (inl e)
    go Ordering.gt e = inr (inr e)

module _ {ℓ} {A : Type ℓ} (order : A → A → Ordering) where
  unfoldable pub insert_set : A → List A → List A
  insert_set x [] = x ∷ []
  insert_set x (y ∷ ys) = elim (order x y) [
    | Ordering.lt ↦ x ∷ y ∷ ys
    | Ordering.eq ↦ y ∷ ys
    | Ordering.gt ↦ y ∷ insert_set x ys
  ]

  -- `iter.collect::<BTreeSet<_>>()`
  unfoldable pub from_list : List A → List A
  unfolding insert_set
  from_list [] = []
  from_list (x ∷ xs) = insert_set x (from_list xs)

  unfoldable pub mem_set : A → List A → Bool
  mem_set z [] = false
  mem_set z (y ∷ ys) = is_eq (order z y) || mem_set z ys

  abbrev pub Below : A → A → Type 0
  Below x y = order x y ≡ Ordering.lt

  abbrev pub IsOrdered : List A → Type ℓ
  IsOrdered [] = Unit
  IsOrdered (x ∷ xs) = All (Below x) xs × IsOrdered xs

  module _ (law : IsOrder order) where
    insert-All : (P : A → Type 0) (x : A) (ys : List A) → P x → All P ys → All P (insert_set x ys)
    unfolding insert_set
    insert-All P x [] p h = (p, tt)
    insert-All P x (y ∷ ys) p h = elim (order_cases order x y) [
      | inl e ↦ rw (e, insert_set) (p, h)
      | inr (inl e) ↦ rw (e, insert_set) h
      | inr (inr e) ↦ rw (e, insert_set) (h.0, insert-All P x ys p h.1)
    ]

    All-Below : (x y : A) (ys : List A) → Below x y → All (Below y) ys → All (Below x) ys
    All-Below x y [] p h = tt
    All-Below x y (z ∷ zs) p h = (law.trans x y z p h.0, All-Below x y zs p h.1)

    insert-IsOrdered : (x : A) (ys : List A) → IsOrdered ys → IsOrdered (insert_set x ys)
    unfolding insert_set
    insert-IsOrdered x [] h = (tt, tt)
    insert-IsOrdered x (y ∷ ys) h = elim (order_cases order x y) [
      | inl e ↦ rw (e, insert_set) ((e, All-Below x y ys e h.0), h)
      | inr (inl e) ↦ rw (e, insert_set) h
      | inr (inr e) ↦
          let above : Below y x = rw (law.flip x y, e) refl in
          rw (e, insert_set) (insert-All (Below y) x ys above h.0, insert-IsOrdered x ys h.1)
    ]

    pub from_list-IsOrdered : (xs : List A) → IsOrdered (from_list xs)
    unfolding from_list
    from_list-IsOrdered [] = tt
    from_list-IsOrdered (x ∷ xs) = insert-IsOrdered x (from_list xs) (from_list-IsOrdered xs)

    mem-insert :
        (z x : A) (ys : List A) → mem_set z (insert_set x ys) ≡ (is_eq (order z x) || mem_set z ys)
    unfolding insert_set mem_set
    mem-insert z x [] = refl
    mem-insert z x (y ∷ ys) = elim (order_cases order x y) [
      | inl e ↦ rw (e, insert_set) refl
      | inr (inl e) ↦ rw (law.eq_of x y e, law.same y, insert_set) (ground arith)
      | inr (inr e) ↦ rw (e, insert_set) (ground (arith, mem-insert z x ys))
    ]

    -- What is in the set is what is in the list.
    pub mem-from_list : (z : A) (xs : List A) → mem_set z (from_list xs) ≡ mem_set z xs
    unfolding from_list mem_set
    mem-from_list z [] = refl
    mem-from_list z (x ∷ xs) =
        mem-insert z x (from_list xs) ∙ ap (λ b. is_eq (order z x) || b) (mem-from_list z xs)

    not_mem : (x : A) (ys : List A) → All (Below x) ys → mem_set x ys ≡ false
    unfolding mem_set
    not_mem x [] h = refl
    not_mem x (y ∷ ys) h = rw h.0 (not_mem x ys h.1)

    mem-head : (x : A) (xs : List A) → mem_set x (x ∷ xs) ≡ true
    unfolding mem_set
    mem-head x xs = rw (law.same x) refl

    apart_heads :
        (x y : A) (xs ys : List A)
        → Below x y
        → All (Below y) ys
        → mem_set x (x ∷ xs) ≡ mem_set x (y ∷ ys)
        → ⊥
    apart_heads x y xs ys p h e =
        cc (mem-head x xs, not_mem x (y ∷ ys) (p, All-Below x y ys p h), e)

    tail_mem :
        (z x : A) (xs ys : List A)
        → All (Below x) xs
        → All (Below x) ys
        → mem_set z (x ∷ xs) ≡ mem_set z (x ∷ ys)
        → mem_set z xs ≡ mem_set z ys
    unfolding mem_set
    tail_mem z x xs ys h k e = elim (order_cases order z x) [
      | inl c ↦ rw c at e
      | inr (inl c) ↦ rw (law.eq_of z x c) (not_mem x xs h ∙ sym (not_mem x ys k))
      | inr (inr c) ↦ rw c at e
    ]

    -- Two ascending lists with the same elements are the same list.
    pub IsOrdered-unique :
        (xs ys : List A)
        → IsOrdered xs
        → IsOrdered ys
        → ((z : A) → mem_set z xs ≡ mem_set z ys)
        → xs ≡ ys
    unfolding mem_set
    IsOrdered-unique [] [] s t e = refl
    IsOrdered-unique [] (y ∷ ys) s t e = absurd (cc (mem-head y ys, e y))
    IsOrdered-unique (x ∷ xs) [] s t e = absurd (cc (mem-head x xs, e x))
    IsOrdered-unique (x ∷ xs) (y ∷ ys) s t e = elim (order_cases order x y) [
      | inl c ↦ absurd (apart_heads x y xs ys c t.0 (e x))
      | inr (inr c) ↦
          let under : Below y x = rw (law.flip x y, c) refl in
          absurd (apart_heads y x ys xs under s.0 (sym (e y)))
      | inr (inl c) ↦
          let same : y ≡ x = sym (law.eq_of x y c) in
          let t' : IsOrdered (x ∷ ys) = rw same at t in
          rw same (
            ap (λ l. x ∷ l)
              (IsOrdered-unique xs ys s.1 t'.1
                (λ z. tail_mem z x xs ys s.0 t'.0 (rw same at (e z)))))
    ]

    insert-shorter : (x : A) (ys : List A) → length (insert_set x ys) ≤ suc (length ys)
    unfolding insert_set
    insert-shorter x [] = omega arith
    insert-shorter x (y ∷ ys) = elim (order_cases order x y) [
      | inl e ↦ rw (e, insert_set) (omega arith)
      | inr (inl e) ↦ rw (e, insert_set) (omega arith)
      | inr (inr e) ↦ rw (e, insert_set) (omega (arith, insert-shorter x ys))
    ]

    pub from_list-shorter : (xs : List A) → length (from_list xs) ≤ length xs
    unfolding from_list
    from_list-shorter [] = omega arith
    from_list-shorter (x ∷ xs) =
        omega (arith, insert-shorter x (from_list xs), from_list-shorter xs)

    pub from_list-All : (P : A → Type 0) (xs : List A) → All P xs → All P (from_list xs)
    unfolding from_list
    from_list-All P [] h = tt
    from_list-All P (x ∷ xs) h = insert-All P x (from_list xs) h.0 (from_list-All P xs h.1)
