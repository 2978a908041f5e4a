-- ===== src/Kythe/NameLaws.antt =====
-- `strip_jvm_method_descriptor` of kythe.rs strips exactly a descriptor.
use scry.Prelude.{
  ℕ, ◌≡◌, refl, arith, List, [], ◌∷◌, ◌++◌, Bool, true, false, ◌&&◌, not, ◌==◌, some, none, ◌∙◌, ap,
  Bool-cases, inl, inr, Option-cases, ==_iff, ◌↔◌,
}
use scry.Text.Str.{split_first, split_last, has}
use scry.Kythe.Wire.{◌>>◌, guard}
use scry.Kythe.Names.{all_jvm, is_jvm_type_byte, tail_of, strip_jvm_method_descriptor}
use scry.Writer.Names.{is_empty}

-- The last `c` of `x ++ c ∷ y` is that one, if `y` has none.
split_last-none : (c : ℕ) (y : List ℕ) → has c y ≡ false → split_last c y ≡ none
unfolding has split_last
split_last-none c [] h = refl
split_last-none c (b ∷ y) h = ground (arith, split_last-none c y)

split_last-at :
    (c : ℕ) (x y : List ℕ) → has c y ≡ false → split_last c (x ++ (c ∷ y)) ≡ some (x, c ∷ y)
unfolding split_last
split_last-at c [] y h = rw (split_last-none c y h) (ground arith)
split_last-at c (b ∷ x) y h = rw (split_last-at c x y h) refl

split_first-at :
    (c : ℕ) (x y : List ℕ) → has c x ≡ false → split_first c (x ++ (c ∷ y)) ≡ some (x, c ∷ y)
unfolding has split_first
split_first-at c [] y h = ground arith
split_first-at c (b ∷ x) y h = ground (arith, split_first-at c x y)

and_parts : (a b : Bool) → (a && b) ≡ true → (a ≡ true) × (b ≡ true)
and_parts a b h = ground arith

-- Type bytes are no parentheses.
has-all_jvm : (c : ℕ) (s : List ℕ) → is_jvm_type_byte c ≡ false → all_jvm s ≡ true → has c s ≡ false
unfolding has all_jvm
has-all_jvm c [] n h = refl
has-all_jvm c (b ∷ s) n h =
    let (jvm, rest) = and_parts (is_jvm_type_byte b) (all_jvm s) h in
    elim (Bool-cases (b == c)) [
      | inl e ↦ cc (ap is_jvm_type_byte ((==_iff b c).0 e), jvm, n)
      | inr e ↦ rw e (has-all_jvm c s n rest)
    ]

has-append : (c : ℕ) (x y : List ℕ) → has c x ≡ false → has c y ≡ false → has c (x ++ y) ≡ false
unfolding has
has-append c [] y h k = k
has-append c (b ∷ x) y h k = ground (arith, has-append c x y)

-- What a split puts together again.
split_last-join :
    (c : ℕ) (s x y : List ℕ) → split_last c s ≡ some (x, y) → (s ≡ x ++ y) × (y ≡ c ∷ tail_of y)
unfolding split_last
split_last-join c [] x y h = cc
split_last-join c (b ∷ s) x y h = elim (Option-cases (split_last c s)) [
  | inl e ↦ ground (arith, e)
  | inr ((x', y'), e) ↦ ground (arith, e, split_last-join c s x' y')
]

split_first-join :
    (c : ℕ) (s x y : List ℕ) → split_first c s ≡ some (x, y) → (s ≡ x ++ y) × (y ≡ c ∷ tail_of y)
unfolding split_first
split_first-join c [] x y h = cc
split_first-join c (b ∷ s) x y h = elim (Option-cases (split_first c s)) [
  | inl e ↦ ground (arith, e)
  | inr ((x', y'), e) ↦ ground (arith, e, split_first-join c s x' y')
]

-- A method descriptor: argument types in parentheses, and a return type.
abbrev pub IsDescriptor : List ℕ → List ℕ → Type 0
IsDescriptor args ret = (all_jvm args ≡ true) × (all_jvm ret ≡ true) × (is_empty ret ≡ false)

paren_open : is_jvm_type_byte b'(' ≡ false
unfolding is_jvm_type_byte
paren_open = refl

paren_close : is_jvm_type_byte b')' ≡ false
unfolding is_jvm_type_byte
paren_close = refl

strip-descriptor :
    (prefix args ret : List ℕ)
    → IsDescriptor args ret
    → strip_jvm_method_descriptor (prefix ++ (b'(' ∷ (args ++ (b')' ∷ ret)))) ≡ some prefix
unfolding strip_jvm_method_descriptor
strip-descriptor prefix args ret (a, r, n) =
    let no_open =
      has-append b'(' args (b')' ∷ ret) (has-all_jvm b'(' args paren_open a)
        (unfold has in has-all_jvm b'(' ret paren_open r) in
    let no_close = has-all_jvm b')' args paren_close a in
    rw (
      split_last-at b'(' prefix (args ++ (b')' ∷ ret)) no_open,
      split_first-at b')' (b'(' ∷ args) ret (unfold has in no_close),
      a,
      r,
      n,
    )

opened :
    (x y d : List ℕ)
    → d ≡ x ++ y
    → d ≡ b'(' ∷ tail_of d
    → y ≡ b')' ∷ tail_of y
    → x ≡ b'(' ∷ tail_of x
opened [] y d p q r = ground (arith, p, q, r)
opened (c ∷ x) y d p q r = cc

-- What the two tests let through.
tested :
    (args ret p prefix : List ℕ)
    → (guard (all_jvm args) >> (guard (not (is_empty ret) && all_jvm ret) >> some p)) ≡ some prefix
    → IsDescriptor args ret × (p ≡ prefix)
tested args ret p prefix h = ground (arith, h)

strip-inverts :
    (sig prefix : List ℕ)
    → strip_jvm_method_descriptor sig ≡ some prefix
    → (args : List ℕ) × (ret : List ℕ) × IsDescriptor args ret
      × (sig ≡ prefix ++ (b'(' ∷ (args ++ (b')' ∷ ret))))
unfolding strip_jvm_method_descriptor
strip-inverts sig prefix h = elim (Option-cases (split_last b'(' sig)) [
  | inl e ↦ cc (rw e at h)
  | inr ((p, d), e) ↦ elim (Option-cases (split_first b')' d)) [
    | inl f ↦ cc (rw (e, f) at h)
    | inr ((x, y), f) ↦
        let (whole, d_open) = split_last-join b'(' sig p d e in
        let (parts, y_close) = split_first-join b')' d x y f in
        let (ok, same) = tested (tail_of x) (tail_of y) p prefix (rw (e, f) at h) in
        let shape : sig ≡ p ++ ((b'(' ∷ tail_of x) ++ (b')' ∷ tail_of y)) =
          whole
          ∙ ap (λ t. p ++ t)
              (parts
                ∙ ap (λ t. t ++ y) (opened x y d parts d_open y_close)
                ∙ ap (λ t. (b'(' ∷ tail_of x) ++ t) y_close) in
        (
          tail_of x,
          tail_of y,
          ok,
          shape ∙ ap (λ t. t ++ ((b'(' ∷ tail_of x) ++ (b')' ∷ tail_of y))) same,
        )
  ]
]

-- `strip_jvm_method_descriptor` gives a prefix exactly if the signature is that prefix, a list of
-- JVM type bytes in parentheses, and one JVM type byte or more.
pub strip_jvm_method_descriptor_iff :
    (sig prefix : List ℕ)
    → (strip_jvm_method_descriptor sig ≡ some prefix) ↔ (
        (args : List ℕ) × (ret : List ℕ) × IsDescriptor args ret
        × (sig ≡ prefix ++ (b'(' ∷ (args ++ (b')' ∷ ret)))))
strip_jvm_method_descriptor_iff sig prefix =
    (strip-inverts sig prefix, λ (args, ret, ok, e). rw e (strip-descriptor prefix args ret ok))
