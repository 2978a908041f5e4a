-- ===== src/Cache/BufferLaws.antt =====
-- What the digest of cache.rs puts into its buffer can be taken out of it again.
use Prim.Native.Nat.{Ordering}
use scry.Prelude.{
  ℕ, zero, suc, ◌*◌, ◌/◌, ◌%◌, ◌^◌, ◌<◌, ◌≡◌, refl, arith, List, [], ◌∷◌, ◌++◌, length, All, ◌∙◌,
  ap, sym, ◌⊎◌, inl, inr,
}
use mathlib.Core.List.{append-nil, append_assoc, head-eq_of_cons-eq, tail-eq_of_cons-eq}
use scry.Bytes.{u64_mod, cmp, then_order}
use scry.Sorted.Compare.{cmp_refl, eq_of_cmp, cmp_flip, lt_trans, reversed}
use scry.Sorted.Set.{IsOrder}
use scry.Format.HeaderBytes.{to_le_bytes}
use scry.Cache.Digest.{add_str, add_strs, Input, input_order, add_inputs}

-- `Ordering::then`.
then_eq : (o p : Ordering) → then_order o p ≡ Ordering.eq → (o ≡ Ordering.eq) × (p ≡ Ordering.eq)
then_eq Ordering.lt p h = cc
then_eq Ordering.eq p h = (refl, h)
then_eq Ordering.gt p h = cc

then_flip : (o p : Ordering) → then_order (reversed o) (reversed p) ≡ reversed (then_order o p)
then_flip Ordering.lt p = refl
then_flip Ordering.eq p = refl
then_flip Ordering.gt p = refl

then_lt :
    (o p : Ordering)
    → then_order o p ≡ Ordering.lt
    → (o ≡ Ordering.lt) ⊎ ((o ≡ Ordering.eq) × (p ≡ Ordering.lt))
then_lt Ordering.lt p h = inl refl
then_lt Ordering.eq p h = inr (refl, h)
then_lt Ordering.gt p h = cc

input_trans :
    (x y z : Input)
    → input_order x y ≡ Ordering.lt
    → input_order y z ≡ Ordering.lt
    → input_order x z ≡ Ordering.lt
unfolding input_order
input_trans (p, d) (q, e) (r, f) h k = elim (then_lt (cmp p q) (cmp d e) h) [
  | inl a ↦ elim (then_lt (cmp q r) (cmp e f) k) [
    | inl b ↦ rw (lt_trans p q r a b) refl
    | inr (b, _) ↦ rw (sym (eq_of_cmp q r b), a) refl
  ]
  | inr (a, c) ↦ elim (then_lt (cmp q r) (cmp e f) k) [
    | inl b ↦ rw (eq_of_cmp p q a, b) refl
    | inr (b, g) ↦ rw (eq_of_cmp p q a, b) (lt_trans d e f c g)
  ]
]

pub input-IsOrder : IsOrder input_order
unfolding input_order
input-IsOrder = record {
  same = λ (p, d). rw (cmp_refl p) (cmp_refl d);
  eq_of = λ (p, d) (q, e) h.
      let (a, b) = then_eq (cmp p q) (cmp d e) h in λ i. (eq_of_cmp p q a i, eq_of_cmp d e b i);
  flip = λ (p, d) (q, e). rw (cmp_flip p q, cmp_flip d e) (then_flip (cmp p q) (cmp d e));
  trans = input_trans;
}

-- The same bytes at the same length come from the same number.
to_le_bytes-injective :
    (w v u : ℕ) → v < 256 ^ w → u < 256 ^ w → to_le_bytes w v ≡ to_le_bytes w u → v ≡ u
unfolding to_le_bytes
to_le_bytes-injective zero v u hv hu e = omega arith
to_le_bytes-injective (suc w) v u hv hu e =
    let low : v % 256 ≡ u % 256 = head-eq_of_cons-eq e in
    let high =
      to_le_bytes-injective w (v / 256) (u / 256) (omega arith) (omega arith)
        (tail-eq_of_cons-eq e) in
    omega (arith, low, high)

length-to_le_bytes : (w v : ℕ) → length (to_le_bytes w v) ≡ w
unfolding to_le_bytes
length-to_le_bytes zero v = refl
length-to_le_bytes (suc w) v = ap suc (length-to_le_bytes w (v / 256))

-- Parts of the same length are equal, and so is what follows them.
split_equal : (x y u v : List ℕ) → length x ≡ length y → x ++ u ≡ y ++ v → (x ≡ y) × (u ≡ v)
split_equal [] [] u v h e = (refl, e)
split_equal [] (b ∷ y) u v h e = absurd (omega arith)
split_equal (a ∷ x) [] u v h e = absurd (omega arith)
split_equal (a ∷ x) (b ∷ y) u v h e =
    let (xs, rest) = split_equal x y u v (omega arith) (tail-eq_of_cons-eq e) in
    (λ i. head-eq_of_cons-eq e i ∷ xs i, rest)

-- A number of 8 bytes, and a string behind its length.
abbrev pub word : ℕ → List ℕ
word v = to_le_bytes 8 v

abbrev pub str_bytes : List ℕ → List ℕ
str_bytes s = word (length s % u64_mod) ++ s

pub word_split :
    (v u : ℕ) (x y : List ℕ)
    → v < u64_mod
    → u < u64_mod
    → word v ++ x ≡ word u ++ y
    → (v ≡ u) × (x ≡ y)
word_split v u x y hv hu e =
    let (same, rest) =
      split_equal (word v) (word u) x y (length-to_le_bytes 8 v ∙ sym (length-to_le_bytes 8 u)) e in
    (to_le_bytes-injective 8 v u (omega arith) (omega arith) same, rest)

pub str_split :
    (s t x y : List ℕ)
    → length s < u64_mod
    → length t < u64_mod
    → str_bytes s ++ x ≡ str_bytes t ++ y
    → (s ≡ t) × (x ≡ y)
str_split s t x y hs ht e =
    let n = length s % u64_mod in
    let m = length t % u64_mod in
    let (len, rest) =
      word_split n m (s ++ x) (t ++ y) (omega arith) (omega arith)
        (sym (append_assoc (word n) s x) ∙ e ∙ append_assoc (word m) t y) in
    split_equal s t x y (omega arith) rest

unfoldable pub strs : List (List ℕ) → List ℕ
strs [] = []
strs (s ∷ ss) = str_bytes s ++ strs ss

abbrev pub IsShort : List ℕ → Type 0
IsShort s = length s < u64_mod

pub strs_split :
    (ss ts : List (List ℕ)) (x y : List ℕ)
    → All IsShort ss
    → All IsShort ts
    → length ss ≡ length ts
    → strs ss ++ x ≡ strs ts ++ y
    → (ss ≡ ts) × (x ≡ y)
unfolding strs
strs_split [] [] x y hs ht n e = (refl, e)
strs_split [] (t ∷ ts) x y hs ht n e = absurd (omega arith)
strs_split (s ∷ ss) [] x y hs ht n e = absurd (omega arith)
strs_split (s ∷ ss) (t ∷ ts) x y hs ht n e =
    let (head, tail) =
      str_split s t (strs ss ++ x) (strs ts ++ y) hs.0 ht.0 (
        sym (append_assoc (str_bytes s) (strs ss) x)
        ∙ e
        ∙ append_assoc (str_bytes t) (strs ts) y) in
    let (rest, end) = strs_split ss ts x y hs.1 ht.1 (omega arith) tail in
    (λ i. head i ∷ rest i, end)

-- The strings of the inputs.
unfoldable pub flat : List Input → List (List ℕ)
flat [] = []
flat ((p, d) ∷ inputs) = p ∷ d ∷ flat inputs

pub flat-injective : (xs ys : List Input) → flat xs ≡ flat ys → xs ≡ ys
unfolding flat
flat-injective [] [] e = refl
flat-injective [] (y ∷ ys) e = cc
flat-injective (x ∷ xs) [] e = cc
flat-injective ((p, d) ∷ xs) ((q, f) ∷ ys) e =
    let tail = tail-eq_of_cons-eq e in
    let rest = flat-injective xs ys (tail-eq_of_cons-eq tail) in
    λ i. (head-eq_of_cons-eq e i, head-eq_of_cons-eq tail i) ∷ rest i

pub length-flat : (xs : List Input) → length (flat xs) ≡ 2 * length xs
unfolding flat
length-flat [] = refl
length-flat ((p, d) ∷ xs) = omega (arith, length-flat xs)

-- What the operations put behind the buffer.
pub add_str-buf : (buf s : List ℕ) → add_str buf s ≡ buf ++ str_bytes s
unfolding add_str
add_str-buf buf s = append_assoc buf (word (length s % u64_mod)) s

pub add_strs-buf : (buf : List ℕ) (ss : List (List ℕ)) → add_strs buf ss ≡ buf ++ strs ss
unfolding add_strs strs
add_strs-buf buf [] = sym (append-nil buf)
add_strs-buf buf (s ∷ ss) =
    rw (add_str-buf buf s) (add_strs-buf (buf ++ str_bytes s) ss)
    ∙ append_assoc buf (str_bytes s) (strs ss)

pub add_inputs-buf :
    (buf : List ℕ) (inputs : List Input) → add_inputs buf inputs ≡ add_strs buf (flat inputs)
unfolding add_inputs add_strs flat
add_inputs-buf buf [] = refl
add_inputs-buf buf ((p, d) ∷ inputs) = add_inputs-buf (add_str (add_str buf p) d) inputs
