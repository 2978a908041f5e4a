-- ===== src/Text/StrLaws.antt =====
-- `from_utf8_lossy` on valid UTF-8, and equality of strings.
use scry.Prelude.{
  ℕ, zero, suc, ◌≡◌, refl, arith, List, [], ◌∷◌, ◌++◌, true, false, Bool, leb, not, ◌&&◌, ◌==◌,
  if◌then◌else◌, ◌∙◌, ap, sym,
}
use mathlib.Core.List.{append_assoc}
use scry.Text.{is_utf8, utf8_loop, lead_of, Lead}
use scry.Text.Str.{same, lossy_loop, from_utf8_lossy}

utf8_loop-zero : (lo hi : ℕ) (bs : List ℕ) → utf8_loop 0 lo hi bs ≡ utf8_loop 0 0 0 bs
unfolding utf8_loop
utf8_loop-zero lo hi [] = refl
utf8_loop-zero lo hi (b ∷ bs) = refl

-- What is pending, and what is read from there on.
abbrev pending : ℕ → List ℕ → List ℕ
pending zero seen = []
pending (suc need) seen = seen

suc_ne : (n : ℕ) → (suc n == 0) ≡ false
suc_ne n = ground arith

and_parts : (a b : Bool) → (a && b) ≡ true → (a ≡ true) × (b ≡ true)
and_parts a b h = ground arith

-- A first byte that is valid.
lead_step :
    (lead : Lead) (b : ℕ) (bs bad one first : List ℕ)
    → (lead.valid && utf8_loop lead.need lead.lo lead.hi bs) ≡ true
    → (utf8_loop 0 0 0 bs ≡ true → one ≡ b ∷ bs)
    → (utf8_loop lead.need lead.lo lead.hi bs ≡ true → first ≡ pending lead.need (b ∷ []) ++ bs)
    → (if not lead.valid then bad else if lead.need == 0 then one else first) ≡ b ∷ bs
lead_step lead b bs bad one first h k l = by_need lead.need lead.lo lead.hi lead.valid h l
  where
    by_need :
        (need lo hi : ℕ) (valid : Bool)
        → (valid && utf8_loop need lo hi bs) ≡ true
        → (utf8_loop need lo hi bs ≡ true → first ≡ pending need (b ∷ []) ++ bs)
        → (if not valid then bad else if need == 0 then one else first) ≡ b ∷ bs
    by_need zero lo hi true h l = k (sym (utf8_loop-zero lo hi bs) ∙ h)
    by_need (suc need) lo hi true h l = rw (suc_ne need) (l h)
    by_need need lo hi false h l = cc

lossy_loop-utf8 :
    (need lo hi : ℕ) (seen bs : List ℕ)
    → utf8_loop need lo hi bs ≡ true
    → lossy_loop need lo hi seen bs ≡ pending need seen ++ bs
unfolding utf8_loop lossy_loop
lossy_loop-utf8 zero lo hi seen [] h = refl
lossy_loop-utf8 (suc need) lo hi seen [] h = cc
lossy_loop-utf8 zero lo hi seen (b ∷ bs) h =
    lead_step (lead_of b) b bs _ _ _ h (λ e. ap (λ t. b ∷ t) (lossy_loop-utf8 0 0 0 [] bs e))
      (λ e. lossy_loop-utf8 (lead_of b).need (lead_of b).lo (lead_of b).hi (b ∷ []) bs e)
lossy_loop-utf8 (suc zero) lo hi seen (b ∷ bs) h =
    let (inside, valid) = and_parts (leb lo b && leb b hi) (utf8_loop 0 0x80 0xBF bs) h in
    rw (
      inside,
      lossy_loop-utf8 0 0 0 [] bs (sym (utf8_loop-zero 0x80 0xBF bs) ∙ valid),
      append_assoc seen (b ∷ []) bs,
    )
lossy_loop-utf8 (suc (suc need)) lo hi seen (b ∷ bs) h =
    let (inside, valid) = and_parts (leb lo b && leb b hi) (utf8_loop (suc need) 0x80 0xBF bs) h in
    rw (inside, suc_ne need)
      (lossy_loop-utf8 (suc need) 0x80 0xBF (seen ++ (b ∷ [])) bs valid
        ∙ append_assoc seen (b ∷ []) bs)

-- Valid UTF-8 is left as it is.
pub from_utf8_lossy-utf8 : (bs : List ℕ) → is_utf8 bs ≡ true → from_utf8_lossy bs ≡ bs
unfolding is_utf8 from_utf8_lossy
from_utf8_lossy-utf8 bs h = lossy_loop-utf8 0 0 0 [] bs h

pub eq_of_same : (a b : List ℕ) → same a b ≡ true → a ≡ b
unfolding same
eq_of_same [] [] h = refl
eq_of_same [] (y ∷ b) h = cc
eq_of_same (x ∷ a) [] h = cc
eq_of_same (x ∷ a) (y ∷ b) h = ground (arith, eq_of_same a b)

pub same_refl : (a : List ℕ) → same a a ≡ true
unfolding same
same_refl [] = refl
same_refl (x ∷ a) = ground (arith, same_refl a)
