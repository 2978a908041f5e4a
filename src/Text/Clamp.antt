-- ===== src/Text/Clamp.antt =====
-- `clamp_blob_str` of writer.rs cuts a string to what a 16-bit length can hold.
use scry.Prelude.{
  ℕ, zero, suc, ◌≤◌, ◌≡◌, refl, arith, List, [], ◌∷◌, Bool, true, leb, if◌then◌else◌, length,
  length-take, take, get_elem?, none, some, Bool-cases, inl, inr, ◌⊎◌, ap, take_all,
}
use scry.Text.{utf8_loop, is_utf8, is_char_boundary, starts_char, lead_of}

abbrev pub u16_max : ℕ
u16_max = 65535

-- `while end > 0 && !s.is_char_boundary(end) { end -= 1 }`
unfoldable pub boundary_loop : List ℕ → ℕ → ℕ
boundary_loop s zero = 0
boundary_loop s (suc end) =
    let before = boundary_loop s end in if is_char_boundary s (suc end) then suc end else before

unfoldable pub clamp_to : ℕ → List ℕ → List ℕ
clamp_to most s = if leb (length s) most then s else take (boundary_loop s most) s

unfoldable pub clamp_blob_str : List ℕ → List ℕ
clamp_blob_str s = clamp_to u16_max s

boundary_loop_lem :
    (s : List ℕ) (end : ℕ)
    → (boundary_loop s end ≤ end) × (is_char_boundary s (boundary_loop s end) ≡ true)
unfolding boundary_loop
boundary_loop_lem s zero = unfold is_char_boundary in ground arith
boundary_loop_lem s (suc end) = ground (arith, boundary_loop_lem s end)

-- A cut is clean at the end of a string and before a first byte.
abbrev is_clean : List ℕ → ℕ → Bool
is_clean s n = elim (get_elem? s n) [ none ↦ true | some b ↦ starts_char b ]

lead_bounds : (b : ℕ) → ((lead_of b).need ≡ 0) ⊎ ((0x80 ≤ (lead_of b).lo) × ((lead_of b).hi ≤ 0xBF))
unfolding lead_of
lead_bounds b = ground arith

-- A clean cut leaves valid UTF-8 valid.
utf8_loop-take :
    (s : List ℕ) (need lo hi n : ℕ)
    → (need ≡ 0) ⊎ ((0x80 ≤ lo) × (hi ≤ 0xBF))
    → utf8_loop need lo hi s ≡ true
    → is_clean s n ≡ true
    → utf8_loop need lo hi (take n s) ≡ true
unfolding utf8_loop
utf8_loop-take [] need lo hi zero h e k = e
utf8_loop-take [] need lo hi (suc n) h e k = e
utf8_loop-take (b ∷ s) zero lo hi zero h e k = refl
utf8_loop-take (b ∷ s) (suc need) lo hi zero h e k = absurd (ground arith)
utf8_loop-take (b ∷ s) zero lo hi (suc n) h e k =
    ground
      (arith, utf8_loop-take s (lead_of b).need (lead_of b).lo (lead_of b).hi n (lead_bounds b))
utf8_loop-take (b ∷ s) (suc need) lo hi (suc n) h e k =
    ground (arith, utf8_loop-take s need 0x80 0xBF n (inr (omega arith)))

boundary-is_clean :
    (s : List ℕ) (n : ℕ) → is_char_boundary s (suc n) ≡ true → is_clean s (suc n) ≡ true
unfolding is_char_boundary
boundary-is_clean s n e = ground arith

take_boundary-is_utf8 :
    (s : List ℕ) (n : ℕ)
    → is_utf8 s ≡ true
    → is_char_boundary s n ≡ true
    → is_utf8 (take n s) ≡ true
unfolding is_utf8
take_boundary-is_utf8 s zero e b = refl
take_boundary-is_utf8 s (suc n) e b =
    utf8_loop-take s 0 0 0 (suc n) (inl refl) e (boundary-is_clean s n b)

clamp_to_lem :
    (most : ℕ) (s : List ℕ)
    → is_utf8 s ≡ true
    → (length (clamp_to most s) ≤ most)
      × (is_utf8 (clamp_to most s) ≡ true)
      × (take (length (clamp_to most s)) s ≡ clamp_to most s)
      × (length s ≤ most → clamp_to most s ≡ s)
unfolding clamp_to
clamp_to_lem most s e = elim (Bool-cases (leb (length s) most)) [
  | inl fits ↦ rw fits (ground arith, e, take_all s _ refl, λ h. refl)
  | inr long ↦
      let (le, b) = boundary_loop_lem s most in
      let n : ℕ = boundary_loop s most in
      let m : length (take n s) ≡ n = ground (arith, length-take n s) in
      rw long (
        omega arith,
        take_boundary-is_utf8 s n e b,
        ap (λ (t : ℕ). take t s) m,
        λ h. absurd (ground arith),
      )
]

-- A valid string is cut to at most 65535 bytes; what is left is a prefix of it and valid, and a
-- string that fits is not cut at all.
pub clamp_blob_str_lem :
    (s : List ℕ)
    → is_utf8 s ≡ true
    → (length (clamp_blob_str s) ≤ u16_max)
      × (is_utf8 (clamp_blob_str s) ≡ true)
      × (take (length (clamp_blob_str s)) s ≡ clamp_blob_str s)
      × (length s ≤ u16_max → clamp_blob_str s ≡ s)
unfolding clamp_blob_str
clamp_blob_str_lem s e = clamp_to_lem u16_max s e

-- Whatever the bytes, the result has a 16-bit length.
pub length-clamp_blob_str : (s : List ℕ) → length (clamp_blob_str s) ≤ u16_max
unfolding clamp_blob_str
length-clamp_blob_str s = length-clamp_to u16_max s
  where
    length-clamp_to : (most : ℕ) (s : List ℕ) → length (clamp_to most s) ≤ most
    length-clamp_to most s =
        unfold clamp_to in
        ground (arith, boundary_loop_lem s most, length-take (boundary_loop s most) s)
