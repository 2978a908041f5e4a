-- ===== src/Text.antt =====
-- What the code uses of `str` and `char`: UTF-8 validity, character boundaries and decoding. A
-- string is the list of its bytes.
pub mod Clamp
pub mod Str
pub mod StrLaws
pub mod Trim
use Prim.Native.Nat.{Ordering}
use scry.Prelude.{
  ℕ, zero, suc, ◌+◌, ◌-◌, ◌*◌, ◌%◌, List, [], ◌∷◌, ◌++◌, Bool, true, false, not, ◌&&◌, ◌||◌, leb,
  ltb, if◌then◌else◌, length, get_elem?, Option, some, none, ◌==◌,
}
use mathlib.Core.List.{reverse}
use scry.Bytes.{cmp}

-- After a first byte: how many continuation bytes follow, the range of the next one, and whether
-- the byte may stand first.
pub record Lead : Type 0 where
  pub need : ℕ
  pub lo : ℕ
  pub hi : ℕ
  pub valid : Bool

abbrev in_range : ℕ → ℕ → ℕ → Bool
in_range lo hi b = leb lo b && leb b hi

unfoldable pub lead_of : ℕ → Lead
lead_of b =
    if ltb b 0x80
    then record { need = 0; lo = 0; hi = 0; valid = true }
    else if in_range 0xC2 0xDF b
    then record { need = 1; lo = 0x80; hi = 0xBF; valid = true }
    else if b == 0xE0
    then record { need = 2; lo = 0xA0; hi = 0xBF; valid = true }
    else if b == 0xED
    then record { need = 2; lo = 0x80; hi = 0x9F; valid = true }
    else if in_range 0xE1 0xEF b
    then record { need = 2; lo = 0x80; hi = 0xBF; valid = true }
    else if b == 0xF0
    then record { need = 3; lo = 0x90; hi = 0xBF; valid = true }
    else if in_range 0xF1 0xF3 b
    then record { need = 3; lo = 0x80; hi = 0xBF; valid = true }
    else if b == 0xF4
    then record { need = 3; lo = 0x80; hi = 0x8F; valid = true }
    else record { need = 0; lo = 0; hi = 0; valid = false }

unfoldable pub utf8_loop : ℕ → ℕ → ℕ → List ℕ → Bool
utf8_loop zero lo hi [] = true
utf8_loop (suc need) lo hi [] = false
utf8_loop zero lo hi (b ∷ bs) =
    let lead = lead_of b in lead.valid && utf8_loop lead.need lead.lo lead.hi bs
utf8_loop (suc need) lo hi (b ∷ bs) = in_range lo hi b && utf8_loop need 0x80 0xBF bs

-- `std::str::from_utf8(bs).is_ok()`
unfoldable pub is_utf8 : List ℕ → Bool
unfolding utf8_loop
is_utf8 bs = utf8_loop 0 0 0 bs

-- Not a continuation byte.
abbrev pub starts_char : ℕ → Bool
starts_char b = ltb b 0x80 || leb 0xC0 b

-- `s.is_char_boundary(i)`
unfoldable pub is_char_boundary : List ℕ → ℕ → Bool
is_char_boundary s i =
    i == 0 || elim (get_elem? s i) [ none ↦ i == length s | some b ↦ starts_char b ]

-- The code points of valid UTF-8.
abbrev lead_bits : ℕ → ℕ
lead_bits b = if ltb b 0xE0 then b % 32 else if ltb b 0xF0 then b % 16 else b % 8

unfoldable pub chars_loop : ℕ → ℕ → List ℕ → List ℕ
chars_loop need acc [] = []
chars_loop zero acc (b ∷ bs) =
    let lead = lead_of b in
    let rest = chars_loop lead.need (lead_bits b) bs in if ltb b 0x80 then b ∷ rest else rest
chars_loop (suc need) acc (b ∷ bs) =
    let acc' = acc * 64 + b % 64 in
    let rest = chars_loop need acc' bs in if need == 0 then acc' ∷ rest else rest

unfoldable pub chars : List ℕ → List ℕ
unfolding chars_loop
chars bs = chars_loop 0 0 bs

-- The tables of the Unicode standard that `char` consults.
pub record Unicode : Type 0 where
  pub is_alphanumeric : ℕ → Bool
  pub is_whitespace : ℕ → Bool

unfoldable pub skip_while : (ℕ → Bool) → List ℕ → List ℕ
skip_while p [] = []
skip_while p (c ∷ cs) = let rest = skip_while p cs in if p c then rest else c ∷ cs

-- `s.trim()`, on the characters.
unfoldable pub trim : Unicode → List ℕ → List ℕ
unfolding skip_while
trim u cs = reverse (skip_while u.is_whitespace (reverse (skip_while u.is_whitespace cs)))

unfoldable pub any : (ℕ → Bool) → List ℕ → Bool
any p [] = false
any p (c ∷ cs) = p c || any p cs

-- `s.starts_with(prefix)` on bytes.
unfoldable pub starts_with : List ℕ → List ℕ → Bool
starts_with s [] = true
starts_with [] (p ∷ ps) = false
starts_with (b ∷ s) (p ∷ ps) = b == p && starts_with s ps
