-- ===== src/Text/Str.antt =====
-- Strings as lists of bytes: text constants, equality, search and split, and what
-- `String::from_utf8_lossy` makes of any bytes.
use Prim.Native.Char.{code}
use Prim.Native.String.{String}
use scry.Prelude.{
  ℕ, zero, suc, ◌+◌, ◌-◌, ◌*◌, List, [], ◌∷◌, ◌++◌, Bool, true, false, not, ◌&&◌, ◌||◌, leb, ltb,
  ◌==◌, if◌then◌else◌, Option, some, none,
}
use scry.Bytes.{u32_mod}
use scry.Text.{lead_of}

-- The bytes of an ASCII constant.
abbrev pub ascii : String → List ℕ
ascii String.[] = []
ascii (String.◌∷◌ c s) = code c ∷ ascii s

-- `a == b`
unfoldable pub same : List ℕ → List ℕ → Bool
same [] [] = true
same [] (y ∷ ys) = false
same (x ∷ xs) [] = false
same (x ∷ xs) (y ∷ ys) = x == y && same xs ys

-- Whether `s` is one of the words.
unfoldable pub one_of : List ℕ → List (List ℕ) → Bool
unfolding same
one_of s [] = false
one_of s (w ∷ ws) = same s w || one_of s ws

-- The UTF-8 bytes of U+FFFD.
abbrev pub replacement : List ℕ
replacement = 0xEF ∷ 0xBF ∷ 0xBD ∷ []

-- `String::from_utf8_lossy(bs)`: each longest piece that starts a character and does not end it,
-- and each byte that starts none, becomes one U+FFFD. `seen` is what was read of a character.
unfoldable pub lossy_loop : ℕ → ℕ → ℕ → List ℕ → List ℕ → List ℕ
lossy_loop zero lo hi seen [] = []
lossy_loop (suc need) lo hi seen [] = replacement
lossy_loop zero lo hi seen (b ∷ bs) =
    let lead = lead_of b in
    let bad = replacement ++ lossy_loop 0 0 0 [] bs in
    let one = b ∷ lossy_loop 0 0 0 [] bs in
    let first = lossy_loop lead.need lead.lo lead.hi (b ∷ []) bs in
    if not lead.valid then bad else if lead.need == 0 then one else first
lossy_loop (suc need) lo hi seen (b ∷ bs) =
    let lead = lead_of b in
    let bad = replacement ++ (replacement ++ lossy_loop 0 0 0 [] bs) in
    let one = replacement ++ (b ∷ lossy_loop 0 0 0 [] bs) in
    let first = replacement ++ lossy_loop lead.need lead.lo lead.hi (b ∷ []) bs in
    let last = (seen ++ (b ∷ [])) ++ lossy_loop 0 0 0 [] bs in
    let more = lossy_loop need 0x80 0xBF (seen ++ (b ∷ [])) bs in
    if leb lo b && leb b hi
    then (if need == 0 then last else more)
    else if not lead.valid
    then bad
    else if lead.need == 0
    then one
    else first

unfoldable pub from_utf8_lossy : List ℕ → List ℕ
unfolding lossy_loop
from_utf8_lossy bs = lossy_loop 0 0 0 [] bs

-- `s.split(c).next()`: what stands before the first `c`.
unfoldable pub before : ℕ → List ℕ → List ℕ
before c [] = []
before c (b ∷ s) = if b == c then [] else b ∷ before c s

-- `s.rsplit(c).next()`: what stands behind the last `c`.
unfoldable pub behind_last : ℕ → List ℕ → List ℕ → List ℕ
behind_last c seen [] = seen
behind_last c seen (b ∷ s) = behind_last c (if b == c then [] else seen ++ (b ∷ [])) s

-- `s.strip_prefix(prefix)`
unfoldable pub strip_prefix : List ℕ → List ℕ → Option (List ℕ)
strip_prefix [] s = some s
strip_prefix (p ∷ ps) [] = none
strip_prefix (p ∷ ps) (b ∷ s) = let rest = strip_prefix ps s in if p == b then rest else none

-- Whether an element of the list is `c`.
unfoldable pub has : ℕ → List ℕ → Bool
has c [] = false
has c (b ∷ s) = b == c || has c s

-- `s.find(c)`: what stands before the first `c`, and from it on.
unfoldable pub split_first : ℕ → List ℕ → Option (List ℕ × List ℕ)
split_first c [] = none
split_first c (b ∷ s) =
    let rest : Option (List ℕ × List ℕ) = elim (split_first c s) [
      | none ↦ none
      | some (x, y) ↦ some (b ∷ x, y)
    ] in
    if b == c then some ([], b ∷ s) else rest

-- `s.rfind(c)`: what stands before the last `c`, and from it on.
unfoldable pub split_last : ℕ → List ℕ → Option (List ℕ × List ℕ)
split_last c [] = none
split_last c (b ∷ s) = elim (split_last c s) [
  | some (x, y) ↦ some (b ∷ x, y)
  | none ↦ if b == c then some ([], b ∷ s) else none
]

-- `s.split(word).next()`, with whether the word occurs.
unfoldable pub before_word : List ℕ → List ℕ → List ℕ × Bool
unfolding strip_prefix
before_word word [] = ([], elim (strip_prefix word []) [ none ↦ false | some _ ↦ true ])
before_word word (b ∷ s) =
    let rest : List ℕ × Bool = (b ∷ (before_word word s).0, (before_word word s).1) in
    elim (strip_prefix word (b ∷ s)) [ none ↦ rest | some _ ↦ ([], true) ]

-- `s.parse::<u32>().ok()`: an optional sign, then one digit or more, below 2^32.
unfoldable pub digits_loop : ℕ → List ℕ → Option ℕ
digits_loop acc [] = some acc
digits_loop acc (b ∷ s) =
    let rest = digits_loop (acc * 10 + (b - 48)) s in
    if leb 48 b && leb b 57 && ltb (acc * 10 + (b - 48)) u32_mod then rest else none

unfoldable pub digits : List ℕ → Option ℕ
unfolding digits_loop
digits [] = none
digits (b ∷ s) = digits_loop 0 (b ∷ s)

unfoldable pub parse_u32 : List ℕ → Option ℕ
unfolding digits
parse_u32 [] = none
parse_u32 (b ∷ s) = if b == 43 then digits s else digits (b ∷ s)

-- `parts.join(sep)`
unfoldable pub join : List ℕ → List (List ℕ) → List ℕ
join sep [] = []
join sep (x ∷ []) = x
join sep (x ∷ y ∷ xs) = x ++ (sep ++ join sep (y ∷ xs))
