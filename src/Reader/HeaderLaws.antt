-- ===== src/Reader/HeaderLaws.antt =====
-- `Index::open` reads back the header that `write_header` wrote.
use scry.Prelude.{
  ℕ, zero, suc, ◌+◌, ◌*◌, ◌/◌, ◌^◌, ◌<◌, ◌≡◌, refl, sym, arith, List, [], ◌∷◌, ◌++◌, length, take,
  drop, some, All, ap, ◌∙◌, take-append, drop-append, length-append, replicate, get_elem?,
  drop_behind,
}
use mathlib.Core.List.{append_assoc}
use native.Mathlib.Nat.{div-lt_iff_lt-mul, pow-suc}
use scry.Bytes.{u64_mod, u32_mod}
use scry.Format.{Header, header_len}
use scry.Format.HeaderBytes.{to_le_bytes, le_words, words, header_bytes}
use scry.Reader.Open.{from_le_bytes, read_word, read_header}

from_le_bytes-to_le_bytes : (w n : ℕ) → n < 256 ^ w → from_le_bytes (to_le_bytes w n) ≡ n
unfolding from_le_bytes to_le_bytes
from_le_bytes-to_le_bytes zero n h = omega arith
from_le_bytes-to_le_bytes (suc w) n h =
    let small : n / 256 < 256 ^ w =
      (div-lt_iff_lt-mul (omega arith)).1 (omega (arith, pow-suc 256 w)) in
    let rest : from_le_bytes (to_le_bytes w (n / 256)) ≡ n / 256 =
      from_le_bytes-to_le_bytes w (n / 256) small in
    omega arith

length-to_le_bytes : (w n : ℕ) → length (to_le_bytes w n) ≡ w
unfolding to_le_bytes
length-to_le_bytes zero n = refl
length-to_le_bytes (suc w) n = ap suc (length-to_le_bytes w (n / 256))

le_at :
    (w n : ℕ) (rest : List ℕ) → n < 256 ^ w → from_le_bytes (take w (to_le_bytes w n ++ rest)) ≡ n
le_at w n rest h =
    rw (take-append (to_le_bytes w n) rest w (sym (length-to_le_bytes w n)))
      (from_le_bytes-to_le_bytes w n h)

word_at :
    (xs rest : List ℕ) (i : ℕ) {x : ℕ}
    → All (λ x. x < u64_mod) xs
    → get_elem? xs i ≡ some x
    → from_le_bytes (take 8 (drop (8 * i) (le_words xs ++ rest))) ≡ x
unfolding le_words
word_at [] rest i h e = cc
word_at (y ∷ ys) rest zero h e =
    rw (le_words, append_assoc) (le_at 8 y (le_words ys ++ rest) h.0 ∙ cc)
word_at (y ∷ ys) rest (suc i) h e =
    let skip : 8 * suc i ≡ length (to_le_bytes 8 y) + 8 * i =
      omega (arith, length-to_le_bytes 8 y) in
    rw (le_words, append_assoc, skip, drop_behind (to_le_bytes 8 y) (le_words ys ++ rest) (8 * i))
      (word_at ys rest i h.1 e)

regroup :
    (m a b c d rest : List ℕ)
    → (m ++ (a ++ (b ++ (c ++ d)))) ++ rest ≡ (m ++ (a ++ b)) ++ (c ++ (d ++ rest))
regroup m a b c d rest = simp append_assoc

length-le_words : (xs : List ℕ) → length (le_words xs) ≡ 8 * length xs
unfolding le_words
length-le_words [] = refl
length-le_words (x ∷ xs) = omega (
  arith,
  length-append (to_le_bytes 8 x) (le_words xs),
  length-to_le_bytes 8 x,
  length-le_words xs,
)

-- The fields of a header are within their widths.
abbrev pub IsRepresentable : Header → Type 0
IsRepresentable h = (length h.magic ≡ 8) × (h.version < u32_mod) × All (λ x. x < u64_mod) (words h)

module _ (h : Header) (rest : List ℕ) (r : IsRepresentable h) where
  abbrev file : List ℕ
  file = header_bytes h ++ rest

  word : (i : ℕ) {x : ℕ} → get_elem? (words h) i ≡ some x → read_word file i ≡ x
  unfolding read_word header_bytes
  word i {x} e =
      let front : List ℕ = h.magic ++ (to_le_bytes 4 h.version ++ to_le_bytes 4 0) in
      let words_bytes : List ℕ = le_words (words h) in
      let behind : 16 + 8 * i ≡ length front + 8 * i = omega (
        arith,
        r.0,
        length-append h.magic (to_le_bytes 4 h.version ++ to_le_bytes 4 0),
        length-append (to_le_bytes 4 h.version) (to_le_bytes 4 0),
        length-to_le_bytes 4 h.version,
        length-to_le_bytes 4 0,
      ) in
      rw
        (
          regroup h.magic (to_le_bytes 4 h.version) (to_le_bytes 4 0) words_bytes (replicate 16 0)
              rest,
          behind,
          drop_behind front (words_bytes ++ (replicate 16 0 ++ rest)) (8 * i),
        )
        (word_at (words h) (replicate 16 0 ++ rest) i r.2 e)

  magic_bytes : take 8 file ≡ h.magic
  unfolding header_bytes
  magic_bytes = rw append_assoc (take-append h.magic _ 8 (sym r.0))

  version_bytes : from_le_bytes (take 4 (drop 8 file)) ≡ h.version
  unfolding header_bytes
  version_bytes =
      rw (append_assoc, append_assoc, drop-append h.magic _ 8 (sym r.0)) (le_at 4 h.version _ r.1)

  -- A header whose fields are within their widths is read back from its bytes, whatever follows.
  pub read_header-header_bytes : read_header file ≡ h
  unfolding read_header
  read_header-header_bytes = rw (
    magic_bytes,
    version_bytes,
    word 0 refl,
    word 1 refl,
    word 2 refl,
    word 3 refl,
    word 4 refl,
    word 5 refl,
    word 6 refl,
    word 7 refl,
    word 8 refl,
    word 9 refl,
    word 10 refl,
    word 11 refl,
    word 12 refl,
    word 13 refl,
    word 14 refl,
    word 15 refl,
    word 16 refl,
    word 17 refl,
    word 18 refl,
    word 19 refl,
    word 20 refl,
    word 21 refl,
    word 22 refl,
    word 23 refl,
    word 24 refl,
    word 25 refl,
    word 26 refl,
    word 27 refl,
  )

pub length-header_bytes : (h : Header) → length h.magic ≡ 8 → length (header_bytes h) ≡ header_len
unfolding header_bytes
length-header_bytes h m = omega (
  arith,
  m,
  length-append h.magic
      (to_le_bytes 4 h.version ++ (to_le_bytes 4 0 ++ (le_words (words h) ++ replicate 16 0))),
  length-append (to_le_bytes 4 h.version)
      (to_le_bytes 4 0 ++ (le_words (words h) ++ replicate 16 0)),
  length-append (to_le_bytes 4 0) (le_words (words h) ++ replicate 16 0),
  length-append (le_words (words h)) (replicate 16 0),
  length-to_le_bytes 4 h.version,
  length-to_le_bytes 4 0,
  length-le_words (words h),
)
