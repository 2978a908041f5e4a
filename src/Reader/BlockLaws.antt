-- ===== src/Reader/BlockLaws.antt =====
-- The blocks of gaps that the trigram index of writer.rs stores, as reader.rs decodes them.
use scry.Prelude.{
  ℕ, ◌+◌, ◌-◌, ◌%◌, ◌≤◌, ◌<◌, ◌≡◌, refl, List, [], ◌∷◌, ◌++◌, Bool, true, false, if◌then◌else◌,
  length, length-append, arith, ◌∙◌, ap, sym,
}
use mathlib.Core.List.{append_assoc, append-nil}
use scry.Bytes.{u64_mod, u32_mod}
use scry.Format.{trigram_block}
use scry.Format.Varint.{read_varint, write_varint, varint_len}
use scry.Format.VarintLaws.{
  read_varint-write_varint, length-write_varint, write_varint-groups, groups,
}
use scry.Run.{done}
use scry.Writer.Trigram.{delta_of}
use scry.Reader.Trigram.{block_ids}

-- Row numbers that rise from `last` and fit 32 bits.
abbrev pub Rising : ℕ → List ℕ → Type 0
Rising last [] = Unit
Rising last (id ∷ ids) = ((last ≤ id) × (id < u32_mod)) × Rising id ids

-- The bytes that the writer appends to `out` for the ids, with `written` of them before.
unfoldable pub gaps : List ℕ → ℕ → ℕ → List ℕ → List ℕ
gaps out written last [] = out
gaps out written last (id ∷ ids) =
    gaps (write_varint out (delta_of written last id)) (written + 1) id ids

delta_of-gap :
    (written last id : ℕ) → 1 ≤ written % trigram_block → delta_of written last id ≡ id - last
unfolding delta_of
delta_of-gap written last id h = ground arith

delta_of-start : (written last id : ℕ) → written % trigram_block ≡ 0 → delta_of written last id ≡ id
unfolding delta_of
delta_of-start written last id h = ground arith

delta_of_bounds : (written last id : ℕ) → id < u32_mod → delta_of written last id < u32_mod
unfolding delta_of
delta_of_bounds written last id h = ground arith

-- The bytes stand behind what was there.
pub gaps-extends :
    (out : List ℕ) (written last a : ℕ) (ids : List ℕ)
    → Rising a ids
    → (more : List ℕ) × (gaps out written last ids ≡ out ++ more)
unfolding gaps
gaps-extends out written last a [] h = ([], sym (append-nil out))
gaps-extends out written last a (id ∷ ids) ((_, b), h) =
    let d = delta_of written last id in
    let (more, e) = gaps-extends (write_varint out d) (written + 1) id id ids h in
    (
      groups 4 d ++ more,
      e
          ∙ ap (λ t. t ++ more) (write_varint-groups out d (delta_of_bounds written last id b))
          ∙ append_assoc out (groups 4 d) more,
    )

-- One round of a block: the number at the head, then the rest.
block_ids-step :
    (first : Bool) (acc : ℕ) (out rest : List ℕ) (written last id : ℕ) (ids : List ℕ)
    → id < u32_mod
    → Rising id ids
    → (if first then delta_of written last id else (acc + delta_of written last id) % u32_mod) ≡ id
    → length (gaps out written last (id ∷ ids)) < u64_mod
    → block_ids
        (length ids)
        false
        (gaps out written last (id ∷ ids) ++ rest)
        (length (write_varint out (delta_of written last id)))
        id
      ≡ done (ids, length (gaps out written last (id ∷ ids)))
    → block_ids
        (length (id ∷ ids))
        first
        (gaps out written last (id ∷ ids) ++ rest)
        (length out)
        acc
      ≡ done (id ∷ ids, length (gaps out written last (id ∷ ids)))
unfolding block_ids gaps
block_ids-step first acc out rest written last id ids i h same s next =
    let d = delta_of written last id in
    let bound = delta_of_bounds written last id i in
    let (more, e) = gaps-extends (write_varint out d) (written + 1) id id ids h in
    let len : length (write_varint out d) ≡ length out + varint_len d =
      (length-write_varint out d bound).0 in
    let read : read_varint (gaps out written last (id ∷ ids) ++ rest) (length out)
        ≡ done (d, varint_len d) =
      rw (e, append_assoc (write_varint out d) more rest)
        (read_varint-write_varint out (more ++ rest) d bound) in
    let total : length (gaps out written last (id ∷ ids))
        ≡ length (write_varint out d) + length more =
      ap length e ∙ length-append (write_varint out d) more in
    let pos : (length out + varint_len d) % u64_mod ≡ length (write_varint out d) = ground arith in
    rw (read, pos, same, next) refl

-- Inside a block: `acc` is the id before.
block_ids-rest :
    (out rest : List ℕ) (written last : ℕ) (ids : List ℕ)
    → Rising last ids
    → 1 ≤ written % trigram_block
    → written % trigram_block + length ids ≤ trigram_block
    → length (gaps out written last ids) < u64_mod
    → block_ids (length ids) false (gaps out written last ids ++ rest) (length out) last
      ≡ done (ids, length (gaps out written last ids))
unfolding block_ids gaps
block_ids-rest out rest written last [] h w b s = refl
block_ids-rest out rest written last (id ∷ []) ((a, i), h) w b s =
    block_ids-step false last out rest written last id [] i h
      (rw (delta_of-gap written last id w) (ground arith)) s refl
block_ids-rest out rest written last (id ∷ next ∷ ids) ((a, i), h) w b s =
    block_ids-step false last out rest written last id (next ∷ ids) i h
      (rw (delta_of-gap written last id w) (ground arith)) s
      (block_ids-rest (write_varint out (delta_of written last id)) rest (written + 1) id
        (next ∷ ids) h (ground arith) (ground arith) s)

-- A block that the writer fills decodes to its ids, and the position ends behind it.
pub block_ids-gaps :
    (out rest : List ℕ) (written last id : ℕ) (ids : List ℕ)
    → Rising id ids
    → id < u32_mod
    → written % trigram_block ≡ 0
    → length (id ∷ ids) ≤ trigram_block
    → length (gaps out written last (id ∷ ids)) < u64_mod
    → block_ids (length (id ∷ ids)) true (gaps out written last (id ∷ ids) ++ rest) (length out) 0
      ≡ done (id ∷ ids, length (gaps out written last (id ∷ ids)))
unfolding block_ids gaps
block_ids-gaps out rest written last id ids h i w b s =
    block_ids-step true 0 out rest written last id ids i h (delta_of-start written last id w) s (
      block_ids-rest (write_varint out (delta_of written last id)) rest (written + 1) id ids h
        (ground arith) (ground arith) s)
