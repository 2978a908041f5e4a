-- ===== src/Reader/PostingLaws.antt =====
-- The postings of a trigram, as build_trigram_index of writer.rs stores them and trigram_postings
-- of reader.rs decodes them.
use scry.Prelude.{
  ℕ, zero, suc, ◌+◌, ◌-◌, ◌*◌, ◌%◌, ◌≤◌, ◌<◌, ◌≡◌, refl, List, [], ◌∷◌, ◌++◌, true, length,
  length-append, arith, ◌∙◌, ap, sym, min, ltb,
}
use mathlib.Core.List.{append_assoc}
use mathlib.Core.Path.{subst}
use scry.Bytes.{u64_mod}
use scry.Format.{trigram_block, skip_entry}
use scry.Format.Varint.{write_varint}
use scry.Run.{done}
use scry.Writer.Trigram.{delta_of, n_blocks}
use scry.Reader.Trigram.{block_ids, blocks_loop, trigram_postings}
use scry.Reader.BlockLaws.{Rising, gaps, gaps-extends, block_ids-gaps}

Rising-take : (a : ℕ) (xs ys : List ℕ) → Rising a (xs ++ ys) → Rising a xs
Rising-take a [] ys h = tt
Rising-take a (x ∷ xs) ys (b, h) = (b, Rising-take x xs ys h)

Rising-drop : (a : ℕ) (xs ys : List ℕ) → Rising a (xs ++ ys) → Rising 0 ys
Rising-drop a [] [] h = tt
Rising-drop a [] (y ∷ ys) ((b, i), h) = ((omega arith, i), h)
Rising-drop a (x ∷ xs) ys (b, h) = Rising-drop x xs ys h

-- The gaps of two parts, one behind the other.
gaps-parts :
    (out : List ℕ) (written last : ℕ) (xs ys : List ℕ)
    → (w : ℕ) × (l : ℕ) × (w ≡ written + length xs)
      × (gaps out written last (xs ++ ys) ≡ gaps (gaps out written last xs) w l ys)
unfolding gaps
gaps-parts out written last [] ys = (written, last, omega arith, refl)
gaps-parts out written last (x ∷ xs) ys =
    let (w, l, e, p) =
      gaps-parts (write_varint out (delta_of written last x)) (written + 1) x xs ys in
    (w, l, omega arith, p)

-- One block of at most `trigram_block` ids, with others behind it.
block_ids-part :
    (out rest : List ℕ) (written last : ℕ) (xs ys : List ℕ)
    → Rising 0 (xs ++ ys)
    → 1 ≤ length xs
    → written % trigram_block ≡ 0
    → length xs ≤ trigram_block
    → length (gaps out written last (xs ++ ys)) < u64_mod
    → block_ids (length xs) true (gaps out written last (xs ++ ys) ++ rest) (length out) 0
      ≡ done (xs, length (gaps out written last xs))
block_ids-part out rest written last [] ys h p w b s = absurd (omega arith)
block_ids-part out rest written last (x ∷ xs) ys h p w b s =
    let (w', l, e, q) = gaps-parts out written last (x ∷ xs) ys in
    let (more, r) =
      gaps-extends (gaps out written last (x ∷ xs)) w' l 0 ys (Rising-drop 0 (x ∷ xs) ys h) in
    let hx = Rising-take 0 (x ∷ xs) ys h in
    let total : length (gaps out written last ((x ∷ xs) ++ ys))
        ≡ length (gaps out written last (x ∷ xs)) + length more =
      ap length (q ∙ r) ∙ length-append (gaps out written last (x ∷ xs)) more in
    rw (q, r, append_assoc (gaps out written last (x ∷ xs)) more rest)
      (block_ids-gaps out (more ++ rest) written last x xs hx.1 hx.0.1 w b (omega arith))

-- A list cut behind `n` elements.
cut :
    (n : ℕ) (ids : List ℕ)
    → n ≤ length ids
    → (xs : List ℕ) × (ys : List ℕ) × (ids ≡ xs ++ ys) × (length xs ≡ n)
cut zero ids h = ([], ids, refl, refl)
cut (suc n) [] h = absurd (omega arith)
cut (suc n) (x ∷ ids) h =
    let (xs, ys, e, l) = cut n ids (omega arith) in (x ∷ xs, ys, ap (λ t. x ∷ t) e, omega arith)

positive : (n : ℕ) → 1 ≤ n → ltb 0 n ≡ true
positive n h = ground arith

blocks_loop-round :
    (fuel : ℕ) (post : List ℕ) (pos remaining end : ℕ) (xs ys : List ℕ)
    → 1 ≤ remaining
    → block_ids (min remaining trigram_block) true post pos 0 ≡ done (xs, end)
    → blocks_loop fuel post end (remaining - min remaining trigram_block) ≡ done ys
    → blocks_loop (suc fuel) post pos remaining ≡ done (xs ++ ys)
unfolding blocks_loop
blocks_loop-round fuel post pos remaining end xs ys h b r = rw (positive remaining h, b, r) refl

-- Ids are left only behind a full block.
block_start :
    (written lx ly n w : ℕ)
    → n ≡ lx + ly
    → lx ≡ min n trigram_block
    → w ≡ written + lx
    → written % trigram_block ≡ 0
    → 1 ≤ ly
    → w % trigram_block ≡ 0
block_start written lx ly n w e l p z h = ground arith

blocks_loop-gaps :
    (fuel : ℕ) (out rest : List ℕ) (written last : ℕ) (ids : List ℕ)
    → Rising 0 ids
    → length ids ≤ fuel
    → (1 ≤ length ids → written % trigram_block ≡ 0)
    → length (gaps out written last ids) < u64_mod
    → blocks_loop fuel (gaps out written last ids ++ rest) (length out) (length ids) ≡ done ids
unfolding blocks_loop
blocks_loop-gaps zero out rest written last [] h f w s = refl
blocks_loop-gaps zero out rest written last (id ∷ ids) h f w s = absurd (omega arith)
blocks_loop-gaps (suc fuel) out rest written last [] h f w s = refl
blocks_loop-gaps (suc fuel) out rest written last (id ∷ ids) h f w s =
    let all = id ∷ ids in
    let (xs, ys, e, l) = cut (min (length all) trigram_block) all (ground arith) in
    let (w', last', ew, q) = gaps-parts out written last xs ys in
    let whole : length all ≡ length xs + length ys = ap length e ∙ length-append xs ys in
    let left : length all - min (length all) trigram_block ≡ length ys = ground arith in
    let g : gaps out written last all ≡ gaps out written last (xs ++ ys) =
      ap (gaps out written last) e in
    let h' = subst (Rising 0) e h in
    let some_x : 1 ≤ length xs = ground arith in
    let s' = subst (λ t. length t < u64_mod) g s in
    let block =
      block_ids-part out rest written last xs ys h' some_x (w (omega arith)) (ground arith) s' in
    let later =
      blocks_loop-gaps fuel (gaps out written last xs) rest w' last' ys (Rising-drop 0 xs ys h')
        (ground arith)
        (λ p.
          block_start written (length xs) (length ys) (length all) w' whole l ew (w (omega arith))
            p)
        (subst (λ t. length t < u64_mod) q s') in
    blocks_loop-round fuel (gaps out written last all ++ rest) (length out) (length all)
      (length (gaps out written last xs)) xs ys (omega arith) (rw (sym l, g) block)
      (rw (left, g, q) later)
    ∙ ap done (sym e)

-- Take a region of postings as the index stores it: anything before it, a skip table of one entry
-- per block, and behind it the LEB128 numbers that the writer makes of row numbers that rise and
-- fit 32 bits, the number itself at the start of each block of 128 and the gap elsewhere. Decoding
-- the region gives back exactly these row numbers, whatever follows it, when its end lies below
-- 2^64.
pub trigram_postings_lem :
    (before skip rest : List ℕ) (len last : ℕ) (ids : List ℕ)
    → Rising 0 ids
    → length skip ≡ n_blocks (length ids) * skip_entry
    → length (gaps (before ++ skip) 0 last ids) < u64_mod
    → trigram_postings
        (gaps (before ++ skip) 0 last ids ++ rest)
        (record { off = length before; len = len; count = length ids })
      ≡ done ids
unfolding trigram_postings
trigram_postings_lem before skip rest len last ids h k s =
    let (more, e) = gaps-extends (before ++ skip) 0 last 0 ids h in
    let total = ap length e ∙ length-append (before ++ skip) more in
    let start = length-append before skip in
    let pos : (length before + n_blocks (length ids) * skip_entry) % u64_mod
        ≡ length (before ++ skip) =
      ground arith in
    rw (pos)
      (blocks_loop-gaps (length ids) (before ++ skip) rest 0 last ids h (omega arith) (λ _. refl) s)
