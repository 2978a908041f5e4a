-- ===== src/Reader/TrigramLaws.antt =====
-- The fuel of the loops that decode postings in reader.rs: they never run out of it.
use scry.Prelude.{
  ℕ, zero, suc, ◌-◌, ◌≤◌, List, [], ◌∷◌, Bool, true, false, ltb, min, if◌then◌else◌, drop, arith,
  ◌==◌,
}
use Prim.Native.Nat.{bit_and}
use scry.Format.{trigram_block}
use scry.Format.Varint.{read_varint, read_varint_loop}
use scry.Run.{Run, done, panic, stuck, ◌>>=◌}
use scry.Reader.Trigram.{Posting, block_ids, blocks_loop, trigram_postings}

-- The code returns or panics.
abbrev pub Ends {ℓ} : {A : Type ℓ} → Run A → Type 0
Ends (done x) = Unit
Ends panic = Unit
Ends stuck = ⊥

bind-Ends {ℓ κ} :
    {A : Type ℓ} {B : Type κ} (m : Run A) (f : A → Run B)
    → Ends m
    → ((x : A) → Ends (f x))
    → Ends (m >>= f)
bind-Ends (done x) f h k = k x
bind-Ends panic f h k = h
bind-Ends stuck f h k = h

if-Ends {ℓ} : {A : Type ℓ} (b : Bool) (m n : Run A) → Ends m → Ends n → Ends (if b then m else n)
if-Ends true m n h k = h
if-Ends false m n h k = k

read_varint_loop-Ends : (bs : List ℕ) (v shift used : ℕ) → Ends (read_varint_loop bs v shift used)
unfolding read_varint_loop
read_varint_loop-Ends [] v shift used = tt
read_varint_loop-Ends (b ∷ bs) v shift used =
    if-Ends (bit_and b 0x80 == 0) (done _) _ tt (read_varint_loop-Ends bs _ _ _)

read_varint-Ends : (buf : List ℕ) (pos : ℕ) → Ends (read_varint buf pos)
unfolding read_varint
read_varint-Ends buf pos = read_varint_loop-Ends (drop pos buf) 0 0 0

block_ids-Ends :
    (rounds : ℕ) (first : Bool) (post : List ℕ) (pos acc : ℕ)
    → Ends (block_ids rounds first post pos acc)
unfolding block_ids
block_ids-Ends zero first post pos acc = tt
block_ids-Ends (suc rounds) first post pos acc =
    bind-Ends (read_varint post pos) _ (read_varint-Ends post pos) λ r.
      bind-Ends (block_ids rounds false post _ _) _ (block_ids-Ends rounds false post _ _) λ q. tt

blocks_loop-Ends :
    (fuel : ℕ) (post : List ℕ) (pos remaining : ℕ)
    → remaining ≤ fuel
    → Ends (blocks_loop fuel post pos remaining)
unfolding blocks_loop
blocks_loop-Ends zero post pos remaining h = ground arith
blocks_loop-Ends (suc fuel) post pos n h =
    if-Ends (ltb 0 n) _ (done [])
      (bind-Ends (block_ids (min n trigram_block) true post pos 0) _
        (block_ids-Ends _ true post pos 0)
        λ b.
          bind-Ends (blocks_loop fuel post b.1 (n - min n trigram_block)) _
            (blocks_loop-Ends fuel post b.1 (n - min n trigram_block) (ground arith)) λ q. tt)
      tt

-- Decoding the postings of a descriptor returns or panics, whatever the bytes are.
pub trigram_postings-Ends : (post : List ℕ) (p : Posting) → Ends (trigram_postings post p)
unfolding trigram_postings
trigram_postings-Ends post p = blocks_loop-Ends p.count post _ p.count (omega arith)
