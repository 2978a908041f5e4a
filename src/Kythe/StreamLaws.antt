-- ===== src/Kythe/StreamLaws.antt =====
-- A stream of framed entries in kythe.rs: every entry is processed once, in order, and a stream
-- that breaks off inside an entry counts up to it.
use Prim.Native.Nat.{bit_and, bit_or}
use scry.Prelude.{
  ℕ, zero, suc, ◌+◌, ◌*◌, ◌/◌, ◌%◌, ◌^◌, ◌≤◌, ◌<◌, ◌≡◌, refl, arith, List, [], ◌∷◌, ◌++◌, Bool,
  false, leb, ltb, ◌==◌, length, take, Option, some, none, All, ◌∙◌, ap, Bool-cases, inl, inr,
}
use mathlib.Core.List.{append_assoc}
use scry.Bits.{bit_and-top}
use scry.Bytes.{u64_mod}
use scry.Text.{Unicode}
use scry.Kythe.Wire.{
  varint_loop, read_varint_at, read_varint, split_at, Entry, parse_entry, varint_bytes, varint,
  framed,
}
use scry.Kythe.WireLaws.{read_varint_at-varint, split_at-append, top_byte}
use scry.Kythe.State.{World}
use scry.Kythe.Process.{process_entry}
use scry.Kythe.Ingest.{max_entry_len, entry_loop, counted}

-- An entry in its bytes, no longer than the ingest allows.
abbrev pub IsEncoded : List ℕ × Entry → Type 0
IsEncoded p = (parse_entry p.0 ≡ some p.1) × (length p.0 ≤ max_entry_len)

unfoldable pub stream_of : List (List ℕ × Entry) → List ℕ
stream_of [] = []
stream_of (p ∷ ps) = framed p.0 ++ stream_of ps

pub read_varint-some :
    (bs : List ℕ) (r : ℕ × List ℕ) → read_varint_at bs ≡ some r → read_varint bs ≡ some (some r)
unfolding read_varint read_varint_at varint_loop
read_varint-some [] r h = cc
read_varint-some (b ∷ bs) r h = rw h

-- Every byte of a varint but the last has its top bit set.
top_set : (v : ℕ) → (bit_and (bit_or (bit_and v 0x7F) 0x80) 0x80 == 0) ≡ false
top_set v = rw (top_byte v) (ground (arith, bit_and-top (v % 128 + 128)))

-- What is left of a varint that breaks off.
varint_loop-cut :
    (rounds acc shift fuel v k : ℕ)
    → k < length (varint_bytes fuel v)
    → varint_loop rounds acc shift (take k (varint_bytes fuel v)) ≡ none
unfolding varint_loop varint_bytes
varint_loop-cut zero acc shift fuel v k h = refl
varint_loop-cut (suc rounds) acc shift fuel v zero h = refl
varint_loop-cut (suc rounds) acc shift zero v (suc k) h = absurd (omega arith)
varint_loop-cut (suc rounds) acc shift (suc fuel) v (suc k) h = elim (Bool-cases (leb 0x80 v)) [
  | inl e ↦
      let val = bit_or acc (bit_and (bit_or (bit_and v 0x7F) 0x80) 0x7F * 2 ^ shift % u64_mod) in
      let shorter : suc k < suc (length (varint_bytes fuel (v / 128))) = rw e at h in
      rw (e, top_set v) (varint_loop-cut rounds val (shift + 7) fuel (v / 128) k (omega arith))
  | inr e ↦ let one : suc k < 1 = rw e at h in absurd (omega arith)
]

pub read_varint_at-cut :
    (v k : ℕ) → k < length (varint v) → read_varint_at (take k (varint v)) ≡ none
unfolding read_varint_at varint
read_varint_at-cut v k h = varint_loop-cut 10 0 0 v v k h

pub split_at-short : (len : ℕ) (bs : List ℕ) → length bs < len → split_at len bs ≡ none
unfolding split_at
split_at-short len bs h = ground arith

module _ (u : Unicode) (sym_of : List ℕ → ℕ) (tolerate : Bool) where
  abbrev pub loop : ℕ → List ℕ → World → Option World
  loop = entry_loop u sym_of tolerate

  abbrev pub process : Entry → World → World
  process e w = process_entry u sym_of e (counted u sym_of tolerate w)

  -- The entries in turn.
  unfoldable pub process_all : List (List ℕ × Entry) → World → World
  process_all [] w = w
  process_all (p ∷ ps) w = process_all ps (process p.1 w)

  -- One framed entry at the head of the stream.
  entry_loop-framed :
      (fuel : ℕ) (p : List ℕ × Entry) (rest : List ℕ) (w : World)
      → IsEncoded p
      → loop (suc fuel) (framed p.0 ++ rest) w ≡ loop fuel rest (process p.1 w)
  unfolding entry_loop framed
  entry_loop-framed fuel p rest w (parsed, short) =
      let within : ltb max_entry_len (length p.0) ≡ false = ground arith in
      rw (
        append_assoc (varint (length p.0)) p.0 rest,
        read_varint-some (varint (length p.0) ++ (p.0 ++ rest)) (length p.0, p.0 ++ rest)
            (read_varint_at-varint (length p.0) (p.0 ++ rest) (omega arith)),
        within,
        split_at-append p.0 rest,
        parsed,
        entry_loop,
      )

  -- All of them; a framed entry takes at least one unit of fuel.
  pub entry_loop-stream :
      (fuel : ℕ) (ps : List (List ℕ × Entry)) (rest : List ℕ) (w : World)
      → All IsEncoded ps
      → loop (length ps + fuel) (stream_of ps ++ rest) w ≡ loop fuel rest (process_all ps w)
  unfolding stream_of process_all
  entry_loop-stream fuel [] rest w h = ap (λ (n : ℕ). loop n rest w) (omega arith)
  entry_loop-stream fuel (p ∷ ps) rest w h = rw (append_assoc (framed p.0) (stream_of ps) rest) (
      ap (λ (n : ℕ). loop n (framed p.0 ++ (stream_of ps ++ rest)) w) (omega arith)
      ∙ entry_loop-framed (length ps + fuel) p (stream_of ps ++ rest) w h.0
      ∙ entry_loop-stream fuel ps rest (process p.1 w) h.1)
