-- ===== src/Kythe/TruncationLaws.antt =====
-- A stream that breaks off in kythe.rs.
use scry.Prelude.{
  ℕ, zero, suc, ◌+◌, ◌-◌, ◌≤◌, ◌<◌, ◌≡◌, refl, arith, List, [], ◌∷◌, ◌++◌, Bool, true, false, ltb,
  length, length-append, length-take, take, take_within, Option, some, none, All, ◌∙◌, ap, sym, ◌⊎◌,
  inl, inr,
}
use mathlib.Core.List.{append-nil}
use scry.Text.{Unicode}
use scry.Kythe.Wire.{read_varint_at, read_varint, Entry, varint_bytes, varint, framed, ◌>>=◌}
use scry.Kythe.WireLaws.{read_varint_at-varint}
use scry.Kythe.State.{no_state, no_stats, World}
use scry.Kythe.Files.{AllocState}
use scry.Kythe.Finalize.{finalize}
use scry.Kythe.Ingest.{max_entry_len, entry_loop, broken, ingest_tolerant}
use scry.Kythe.StreamLaws.{
  IsEncoded, stream_of, process_all, read_varint-some, read_varint_at-cut, split_at-short,
  entry_loop-stream,
}
use scry.Writer.Builder.{IndexBuilder}

take_behind :
    (n : ℕ) (xs ys : List ℕ) → length xs ≤ n → take n (xs ++ ys) ≡ xs ++ take (n - length xs) ys
take_behind n [] ys h = ap (λ (k : ℕ). take k ys) (omega arith)
take_behind zero (x ∷ xs) ys h = absurd (omega arith)
take_behind (suc n) (x ∷ xs) ys h =
    ap (λ t. x ∷ t)
      (take_behind n xs ys (omega arith) ∙ ap (λ (k : ℕ). xs ++ take k ys) (omega arith))

read_varint-none : (bs : List ℕ) → 1 ≤ length bs → read_varint_at bs ≡ none → read_varint bs ≡ none
unfolding read_varint
read_varint-none [] n h = absurd (omega arith)
read_varint-none (b ∷ bs) n h = rw h

varint_pos : (v : ℕ) → 1 ≤ length (varint v)
unfolding varint varint_bytes
varint_pos zero = omega arith
varint_pos (suc v) = ground arith

module _ (u : Unicode) (sym_of : List ℕ → ℕ) (tolerate : Bool) where
  abbrev loop : ℕ → List ℕ → World → Option World
  loop = entry_loop u sym_of tolerate

  loop-empty : (fuel : ℕ) (w : World) → loop fuel [] w ≡ some w
  unfolding entry_loop read_varint
  loop-empty zero w = refl
  loop-empty (suc fuel) w = refl

  loop-no_length :
      (fuel : ℕ) (bs : List ℕ) (w : World)
      → read_varint bs ≡ none
      → loop (suc fuel) bs w ≡ broken u sym_of tolerate w
  unfolding entry_loop
  loop-no_length fuel bs w h = rw (h, entry_loop)

  loop-no_body :
      (fuel : ℕ) (bs : List ℕ) (len : ℕ) (rest : List ℕ) (w : World)
      → read_varint bs ≡ some (some (len, rest))
      → len ≤ max_entry_len
      → length rest < len
      → loop (suc fuel) bs w ≡ broken u sym_of tolerate w
  unfolding entry_loop
  loop-no_body fuel bs len rest w h le short =
      let within : ltb max_entry_len len ≡ false = ground arith in
      rw (h, within, split_at-short len rest short, entry_loop)

  -- An entry of which only the first bytes are there.
  loop-cut :
      (fuel k : ℕ) (body : List ℕ) (w : World)
      → length body ≤ max_entry_len
      → suc k < length (framed body)
      → loop (suc fuel) (take (suc k) (framed body)) w ≡ broken u sym_of tolerate w
  unfolding framed
  loop-cut fuel k body w le cut =
      let head = varint (length body) in
      elim (lt_or_ge (suc k) (length head)) [
        | inl before ↦ rw (take_within head body (suc k) (omega arith)) (
            loop-no_length fuel (take (suc k) head) w (
              read_varint-none (take (suc k) head) (omega (arith, length-take (suc k) head))
                (read_varint_at-cut (length body) (suc k) before)))
        | inr behind ↦
            let left = take (suc k - length head) body in
            rw (take_behind (suc k) head body behind) (
              loop-no_body fuel (head ++ left) (length body) left w
                (read_varint-some (head ++ left) (length body, left)
                  (read_varint_at-varint (length body) left (omega arith)))
                le (omega (arith, length-take (suc k - length head) body, length-append head body)))
      ]
    where
      lt_or_ge : (a b : ℕ) → (a < b) ⊎ (b ≤ a)
      lt_or_ge a b = ground arith

length-stream_of : (ps : List (List ℕ × Entry)) → length ps ≤ length (stream_of ps)
unfolding stream_of framed
length-stream_of [] = omega arith
length-stream_of (p ∷ ps) = omega (
  arith,
  varint_pos (length p.0),
  length-append (varint (length p.0)) p.0,
  length-append (framed p.0) (stream_of ps),
  length-stream_of ps,
)

-- The world before the first entry.
abbrev pub start : IndexBuilder → AllocState → World
start b files = record { state = no_state; builder = b; files = files; stats = no_stats }

abbrev finish : (World → World) → Option World → Option World
finish f r = r >>= λ w. some (f w)

module _ (u : Unicode) (sym_of : List ℕ → ℕ) (b : IndexBuilder) (files : AllocState) where
  -- The ingest in terms of what is left once the whole entries are processed.
  ingest_rest :
      (tolerate : Bool) (ps : List (List ℕ × Entry)) (rest : List ℕ) (result : Option World)
      → All IsEncoded ps
      → ((fuel : ℕ)
          → length rest ≤ fuel
          → entry_loop u sym_of tolerate fuel rest
              (process_all u sym_of tolerate ps (start b files))
            ≡ result)
      → ingest_tolerant u sym_of tolerate (stream_of ps ++ rest) b files
        ≡ finish (finalize u sym_of) result
  unfolding ingest_tolerant
  ingest_rest tolerate ps rest result h end =
      let fuel = length (stream_of ps) - length ps + length rest in
      let enough : length (stream_of ps ++ rest) ≡ length ps + fuel =
        omega (arith, length-append (stream_of ps) rest, length-stream_of ps) in
      let run : entry_loop u sym_of tolerate (length (stream_of ps ++ rest)) (stream_of ps ++ rest)
            (start b files)
          ≡ result =
        ap (λ (n : ℕ). entry_loop u sym_of tolerate n (stream_of ps ++ rest) (start b files)) enough
        ∙ entry_loop-stream u sym_of tolerate fuel ps rest (start b files) h
        ∙ end fuel (omega arith) in
      ap (finish (finalize u sym_of)) run

  -- A stream of whole entries, each of which parses and is no longer than 2^28 bytes, is ingested
  -- entry by entry in order, and then the unit is finalized: tolerant or not.
  pub ingest-stream_of :
      (tolerate : Bool) (ps : List (List ℕ × Entry))
      → All IsEncoded ps
      → ingest_tolerant u sym_of tolerate (stream_of ps) b files
        ≡ some (finalize u sym_of (process_all u sym_of tolerate ps (start b files)))
  ingest-stream_of tolerate ps h =
      ap (λ s. ingest_tolerant u sym_of tolerate s b files) (sym (append-nil (stream_of ps)))
      ∙ ingest_rest tolerate ps [] (some (process_all u sym_of tolerate ps (start b files))) h
          (λ fuel _. loop-empty u sym_of tolerate fuel _)

  -- Such a stream that breaks off inside one more entry, of no more than 2^28 bytes: the tolerant
  -- ingest returns what the whole entries before it give, and the strict ingest is an error.
  pub ingest-truncated :
      (ps : List (List ℕ × Entry)) (body : List ℕ) (k : ℕ)
      → All IsEncoded ps
      → length body ≤ max_entry_len
      → suc k < length (framed body)
      → (ingest_tolerant u sym_of true (stream_of ps ++ take (suc k) (framed body)) b files
          ≡ ingest_tolerant u sym_of true (stream_of ps) b files)
        × (ingest_tolerant u sym_of false (stream_of ps ++ take (suc k) (framed body)) b files
            ≡ none)
  ingest-truncated ps body k h le cut = (
    ingest_rest true ps (take (suc k) (framed body))
          (some (process_all u sym_of true ps (start b files))) h (cut_end true)
        ∙ sym (ingest-stream_of true ps h),
    ingest_rest false ps (take (suc k) (framed body)) none h (cut_end false),
  )
    where
      cut_end :
          (tolerate : Bool) (fuel : ℕ)
          → length (take (suc k) (framed body)) ≤ fuel
          → entry_loop u sym_of tolerate fuel
              (take (suc k) (framed body))
              (process_all u sym_of tolerate ps (start b files))
            ≡ broken u sym_of tolerate (process_all u sym_of tolerate ps (start b files))
      cut_end tolerate zero f = absurd (omega (arith, length-take (suc k) (framed body)))
      cut_end tolerate (suc fuel) f = loop-cut u sym_of tolerate fuel k body _ le cut
