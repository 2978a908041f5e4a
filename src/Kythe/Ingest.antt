-- ===== src/Kythe/Ingest.antt =====
-- `ingest_tolerant` of kythe.rs: the framed entries of a stream, and the end of the unit. The
-- stream is the list of its bytes; a read error other than its end is not modelled. `none` is an
-- error of the ingest.
use scry.Prelude.{
  ℕ, zero, suc, ◌+◌, ◌^◌, List, [], ◌∷◌, Bool, true, false, ltb, if◌then◌else◌, length, Option,
  some, none,
}
use scry.Text.{Unicode}
use scry.Kythe.Wire.{read_varint, split_at, parse_entry, ◌>>=◌}
use scry.Kythe.State.{no_state, no_stats, World}
use scry.Kythe.Files.{AllocState}
use scry.Kythe.Process.{process_entry}
use scry.Kythe.Finalize.{finalize}
use scry.Writer.Builder.{IndexBuilder}

abbrev pub max_entry_len : ℕ
max_entry_len = 2 ^ 28

module _ (u : Unicode) (sym_of : List ℕ → ℕ) (tolerate_trunc : Bool) where
  -- A stream that breaks off ends the loop, or is an error.
  abbrev pub broken : World → Option World
  broken w = if tolerate_trunc then some w else none

  abbrev pub counted : World → World
  counted w = record w { stats = record w.stats { entries = w.stats.entries + 1 } }

  -- The loop over the entries. A round takes at least one byte of the stream.
  unfoldable pub entry_loop : ℕ → List ℕ → World → Option World
  entry_loop zero bs w = elim bs [ [] ↦ some w | b ∷ bs ↦ none ]
  entry_loop (suc fuel) bs w = elim (read_varint bs) [
    | none ↦ broken w
    | some none ↦ some w
    | some (some (len, rest)) ↦ elim (ltb max_entry_len len) [
      | true ↦ broken w
      | false ↦ elim (split_at len rest) [
        | none ↦ broken w
        | some (body, rest') ↦ elim (parse_entry body) [
          | none ↦ broken w
          | some e ↦ entry_loop fuel rest' (process_entry u sym_of e (counted w))
        ]
      ]
    ]
  ]

  unfoldable pub ingest_tolerant : List ℕ → IndexBuilder → AllocState → Option World
  unfolding entry_loop
  ingest_tolerant stream builder files =
      let start : World = record {
        state = no_state;
        builder = builder;
        files = files;
        stats = no_stats;
      } in
      do w ← entry_loop (length stream) stream start; some (finalize u sym_of w)
