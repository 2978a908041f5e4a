-- ===== src/Writer/Trigram.antt =====
-- `build_trigram_index` of writer.rs, in its two passes over the names. The `HashMap`s keyed by
-- trigram are association lists; the postings buffer is written in place.
use scry.Prelude.{
  ℕ, suc, ◌+◌, ◌-◌, ◌*◌, ◌/◌, ◌%◌, List, [], ◌∷◌, ◌++◌, if◌then◌else◌, ◌==◌, ◌&&◌, not, leb, length,
  take, drop, map, replicate, Option, none, some,
}
use scry.Bytes.{cmp, to_be_bytes, u32_mod}
use scry.Format.{trigram_block, skip_entry}
use scry.Format.Varint.{write_varint, varint_len}
use scry.Sorted.{is_eq, sort_unstable}

-- `b.to_ascii_lowercase()`
abbrev pub to_ascii_lowercase : ℕ → ℕ
to_ascii_lowercase b = if leb 65 b && leb b 90 then b + 32 else b

-- `bs.windows(3)`
unfoldable pub windows : List ℕ → List (List ℕ)
windows [] = []
windows (a ∷ []) = []
windows (a ∷ b ∷ []) = []
windows (a ∷ b ∷ c ∷ rest) = (a ∷ b ∷ c ∷ []) ∷ windows (b ∷ c ∷ rest)

-- The windows of one name without one that repeats the window before it.
unfoldable pub distinct_from : Option (List ℕ) → List (List ℕ) → List (List ℕ)
distinct_from last [] = []
distinct_from none (w ∷ ws) = w ∷ distinct_from (some w) ws
distinct_from (some v) (w ∷ ws) =
    let rest = distinct_from (some w) ws in if is_eq (cmp v w) then rest else w ∷ rest

-- `visit`: each trigram of each name with the number of the name's row.
unfoldable pub visit : ℕ → List (List ℕ) → List (List ℕ × ℕ)
unfolding windows distinct_from
visit row_id [] = []
visit row_id (name ∷ names) =
    map (λ w. (w, row_id)) (distinct_from none (windows (map to_ascii_lowercase name)))
    ++ visit (suc row_id) names

-- What the first pass knows of a trigram. `seen` is `count`, `last` the last row number.
pub record Acc : Type 0 where
  pub count : ℕ
  pub block_bytes : ℕ
  pub last : ℕ

abbrev fresh : Acc
fresh = record { count = 0; block_bytes = 0; last = u32_mod - 1 }

-- The number that is stored for a row: itself at the start of a block, else the gap.
unfoldable pub delta_of : ℕ → ℕ → ℕ → ℕ
delta_of written last row_id = if written % trigram_block == 0 then row_id else row_id - last

unfoldable pub count_posting : Acc → ℕ → Acc
unfolding delta_of
count_posting a row_id = if not (a.count == 0) && a.last == row_id then a else record {
  count = a.count + 1;
  block_bytes = a.block_bytes + varint_len (delta_of a.count a.last row_id);
  last = row_id;
}

-- A map keyed by trigrams: the value at a key, and its update from a default.
module _ {ℓ} {V : Type ℓ} where
  unfoldable pub at_key : V → List ℕ → List (List ℕ × V) → V
  at_key d k [] = d
  at_key d k ((j, v) ∷ m) = if is_eq (cmp j k) then v else at_key d k m

  unfoldable pub update_key : V → List ℕ → (V → V) → List (List ℕ × V) → List (List ℕ × V)
  update_key d k f [] = (k, f d) ∷ []
  update_key d k f ((j, v) ∷ m) =
      let rest = update_key d k f m in if is_eq (cmp j k) then (j, f v) ∷ m else (j, v) ∷ rest

unfoldable pub count_pass : List (List ℕ × Acc) → List (List ℕ × ℕ) → List (List ℕ × Acc)
unfolding update_key count_posting
count_pass acc [] = acc
count_pass acc ((tri, row_id) ∷ events) =
    count_pass (update_key fresh tri (λ a. count_posting a row_id) acc) events

abbrev pub n_blocks : ℕ → ℕ
n_blocks count = (count + (trigram_block - 1)) / trigram_block

-- The dictionary in the order of the keys, the region of each trigram, and the buffer's length.
pub record Regions : Type 0 where
  pub dict : List ℕ
  pub region_of : List (List ℕ × ℕ)
  pub total : ℕ

unfoldable pub assign_regions : List (List ℕ × Acc) → List (List ℕ) → Regions → Regions
unfolding at_key
assign_regions acc [] r = r
assign_regions acc (tri ∷ keys) r =
    let a = at_key fresh tri acc in
    let region_len = n_blocks a.count * skip_entry + a.block_bytes in
    assign_regions acc keys (record {
      dict =
          r.dict
          ++ (tri
              ++ (0
                  ∷ (to_be_bytes 8 r.total
                      ++ (to_be_bytes 4 region_len ++ to_be_bytes 4 a.count))));
      region_of = r.region_of ++ ((tri, r.total) ∷ []);
      total = r.total + region_len;
    })

-- `buf[at..at + bs.len()].copy_from_slice(bs)`
unfoldable pub overwrite : List ℕ → ℕ → List ℕ → List ℕ
overwrite buf at bs = take at buf ++ (bs ++ drop (at + length bs) buf)

pub record Cursor : Type 0 where
  pub written : ℕ
  pub block_cursor : ℕ
  pub last : ℕ

-- One posting of the second pass, in the region that starts at `region_start`.
unfoldable pub write_posting : ℕ → ℕ → List ℕ × Cursor → List ℕ × Cursor
unfolding overwrite delta_of write_varint
write_posting region_start row_id (postings, w) =
    let skip_at = region_start + w.written / trigram_block * skip_entry in
    let opened =
      if w.written % trigram_block == 0
      then overwrite postings (skip_at + 4) (to_be_bytes 4 (w.block_cursor - region_start))
      else postings in
    let varint = write_varint [] (delta_of w.written w.last row_id) in
    let filled = overwrite opened w.block_cursor varint in
    let w' : Cursor = record {
      written = w.written + 1;
      block_cursor = w.block_cursor + length varint;
      last = row_id;
    } in
    if not (w.written == 0) && w.last == row_id
    then (postings, w)
    else (overwrite filled skip_at (to_be_bytes 4 row_id), w')

unfoldable pub write_pass :
    List (List ℕ × Acc)
    → List (List ℕ × ℕ)
    → List ℕ
    → List (List ℕ × Cursor)
    → List (List ℕ × ℕ)
    → List ℕ
unfolding at_key update_key write_posting
write_pass acc region_of postings wst [] = postings
write_pass acc region_of postings wst ((tri, row_id) ∷ events) =
    let region_start = at_key 0 tri region_of in
    let start : Cursor = record {
      written = 0;
      block_cursor = region_start + n_blocks (at_key fresh tri acc).count * skip_entry;
      last = u32_mod - 1;
    } in
    let (postings', w) = write_posting region_start row_id (postings, at_key start tri wst) in
    write_pass acc region_of postings' (update_key start tri (λ _. w) wst) events

-- The dictionary and the postings, from the names in the order of their rows; a row past the 32-bit
-- range is left out.
unfoldable pub build_trigram_index : List (List ℕ) → List ℕ × List ℕ
unfolding visit count_pass assign_regions write_pass
build_trigram_index names =
    let events = visit 0 (take (u32_mod - 1) names) in
    let acc = count_pass [] events in
    let keys = sort_unstable (map (λ e. e.0) acc) in
    let r = assign_regions acc keys (record { dict = []; region_of = []; total = 0 }) in
    (r.dict, write_pass acc r.region_of (replicate r.total 0) [] events)
