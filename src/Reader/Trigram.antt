-- ===== src/Reader/Trigram.antt =====
-- The trigram dictionary and its postings, as reader.rs reads them. A region of postings is its
-- skip table and then its blocks of gaps; the first id of a block is stored as it is. Positions
-- wrap like `usize`, ids like `u32`; the closing `debug_assert!` is not part of a release build.
use scry.Prelude.{
  ℕ, zero, suc, ◌+◌, ◌-◌, ◌*◌, ◌/◌, ◌%◌, List, [], ◌∷◌, ◌++◌, Bool, true, false, ltb, min, Option,
  if◌then◌else◌,
}
use scry.Bytes.{slice, read_int, u64_mod, u32_mod}
use scry.Format.{name_len, trigram_len, trigram_block, skip_entry}
use scry.Format.Varint.{read_varint}
use scry.Run.{Run, done, stuck, ◌>>=◌}
use scry.Reader.{Index, section}
use scry.Reader.Search.{find_loop}
use scry.Reader.Lookup.{on_row, key_order}

-- `Posting`: where the region of a trigram lies, and how many ids it has.
pub record Posting : Type 0 where
  pub off : ℕ
  pub len : ℕ
  pub count : ℕ

unfoldable pub trigram_dict_slice : Index → Run (List ℕ)
trigram_dict_slice ix = section ix ix.hdr.trigram_dict_off (ix.hdr.trigram_dict_n * trigram_len)

unfoldable pub trigram_post_slice : Index → Run (List ℕ)
trigram_post_slice ix = section ix ix.hdr.trigram_post_off ix.hdr.trigram_post_len

-- The name of a row and its symbol.
unfoldable pub name_row : List ℕ → List ℕ → ℕ → Run (List ℕ × ℕ)
name_row names blob row_id = do
  off ← read_int names (row_id * name_len) (row_id * name_len + 8)
  len ← read_int names (row_id * name_len + 8) (row_id * name_len + 10)
  sym ← read_int names (row_id * name_len + 10) (row_id * name_len + 18)
  name ← slice blob off (off + len)
  done (name, sym)

-- The descriptor in row `i` of the dictionary.
unfoldable pub posting_at : List ℕ → ℕ → Run Posting
posting_at dict i = do
  off ← read_int dict (i * trigram_len + 4) (i * trigram_len + 12)
  len ← read_int dict (i * trigram_len + 12) (i * trigram_len + 16)
  count ← read_int dict (i * trigram_len + 16) (i * trigram_len + 20)
  done (record { off = off; len = len; count = count })

unfoldable pub trigram_lookup : Index → List ℕ → List ℕ → Run (Option Posting)
trigram_lookup ix dict tri =
    on_row
      (find_loop ix.hdr.trigram_dict_n (key_order dict trigram_len 3 tri) 0 ix.hdr.trigram_dict_n)
      (posting_at dict)

-- One block: `first` is `i == 0`; the ids, and the position behind them.
unfoldable pub block_ids : ℕ → Bool → List ℕ → ℕ → ℕ → Run (List ℕ × ℕ)
block_ids zero first post pos acc = done ([], pos)
block_ids (suc rounds) first post pos acc = do
  (delta, used) ← read_varint post pos
  let id = if first then delta else (acc + delta) % u32_mod
  (ids, end) ← block_ids rounds false post ((pos + used) % u64_mod) id
  done (id ∷ ids, end)

-- `while remaining > 0`; a round takes at least one from `remaining`.
unfoldable pub blocks_loop : ℕ → List ℕ → ℕ → ℕ → Run (List ℕ)
blocks_loop zero post pos remaining = if ltb 0 remaining then stuck else done []
blocks_loop (suc fuel) post pos remaining =
    let next = block_ids (min remaining trigram_block) true post pos 0 >>= λ b.
    blocks_loop fuel post (b.1) (remaining - min remaining trigram_block) >>= λ ids.
    done (b.0 ++ ids) in
    if ltb 0 remaining then next else done []

unfoldable pub trigram_postings : List ℕ → Posting → Run (List ℕ)
trigram_postings post p =
    blocks_loop p.count post
      ((p.off + (p.count + (trigram_block - 1)) / trigram_block * skip_entry) % u64_mod) p.count
