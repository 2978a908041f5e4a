-- ===== src/Writer/Layout.antt =====
-- How `finish` of writer.rs lays the sections out in the file: each at the next whole page behind
-- the one before, and the file's length set at the end.
use scry.Prelude.{ℕ, ◌+◌, ◌-◌, List, [], ◌∷◌, ◌++◌, length, take, drop, replicate}
use scry.Format.{pad_up}

-- A section: the number of bytes that the header will declare, and the bytes that are written.
pub record Section : Type 0 where
  pub len : ℕ
  pub content : List ℕ

-- `n` bytes of a file, with zeros where it ends before.
abbrev pub pad_to : ℕ → List ℕ → List ℕ
pad_to n file = file ++ replicate (n - length file) 0

-- Seek to `off` and write. Seeking alone does not make the file longer.
unfoldable pub write_at : List ℕ → ℕ → List ℕ → List ℕ
write_at file off [] = file
write_at file off (b ∷ bs) =
    take off (pad_to off file) ++ ((b ∷ bs) ++ drop (off + length (b ∷ bs)) file)

-- `File::set_len`
unfoldable pub set_len : List ℕ → ℕ → List ℕ
set_len file n = take n (pad_to n file)

-- The offsets of the sections, from the end of what stands before them.
unfoldable pub offsets : ℕ → List Section → List ℕ
offsets end [] = []
offsets end (s ∷ ss) = pad_up end ∷ offsets (pad_up end + s.len) ss

-- Where the last section ends.
unfoldable pub total : ℕ → List Section → ℕ
total end [] = end
total end (s ∷ ss) = total (pad_up end + s.len) ss

unfoldable pub write_sections : List ℕ → ℕ → List Section → List ℕ
write_sections file end [] = file
write_sections file end (s ∷ ss) =
    write_sections (write_at file (pad_up end) s.content) (pad_up end + s.len) ss

-- The whole file, behind a header.
unfoldable pub file_of : List ℕ → List Section → List ℕ
file_of header ss = set_len (write_sections header (length header) ss) (total (length header) ss)
