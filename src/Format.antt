-- ===== src/Format.antt =====
-- crates/scry2/src/format.rs: the constants of the index file, its header and its row layouts.
-- A row is a list of integers, packed at the widths of its layout, most significant byte first.
pub mod Role
pub mod Kind
pub mod Lang
pub mod Varint
pub mod VarintLaws
pub mod Pad
pub mod Rows
pub mod HeaderBytes
use Prim.Native.Nat.{bit_and}
use scry.Prelude.{ℕ, zero, suc, ◌+◌, ◌-◌, ◌*◌, ◌^◌, ◌%◌, List, [], ◌∷◌, ◌++◌}
use scry.Bytes.{u64_mod, to_be_bytes}

-- b"S2DBv2\0\0"
abbrev pub magic : List ℕ
magic = b'S' ∷ b'2' ∷ b'D' ∷ b'B' ∷ b'v' ∷ b'2' ∷ 0 ∷ 0 ∷ []

abbrev pub version : ℕ
version = 6

abbrev pub min_version : ℕ
min_version = 6

abbrev pub trigram_block : ℕ
trigram_block = 128

abbrev pub page : ℕ
page = 4096

-- `size_of::<Header>()`
abbrev pub header_len : ℕ
header_len = 256

-- Numbers of rows and byte offsets. `_pad0` and `_reserved` are written as zeros and not read.
pub record Header : Type 0 where
  pub magic : List ℕ
  pub version : ℕ
  pub xrefs_off : ℕ
  pub xrefs_n : ℕ
  pub syms_off : ℕ
  pub syms_n : ℕ
  pub names_off : ℕ
  pub names_n : ℕ
  pub files_off : ℕ
  pub files_n : ℕ
  pub inh_off : ℕ
  pub inh_n : ℕ
  pub calls_off : ℕ
  pub calls_n : ℕ
  pub crev_off : ℕ
  pub crev_n : ℕ
  pub blob_off : ℕ
  pub blob_len : ℕ
  pub typed_off : ℕ
  pub typed_n : ℕ
  pub childrev_off : ℕ
  pub childrev_n : ℕ
  pub inhrev_off : ℕ
  pub inhrev_n : ℕ
  pub sig_off : ℕ
  pub sig_n : ℕ
  pub trigram_dict_off : ℕ
  pub trigram_dict_n : ℕ
  pub trigram_post_off : ℕ
  pub trigram_post_len : ℕ

-- The widths of the fields of `XrefRow`: sym, role, file, offset.
abbrev pub xref_row : List ℕ
xref_row = 8 ∷ 1 ∷ 4 ∷ 4 ∷ []

abbrev pub xref_len : ℕ
xref_len = 17

-- `SymRow`: sym, kind, lang, name_off, name_len.
abbrev pub sym_row : List ℕ
sym_row = 8 ∷ 1 ∷ 1 ∷ 8 ∷ 2 ∷ []

abbrev pub sym_len : ℕ
sym_len = 20

-- `NameRow`: name_off, name_len, sym.
abbrev pub name_row : List ℕ
name_row = 8 ∷ 2 ∷ 8 ∷ []

abbrev pub name_len : ℕ
name_len = 18

-- `FileRow`: file, path_off, path_len.
abbrev pub file_row : List ℕ
file_row = 4 ∷ 8 ∷ 2 ∷ []

abbrev pub file_len : ℕ
file_len = 14

-- `InhRow`: child, parent; the other way round in `inhrev` and `childrev`.
abbrev pub inh_row : List ℕ
inh_row = 8 ∷ 8 ∷ []

abbrev pub inh_len : ℕ
inh_len = 16

-- `CallRow`: caller, callee, role; callee first in `crev`.
abbrev pub call_row : List ℕ
call_row = 8 ∷ 8 ∷ 1 ∷ []

abbrev pub call_len : ℕ
call_len = 17

-- `TypeRow`: sym, str_off, str_len.
abbrev pub type_row : List ℕ
type_row = 8 ∷ 8 ∷ 2 ∷ []

abbrev pub type_len : ℕ
type_len = 18

-- `TrigramRow`: three bytes of key, a zero byte, post_off, post_len, count.
abbrev pub trigram_row : List ℕ
trigram_row = 1 ∷ 1 ∷ 1 ∷ 1 ∷ 8 ∷ 4 ∷ 4 ∷ []

abbrev pub trigram_len : ℕ
trigram_len = 20

abbrev pub skip_entry : ℕ
skip_entry = 8

-- One row as the writer emits it: the bytes of each field in turn.
unfoldable pub pack : List ℕ → List ℕ → List ℕ
pack [] xs = []
pack (w ∷ ws) [] = []
pack (w ∷ ws) (x ∷ xs) = to_be_bytes w x ++ pack ws xs

-- A section: its rows one after the other.
unfoldable pub table : List ℕ → List (List ℕ) → List ℕ
table ws [] = []
table ws (r ∷ rs) = pack ws r ++ table ws rs

-- `(n + p - 1) & !(p - 1)` in `u64`.
unfoldable pub pad_up : ℕ → ℕ
pad_up n = bit_and ((n + page - 1) % u64_mod) (u64_mod - 1 - (page - 1))
