-- ===== src/Reader/Open.antt =====
-- `Index::open` of reader.rs: the header is read and checked, and so is every section against the
-- length of the file.
use scry.Prelude.{
  ℕ, ◌+◌, ◌*◌, List, [], ◌∷◌, if◌then◌else◌, ltb, leb, ◌||◌, not, length, take, drop, Option, none,
  some,
}
use scry.Bytes.{cmp, u64_mod}
use scry.Format.{
  Header, magic, version, min_version, header_len, xref_len, sym_len, name_len, file_len, inh_len,
  call_len, type_len, trigram_len,
}
use scry.Reader.{Index}
use scry.Sorted.{is_eq}

pub data OpenError : Type 0 where
  too_small bad_magic unsupported_version size_overflow truncated : OpenError

pub data Opened : Type 0 where
  ok : Index → Opened
  err : OpenError → Opened

-- `from_le_bytes`: the fields of the header are in the order of the host.
unfoldable pub from_le_bytes : List ℕ → ℕ
from_le_bytes [] = 0
from_le_bytes (b ∷ bs) = b + 256 * from_le_bytes bs

-- The `i`-th `u64` behind the magic, the version and the padding.
unfoldable pub read_word : List ℕ → ℕ → ℕ
read_word bs i = from_le_bytes (take 8 (drop (16 + 8 * i) bs))

unfoldable pub read_header : List ℕ → Header
read_header bs = record {
  magic = take 8 bs;
  version = from_le_bytes (take 4 (drop 8 bs));
  xrefs_off = read_word bs 0;
  xrefs_n = read_word bs 1;
  syms_off = read_word bs 2;
  syms_n = read_word bs 3;
  names_off = read_word bs 4;
  names_n = read_word bs 5;
  files_off = read_word bs 6;
  files_n = read_word bs 7;
  inh_off = read_word bs 8;
  inh_n = read_word bs 9;
  calls_off = read_word bs 10;
  calls_n = read_word bs 11;
  crev_off = read_word bs 12;
  crev_n = read_word bs 13;
  blob_off = read_word bs 14;
  blob_len = read_word bs 15;
  typed_off = read_word bs 16;
  typed_n = read_word bs 17;
  childrev_off = read_word bs 18;
  childrev_n = read_word bs 19;
  inhrev_off = read_word bs 20;
  inhrev_n = read_word bs 21;
  sig_off = read_word bs 22;
  sig_n = read_word bs 23;
  trigram_dict_off = read_word bs 24;
  trigram_dict_n = read_word bs 25;
  trigram_post_off = read_word bs 26;
  trigram_post_len = read_word bs 27;
}

-- A section as the check sees it: offset, count, bytes for each.
pub record Extent : Type 0 where
  pub off : ℕ
  pub n : ℕ
  pub stride : ℕ

abbrev pub extent : ℕ → ℕ → ℕ → Extent
extent off n stride = record { off = off; n = n; stride = stride }

unfoldable pub extents : Header → List Extent
extents h =
    extent h.xrefs_off h.xrefs_n xref_len
    ∷ extent h.syms_off h.syms_n sym_len
    ∷ extent h.names_off h.names_n name_len
    ∷ extent h.files_off h.files_n file_len
    ∷ extent h.inh_off h.inh_n inh_len
    ∷ extent h.calls_off h.calls_n call_len
    ∷ extent h.crev_off h.crev_n call_len
    ∷ extent h.typed_off h.typed_n type_len
    ∷ extent h.childrev_off h.childrev_n inh_len
    ∷ extent h.inhrev_off h.inhrev_n inh_len
    ∷ extent h.sig_off h.sig_n type_len
    ∷ extent h.trigram_dict_off h.trigram_dict_n trigram_len
    ∷ extent h.trigram_post_off h.trigram_post_len 1
    ∷ extent h.blob_off h.blob_len 1
    ∷ []

-- `checked_mul`, `checked_add`, and the end against the length of the file.
unfoldable pub check_extents : ℕ → List Extent → Option OpenError
check_extents map_len [] = none
check_extents map_len (e ∷ es) =
    let rest = check_extents map_len es in
    if leb u64_mod (e.n * e.stride)
    then some size_overflow
    else if leb u64_mod (e.off + e.n * e.stride)
    then some size_overflow
    else if ltb map_len (e.off + e.n * e.stride)
    then some truncated
    else rest

unfoldable pub open' : List ℕ → Opened
open' bs =
    let hdr = read_header bs in
    if ltb (length bs) header_len
    then err too_small
    else if not (is_eq (cmp hdr.magic magic))
    then err bad_magic
    else if ltb hdr.version min_version || ltb version hdr.version
    then err unsupported_version
    else elim (check_extents (length bs) (extents hdr)) [
      | some e ↦ err e
      | none ↦ ok (record { bytes = bs; hdr = hdr })
    ]
