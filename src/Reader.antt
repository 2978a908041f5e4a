-- ===== src/Reader.antt =====
-- crates/scry2/src/reader.rs: an index file in memory, and the queries over its sections. The
-- file is a list of bytes; a subslice past its end, and a length that would be negative, panic.
pub mod Search
pub mod SearchLaws
pub mod Table
pub mod TableLaws
pub mod IterLaws
pub mod RangeLaws
pub mod XrefLaws
pub mod Open
pub mod OpenLaws
pub mod HeaderLaws
pub mod LastKey
pub mod Lookup
pub mod LookupLaws
pub mod Names
pub mod NamesLaws
pub mod Trigram
pub mod TrigramLaws
pub mod Iter
pub mod BlockLaws
pub mod PostingLaws
use scry.Prelude.{
  ℕ, zero, suc, ◌+◌, ◌-◌, ◌*◌, ◌%◌, List, [], ◌∷◌, ◌==◌, if◌then◌else◌, replicate, Option, some,
  none,
}
use scry.Bytes.{to_be_bytes, read_int, slice, u64_mod}
use scry.Format.{Header, inh_len, call_len, xref_len, sym_len, name_len, file_len, type_len}
use scry.Format.Role
use scry.Run.{Run, done, panic, ◌>>=◌}
use scry.Reader.Table.{inh_range, call_range, xref_range}

-- `Index`: the mapped file and its header.
pub record Index : Type 0 where
  pub bytes : List ℕ
  pub hdr : Header

-- `&self.map[off..off + len]`
abbrev pub section : Index → ℕ → ℕ → Run (List ℕ)
section ix off len = slice ix.bytes off (off + len)

unfoldable pub xrefs_slice : Index → Run (List ℕ)
xrefs_slice ix = section ix ix.hdr.xrefs_off (ix.hdr.xrefs_n * xref_len)

unfoldable pub inh_slice : Index → Run (List ℕ)
inh_slice ix = section ix ix.hdr.inh_off (ix.hdr.inh_n * inh_len)

unfoldable pub calls_slice : Index → Run (List ℕ)
calls_slice ix = section ix ix.hdr.calls_off (ix.hdr.calls_n * call_len)

unfoldable pub crev_slice : Index → Run (List ℕ)
crev_slice ix = section ix ix.hdr.crev_off (ix.hdr.crev_n * call_len)

unfoldable pub inhrev_slice : Index → Run (List ℕ)
inhrev_slice ix = section ix ix.hdr.inhrev_off (ix.hdr.inhrev_n * inh_len)

unfoldable pub childrev_slice : Index → Run (List ℕ)
childrev_slice ix = section ix ix.hdr.childrev_off (ix.hdr.childrev_n * inh_len)

-- The parents of `child`.
unfoldable pub inherits_of : Index → ℕ → Run (List ℕ)
inherits_of ix child = do inh ← inh_slice ix; inh_range inh ix.hdr.inh_n child

-- The children of `parent`, in the section sorted by parent.
unfoldable pub inherited_by : Index → ℕ → Run (List ℕ)
inherited_by ix parent = do inhrev ← inhrev_slice ix; inh_range inhrev ix.hdr.inhrev_n parent

unfoldable pub members : Index → ℕ → Run (List ℕ)
members ix parent = do childrev ← childrev_slice ix; inh_range childrev ix.hdr.childrev_n parent

-- The callees of `caller` with their roles, and the callers of `callee`.
unfoldable pub calls_from : Index → ℕ → Run (List (ℕ × ℕ))
calls_from ix caller = do calls ← calls_slice ix; call_range calls ix.hdr.calls_n caller

unfoldable pub called_by : Index → ℕ → Run (List (ℕ × ℕ))
called_by ix callee = do crev ← crev_slice ix; call_range crev ix.hdr.crev_n callee

-- The rows that the iterator yields: sym, role, file, offset.
unfoldable pub xrefs : Index → ℕ → ℕ → ℕ → Run (List (ℕ × ℕ × ℕ × ℕ))
xrefs ix sym role_lo role_hi = do
  t ← xrefs_slice ix
  xref_range t ix.hdr.xrefs_n sym role_lo role_hi

-- `sym_def_loc`: the first definition of the range, else its first declaration.
unfoldable pub def_loc_loop : List (ℕ × ℕ × ℕ × ℕ) → Option (ℕ × ℕ) → Option (ℕ × ℕ)
def_loc_loop [] decl = decl
def_loc_loop ((sym, role, file, off) ∷ rest) decl =
    let first : Option (ℕ × ℕ) = elim decl [ none ↦ some (file, off) | some d ↦ some d ] in
    let on_decl = def_loc_loop rest first in
    let other = def_loc_loop rest decl in
    if role == Role.def then some (file, off) else if role == Role.decl then on_decl else other

unfoldable pub sym_def_loc : Index → ℕ → Run (Option (ℕ × ℕ))
sym_def_loc ix sym = do rows ← xrefs ix sym Role.decl Role.def; done (def_loc_loop rows none)
