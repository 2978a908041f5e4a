-- ===== src/Reader/Iter.antt =====
-- The iterators over whole sections of reader.rs, run to their end.
use scry.Prelude.{ℕ, ◌+◌, ◌*◌, List, [], ◌∷◌, ◌==◌, ◌&&◌, if◌then◌else◌, Option, none, some}
use mathlib.Core.List.{flatten}
use scry.Bytes.{slice, read_int}
use scry.Format.{sym_len, name_len, file_len, inh_len, call_len, type_len}
use scry.Run.{Run, done, ◌>>=◌}
use scry.Text.{is_utf8}
use scry.Reader.{Index, xrefs_slice, inh_slice, calls_slice, childrev_slice}
use scry.Reader.Table.{collect, xref_at}
use scry.Reader.Lookup.{blob, syms_slice, typed_slice, sig_slice, files_slice}
use scry.Reader.Names.{names_slice}

unfoldable pub iter_xrefs : Index → Run (List (ℕ × ℕ × ℕ × ℕ))
iter_xrefs ix = do t ← xrefs_slice ix; collect ix.hdr.xrefs_n 0 (xref_at t)

-- Where a string lies in the blob: the offset at `at`, the length 8 bytes behind.
unfoldable pub place_at : List ℕ → ℕ → Run (ℕ × ℕ)
place_at t at = do
  off ← read_int t at (at + 8)
  len ← read_int t (at + 8) (at + 10)
  done (off, len)

-- `from_utf8(&blob[off..off + len]).unwrap_or("")`
unfoldable pub str_or_empty : List ℕ → ℕ × ℕ → Run (List ℕ)
str_or_empty b (off, len) = do s ← slice b off (off + len); done (if is_utf8 s then s else [])

-- Symbol, kind, language and name.
unfoldable pub sym_row_at : List ℕ → List ℕ → ℕ → Run (ℕ × ℕ × ℕ × List ℕ)
sym_row_at t b i = do
  sym ← read_int t (i * sym_len) (i * sym_len + 8)
  kind ← read_int t (i * sym_len + 8) (i * sym_len + 9)
  lang ← read_int t (i * sym_len + 9) (i * sym_len + 10)
  place ← place_at t (i * sym_len + 10)
  name ← str_or_empty b place
  done (sym, kind, lang, name)

unfoldable pub iter_syms : Index → Run (List (ℕ × ℕ × ℕ × List ℕ))
iter_syms ix = do t ← syms_slice ix; b ← blob ix; collect ix.hdr.syms_n 0 (sym_row_at t b)

-- A key of `w` bytes and the string behind it.
unfoldable pub keyed_str_at : List ℕ → List ℕ → ℕ → ℕ → ℕ → Run (ℕ × List ℕ)
keyed_str_at t b len w i = do
  key ← read_int t (i * len) (i * len + w)
  place ← place_at t (i * len + w)
  s ← str_or_empty b place
  done (key, s)

unfoldable pub iter_files : Index → Run (List (ℕ × List ℕ))
iter_files ix = do
  t ← files_slice ix
  b ← blob ix
  collect ix.hdr.files_n 0 (keyed_str_at t b file_len 4)

unfoldable pub iter_typed : Index → Run (List (ℕ × List ℕ))
iter_typed ix = do
  t ← typed_slice ix
  b ← blob ix
  collect ix.hdr.typed_n 0 (keyed_str_at t b type_len 8)

unfoldable pub iter_sig : Index → Run (List (ℕ × List ℕ))
iter_sig ix = do t ← sig_slice ix; b ← blob ix; collect ix.hdr.sig_n 0 (keyed_str_at t b type_len 8)

-- The two symbols of a row.
unfoldable pub pair_at : List ℕ → ℕ → Run (ℕ × ℕ)
pair_at t i = do
  first ← read_int t (i * inh_len) (i * inh_len + 8)
  second ← read_int t (i * inh_len + 8) (i * inh_len + 16)
  done (first, second)

unfoldable pub iter_inherits : Index → Run (List (ℕ × ℕ))
iter_inherits ix = do t ← inh_slice ix; collect ix.hdr.inh_n 0 (pair_at t)

unfoldable pub iter_childrev : Index → Run (List (ℕ × ℕ))
iter_childrev ix = do t ← childrev_slice ix; collect ix.hdr.childrev_n 0 (pair_at t)

unfoldable pub call_at : List ℕ → ℕ → Run (ℕ × ℕ × ℕ)
call_at t i = do
  caller ← read_int t (i * call_len) (i * call_len + 8)
  callee ← read_int t (i * call_len + 8) (i * call_len + 16)
  role ← read_int t (i * call_len + 16) (i * call_len + 17)
  done (caller, callee, role)

unfoldable pub iter_calls : Index → Run (List (ℕ × ℕ × ℕ))
iter_calls ix = do t ← calls_slice ix; collect ix.hdr.calls_n 0 (call_at t)

-- The map `canon`: a later row of a symbol replaces an earlier one.
unfoldable pub canon_of : ℕ → List (ℕ × ℕ × ℕ) → Option (ℕ × ℕ) → Option (ℕ × ℕ)
canon_of sym [] found = found
canon_of sym ((s, off, len) ∷ rest) found =
    canon_of sym rest (if s == sym then some (off, len) else found)

-- The alias of a row of the name index: no row of a canonical name, no invalid string.
unfoldable pub alias_at : List (ℕ × ℕ × ℕ) → List ℕ → List ℕ → ℕ → Run (List (ℕ × List ℕ))
alias_at canon names b i = do
  (off, len) ← place_at names (i * name_len)
  sym ← read_int names (i * name_len + 10) (i * name_len + 18)
  let alias = slice b off (off + len) >>= λ s. done (if is_utf8 s then (sym, s) ∷ [] else [])
  elim (canon_of sym canon none) [
    | none ↦ alias
    | some p ↦ if (p.0 == off) && (p.1 == len) then done [] else alias
  ]

unfoldable pub iter_aliases : Index → Run (List (ℕ × List ℕ))
iter_aliases ix = do
  t ← syms_slice ix
  canon ← collect ix.hdr.syms_n 0 λ i. do
    sym ← read_int t (i * sym_len) (i * sym_len + 8)
    place ← place_at t (i * sym_len + 10)
    done (sym, place.0, place.1)
  names ← names_slice ix
  b ← blob ix
  rows ← collect ix.hdr.names_n 0 (alias_at canon names b)
  done (flatten rows)
