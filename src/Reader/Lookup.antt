-- ===== src/Reader/Lookup.antt =====
-- The point lookups of reader.rs: a binary search for a key, then the fields of its row and the
-- string that they point to.
use Prim.Native.Nat.{Ordering}
use scry.Prelude.{ℕ, ◌+◌, ◌*◌, List, [], ◌∷◌, if◌then◌else◌, Option, none, some}
use scry.Bytes.{cmp, slice, to_be_bytes, read_int}
use scry.Format.{sym_len, type_len, file_len}
use scry.Format.Role
use scry.Run.{Run, done, ◌>>=◌}
use scry.Text.{is_utf8}
use scry.Reader.{Index, section, xrefs}
use scry.Reader.Search.{find_loop}

-- b"<bad utf8>"
abbrev pub bad_utf8 : List ℕ
bad_utf8 = b'<' ∷ b'b' ∷ b'a' ∷ b'd' ∷ b' ' ∷ b'u' ∷ b't' ∷ b'f' ∷ b'8' ∷ b'>' ∷ []

unfoldable pub blob : Index → Run (List ℕ)
blob ix = section ix ix.hdr.blob_off ix.hdr.blob_len

unfoldable pub syms_slice : Index → Run (List ℕ)
syms_slice ix = section ix ix.hdr.syms_off (ix.hdr.syms_n * sym_len)

unfoldable pub typed_slice : Index → Run (List ℕ)
typed_slice ix = section ix ix.hdr.typed_off (ix.hdr.typed_n * type_len)

unfoldable pub sig_slice : Index → Run (List ℕ)
sig_slice ix = section ix ix.hdr.sig_off (ix.hdr.sig_n * type_len)

unfoldable pub files_slice : Index → Run (List ℕ)
files_slice ix = section ix ix.hdr.files_off (ix.hdr.files_n * file_len)

unfoldable pub blob_str : Index → ℕ → ℕ → Run (List ℕ)
blob_str ix off len = do
  all ← blob ix
  s ← slice all off (off + len)
  done (if is_utf8 s then s else bad_utf8)

-- The first `w` bytes of a row against the key.
unfoldable pub key_order : List ℕ → ℕ → ℕ → List ℕ → ℕ → Run Ordering
key_order t stride w key mid = do
  row ← slice t (mid * stride) (mid * stride + w)
  done (cmp row key)

-- The number of the row with the key.
unfoldable pub find_row : List ℕ → ℕ → ℕ → ℕ → ℕ → Run (Option ℕ)
find_row t n stride w key = find_loop n (key_order t stride w (to_be_bytes w key)) 0 n

-- The string whose offset stands at `off` and whose length stands 8 bytes behind.
unfoldable pub str_at : Index → List ℕ → ℕ → Run (List ℕ)
str_at ix t off = do
  str_off ← read_int t off (off + 8)
  str_len ← read_int t (off + 8) (off + 10)
  blob_str ix str_off str_len

-- What a lookup does with the row that it finds.
unfoldable pub on_row {ℓ} : {B : Type ℓ} → Run (Option ℕ) → (ℕ → Run B) → Run (Option B)
on_row found read =
    found >>= λ o. elim o [ none ↦ done none | some i ↦ read i >>= λ b. done (some b) ]

-- Name, kind and language.
unfoldable pub sym_meta : Index → ℕ → Run (Option (List ℕ × ℕ × ℕ))
sym_meta ix sym = do
  syms ← syms_slice ix
  on_row (find_row syms ix.hdr.syms_n sym_len 8 sym) (λ i. do
    kind ← read_int syms (i * sym_len + 8) (i * sym_len + 9)
    lang ← read_int syms (i * sym_len + 9) (i * sym_len + 10)
    name ← str_at ix syms (i * sym_len + 10)
    done (name, kind, lang))

unfoldable pub type_of : Index → ℕ → Run (Option (List ℕ))
type_of ix sym = do
  typed ← typed_slice ix
  on_row (find_row typed ix.hdr.typed_n type_len 8 sym) (λ i. str_at ix typed (i * type_len + 8))

unfoldable pub sig_of : Index → ℕ → Run (Option (List ℕ))
sig_of ix sym = do
  sig ← sig_slice ix
  on_row (find_row sig ix.hdr.sig_n type_len 8 sym) (λ i. str_at ix sig (i * type_len + 8))

unfoldable pub file_path : Index → ℕ → Run (Option (List ℕ))
file_path ix file = do
  files ← files_slice ix
  on_row (find_row files ix.hdr.files_n file_len 4 file) (λ i. str_at ix files (i * file_len + 4))

-- The path of the first definition or declaration whose file has one.
unfoldable pub first_path : Index → List (ℕ × ℕ × ℕ × ℕ) → Run (Option (List ℕ))
first_path ix [] = done none
first_path ix ((sym, role, file, off) ∷ rest) =
    let later = first_path ix rest in
    file_path ix file >>= λ p. elim p [ some path ↦ done (some path) | none ↦ later ]

unfoldable pub sym_def_path : Index → ℕ → Run (Option (List ℕ))
sym_def_path ix sym = do rows ← xrefs ix sym Role.decl Role.def; first_path ix rows
