-- ===== src/Reader/Table.antt =====
-- The range queries of reader.rs over the bytes of one section: two lower bounds, and a walk over
-- the rows between them.
use scry.Prelude.{
  ℕ, zero, suc, ◌+◌, ◌-◌, ◌*◌, ◌%◌, List, [], ◌∷◌, ◌++◌, leb, ◌==◌, if◌then◌else◌, replicate, min,
}
use scry.Bytes.{to_be_bytes, read_int, u64_mod}
use scry.Format.{inh_len, call_len, xref_len}
use scry.Run.{Run, done, panic, ◌>>=◌}
use scry.Reader.Search.{lower_bound}

-- `for i in i..i + rounds { out.push(read(i)) }`
unfoldable pub collect {ℓ} : {B : Type ℓ} → ℕ → ℕ → (ℕ → Run B) → Run (List B)
collect zero i read = done []
collect (suc rounds) i read = do x ← read i; xs ← collect rounds (suc i) read; done (x ∷ xs)

-- `Vec::with_capacity(hi - lo)`: below zero the subtraction overflows, and in a release build the
-- capacity that it wraps to is refused.
unfoldable pub capacity : ℕ → ℕ → Run ℕ
capacity lo hi = if leb lo hi then done (hi - lo) else panic

-- Keys that start with a symbol id and go on with zeros.
abbrev pub start_key : ℕ → ℕ → List ℕ
start_key len sym = to_be_bytes 8 sym ++ replicate (len - 8) 0

-- The rows whose first field is `key`, each read by `read`.
unfoldable pub key_range {ℓ} : {B : Type ℓ} → List ℕ → ℕ → ℕ → ℕ → (ℕ → Run B) → Run (List B)
key_range t total len key read = do
  lo ← lower_bound t total len (start_key len key)
  hi ← lower_bound t total len (start_key len ((key + 1) % u64_mod))
  n ← capacity lo hi
  collect n lo read

-- The second field of a row of `inh`, `inhrev` or `childrev`.
unfoldable pub inh_second : List ℕ → ℕ → Run ℕ
inh_second t i = read_int t (i * inh_len + 8) (i * inh_len + 16)

-- `inherits_of`, `inherited_by` and `members`, each on its section.
unfoldable pub inh_range : List ℕ → ℕ → ℕ → Run (List ℕ)
inh_range t total key = key_range t total inh_len key (inh_second t)

-- The second field and the role of a row of `calls` or `crev`.
unfoldable pub call_second : List ℕ → ℕ → Run (ℕ × ℕ)
call_second t i = do
  callee ← read_int t (i * call_len + 8) (i * call_len + 16)
  role ← read_int t (i * call_len + 16) (i * call_len + 17)
  done (callee, role)

-- `calls_from` and `called_by`.
unfoldable pub call_range : List ℕ → ℕ → ℕ → Run (List (ℕ × ℕ))
call_range t total key = key_range t total call_len key (call_second t)

-- `XrefIter::next`
unfoldable pub xref_at : List ℕ → ℕ → Run (ℕ × ℕ × ℕ × ℕ)
xref_at t i = do
  sym ← read_int t (i * xref_len) (i * xref_len + 8)
  role ← read_int t (i * xref_len + 8) (i * xref_len + 9)
  file ← read_int t (i * xref_len + 9) (i * xref_len + 13)
  xoff ← read_int t (i * xref_len + 13) (i * xref_len + 17)
  done (sym, role, file, xoff)

abbrev pub xref_key : ℕ → ℕ → List ℕ
xref_key sym role = to_be_bytes 8 sym ++ (role ∷ replicate (xref_len - 9) 0)

-- The end of the range: `role_hi.saturating_add(1)`, and the next symbol for the last role.
unfoldable pub xref_end : ℕ → ℕ → List ℕ
xref_end sym role_hi =
    if role_hi == 255
    then xref_key ((sym + 1) % u64_mod) 0
    else xref_key sym (min (role_hi + 1) 255)

-- The iterator is run to its end; with `hi` below `lo` it is empty.
unfoldable pub xref_range : List ℕ → ℕ → ℕ → ℕ → ℕ → Run (List (ℕ × ℕ × ℕ × ℕ))
xref_range t total sym role_lo role_hi = do
  lo ← lower_bound t total xref_len (xref_key sym role_lo)
  hi ← lower_bound t total xref_len (xref_end sym role_hi)
  collect (hi - lo) lo (xref_at t)
