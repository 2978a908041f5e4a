-- ===== src/Kzip/Peek.antt =====
-- The peek at the primary path of an encoded unit in kzip.rs. `none` is the source's `None`.
use scry.Prelude.{
  ℕ, zero, suc, ◌+◌, ◌-◌, ◌/◌, ◌%◌, List, [], ◌∷◌, Bool, ◌&&◌, ltb, not, ◌==◌, if◌then◌else◌,
  length, take, Option, some, none, ◌⊎◌, inl, inr,
}
use scry.Bytes.{u64_mod, u32_mod}
use scry.Text.{is_utf8}
use scry.Kythe.Wire.{read_varint_at, split_at, guard, ◌>>=◌, ◌>>◌}
use scry.Kzip.Codec.{IndexedCompilation, parse_indexed_compilation}
use scry.Kzip.Units.{cu_primary_path}

-- The value, and the bytes behind it.
unfoldable pub peek_varint : List ℕ → Option (ℕ × List ℕ)
unfolding read_varint_at
peek_varint bs = read_varint_at bs

-- What stands behind a field whose tag ends before `bs`.
unfoldable pub skip_proto_field : ℕ → List ℕ → Option (List ℕ)
unfolding peek_varint split_at
skip_proto_field wire bs =
    if wire == 0
    then (peek_varint bs >>= λ (v, rest). some rest)
    else if wire == 1
    then (split_at 8 bs >>= λ (x, rest). some rest)
    else if wire == 2
    then (peek_varint bs >>= λ (len, rest). split_at len rest >>= λ (x, behind). some behind)
    else if wire == 5
    then (split_at 4 bs >>= λ (x, rest). some rest)
    else none

-- Behind a tag, of a buffer of `n` bytes: the field's bytes, clipped, or the next field. The position
-- behind the length is `n - length rest`, and adding the length to it must not overflow.
unfoldable pub find_step : ℕ → ℕ → ℕ → List ℕ → Option (List ℕ ⊎ List ℕ)
unfolding peek_varint skip_proto_field
find_step target n tag body =
    if (tag / 8 % u32_mod == target) && (tag % 8 == 2)
    then (peek_varint body >>= λ (len, rest).
        guard (ltb (n - length rest + len) u64_mod) >> some (inl (take len rest)))
    else (skip_proto_field (tag % 8) body >>= λ rest. some (inr rest))

-- `while cur < bytes.len()`; a field takes at least one byte.
unfoldable pub find_from : ℕ → ℕ → ℕ → List ℕ → Option (List ℕ)
unfolding peek_varint find_step
find_from target n fuel [] = none
find_from target n zero (b ∷ bs) = none
find_from target n (suc fuel) (b ∷ bs) = peek_varint (b ∷ bs) >>= λ (tag, body).
    find_step target n tag body >>= λ o. elim o [
      | inl slice ↦ some slice
      | inr rest ↦ find_from target n fuel rest
    ]

unfoldable pub find_field_ld_truncating : ℕ → List ℕ → Option (List ℕ)
unfolding find_from
find_field_ld_truncating target bytes = find_from target (length bytes) (length bytes) bytes

unfoldable pub find_first_field_string : ℕ → List ℕ → Option (List ℕ)
unfolding find_field_ld_truncating is_utf8
find_first_field_string target bytes =
    find_field_ld_truncating target bytes >>= λ raw. if is_utf8 raw then some raw else none

-- `if let Some(p) = a { return Some(p) }`, and `k` otherwise.
abbrev pub first_of : Option (List ℕ) → Option (List ℕ) → Option (List ℕ)
first_of (some p) k = some p
first_of none k = k

-- The path of an input, where the unit has no source file.
unfoldable pub peek_input : List ℕ → Option (List ℕ)
unfolding find_first_field_string
peek_input first_input = find_field_ld_truncating 1 first_input >>= λ vname.
    first_of (find_first_field_string 4 vname) (
      find_field_ld_truncating 2 first_input >>= λ info.
      first_of (find_first_field_string 1 info) (some []))

unfoldable pub peek_proto_primary_path : List ℕ → Option (List ℕ)
unfolding peek_input find_first_field_string
peek_proto_primary_path bytes = find_field_ld_truncating 1 bytes >>= λ cu.
    first_of (find_first_field_string 6 cu) (find_field_ld_truncating 3 cu >>= peek_input)

-- `read_units_filtered` on the bytes of one unit: an error, a unit that is left out, or one that is
-- kept.
module _ (accept : List ℕ → Bool) where
  abbrev pub path_or_empty : Option (List ℕ) → List ℕ
  path_or_empty none = []
  path_or_empty (some p) = p

  unfoldable pub filter_decoded : IndexedCompilation → Option IndexedCompilation
  unfolding cu_primary_path
  filter_decoded cu =
      if not (accept (path_or_empty (cu_primary_path cu.unit))) then none else some cu

  unfoldable pub filter_full : List ℕ → Option (Option IndexedCompilation)
  unfolding filter_decoded parse_indexed_compilation
  filter_full buf = parse_indexed_compilation buf >>= λ cu. some (filter_decoded cu)

  unfoldable pub filter_peeked : List ℕ → Option (List ℕ) → Option (Option IndexedCompilation)
  unfolding filter_full
  filter_peeked buf none = filter_full buf
  filter_peeked buf (some p) = if not (accept p) then some none else filter_full buf

  unfoldable pub filter_unit : List ℕ → Option (Option IndexedCompilation)
  unfolding filter_peeked peek_proto_primary_path
  filter_unit buf = filter_peeked buf (peek_proto_primary_path buf)
