-- ===== src/Kzip/Units.antt =====
-- The path of a unit's main source in kzip.rs, and the other functions beside the codec.
use scry.Prelude.{
  ℕ, ◌+◌, ◌*◌, List, [], ◌∷◌, ◌&&◌, ◌||◌, leb, not, if◌then◌else◌, map, min, Option, some, none,
}
use scry.Text.Str.{strip_prefix, has}
use scry.Writer.Names.{is_empty}
use scry.Kythe.Wire.{◌>>=◌}
use scry.Kzip.Codec.{FileInput, CompilationUnit, IndexedCompilation, encode_indexed_compilation}

-- The first source file, or a path of the first input.
unfoldable pub listed_path : List (List ℕ) → List FileInput → Option (List ℕ)
listed_path (f ∷ fs) inputs = some f
listed_path [] [] = none
listed_path [] (i ∷ is) =
    if not (is_empty i.v_name.path)
    then some i.v_name.path
    else if not (is_empty i.info.path)
    then some i.info.path
    else none

-- Otherwise the path of the unit itself, if there is one.
abbrev pub or_own : List ℕ → Option (List ℕ) → Option (List ℕ)
or_own own (some p) = some p
or_own own none = if is_empty own then none else some own

unfoldable pub cu_primary_path : CompilationUnit → Option (List ℕ)
unfolding listed_path
cu_primary_path cu = or_own cu.v_name.path (listed_path cu.source_file cu.required_input)

pub record CuFile : Type 0 where
  pub sha : List ℕ
  pub cu : IndexedCompilation
  pub raw_proto : Option (List ℕ)

-- `Unit::to_proto_bytes`
unfoldable pub to_proto_bytes : CuFile → List ℕ
unfolding encode_indexed_compilation
to_proto_bytes u = elim u.raw_proto [ some raw ↦ raw | none ↦ encode_indexed_compilation u.cu ]

unfoldable pub ascii_lower : List ℕ → List ℕ
ascii_lower s = map (λ b. if leb 65 b && leb b 90 then b + 32 else b) s

-- `Unit::language`
unfoldable pub language : CuFile → List ℕ
unfolding ascii_lower
language u = ascii_lower u.cu.unit.v_name.language

-- `64 << 20`
abbrev pub max_entry_prealloc : ℕ
max_entry_prealloc = 64 * 1048576

unfoldable pub entry_prealloc : ℕ → ℕ
entry_prealloc size = min size max_entry_prealloc

-- `strip_prefix` on the name of an archive's entry.
unfoldable pub entry_name : List ℕ → List ℕ → Option (List ℕ)
unfolding strip_prefix has
entry_name name prefix = strip_prefix prefix name >>= λ after.
    if is_empty after || has b'/' after then none else some after
