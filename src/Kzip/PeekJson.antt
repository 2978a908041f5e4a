-- ===== src/Kzip/PeekJson.antt =====
-- The peek at the primary path of a JSON unit in kzip.rs. A position is the list of the bytes from
-- there on, and `none` is the source's `None`.
use scry.Prelude.{
  ℕ, zero, suc, ◌-◌, List, [], ◌∷◌, ◌++◌, Bool, true, false, ◌&&◌, ◌||◌, leb, ◌==◌, if◌then◌else◌,
  length, drop, Option, some, none,
}
use scry.Text.{is_utf8}
use scry.Text.Str.{ascii, same, strip_prefix}
use scry.Kythe.Wire.{◌>>=◌}
use scry.Writer.Names.{is_empty}

-- What follows the first occurrence of the needle.
unfoldable pub memmem_loop : List ℕ → List ℕ → Option (List ℕ)
unfolding strip_prefix
memmem_loop needle [] = none
memmem_loop needle (b ∷ s) = elim (strip_prefix needle (b ∷ s)) [
  | some rest ↦ some rest
  | none ↦ memmem_loop needle s
]

unfoldable pub memmem : List ℕ → List ℕ → Option (List ℕ)
unfolding memmem_loop
memmem haystack needle = if is_empty needle then none else memmem_loop needle haystack

-- `while bytes[p].is_ascii_whitespace() { p += 1 }`
unfoldable pub skip_space : List ℕ → List ℕ
skip_space [] = []
skip_space (b ∷ s) =
    let rest = skip_space s in
    if (b == 32) || ((b == 9) || ((b == 10) || ((b == 12) || (b == 13)))) then rest else b ∷ s

-- `if bytes.get(p) != Some(&c) { return None; } p += 1`
unfoldable pub expect : ℕ → List ℕ → Option (List ℕ)
expect c [] = none
expect c (b ∷ s) = if b == c then some s else none

-- Up to the closing quote: what is quoted, its escapes as they stand, and what follows the quote.
unfoldable pub quoted : List ℕ → List ℕ → Option (List ℕ × List ℕ)
quoted seen [] = none
quoted seen (b ∷ []) = if b == 34 then some (seen, []) else none
quoted seen (b ∷ c ∷ s) =
    let escaped = quoted (seen ++ (b ∷ c ∷ [])) s in
    let plain = quoted (seen ++ (b ∷ [])) (c ∷ s) in
    if b == 34 then some (seen, c ∷ s) else if b == 92 then escaped else plain

-- `from_utf8(raw).ok()`
abbrev pub utf8 : List ℕ → Option (List ℕ)
utf8 raw = if is_utf8 raw then some raw else none

-- `: "…"`, and what follows it.
unfoldable pub json_take_string_value : List ℕ → Option (List ℕ × List ℕ)
unfolding skip_space expect quoted is_utf8
json_take_string_value s = do
  after ← expect b':' (skip_space s)
  text ← expect 34 (skip_space after)
  (raw, rest) ← quoted [] text
  val ← utf8 raw
  some (val, rest)

-- The bracket of a list may stand before the string.
unfoldable pub skip_bracket : List ℕ → List ℕ
unfolding skip_space
skip_bracket [] = []
skip_bracket (b ∷ s) = if b == b'[' then skip_space s else b ∷ s

unfoldable pub json_first_value_string_or_list : List ℕ → List ℕ → Option (List ℕ)
unfolding memmem skip_space expect skip_bracket quoted is_utf8
json_first_value_string_or_list bytes key = do
  s ← memmem bytes key
  after ← expect b':' (skip_space s)
  text ← expect 34 (skip_bracket (skip_space after))
  (raw, rest) ← quoted [] text
  utf8 raw

-- `path.ends_with(e)`
unfoldable pub ends_with : List ℕ → List ℕ → Bool
unfolding same
ends_with s e = leb (length e) (length s) && same (drop (length s - length e) s) e

unfoldable pub ends_in : List ℕ → List (List ℕ) → Bool
unfolding ends_with
ends_in path [] = false
ends_in path (e ∷ es) = ends_with path e || ends_in path es

abbrev pub extensions : List (List ℕ)
extensions =
    ascii ".cc"
    ∷ ascii ".cpp"
    ∷ ascii ".cxx"
    ∷ ascii ".c++"
    ∷ ascii ".c"
    ∷ ascii ".m"
    ∷ ascii ".mm"
    ∷ ascii ".java"
    ∷ ascii ".kt"
    ∷ ascii ".go"
    ∷ ascii ".rs"
    ∷ ascii ".proto"
    ∷ ascii ".textpb"
    ∷ ascii ".textproto"
    ∷ []

unfoldable pub is_source_extension : List ℕ → Bool
unfolding ends_in
is_source_extension path = ends_in path extensions

abbrev pub path_key : List ℕ
path_key = 34 ∷ (ascii "path" ++ (34 ∷ []))

-- `while let Some(rel) = memmem(&bytes[cursor..], b"\"path\"")`; a round takes the key's bytes.
unfoldable pub path_loop : ℕ → List ℕ → Option (List ℕ)
unfolding memmem json_take_string_value is_source_extension
path_loop zero s = none
path_loop (suc fuel) s = memmem s path_key >>= λ after. elim (json_take_string_value after) [
  | some (val, rest) ↦ elim (is_source_extension val) [
    | true ↦ some val
    | false ↦ path_loop fuel rest
  ]
  | none ↦ path_loop fuel after
]

unfoldable pub peek_json_primary_path : List ℕ → Option (List ℕ)
unfolding json_first_value_string_or_list path_loop
peek_json_primary_path bytes =
    elim (json_first_value_string_or_list bytes (34 ∷ (ascii "source_file" ++ (34 ∷ [])))) [
      | some s ↦ some s
      | none ↦
          elim (json_first_value_string_or_list bytes (34 ∷ (ascii "sourceFile" ++ (34 ∷ [])))) [
            | some s ↦ some s
            | none ↦ path_loop (length bytes) bytes
          ]
    ]
