-- ===== src/Cache/Digest.antt =====
-- The content digest of a compilation unit in cache.rs. `Hasher` is its buffer; the hash of the
-- buffer, of 128 bits, is a parameter.
use Prim.Native.Nat.{Ordering}
use scry.Prelude.{
  ℕ, zero, suc, ◌+◌, ◌/◌, ◌%◌, ◌^◌, List, [], ◌∷◌, ◌++◌, map, ltb, if◌then◌else◌, length, Option,
  some, none,
}
use scry.Bytes.{u64_mod, cmp, then_order}
use scry.Format.HeaderBytes.{to_le_bytes}
use scry.Sorted.Set.{from_list}
use scry.Text.Str.{ascii}
use scry.Kzip.Codec.{FileInput, CompilationUnit}

abbrev pub ingest_schema_version : ℕ
ingest_schema_version = 2

unfoldable pub add_u64 : List ℕ → ℕ → List ℕ
unfolding to_le_bytes
add_u64 buf v = buf ++ to_le_bytes 8 v

unfoldable pub add_str : List ℕ → List ℕ → List ℕ
unfolding to_le_bytes
add_str buf s = (buf ++ to_le_bytes 8 (length s % u64_mod)) ++ s

-- `for a in &cu.argument { h.add_str(a); }`
unfoldable pub add_strs : List ℕ → List (List ℕ) → List ℕ
unfolding add_str
add_strs buf [] = buf
add_strs buf (a ∷ more) = add_strs (add_str buf a) more

-- `(path, digest)` of an input, and their order as a tuple.
abbrev pub Input : Type 0
Input = List ℕ × List ℕ

abbrev pub input_of : FileInput → Input
input_of i = (i.v_name.path, i.info.digest)

unfoldable pub input_order : Input → Input → Ordering
unfolding cmp
input_order (p, d) (q, e) = then_order (cmp p q) (cmp d e)

-- The `BTreeSet` of the inputs.
unfoldable pub inputs_of : CompilationUnit → List Input
unfolding from_list input_order
inputs_of cu = from_list input_order (map input_of cu.required_input)

unfoldable pub add_inputs : List ℕ → List Input → List ℕ
unfolding add_str
add_inputs buf [] = buf
add_inputs buf ((path, digest) ∷ inputs) = add_inputs (add_str (add_str buf path) digest) inputs

-- The buffer that `cu_content_digest` hashes.
unfoldable pub content_of : CompilationUnit → List ℕ → List ℕ
unfolding add_u64 add_str add_strs add_inputs inputs_of
content_of cu indexer_tag =
    let head = add_u64 [] ingest_schema_version in
    let tagged = add_str (add_str head indexer_tag) cu.v_name.language in
    let argued = add_strs (add_u64 tagged (length cu.argument % u64_mod)) cu.argument in
    add_inputs (add_u64 argued (length (inputs_of cu) % u64_mod)) (inputs_of cu)

-- `{:032x}`: 32 hexadecimal digits of a 128-bit number.
unfoldable pub hex_digits : ℕ → ℕ → List ℕ
hex_digits zero n = []
hex_digits (suc w) n =
    let d = n / 16 ^ w % 16 in (if ltb d 10 then 48 + d else 87 + d) ∷ hex_digits w n

unfoldable pub cu_content_digest : (List ℕ → ℕ) → CompilationUnit → List ℕ → List ℕ
unfolding content_of hex_digits
cu_content_digest hash128 cu indexer_tag = hex_digits 32 (hash128 (content_of cu indexer_tag))

-- `indexer_version_tag`, with the length and the time of change of each file that exists.
abbrev pub indexers : List (List ℕ)
indexers =
    ascii "indexers/cxx_indexer"
    ∷ ascii "indexers/go_indexer"
    ∷ ascii "indexers/java_indexer.jar"
    ∷ ascii "indexers/jvm_indexer.jar"
    ∷ ascii "indexers/proto_indexer"
    ∷ ascii "indexers/textproto_indexer"
    ∷ []

unfoldable pub add_indexers : (List ℕ → Option (ℕ × Option ℕ)) → List ℕ → List (List ℕ) → List ℕ
unfolding add_str add_u64
add_indexers metadata buf [] = buf
add_indexers metadata buf (rel ∷ rels) =
    let named = add_str buf rel in
    add_indexers metadata
      (elim (metadata rel) [
        | none ↦ add_u64 named (18446744073709551615)
        | some (len, none) ↦ add_u64 (add_u64 named len) 0
        | some (len, some nanos) ↦ add_u64 (add_u64 named len) (nanos % u64_mod)
      ])
      rels

unfoldable pub indexer_version_tag : (List ℕ → ℕ) → (List ℕ → Option (ℕ × Option ℕ)) → List ℕ
unfolding add_indexers hex_digits
indexer_version_tag hash128 metadata = hex_digits 32 (hash128 (add_indexers metadata [] indexers))
