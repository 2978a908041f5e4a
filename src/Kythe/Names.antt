-- ===== src/Kythe/Names.antt =====
-- Names of Java methods, short names and parameter names in kythe.rs.
use scry.Prelude.{
  ℕ, List, [], ◌∷◌, Bool, true, not, ◌&&◌, ◌||◌, ◌==◌, leb, if◌then◌else◌, Option, some, none,
}
use scry.Text.{Unicode, chars}
use scry.Text
use scry.Text.Str.{split_first, split_last, behind_last}
use scry.Text.Trim.{trim_end}
use scry.Kythe.Wire.{◌>>=◌, ◌>>◌, guard}
use scry.Writer.Names.{is_empty}

unfoldable pub is_jvm_type_byte : ℕ → Bool
is_jvm_type_byte b =
    b == b';'
    || b == b'['
    || b == b'/'
    || b == b'$'
    || b == b'_'
    || (leb b'a' b && leb b b'z')
    || (leb b'A' b && leb b b'Z')
    || (leb b'0' b && leb b b'9')

-- `bs.iter().all(is_jvm_type_byte)`
unfoldable pub all_jvm : List ℕ → Bool
unfolding is_jvm_type_byte
all_jvm [] = true
all_jvm (b ∷ bs) = is_jvm_type_byte b && all_jvm bs

abbrev pub tail_of : List ℕ → List ℕ
tail_of [] = []
tail_of (b ∷ bs) = bs

unfoldable pub strip_jvm_method_descriptor : List ℕ → Option (List ℕ)
unfolding all_jvm
strip_jvm_method_descriptor sig = do
  (prefix, descriptor) ← split_last b'(' sig
  (args, ret) ← split_first b')' descriptor
  guard (all_jvm (tail_of args))
  guard (not (is_empty (tail_of ret)) && all_jvm (tail_of ret))
  some prefix

-- `rsplit("::").next()`: what stands behind the last `::`, reading from the end, so that of `:::`
-- the last two colons count.
unfoldable pub behind_colons : List ℕ → Option (List ℕ)
behind_colons [] = none
behind_colons (b ∷ []) = none
behind_colons (b ∷ c ∷ s) = elim (behind_colons (c ∷ s)) [
  | some r ↦ some r
  | none ↦ if b == b':' && c == b':' then some s else none
]

unfoldable pub short_name : List ℕ → List ℕ
short_name fqn =
    let after_colon : List ℕ = elim (behind_colons fqn) [ none ↦ fqn | some r ↦ r ] in
    behind_last b'.' [] after_colon

module _ (u : Unicode) where
  unfoldable pub bare_param_name : List ℕ → List ℕ
  bare_param_name name = elim (split_first b'[' name) [
    | none ↦ name
    | some (front, _) ↦ trim_end u front
  ]

  unfoldable pub is_degenerate_render : List ℕ → Bool
  is_degenerate_render s =
      let t = Text.trim u (chars s) in is_empty t || not (Text.any u.is_alphanumeric t)
