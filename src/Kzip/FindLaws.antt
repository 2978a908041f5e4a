-- ===== src/Kzip/FindLaws.antt =====
-- The search for a field in a buffer that the encoders of kzip.rs wrote.
use scry.Prelude.{
  ℕ, zero, suc, ◌+◌, ◌-◌, ◌*◌, ◌/◌, ◌%◌, ◌≤◌, ◌<◌, ◌≡◌, ◌≢◌, refl, arith, List, [], ◌∷◌, ◌++◌, true,
  false, ◌==◌, ◌&&◌, ltb, if◌then◌else◌, length, length-append, take-append, map, Option, some,
  none, inl, inr, All, ◌∙◌, ap,
}
use mathlib.Core.List.{append-nil, append_assoc}
use scry.Bytes.{u64_mod, u32_mod}
use scry.Kythe.Wire.{ld, varint, read_varint_at}
use scry.Kythe.WireLaws.{tag_byte, read_tag, read_varint_at-varint, split_at-append}
use scry.Kzip.Codec.{write_tag_len, write_some, write_all}
use scry.Kzip.CodecLaws.{write_tag_len-ld}
use scry.Kzip.Peek.{peek_varint, skip_proto_field, find_step, find_from, find_field_ld_truncating}
use scry.Writer.Names.{is_empty}

-- Behind the tag of a field that was written.
module _ (target n field : ℕ) (bytes rest : List ℕ) (hf : field < 16)
    (hb : length bytes < u64_mod) where
  abbrev behind_tag : List ℕ
  behind_tag = (varint (length bytes) ++ bytes) ++ rest

  sized_varint : peek_varint behind_tag ≡ some (length bytes, bytes ++ rest)
  unfolding peek_varint
  sized_varint =
      ap (λ t. read_varint_at t) (append_assoc (varint (length bytes)) bytes rest)
      ∙ read_varint_at-varint (length bytes) (bytes ++ rest) hb

  step-hit :
      field ≡ target
      → length (bytes ++ rest) ≤ n
      → n < u64_mod
      → find_step target n (field * 8 + 2) behind_tag ≡ some (inl bytes)
  unfolding find_step
  step-hit e le hn =
      let hit : ((field * 8 + 2) / 8 % u32_mod == target) && ((field * 8 + 2) % 8 == 2) ≡ true =
        ground arith in
      let room : ltb (n - length (bytes ++ rest) + length bytes) u64_mod ≡ true =
        ground (arith, length-append bytes rest) in
      rw (hit, sized_varint, room, take-append bytes rest (length bytes) refl) refl

  step-miss : field ≢ target → find_step target n (field * 8 + 2) behind_tag ≡ some (inr rest)
  unfolding find_step skip_proto_field
  step-miss e =
      let miss : ((field * 8 + 2) / 8 % u32_mod == target) && ((field * 8 + 2) % 8 == 2) ≡ false =
        ground arith in
      let wire : (field * 8 + 2) % 8 ≡ 2 = omega arith in
      rw (miss, wire, sized_varint, split_at-append bytes rest) refl

  -- A field takes at least one byte beside its own.
  longer : suc (length (bytes ++ rest)) ≤ length (write_tag_len field bytes ++ rest)
  unfolding ld
  longer = rw (write_tag_len-ld field bytes hf) (
      omega (
        arith,
        length-append bytes rest,
        length-append (varint (length bytes) ++ bytes) rest,
        length-append (varint (length bytes)) bytes,
      ))

-- What the search finds, with any fuel that is enough, in a buffer of `n` bytes.
abbrev pub Finds : ℕ → ℕ → List ℕ → Option (List ℕ) → Type 0
Finds target n bs o = (fuel : ℕ) → length bs ≤ fuel → length bs ≤ n → find_from target n fuel bs ≡ o

pub Finds-nil : (target n : ℕ) → Finds target n [] none
unfolding find_from
Finds-nil target n fuel le ln = refl

pub Finds-hit :
    (target n : ℕ) (bytes rest : List ℕ)
    → target < 16
    → length bytes < u64_mod
    → n < u64_mod
    → Finds target n (write_tag_len target bytes ++ rest) (some bytes)
unfolding find_from ld peek_varint
Finds-hit target n bytes rest hf hb hn zero le ln =
    absurd (omega (arith, longer target n target bytes rest hf hb))
Finds-hit target n bytes rest hf hb hn (suc fuel) le ln =
    let within : length (bytes ++ rest) ≤ n =
      omega (arith, longer target n target bytes rest hf hb) in
    rw
      (
        write_tag_len-ld target bytes hf,
        tag_byte target hf,
        read_tag (target * 8 + 2) ((varint (length bytes) ++ bytes) ++ rest) (omega arith),
        step-hit target n target bytes rest hf hb refl within hn,
      )
      refl

pub Finds-miss :
    (target n field : ℕ) (bytes rest : List ℕ) (o : Option (List ℕ))
    → field < 16
    → field ≢ target
    → length bytes < u64_mod
    → Finds target n rest o
    → Finds target n (write_tag_len field bytes ++ rest) o
unfolding find_from ld peek_varint
Finds-miss target n field bytes rest o hf e hb h zero le ln =
    absurd (omega (arith, longer target n field bytes rest hf hb))
Finds-miss target n field bytes rest o hf e hb h (suc fuel) le ln =
    let shorter = longer target n field bytes rest hf hb in
    rw
      (
        write_tag_len-ld field bytes hf,
        tag_byte field hf,
        read_tag (field * 8 + 2) ((varint (length bytes) ++ bytes) ++ rest) (omega arith),
        step-miss target n field bytes rest hf hb e,
      )
      (h fuel (omega (arith, shorter, length-append bytes rest))
        (omega (arith, shorter, length-append bytes rest)))

pub Finds-some_miss :
    (target n field : ℕ) (bytes rest : List ℕ) (o : Option (List ℕ))
    → field < 16
    → field ≢ target
    → length bytes < u64_mod
    → Finds target n rest o
    → Finds target n (write_some field bytes ++ rest) o
unfolding write_some
Finds-some_miss target n field [] rest o hf e hb h = h
Finds-some_miss target n field (b ∷ bs) rest o hf e hb h =
    Finds-miss target n field (b ∷ bs) rest o hf e hb h

-- A field that is left out when it is empty is found, or what stands behind it.
pub Finds-some_hit :
    (target n : ℕ) (bytes rest : List ℕ) (o : Option (List ℕ))
    → target < 16
    → length bytes < u64_mod
    → n < u64_mod
    → Finds target n rest o
    → Finds target n (write_some target bytes ++ rest) (if is_empty bytes then o else some bytes)
unfolding write_some
Finds-some_hit target n [] rest o hf hb hn h = h
Finds-some_hit target n (b ∷ bs) rest o hf hb hn h = Finds-hit target n (b ∷ bs) rest hf hb hn

-- Repeated fields of another number.
pub Finds-all_miss {ℓ} :
    {A : Type ℓ} (enc : A → List ℕ) (target n field : ℕ) (xs : List A) (rest : List ℕ)
    (o : Option (List ℕ))
    → field < 16
    → field ≢ target
    → All (λ x. length (enc x) < u64_mod) xs
    → Finds target n rest o
    → Finds target n (write_all field (map enc xs) ++ rest) o
unfolding write_all
Finds-all_miss enc target n field [] rest o hf e hb h = h
Finds-all_miss enc target n field (x ∷ xs) rest o hf e hb h =
    let more = write_all field (map enc xs) in
    rw (append_assoc (write_tag_len field (enc x)) more rest) (
      Finds-miss target n field (enc x) (more ++ rest) o hf e hb.0
        (Finds-all_miss enc target n field xs rest o hf e hb.1 h))

-- Of repeated fields the first is found.
pub Finds-all_hit {ℓ} :
    {A : Type ℓ} (enc : A → List ℕ) (target n : ℕ) (x : A) (xs : List A) (rest : List ℕ)
    → target < 16
    → length (enc x) < u64_mod
    → n < u64_mod
    → Finds target n (write_all target (map enc (x ∷ xs)) ++ rest) (some (enc x))
unfolding write_all
Finds-all_hit enc target n x xs rest hf hb hn =
    let more = write_all target (map enc xs) in
    rw (append_assoc (write_tag_len target (enc x)) more rest)
      (Finds-hit target n (enc x) (more ++ rest) hf hb hn)

-- The last field.
pub Finds-last :
    (target n field : ℕ) (bytes : List ℕ) (o : Option (List ℕ))
    → Finds target n (write_some field bytes ++ []) o
    → Finds target n (write_some field bytes) o
Finds-last target n field bytes o h = rw (append-nil (write_some field bytes)) at h

pub find_field-Finds :
    (target : ℕ) (bs : List ℕ) (o : Option (List ℕ))
    → Finds target (length bs) bs o
    → find_field_ld_truncating target bs ≡ o
unfolding find_field_ld_truncating
find_field-Finds target bs o h = h (length bs) (omega arith) (omega arith)
