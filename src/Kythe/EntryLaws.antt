-- ===== src/Kythe/EntryLaws.antt =====
-- What the encoders of kythe.rs write, `parse_vname` and `parse_entry` read back.
use Prim.Native.Nat.{bit_and, bit_or}
use scry.Prelude.{
  ℕ, zero, suc, ◌+◌, ◌*◌, ◌^◌, ◌%◌, ◌≤◌, ◌<◌, ◌≡◌, refl, arith, List, [], ◌∷◌, ◌++◌, true, inl, inr,
  length, length-append, length-drop, Option, some, none, ap, sym, ◌∙◌, Option-cases,
}
use mathlib.Core.List.{append-nil}
use scry.Bytes.{u64_mod}
use scry.Text.{is_utf8}
use scry.Text.Str.{from_utf8_lossy}
use scry.Text.StrLaws.{from_utf8_lossy-utf8}
use scry.Kythe.Wire.{
  varint_loop, read_varint_at, split_at, sized, delimited, varint, ld, ld_some, entry, message_loop,
  ◌>>=◌, VName, no_vname, vname_field, parse_vname, no_entry, entry_field, parse_entry,
}
use scry.Kythe.WireLaws.{delimited-ld}

varint_loop-shorter :
    (rounds val shift : ℕ) (bs : List ℕ) (v : ℕ) (rest : List ℕ)
    → varint_loop rounds val shift bs ≡ some (v, rest)
    → length rest < length bs
unfolding varint_loop
varint_loop-shorter zero val shift bs v rest h = cc
varint_loop-shorter (suc rounds) val shift [] v rest h = cc
varint_loop-shorter (suc rounds) val shift (b ∷ bs) v rest h = ground (
  arith,
  varint_loop-shorter rounds (bit_or val (bit_and b 0x7F * 2 ^ shift % u64_mod)) (shift + 7) bs v
      rest,
)

pub read_varint_at-shorter :
    (bs : List ℕ) (v : ℕ) (rest : List ℕ)
    → read_varint_at bs ≡ some (v, rest)
    → length rest < length bs
unfolding read_varint_at
read_varint_at-shorter bs v rest h = varint_loop-shorter 10 0 0 bs v rest h

pub split_at-shorter :
    (len : ℕ) (bs slice rest : List ℕ)
    → split_at len bs ≡ some (slice, rest)
    → length rest ≤ length bs
unfolding split_at
split_at-shorter len bs slice rest h = ground (arith, length-drop len bs)

sized_shorter :
    (tag : ℕ) (body : List ℕ) (field : ℕ) (slice rest : List ℕ)
    → sized tag body ≡ some (field, slice, rest)
    → length rest < length body
unfolding sized
sized_shorter tag body field slice rest h = elim (Option-cases (read_varint_at body)) [
  | inl e ↦ ground (arith, e)
  | inr ((len, payload), e) ↦
      ground (
        arith,
        e,
        read_varint_at-shorter body len payload e,
        split_at-shorter len payload slice rest,
      )
]

-- A field takes at least one byte.
delimited-shorter :
    (bs : List ℕ) (field : ℕ) (slice rest : List ℕ)
    → delimited bs ≡ some (field, slice, rest)
    → length rest < length bs
unfolding delimited
delimited-shorter bs field slice rest h = elim (Option-cases (read_varint_at bs)) [
  | inl e ↦ ground (arith, e)
  | inr ((tag, body), e) ↦ omega (
    arith,
    read_varint_at-shorter bs tag body e,
    sized_shorter tag body field slice rest (rw e at h),
  )
]

module _ {ℓ} {M : Type ℓ} (store : ℕ → List ℕ → M → Option M) where
  pub stored : (o : Option M) {f g : M → Option M} → ((m : M) → f m ≡ g m) → (o >>= f) ≡ (o >>= g)
  stored none h = refl
  stored (some m) h = h m

  -- The loop's fuel does not matter from the number of bytes on.
  message_loop-enough :
      (f g : ℕ) (bs : List ℕ) (m : M)
      → length bs ≤ f
      → length bs ≤ g
      → message_loop store f bs m ≡ message_loop store g bs m
  unfolding message_loop
  message_loop-enough f g [] m hf hg = refl
  message_loop-enough zero g (b ∷ bs) m hf hg = absurd (omega arith)
  message_loop-enough (suc f) zero (b ∷ bs) m hf hg = absurd (omega arith)
  message_loop-enough (suc f) (suc g) (b ∷ bs) m hf hg = elim (Option-cases (delimited (b ∷ bs))) [
    | inl e ↦ rw e
    | inr ((field, slice, rest), e) ↦
        let shorter = delimited-shorter (b ∷ bs) field slice rest e in
        rw e (
          stored (store field slice m)
            (λ m'. message_loop-enough f g rest m' (omega arith) (omega arith)))
  ]

  -- A field that `ld` wrote is stored, and the loop goes on behind it.
  pub message_loop-ld :
      (field : ℕ) (bytes rest : List ℕ) (m : M)
      → field < 16
      → length bytes < u64_mod
      → message_loop store (length (ld field bytes ++ rest)) (ld field bytes ++ rest) m
        ≡ (store field bytes m >>= λ m'. message_loop store (length rest) rest m')
  unfolding message_loop ld
  message_loop-ld field bytes rest m hf hb =
      let more = (varint (length bytes) ++ bytes) ++ rest in
      rw (delimited-ld field bytes rest hf hb) (
        stored (store field bytes m) (λ m'.
          message_loop-enough (length more) (length rest) rest m'
            (omega (arith, length-append (varint (length bytes) ++ bytes) rest)) (omega arith)))

  -- So is one that is left out when it is empty, if storing nothing changes nothing.
  message_loop-ld_some :
      (field : ℕ) (bytes rest : List ℕ) (m : M)
      → field < 16
      → length bytes < u64_mod
      → store field [] m ≡ some m
      → message_loop store (length (ld_some field bytes ++ rest)) (ld_some field bytes ++ rest) m
        ≡ (store field bytes m >>= λ m'. message_loop store (length rest) rest m')
  message_loop-ld_some field [] rest m hf hb e = rw e
  message_loop-ld_some field (b ∷ bs) rest m hf hb e = message_loop-ld field (b ∷ bs) rest m hf hb

-- A string as an indexer writes it: valid UTF-8, and no longer than memory.
abbrev pub IsText : List ℕ → Type 0
IsText s = (is_utf8 s ≡ true) × (length s < u64_mod)

abbrev pub IsTextName : VName → Type 0
IsTextName v =
    IsText v.signature × IsText v.corpus × IsText v.root × IsText v.path × IsText v.language

-- A VName in the order of its field numbers, empty fields left out.
unfoldable pub vname_bytes : VName → List ℕ
vname_bytes v =
    ld_some 1 v.signature
    ++ (ld_some 2 v.corpus
        ++ (ld_some 3 v.root ++ (ld_some 4 v.path ++ (ld_some 5 v.language ++ []))))

pub lossy_empty : from_utf8_lossy [] ≡ []
unfolding from_utf8_lossy
lossy_empty = refl

pub parse_vname-vname_bytes : (v : VName) → IsTextName v → parse_vname (vname_bytes v) ≡ some v
unfolding parse_vname vname_field vname_bytes message_loop
parse_vname-vname_bytes v (a, b, c, d, e) =
    let f5 = ld_some 5 v.language ++ [] in
    let f4 = ld_some 4 v.path ++ f5 in
    let f3 = ld_some 3 v.root ++ f4 in
    let f2 = ld_some 2 v.corpus ++ f3 in
    let m1 = record no_vname { signature = from_utf8_lossy v.signature } in
    let m2 = record m1 { corpus = from_utf8_lossy v.corpus } in
    let m3 = record m2 { root = from_utf8_lossy v.root } in
    let m4 = record m3 { path = from_utf8_lossy v.path } in
    message_loop-ld_some vname_field 1 v.signature f2 no_vname (omega arith) a.1
      (ap (λ t. some (record no_vname { signature = t })) lossy_empty)
    ∙ message_loop-ld_some vname_field 2 v.corpus f3 m1 (omega arith) b.1
        (ap (λ t. some (record m1 { corpus = t })) lossy_empty)
    ∙ message_loop-ld_some vname_field 3 v.root f4 m2 (omega arith) c.1
        (ap (λ t. some (record m2 { root = t })) lossy_empty)
    ∙ message_loop-ld_some vname_field 4 v.path f5 m3 (omega arith) d.1
        (ap (λ t. some (record m3 { path = t })) lossy_empty)
    ∙ message_loop-ld_some vname_field 5 v.language [] m4 (omega arith) e.1
        (ap (λ t. some (record m4 { language = t })) lossy_empty)
    ∙ rw (
      from_utf8_lossy-utf8 v.signature a.0,
      from_utf8_lossy-utf8 v.corpus b.0,
      from_utf8_lossy-utf8 v.root c.0,
      from_utf8_lossy-utf8 v.path d.0,
      from_utf8_lossy-utf8 v.language e.0,
    )

parse_vname-empty : parse_vname [] ≡ some no_vname
unfolding parse_vname message_loop
parse_vname-empty = refl

-- An entry that is written field by field, the empty ones left out, parses to the same source and
-- target, edge kind, fact name and fact value, for names of valid UTF-8 and fields shorter than
-- 2^64 bytes.
pub parse_entry-entry :
    (source target : VName) (edge fact value : List ℕ)
    → IsTextName source
    → IsTextName target
    → IsText edge
    → IsText fact
    → length value < u64_mod
    → length (vname_bytes source) < u64_mod
    → length (vname_bytes target) < u64_mod
    → parse_entry (entry (vname_bytes source) edge (vname_bytes target) fact value)
      ≡ some (record {
        source = source;
        edge_kind = edge;
        target = target;
        fact_name = fact;
        fact_value = value;
      })
unfolding parse_entry entry_field entry message_loop
parse_entry-entry source target edge fact value hs ht he hf lv ls lt =
    let f5 = ld_some 5 value in
    let f4 = ld_some 4 fact ++ f5 in
    let f3 = ld_some 3 (vname_bytes target) ++ f4 in
    let f2 = ld_some 2 edge ++ f3 in
    let m1 = record no_entry { source = source } in
    let m2 = record m1 { edge_kind = from_utf8_lossy edge } in
    let m3 = record m2 { target = target } in
    let m4 = record m3 { fact_name = from_utf8_lossy fact } in
    message_loop-ld entry_field 1 (vname_bytes source) f2 no_entry (omega arith) ls
    ∙ rw (parse_vname-vname_bytes source hs) (
        message_loop-ld_some entry_field 2 edge f3 m1 (omega arith) he.1
          (ap (λ t. some (record m1 { edge_kind = t })) lossy_empty)
        ∙ message_loop-ld_some entry_field 3 (vname_bytes target) f4 m2 (omega arith) lt
            (rw parse_vname-empty)
        ∙ rw (parse_vname-vname_bytes target ht) (
            message_loop-ld_some entry_field 4 fact f5 m3 (omega arith) hf.1
              (ap (λ t. some (record m3 { fact_name = t })) lossy_empty)
            ∙ ap (λ (t : List ℕ). message_loop entry_field (length t) t m4) (sym (append-nil f5))
            ∙ message_loop-ld_some entry_field 5 value [] m4 (omega arith) lv refl
            ∙ rw (from_utf8_lossy-utf8 edge he.0, from_utf8_lossy-utf8 fact hf.0)))
