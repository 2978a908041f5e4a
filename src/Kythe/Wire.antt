-- ===== src/Kythe/Wire.antt =====
-- The protobuf wire format in kythe.rs. A position in a buffer is the list of the bytes from there
-- on: `pos < buf.len()` says that the list is not empty, `checked_add` with the test against
-- `buf.len()` says that so many bytes are left. `none` is an error or the source's `None`; the text
-- of an error is not modelled.
use Prim.Native.Nat.{bit_and, bit_or}
use scry.Prelude.{
  ℕ, zero, suc, ◌+◌, ◌-◌, ◌*◌, ◌/◌, ◌%◌, ◌^◌, List, [], ◌∷◌, ◌++◌, Bool, leb, ◌==◌, if◌then◌else◌,
  length, take, drop, Option, some, none,
}
use scry.Bytes.{u64_mod, u32_mod}
use scry.Text.Str.{from_utf8_lossy}

infixl 5 ◌>>=◌ ◌>>◌
abbrev pub ◌>>=◌ {ℓ κ} : {A : Type ℓ} {B : Type κ} → Option A → (A → Option B) → Option B
some a >>= f = f a
none >>= f = none

abbrev pub ◌>>◌ {ℓ} : {B : Type ℓ} → Option (Unit {0}) → Option B → Option B
m >> k = m >>= λ _. k

abbrev pub guard : Bool → Option (Unit {0})
guard b = if b then some tt else none

-- `for _ in 0..rounds`, with the value and the shift so far: the value and what follows it.
unfoldable pub varint_loop : ℕ → ℕ → ℕ → List ℕ → Option (ℕ × List ℕ)
varint_loop zero val shift bs = none
varint_loop (suc rounds) val shift [] = none
varint_loop (suc rounds) val shift (b ∷ bs) =
    let val' = bit_or val (bit_and b 0x7F * 2 ^ shift % u64_mod) in
    let rest = varint_loop rounds val' (shift + 7) bs in
    if bit_and b 0x80 == 0 then some (val', bs) else rest

-- `read_varint_at` and `read_varint_bytes`
unfoldable pub read_varint_at : List ℕ → Option (ℕ × List ℕ)
read_varint_at bs = varint_loop 10 0 0 bs

-- `read_varint` of a stream: `some none` is the end of the stream before the first byte.
unfoldable pub read_varint : List ℕ → Option (Option (ℕ × List ℕ))
read_varint [] = some none
read_varint (b ∷ bs) = do r ← read_varint_at (b ∷ bs); some (some r)

-- `len` bytes and what follows them.
unfoldable pub split_at : ℕ → List ℕ → Option (List ℕ × List ℕ)
split_at len bs = if leb len (length bs) then some (take len bs, drop len bs) else none

-- `read_proto_field`: field number, wire type, payload, and what follows the field. The payload of
-- a varint is the varint itself.
unfoldable pub field_payload : ℕ → List ℕ → Option (List ℕ × List ℕ)
field_payload wire bs =
    if wire == 0
    then (read_varint_at bs >>= λ (v, rest). split_at (length bs - length rest) bs)
    else if wire == 1
    then split_at 8 bs
    else if wire == 2
    then (read_varint_at bs >>= λ (len, rest). split_at len rest)
    else if wire == 5
    then split_at 4 bs
    else none

unfoldable pub read_proto_field : List ℕ → Option (ℕ × ℕ × List ℕ × List ℕ)
unfolding field_payload
read_proto_field bs = do
  (tag, body) ← read_varint_at bs
  (payload, rest) ← field_payload (tag % 8) body
  some (tag / 8 % u32_mod, tag % 8, payload, rest)

-- The field of a message that has only length-delimited fields: its number, its bytes and what
-- follows. First what stands behind the tag.
unfoldable pub sized : ℕ → List ℕ → Option (ℕ × List ℕ × List ℕ)
sized tag body = do
  guard (tag % 8 == 2)
  (len, payload) ← read_varint_at body
  (slice, rest) ← split_at len payload
  some (tag / 8, slice, rest)

unfoldable pub delimited : List ℕ → Option (ℕ × List ℕ × List ℕ)
unfolding sized
delimited bs = do (tag, body) ← read_varint_at bs; sized tag body

-- `while pos < buf.len()`, with `store` for the `match field`. A field takes at least one byte, so
-- the number of bytes is fuel enough.
unfoldable pub message_loop {ℓ} :
    {M : Type ℓ} → (ℕ → List ℕ → M → Option M) → ℕ → List ℕ → M → Option M
message_loop store fuel [] m = some m
message_loop store zero (b ∷ bs) m = none
message_loop store (suc fuel) (b ∷ bs) m = delimited (b ∷ bs) >>= λ (field, slice, rest).
    store field slice m >>= λ m'. message_loop store fuel rest m'

pub record VName : Type 0 where
  pub signature : List ℕ
  pub corpus : List ℕ
  pub root : List ℕ
  pub path : List ℕ
  pub language : List ℕ

abbrev pub no_vname : VName
no_vname = record { signature = []; corpus = []; root = []; path = []; language = [] }

unfoldable pub vname_field : ℕ → List ℕ → VName → Option VName
vname_field field slice v =
    if field == 1
    then some (record v { signature = from_utf8_lossy slice })
    else if field == 2
    then some (record v { corpus = from_utf8_lossy slice })
    else if field == 3
    then some (record v { root = from_utf8_lossy slice })
    else if field == 4
    then some (record v { path = from_utf8_lossy slice })
    else if field == 5
    then some (record v { language = from_utf8_lossy slice })
    else some v

unfoldable pub parse_vname : List ℕ → Option VName
parse_vname buf = message_loop vname_field (length buf) buf no_vname

pub record Entry : Type 0 where
  pub source : VName
  pub edge_kind : List ℕ
  pub target : VName
  pub fact_name : List ℕ
  pub fact_value : List ℕ

abbrev pub no_entry : Entry
no_entry = record {
  source = no_vname;
  edge_kind = [];
  target = no_vname;
  fact_name = [];
  fact_value = [];
}

unfoldable pub entry_field : ℕ → List ℕ → Entry → Option Entry
entry_field field slice e =
    if field == 1
    then (parse_vname slice >>= λ v. some (record e { source = v }))
    else if field == 2
    then some (record e { edge_kind = from_utf8_lossy slice })
    else if field == 3
    then (parse_vname slice >>= λ v. some (record e { target = v }))
    else if field == 4
    then some (record e { fact_name = from_utf8_lossy slice })
    else if field == 5
    then some (record e { fact_value = slice })
    else some e

unfoldable pub parse_entry : List ℕ → Option Entry
parse_entry buf = message_loop entry_field (length buf) buf no_entry

-- The encoders that the tests of kythe.rs write streams with. `varint(v)`: `v >> 7` is `v / 128`.
unfoldable pub varint_bytes : ℕ → ℕ → List ℕ
varint_bytes zero v = (v % 256) ∷ []
varint_bytes (suc fuel) v =
    let rest = varint_bytes fuel (v / 128) in
    if leb 0x80 v then bit_or (bit_and v 0x7F) 0x80 ∷ rest else (v % 256) ∷ []

unfoldable pub varint : ℕ → List ℕ
varint v = varint_bytes v v

-- `ld(field, bytes)`: the tag is one byte.
unfoldable pub ld : ℕ → List ℕ → List ℕ
ld field bytes = (bit_or (field * 8) 2 % 256) ∷ (varint (length bytes) ++ bytes)

abbrev pub ld_some : ℕ → List ℕ → List ℕ
ld_some field [] = []
ld_some field (b ∷ bs) = ld field (b ∷ bs)

unfoldable pub entry : List ℕ → List ℕ → List ℕ → List ℕ → List ℕ → List ℕ
entry source edge target fact_name fact_value =
    ld 1 source
    ++ (ld_some 2 edge ++ (ld_some 3 target ++ (ld_some 4 fact_name ++ ld_some 5 fact_value)))

-- `push_entry`: one framed entry.
unfoldable pub framed : List ℕ → List ℕ
framed e = varint (length e) ++ e
