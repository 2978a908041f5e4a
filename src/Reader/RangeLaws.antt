-- ===== src/Reader/RangeLaws.antt =====
-- The range queries on a packed, sorted section: they return the fields of exactly the rows that
-- match, in the order of the section.
use scry.Prelude.{
  ℕ, ◌+◌, ◌<◌, ◌≡◌, refl, arith, List, [], ◌∷◌, some, ◌==◌, length, get_elem?, All, select, map,
  ◌∙◌, All-get_elem?,
}
use scry.Bytes.{to_be_bytes, u64_mod, read_int}
use scry.Format.{pack, table, inh_row, inh_len, call_row, call_len}
use scry.Format.Rows.{Fits, read_int-table, read_int-pack_first, read_int-pack_later}
use scry.Run.{done}
use scry.Sorted.{Row, IsSorted, field}
use scry.Reader.Table.{start_key, inh_second, inh_range, call_second, call_range}
use scry.Reader.TableLaws.{key_range-table}

-- `inherits_of`, `inherited_by` and `members` on their packed section.
module _ (rs : List Row) (fits : All (Fits inh_row) rs) (s : IsSorted rs) where
  pub inh_second-table :
      (i : ℕ) (r : Row)
      → get_elem? rs i ≡ some r
      → inh_second (table inh_row rs) i ≡ done (field 1 r)
  unfolding inh_second
  inh_second-table i r e =
      read_int-table inh_row rs i 8 16 16 fits e refl (omega arith)
      ∙ second r (All-get_elem? (Fits inh_row) rs i fits e)
    where
      second : (r : Row) → Fits inh_row r → read_int (pack inh_row r) 8 16 ≡ done (field 1 r)
      second [] h = elim h [ ]
      second (c ∷ []) h = elim h.1 [ ]
      second (c ∷ p ∷ []) h =
          read_int-pack_later 8 (8 ∷ []) c (p ∷ []) 0 8 ∙ read_int-pack_first 8 [] p [] h.1.0
      second (c ∷ p ∷ q ∷ r) h = elim h.1.1 [ ]

  pub start_inh : (key : ℕ) → start_key inh_len key ≡ pack inh_row (key ∷ 0 ∷ [])
  unfolding pack to_be_bytes
  start_inh key = refl

  pub inh_range-table :
      (key : ℕ)
      → key + 1 < u64_mod
      → inh_range (table inh_row rs) (length rs) key
        ≡ done (map (field 1) (select (λ r. field 0 r == key) rs))
  unfolding inh_range
  inh_range-table key h =
      key_range-table (8 ∷ []) 16 rs refl (λ k. start_inh k) fits s key _ (field 1) h
        inh_second-table

-- `calls_from` and `called_by` on their packed section.
abbrev pub call_out : Row → ℕ × ℕ
call_out r = (field 1 r, field 2 r)

module _ (rs : List Row) (fits : All (Fits call_row) rs) (s : IsSorted rs) where
  call_second-pack :
      (r : Row)
      → Fits call_row r
      → (read_int (pack call_row r) 8 16 ≡ done (field 1 r))
        × (read_int (pack call_row r) 16 17 ≡ done (field 2 r))
  call_second-pack (c ∷ p ∷ q ∷ []) h = (
    read_int-pack_later 8 (8 ∷ 1 ∷ []) c (p ∷ q ∷ []) 0 8
        ∙ read_int-pack_first 8 (1 ∷ []) p (q ∷ []) h.1.0,
    read_int-pack_later 8 (8 ∷ 1 ∷ []) c (p ∷ q ∷ []) 8 9
        ∙ read_int-pack_later 8 (1 ∷ []) p (q ∷ []) 0 1
        ∙ read_int-pack_first 1 [] q [] h.1.1.0,
  )
  call_second-pack (c ∷ p ∷ q ∷ x ∷ r) h = elim h.1.1.1 [ ]
  call_second-pack (c ∷ p ∷ []) h = elim h.1.1 [ ]
  call_second-pack (c ∷ []) h = elim h.1 [ ]
  call_second-pack [] h = elim h [ ]

  pub call_second-table :
      (i : ℕ) (r : Row)
      → get_elem? rs i ≡ some r
      → call_second (table call_row rs) i ≡ done (call_out r)
  unfolding call_second
  call_second-table i r e =
      let (a, b) = call_second-pack r (All-get_elem? (Fits call_row) rs i fits e) in
      rw (
        read_int-table call_row rs i 8 16 17 fits e refl (omega arith) ∙ a,
        read_int-table call_row rs i 16 17 17 fits e refl (omega arith) ∙ b,
      )

  pub start_call : (key : ℕ) → start_key call_len key ≡ pack call_row (key ∷ 0 ∷ 0 ∷ [])
  unfolding pack to_be_bytes
  start_call key = refl

  pub call_range-table :
      (key : ℕ)
      → key + 1 < u64_mod
      → call_range (table call_row rs) (length rs) key
        ≡ done (map call_out (select (λ r. field 0 r == key) rs))
  unfolding call_range
  call_range-table key h =
      key_range-table (8 ∷ 1 ∷ []) 17 rs refl start_call fits s key _ call_out h call_second-table
