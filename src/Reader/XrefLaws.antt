-- ===== src/Reader/XrefLaws.antt =====
-- The query over the `xrefs` section: the rows of one symbol within a range of roles.
use scry.Prelude.{
  ℕ, ◌+◌, ◌%◌, ◌^◌, ◌<◌, ◌≤◌, ◌≡◌, refl, arith, Bool, List, [], ◌∷◌, ◌++◌, some, ltb, leb, ◌==◌,
  length, get_elem?, All, select, not, ◌&&◌, ◌||◌, if◌then◌else◌, map, ap, ◌∙◌, All-get_elem?,
  All-map, select_congr, min, Bool-cases, inl, inr, ◌/◌,
}
use native.Mathlib.Nat.{mod-eq_of_lt}
use scry.Bytes.{cmp, to_be_bytes, u64_mod, read_int}
use scry.Format.{pack, table, xref_row}
use scry.Format.Rows.{
  Fits, read_int-table, read_int-table_first, read_int-pack_first, read_int-pack_later,
}
use scry.Run.{done}
use scry.Sorted.{Row, Le, IsSorted, row_lt, field}
use scry.Reader.Table.{xref_key, xref_end, xref_at, xref_range}
use scry.Reader.TableLaws.{lower_bound-table, collect-between, zeros_least}

abbrev pub xref_out : Row → ℕ × ℕ × ℕ × ℕ
xref_out r = (field 0 r, field 1 r, field 2 r, field 3 r)

-- The rows of `sym` with a role from `role_lo` to `role_hi`.
abbrev pub in_roles : ℕ → ℕ → ℕ → Row → Bool
in_roles key role_lo role_hi r =
    field 0 r == key && (leb role_lo (field 1 r) && leb (field 1 r) role_hi)

row_lt_role :
    (x r key role : ℕ) (xs : List ℕ)
    → Fits (4 ∷ 4 ∷ []) xs
    → row_lt (x ∷ r ∷ xs) (key ∷ role ∷ 0 ∷ 0 ∷ []) ≡ (ltb x key || (x == key && ltb r role))
unfolding cmp
row_lt_role x r key role xs h = ground (arith, zeros_least (4 ∷ 4 ∷ []) xs h)

-- The two ends of the range: the next role, and after role 255 the next symbol.
abbrev end_row : ℕ → ℕ → Row
end_row key role_hi =
    if role_hi == 255 then (key + 1) ∷ 0 ∷ 0 ∷ 0 ∷ [] else key ∷ (role_hi + 1) ∷ 0 ∷ 0 ∷ []

in_range :
    (key role_lo role_hi : ℕ) (r : Row)
    → role_hi < 256
    → Fits xref_row r
    → (row_lt r (end_row key role_hi) && not (row_lt r (key ∷ role_lo ∷ 0 ∷ 0 ∷ [])))
      ≡ in_roles key role_lo role_hi r
in_range key role_lo role_hi [] h f = elim f [ ]
in_range key role_lo role_hi (x ∷ []) h f = elim f.1 [ ]
in_range key role_lo role_hi (x ∷ r ∷ xs) h f = elim (Bool-cases (role_hi == 255)) [
  | inl last ↦
      rw (last, row_lt_role x r key role_lo xs f.1.1, row_lt_role x r (key + 1) 0 xs f.1.1)
        (ground arith)
  | inr more ↦
      rw (more, row_lt_role x r key role_lo xs f.1.1, row_lt_role x r key (role_hi + 1) xs f.1.1)
        (ground arith)
]

end-Le :
    (key role_lo role_hi : ℕ)
    → role_lo ≤ role_hi
    → Le (key ∷ role_lo ∷ 0 ∷ 0 ∷ []) (end_row key role_hi)
unfolding cmp
end-Le key role_lo role_hi h = elim (Bool-cases (role_hi == 255)) [
  | inl last ↦ rw last (ground arith)
  | inr more ↦ rw more (ground arith)
]

xref_key-pack :
    (key role : ℕ) → role < 256 → xref_key key role ≡ pack xref_row (key ∷ role ∷ 0 ∷ 0 ∷ [])
unfolding pack to_be_bytes
xref_key-pack key role h =
    ap (λ b. to_be_bytes 8 key ++ (b ∷ 0 ∷ 0 ∷ 0 ∷ 0 ∷ 0 ∷ 0 ∷ 0 ∷ 0 ∷ []))
      (let e : role ≡ role / 1 % 256 = omega arith in e)

xref_end-pack :
    (key role_hi : ℕ)
    → key + 1 < u64_mod
    → role_hi < 256
    → xref_end key role_hi ≡ pack xref_row (end_row key role_hi)
unfolding xref_end
xref_end-pack key role_hi h k = elim (Bool-cases (role_hi == 255)) [
  | inl last ↦ rw (last, mod-eq_of_lt h) (xref_key-pack (key + 1) 0 (omega arith))
  | inr more ↦
      let e : min (role_hi + 1) 255 ≡ role_hi + 1 = ground arith in
      rw (more, e) (xref_key-pack key (role_hi + 1) (ground arith))
]

end_row-Fits :
    (key role_hi : ℕ) → key + 1 < u64_mod → role_hi < 256 → Fits xref_row (end_row key role_hi)
end_row-Fits key role_hi h k = elim (Bool-cases (role_hi == 255)) [
  | inl last ↦ rw last (omega arith)
  | inr more ↦ rw more (h', (ground arith, omega arith))
]
  where
    h' : key < 256 ^ 8
    h' = omega arith

module _ (rs : List Row) (fits : All (Fits xref_row) rs) (s : IsSorted rs) where
  xref_at-pack :
      (r : Row)
      → Fits xref_row r
      → (read_int (pack xref_row r) 0 8 ≡ done (field 0 r))
        × (read_int (pack xref_row r) 8 9 ≡ done (field 1 r))
        × (read_int (pack xref_row r) 9 13 ≡ done (field 2 r))
        × (read_int (pack xref_row r) 13 17 ≡ done (field 3 r))
  xref_at-pack (a ∷ b ∷ c ∷ d ∷ []) h = (
    read_int-pack_first 8 (1 ∷ 4 ∷ 4 ∷ []) a (b ∷ c ∷ d ∷ []) h.0,
    read_int-pack_later 8 (1 ∷ 4 ∷ 4 ∷ []) a (b ∷ c ∷ d ∷ []) 0 1
        ∙ read_int-pack_first 1 (4 ∷ 4 ∷ []) b (c ∷ d ∷ []) h.1.0,
    read_int-pack_later 8 (1 ∷ 4 ∷ 4 ∷ []) a (b ∷ c ∷ d ∷ []) 1 5
        ∙ read_int-pack_later 1 (4 ∷ 4 ∷ []) b (c ∷ d ∷ []) 0 4
        ∙ read_int-pack_first 4 (4 ∷ []) c (d ∷ []) h.1.1.0,
    read_int-pack_later 8 (1 ∷ 4 ∷ 4 ∷ []) a (b ∷ c ∷ d ∷ []) 5 9
        ∙ read_int-pack_later 1 (4 ∷ 4 ∷ []) b (c ∷ d ∷ []) 4 8
        ∙ read_int-pack_later 4 (4 ∷ []) c (d ∷ []) 0 4
        ∙ read_int-pack_first 4 [] d [] h.1.1.1.0,
  )
  xref_at-pack (a ∷ b ∷ c ∷ d ∷ x ∷ r) h = elim h.1.1.1.1 [ ]
  xref_at-pack (a ∷ b ∷ c ∷ []) h = elim h.1.1.1 [ ]
  xref_at-pack (a ∷ b ∷ []) h = elim h.1.1 [ ]
  xref_at-pack (a ∷ []) h = elim h.1 [ ]
  xref_at-pack [] h = elim h [ ]

  pub xref_at-table :
      (i : ℕ) (r : Row)
      → get_elem? rs i ≡ some r
      → xref_at (table xref_row rs) i ≡ done (xref_out r)
  unfolding xref_at
  xref_at-table i r e =
      let f = All-get_elem? (Fits xref_row) rs i fits e in
      let (a, b, c, d) = xref_at-pack r f in
      rw (
        read_int-table_first xref_row rs i 8 17 fits e refl (omega arith) ∙ a,
        read_int-table xref_row rs i 8 9 17 fits e refl (omega arith) ∙ b,
        read_int-table xref_row rs i 9 13 17 fits e refl (omega arith) ∙ c,
        read_int-table xref_row rs i 13 17 17 fits e refl (omega arith) ∙ d,
      )

  pub xref_range-table :
      (key role_lo role_hi : ℕ)
      → key + 1 < u64_mod
      → role_lo ≤ role_hi
      → role_hi < 256
      → xref_range (table xref_row rs) (length rs) key role_lo role_hi
        ≡ done (map xref_out (select (in_roles key role_lo role_hi) rs))
  unfolding xref_range
  xref_range-table key role_lo role_hi h le small =
      let lo = key ∷ role_lo ∷ 0 ∷ 0 ∷ [] in
      let hi = end_row key role_hi in
      rw
        (
          xref_key-pack key role_lo (omega arith),
          xref_end-pack key role_hi h small,
          lower_bound-table xref_row 17 rs refl fits lo (omega arith) s,
          lower_bound-table xref_row 17 rs refl fits hi (end_row-Fits key role_hi h small) s,
          ← select_congr _ _ rs (All-map (λ r f. in_range key role_lo role_hi r small f) rs fits),
        )
        (collect-between rs s lo hi (end-Le key role_lo role_hi le) _ xref_out xref_at-table)
