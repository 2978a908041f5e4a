-- ===== src/Reader/IterLaws.antt =====
-- Iterating over a packed section gives back its rows.
use scry.Prelude.{
  ℕ, ◌≡◌, refl, arith, List, [], ◌∷◌, some, length, get_elem?, All, map, ◌∙◌, All-get_elem?, take,
  ap,
}
use scry.Bytes.{read_int}
use scry.Format.{pack, table, inh_row}
use scry.Format.Rows.{Fits, read_int-table_first, read_int-pack_first}
use scry.Run.{Run, done}
use scry.Sorted.{Row, IsSorted, field}
use scry.Reader.Table.{collect, inh_second}
use scry.Reader.TableLaws.{collect-rows}
use scry.Reader.RangeLaws.{inh_second-table}
use scry.Reader.Iter.{pair_at}

take_all : (rs : List Row) → take (length rs) rs ≡ rs
take_all [] = refl
take_all (r ∷ rs) = ap (λ t. r ∷ t) (take_all rs)

pub collect-all {ℓ} :
    {B : Type ℓ} (rs : List Row) (read : ℕ → Run B) (out : Row → B)
    → ((i : ℕ) (r : Row) → get_elem? rs i ≡ some r → read i ≡ done (out r))
    → collect (length rs) 0 read ≡ done (map out rs)
collect-all rs read out ok =
    collect-rows rs read out ok (length rs) 0 (omega arith)
    ∙ ap (λ t. done (map out t)) (take_all rs)

abbrev pub pair_out : Row → ℕ × ℕ
pair_out r = (field 0 r, field 1 r)

module _ (rs : List Row) (fits : All (Fits inh_row) rs) (s : IsSorted rs) where
  pub pair_at-table :
      (i : ℕ) (r : Row) → get_elem? rs i ≡ some r → pair_at (table inh_row rs) i ≡ done (pair_out r)
  unfolding pair_at inh_second
  pair_at-table i r e = rw (
    read_int-table_first inh_row rs i 8 16 fits e refl (omega arith)
        ∙ first r (All-get_elem? (Fits inh_row) rs i fits e),
    inh_second-table rs fits s i r e,
  )
    where
      first : (r : Row) → Fits inh_row r → read_int (pack inh_row r) 0 8 ≡ done (field 0 r)
      first [] h = elim h [ ]
      first (c ∷ r) h = read_int-pack_first 8 (8 ∷ []) c r h.0
