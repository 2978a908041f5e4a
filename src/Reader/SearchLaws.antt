-- ===== src/Reader/SearchLaws.antt =====
-- The two loops end, and they find the row that splits a sorted section.
use Prim.Native.Nat.{Ordering}
use scry.Prelude.{
  ℕ, zero, suc, ◌+◌, ◌-◌, ◌/◌, ◌<◌, ◌≤◌, ◌≡◌, ◌≢◌, refl, arith, Bool, Option, some, none, ltb, ◌⊎◌,
  inl, inr, Bool-cases,
}
use native.Mathlib.Decide.{dec_lt}
use scry.Run.{Run, done, panic, stuck}
use scry.Reader.Search.{lower_loop, find_loop}

-- If the rows below `k` are the ones that the test accepts, the loop returns `k`.
pub lower_loop_lem :
    (k fuel : ℕ) (below : ℕ → Run Bool) (lo hi : ℕ)
    → ((i : ℕ) → i < hi → below i ≡ done (ltb i k))
    → lo ≤ k
    → k ≤ hi
    → hi - lo ≤ fuel
    → lower_loop fuel below lo hi ≡ done k
unfolding lower_loop
lower_loop_lem k zero below lo hi test hl hh hf = ground arith
lower_loop_lem k (suc fuel) below lo hi test hl hh hf = ground (
  arith,
  test ((lo + hi) / 2),
  lower_loop_lem k fuel below ((lo + hi) / 2 + 1) hi test,
  lower_loop_lem k fuel below lo ((lo + hi) / 2) (λ i h. test i (omega arith)),
)

-- The outcome of a three-way search: a row that matches, or no row of the range does.
abbrev pub Finds : (o : ℕ → Ordering) (lo hi : ℕ) → Run (Option ℕ) → Type 0
Finds o lo hi (done (some i)) = (lo ≤ i) × (i < hi) × (o i ≡ Ordering.eq)
Finds o lo hi (done none) = (i : ℕ) → lo ≤ i → i < hi → o i ≢ Ordering.eq
Finds o lo hi panic = ⊥
Finds o lo hi stuck = ⊥

-- Below a row that is less all rows are less, above a row that is greater all are greater.
pub record IsMonotone (o : ℕ → Ordering) : Type 0 where
  pub less : (i j : ℕ) → j ≤ i → o i ≡ Ordering.lt → o j ≡ Ordering.lt
  pub greater : (i j : ℕ) → i ≤ j → o i ≡ Ordering.gt → o j ≡ Ordering.gt

pub Ordering-cases : (a : Ordering) → (a ≡ Ordering.lt) ⊎ (a ≡ Ordering.eq) ⊎ (a ≡ Ordering.gt)
Ordering-cases Ordering.lt = inl refl
Ordering-cases Ordering.eq = inr (inl refl)
Ordering-cases Ordering.gt = inr (inr refl)

module _ (o : ℕ → Ordering) (mono : IsMonotone o) (lo hi m : ℕ) (in_lo : lo ≤ m)
    (in_hi : m < hi) where
  -- Past a row that is less, and before one that is greater.
  upper-Finds : (r : Run (Option ℕ)) → o m ≡ Ordering.lt → Finds o (m + 1) hi r → Finds o lo hi r
  upper-Finds (done (some i)) e h = (omega arith, h.1, h.2)
  upper-Finds (done none) e h = λ i p q. elim (dec_lt m i) [
    | yes above ↦ h i (omega arith) q
    | no under ↦ λ c. cc (mono.less m i (omega arith) e)
  ]
  upper-Finds panic e h = elim h [ ]
  upper-Finds stuck e h = elim h [ ]

  lower-Finds : (r : Run (Option ℕ)) → o m ≡ Ordering.gt → Finds o lo m r → Finds o lo hi r
  lower-Finds (done (some i)) e h = (h.0, omega arith, h.2)
  lower-Finds (done none) e h = λ i p q. elim (dec_lt i m) [
    | yes under ↦ h i p under
    | no above ↦ λ c. cc (mono.greater m i (omega arith) e)
  ]
  lower-Finds panic e h = elim h [ ]
  lower-Finds stuck e h = elim h [ ]

-- On an order that first is less and later greater, and with fuel for the range, the search ends: it
-- returns a row of the range that matches, or none, and then no row of the range does.
pub find_loop-Finds :
    (o : ℕ → Ordering) (fuel : ℕ) (order : ℕ → Run Ordering) (lo hi : ℕ)
    → IsMonotone o
    → ((i : ℕ) → i < hi → order i ≡ done (o i))
    → hi - lo ≤ fuel
    → Finds o lo hi (find_loop fuel order lo hi)
unfolding find_loop
find_loop-Finds o zero order lo hi mono test hf = elim (Bool-cases (ltb lo hi)) [
  | inl e ↦ absurd (ground arith)
  | inr e ↦ rw (e, find_loop) (λ i p q. absurd (ground arith))
]
find_loop-Finds o (suc fuel) order lo hi mono test hf = elim (Bool-cases (ltb lo hi)) [
  | inr e ↦ rw (e, find_loop) (λ i p q. absurd (ground arith))
  | inl e ↦
      let m : ℕ = (lo + hi) / 2 in
      let in_lo : lo ≤ m = ground arith in
      let in_hi : m < hi = ground arith in
      let upper : Finds o (m + 1) hi (find_loop fuel order (m + 1) hi) =
        find_loop-Finds o fuel order (m + 1) hi mono test (omega arith) in
      let lower : Finds o lo m (find_loop fuel order lo m) =
        find_loop-Finds o fuel order lo m mono (λ i h. test i (omega arith)) (omega arith) in
      rw (e, test m in_hi, find_loop)
        (elim (Ordering-cases (o m)) [
          | inl c ↦ rw (c, find_loop) (upper-Finds o mono lo hi m in_lo in_hi _ c upper)
          | inr (inl c) ↦ rw (c, find_loop) (in_lo, in_hi, c)
          | inr (inr c) ↦ rw (c, find_loop) (lower-Finds o mono lo hi m in_lo in_hi _ c lower)
        ])
]
