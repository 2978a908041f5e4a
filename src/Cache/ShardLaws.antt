-- ===== src/Cache/ShardLaws.antt =====
-- Hits and misses of the shard cache of cache.rs after each operation.
use scry.Prelude.{
  ℕ, ◌-◌, ◌≡◌, refl, arith, List, [], ◌∷◌, Bool, true, false, ◌&&◌, if◌then◌else◌, length,
  length-append, take-append, drop-append, Option, some, none, Bool-cases, inl, inr, ◌∙◌, ap, sym,
  leb,
}
use mathlib.Core.List.{append_cancel_right}
use scry.Text.Str.{same, one_of}
use scry.Text.StrLaws.{eq_of_same, same_refl}
use scry.Kythe.Signature.{find}
use scry.Kythe.FilesLaws.{find-put}
use scry.Kzip.PeekJson.{ends_with}
use scry.Cache.Shards.{
  ShardCache, suffix, shard_path, opens, contains_file, contains, store, strip_suffix, stays_as,
  prune, finalize_cache, CacheOp, stored, finalized, clear, step, run_ops,
}

strip_suffix-shard_path : (digest : List ℕ) → strip_suffix (shard_path digest) ≡ some digest
unfolding strip_suffix ends_with
strip_suffix-shard_path digest =
    let count : length (shard_path digest) - length suffix ≡ length digest =
      omega (arith, length-append digest suffix) in
    let enough : leb (length suffix) (length (shard_path digest)) ≡ true =
      ground (arith, length-append digest suffix) in
    rw
      (
        enough,
        count,
        drop-append digest suffix (length digest) refl,
        take-append digest suffix (length digest) refl,
      )
      refl

same-shard_path : (d e : List ℕ) → same (shard_path d) (shard_path e) ≡ same d e
same-shard_path d e = elim (Bool-cases (same d e)) [
  | inl h ↦ rw (eq_of_same d e h, same_refl e, same_refl (shard_path e)) refl
  | inr h ↦ elim (Bool-cases (same (shard_path d) (shard_path e))) [
    | inl k ↦
        let eq = append_cancel_right d e suffix (eq_of_same (shard_path d) (shard_path e) k) in
        absurd (cc (eq, same_refl e, h))
    | inr k ↦ k ∙ sym h
  ]
]

-- A stored shard is a hit if it opens, and the other digests are what they were.
contains-store :
    (cache : ShardCache) (d src e : List ℕ)
    → contains (store cache d src) e ≡ (if same d e then opens src else contains cache e)
unfolding contains store contains_file
contains-store cache d src e =
    rw (find-put (shard_path d) (shard_path e) src cache.shards, same-shard_path d e)
      (by_test (same d e))
  where
    by_test :
        (b : Bool)
        → contains_file (if b then some src else find (shard_path e) cache.shards)
          ≡ (if b then opens src else contains_file (find (shard_path e) cache.shards))
    by_test true = refl
    by_test false = refl

find-prune :
    (kept : List (List ℕ)) (k : List ℕ) (m : List (List ℕ × List ℕ))
    → find k (prune kept m) ≡ (if stays_as kept (strip_suffix k) then find k m else none)
unfolding find prune
find-prune kept k [] = either (stays_as kept (strip_suffix k)) none
  where
    either : (b : Bool) (o : Option (List ℕ)) → o ≡ (if b then o else o)
    either true o = refl
    either false o = refl
find-prune kept k ((j, v) ∷ m) = elim (Bool-cases (stays_as kept (strip_suffix j))) [
  | inl s ↦ elim (Bool-cases (same j k)) [
    | inl e ↦ rw (s, e, sym (ap (λ t. stays_as kept (strip_suffix t)) (eq_of_same j k e)) ∙ s) refl
    | inr e ↦ rw (s, e) (find-prune kept k m)
  ]
  | inr s ↦ elim (Bool-cases (same j k)) [
    | inl e ↦
        let gone = sym (ap (λ t. stays_as kept (strip_suffix t)) (eq_of_same j k e)) ∙ s in
        rw (s, e, gone) (find-prune kept k m ∙ rw gone refl)
    | inr e ↦ rw (s, e) (find-prune kept k m)
  ]
]

-- A digest that is not kept is no hit.
contains-finalize_cache :
    (cache : ShardCache) (kept : List (List ℕ)) (d : List ℕ)
    → contains (finalize_cache cache kept) d ≡ (one_of d kept && contains cache d)
unfolding contains finalize_cache stays_as contains_file
contains-finalize_cache cache kept d =
    rw (find-prune kept (shard_path d) cache.shards, strip_suffix-shard_path d)
      (by_test (one_of d kept))
  where
    by_test :
        (b : Bool)
        → contains_file (if b then find (shard_path d) cache.shards else none)
          ≡ (b && contains_file (find (shard_path d) cache.shards))
    by_test true = refl
    by_test false = refl

-- The cache as the set of the digests that are hits.
abbrev pub set_step : CacheOp → (List ℕ → Bool) → List ℕ → Bool
set_step (stored digest src) hits d = if same digest d then opens src else hits d
set_step (finalized kept) hits d = one_of d kept && hits d
set_step clear hits d = false

abbrev pub run_set : List CacheOp → (List ℕ → Bool) → List ℕ → Bool
run_set [] hits = hits
run_set (op ∷ ops) hits = run_set ops (set_step op hits)

contains-step :
    (op : CacheOp) (cache : ShardCache) (hits : List ℕ → Bool)
    → ((d : List ℕ) → contains cache d ≡ hits d)
    → (d : List ℕ) → contains (step op cache) d ≡ set_step op hits d
contains-step (stored digest src) cache hits h d =
    contains-store cache digest src d ∙ ap (λ b. if same digest d then opens src else b) (h d)
contains-step (finalized kept) cache hits h d =
    contains-finalize_cache cache kept d ∙ ap (λ b. one_of d kept && b) (h d)
contains-step clear cache hits h d = unfold contains find contains_file in refl

run-set :
    (ops : List CacheOp) (cache : ShardCache) (hits : List ℕ → Bool)
    → ((d : List ℕ) → contains cache d ≡ hits d)
    → (d : List ℕ) → contains (run_ops ops cache) d ≡ run_set ops hits d
run-set [] cache hits h d = h d
run-set (op ∷ ops) cache hits h d =
    run-set ops (step op cache) (set_step op hits) (contains-step op cache hits h) d

-- Through any sequence of operations the cache is the set of its hits: to store a shard makes its
-- digest a hit exactly if the file opens as an index, to finalize leaves the hits that are kept, to
-- clear leaves none, and no operation changes another digest.
pub contains-run_ops :
    (ops : List CacheOp) (cache : ShardCache) (d : List ℕ)
    → contains (run_ops ops cache) d ≡ run_set ops (contains cache) d
contains-run_ops ops cache d = run-set ops cache (contains cache) (λ e. refl) d
