-- ===== src/Cache/Shards.antt =====
-- `ShardCache` of cache.rs over a directory as a list of names and contents. Errors of the file
-- system and the temporary names that a rename replaces are not modelled: each operation is one step.
use scry.Prelude.{
  ℕ, ◌-◌, List, [], ◌∷◌, ◌++◌, Bool, true, false, if◌then◌else◌, length, take, map, Option, some,
  none,
}
use mathlib.Core.List.{flatten}
use scry.Sorted.{sort_unstable}
use scry.Text.Str.{ascii, one_of}
use scry.Kythe.Signature.{find, put}
use scry.Kzip.PeekJson.{ends_with}
use scry.Reader.Open.{Opened, open'}

-- The files under `shards/`, and the manifest.
pub record ShardCache : Type 0 where
  pub shards : List (List ℕ × List ℕ)
  pub manifest : List ℕ

abbrev pub suffix : List ℕ
suffix = ascii ".s2db"

-- The name of `shard_path`.
abbrev pub shard_path : List ℕ → List ℕ
shard_path digest = digest ++ suffix

-- `Index::open(&p).is_ok()`
unfoldable pub opens : List ℕ → Bool
unfolding open'
opens file = elim (open' file) [ Opened.ok _ ↦ true | _ ↦ false ]

unfoldable pub contains_file : Option (List ℕ) → Bool
unfolding opens
contains_file none = false
contains_file (some file) = opens file

unfoldable pub contains : ShardCache → List ℕ → Bool
unfolding contains_file find
contains cache digest = contains_file (find (shard_path digest) cache.shards)

unfoldable pub store : ShardCache → List ℕ → List ℕ → ShardCache
unfolding put
store cache digest src = record cache { shards = put (shard_path digest) src cache.shards }

-- `name.strip_suffix(".s2db")`
unfoldable pub strip_suffix : List ℕ → Option (List ℕ)
unfolding ends_with
strip_suffix name =
    if ends_with name suffix then some (take (length name - length suffix) name) else none

-- Whether the file stays: it is no shard, or the shard of a digest that is kept.
unfoldable pub stays_as : List (List ℕ) → Option (List ℕ) → Bool
unfolding one_of
stays_as kept none = true
stays_as kept (some digest) = one_of digest kept

unfoldable pub prune : List (List ℕ) → List (List ℕ × List ℕ) → List (List ℕ × List ℕ)
unfolding stays_as strip_suffix
prune kept [] = []
prune kept ((name, file) ∷ shards) =
    let rest = prune kept shards in
    if stays_as kept (strip_suffix name) then (name, file) ∷ rest else rest

abbrev pub manifest_line : List ℕ → List ℕ
manifest_line digest = digest ++ (9 ∷ shard_path digest)

unfoldable pub finalize_cache : ShardCache → List (List ℕ) → ShardCache
unfolding prune sort_unstable
finalize_cache cache kept = record {
  shards = prune kept cache.shards;
  manifest = flatten (map (λ l. l ++ (10 ∷ [])) (sort_unstable (map manifest_line kept)));
}

-- `clear` and `open` of what is left.
abbrev pub cleared : ShardCache
cleared = record { shards = []; manifest = [] }

-- The operations in turn.
pub data CacheOp : Type 0 where
  stored : List ℕ → List ℕ → CacheOp
  finalized : List (List ℕ) → CacheOp
  clear : CacheOp

abbrev pub step : CacheOp → ShardCache → ShardCache
step (stored digest src) cache = store cache digest src
step (finalized kept) cache = finalize_cache cache kept
step clear cache = cleared

abbrev pub run_ops : List CacheOp → ShardCache → ShardCache
run_ops [] cache = cache
run_ops (op ∷ ops) cache = run_ops ops (step op cache)
