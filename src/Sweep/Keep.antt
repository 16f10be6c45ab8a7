-- ===== src/Sweep/Keep.antt =====
-- `is_rejected_chunk` and `_keep_flags` of tools/toolchain/spec_sweep_lib.py: which chunks of a fixture
-- survive. A set of names is a list, read by `has`. What a chunk declares and what it refers to are
-- arguments; `Sweep.Names` has them.
pub mod Stable
pub mod Greatest
use modern_c.Prelude.{
  ℕ, zero, suc, ◌+◌, String, Bool, true, false, not, ◌&&◌, ◌||◌, List, [], ◌∷◌, ◌++◌, map, Option,
  none, some, is_cons, has, minus, mentions, if◌then◌else◌,
}

-- `is_rejected_chunk(chunk)`.
unfoldable pub is_rejected_chunk : String → Bool
unfolding mentions
is_rejected_chunk chunk =
    mentions "EXPECT_ERROR" chunk || mentions "SWEEP_SKIP_DEPENDS_ON_REJECTED_DECL" chunk

-- The truth value of `xs & ys`.
unfoldable pub shares : List String → List String → Bool
unfolding has
shares [] ys = false
shares (x ∷ xs) ys = has x ys || shares xs ys

module _ (declared_names : String → List String) where
  -- What the chunks with a flag declare.
  unfoldable pub available_names : List String → List Bool → List String
  available_names (ch ∷ chunks) (k ∷ keep) =
      let rest = available_names chunks keep in if k then declared_names ch ++ rest else rest
  available_names _ _ = []

  -- What the others declare, without `available`.
  unfoldable pub missing_from : List String → List String → List Bool → List String
  unfolding minus
  missing_from available (ch ∷ chunks) (k ∷ keep) =
      let rest = missing_from available chunks keep in
      if k then rest else minus (declared_names ch) available ++ rest
  missing_from available _ _ = []

  unfoldable pub missing_names : List String → List Bool → List String
  unfolding available_names missing_from
  missing_names chunks keep = missing_from (available_names chunks keep) chunks keep

module _ (referenced_names : String → List String) where
  -- The flags once each chunk that names something missing has lost its own.
  unfoldable pub drop_users : List String → List String → List Bool → List Bool
  unfolding shares
  drop_users missing (ch ∷ chunks) (k ∷ keep) =
      (k && not (shares (referenced_names ch) missing)) ∷ drop_users missing chunks keep
  drop_users missing _ _ = []

  -- `dropped_any`.
  unfoldable pub dropped_any : List String → List String → List Bool → Bool
  unfolding shares
  dropped_any missing (ch ∷ chunks) (k ∷ keep) =
      (k && shares (referenced_names ch) missing) || dropped_any missing chunks keep
  dropped_any missing _ _ = false

unfoldable pub first_flags : List String → List Bool
first_flags [] = []
first_flags (ch ∷ chunks) = not (is_rejected_chunk ch) ∷ first_flags chunks

-- The number of flags.
unfoldable pub flag_count : List Bool → ℕ
flag_count [] = 0
flag_count (k ∷ keep) = (if k then 1 else 0) + flag_count keep

module _ (declared_names referenced_names : String → List String) where
  -- `while True`, on fuel: `none` where it runs out.
  unfoldable pub keep_loop : ℕ → List String → List Bool → Option (List Bool)
  unfolding missing_names drop_users dropped_any
  keep_loop zero chunks keep = none
  keep_loop (suc fuel) chunks keep =
      let missing = missing_names declared_names chunks keep in
      let rest = keep_loop fuel chunks (drop_users referenced_names missing chunks keep) in
      if not (is_cons missing)
      then some keep
      else if not (dropped_any referenced_names missing chunks keep)
      then some keep
      else rest

  -- `_keep_flags(chunks)`: every round but the last drops a chunk.
  unfoldable pub keep_flags : List String → Option (List Bool)
  unfolding keep_loop first_flags flag_count
  keep_flags chunks = keep_loop (suc (flag_count (first_flags chunks))) chunks (first_flags chunks)
