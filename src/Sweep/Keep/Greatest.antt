-- ===== src/Sweep/Keep/Greatest.antt =====
-- The loop of `_keep_flags` in tools/toolchain/spec_sweep_lib.py: it ends, at the greatest flags that
-- the rejected chunks leave.
use modern_c.Prelude.{
  ℕ, zero, suc, ◌+◌, ◌≤◌, ◌<◌, ◌≡◌, refl, String, Bool, false, inl, inr, List, [], ◌∷◌, some, arith,
  is_cons, has, if◌then◌else◌, Bool-cases,
}
use modern_c.Sweep.Keep.{
  shares, missing_names, drop_users, dropped_any, first_flags, flag_count, keep_loop, keep_flags,
}
use modern_c.Sweep.Keep.Stable.{Below, Below-antisym, missing_names-Within, allowed, allowed-Below}

pub Below-trans : (ks js ls : List Bool) → Below ks js → Below js ls → Below ks ls
Below-trans [] [] [] h g = tt
Below-trans [] [] (l ∷ ls) h g = absurd g
Below-trans [] (j ∷ js) ls h g = absurd h
Below-trans (k ∷ ks) [] ls h g = absurd h
Below-trans (k ∷ ks) (j ∷ js) [] h g = absurd g
Below-trans (k ∷ ks) (j ∷ js) (l ∷ ls) (h, hs) (g, gs) = (λ e. g (h e), Below-trans ks js ls hs gs)

pub Below-refl : (ks : List Bool) → Below ks ks
Below-refl [] = tt
Below-refl (k ∷ ks) = (λ e. e, Below-refl ks)

pub shares-nil : (xs : List String) → shares xs [] ≡ false
unfolding shares has
shares-nil [] = refl
shares-nil (x ∷ xs) = shares-nil xs

module _ (referenced_names : String → List String) where
  pub allowed-first_flags :
      (missing chunks : List String)
      → Below (allowed referenced_names missing chunks) (first_flags chunks)
  unfolding allowed first_flags
  allowed-first_flags missing [] = tt
  allowed-first_flags missing (ch ∷ chunks) = (ground arith, allowed-first_flags missing chunks)

  drop_users-Below :
      (missing chunks : List String) (keep : List Bool)
      → Below keep (first_flags chunks)
      → Below (drop_users referenced_names missing chunks keep) keep
  unfolding drop_users first_flags
  drop_users-Below missing [] [] h = tt
  drop_users-Below missing [] (k ∷ keep) h = absurd h
  drop_users-Below missing (ch ∷ chunks) [] h = absurd h
  drop_users-Below missing (ch ∷ chunks) (k ∷ keep) (h, hs) =
      (ground arith, drop_users-Below missing chunks keep hs)

  -- The new flags are the meet of the old ones and the allowed ones.
  Below-drop_users :
      (missing chunks : List String) (keep js : List Bool)
      → Below js keep
      → Below js (allowed referenced_names missing chunks)
      → Below js (drop_users referenced_names missing chunks keep)
  unfolding drop_users allowed
  Below-drop_users missing [] keep js h g = g
  Below-drop_users missing (ch ∷ chunks) keep [] h g = absurd g
  Below-drop_users missing (ch ∷ chunks) [] (j ∷ js) h g = absurd h
  Below-drop_users missing (ch ∷ chunks) (k ∷ keep) (j ∷ js) (h, hs) (g, gs) =
      (ground (arith, h, g), Below-drop_users missing chunks keep js hs gs)

  settled-Below :
      (missing chunks : List String) (keep : List Bool)
      → dropped_any referenced_names missing chunks keep ≡ false
      → Below keep (first_flags chunks)
      → Below keep (allowed referenced_names missing chunks)
  unfolding dropped_any allowed first_flags
  settled-Below missing [] keep e h = h
  settled-Below missing (ch ∷ chunks) [] e h = absurd h
  settled-Below missing (ch ∷ chunks) (k ∷ keep) e (h, hs) =
      (ground (arith, h), settled-Below missing chunks keep (ground arith) hs)

  dropped_any-nil :
      (chunks : List String) (keep : List Bool)
      → dropped_any referenced_names [] chunks keep ≡ false
  unfolding dropped_any
  dropped_any-nil [] keep = refl
  dropped_any-nil (ch ∷ chunks) [] = refl
  dropped_any-nil (ch ∷ chunks) (k ∷ keep) =
      ground (arith, shares-nil (referenced_names ch), dropped_any-nil chunks keep)

  flag_count-drop_users :
      (missing chunks : List String) (keep : List Bool)
      → (if dropped_any referenced_names missing chunks keep then 1 else 0)
          + flag_count (drop_users referenced_names missing chunks keep)
        ≤ flag_count keep
  unfolding flag_count drop_users dropped_any
  flag_count-drop_users missing [] keep = omega arith
  flag_count-drop_users missing (ch ∷ chunks) [] = omega arith
  flag_count-drop_users missing (ch ∷ chunks) (k ∷ keep) =
      ground (arith, flag_count-drop_users missing chunks keep)

module _ (declared_names referenced_names : String → List String) where
  -- What may be kept where `keep` is kept.
  unfoldable pub stable_flags : List String → List Bool → List Bool
  stable_flags chunks keep =
      allowed referenced_names (missing_names declared_names chunks keep) chunks

  -- The flags are what may be kept where they are kept, and all flags that support themselves are
  -- among them.
  pub record IsGreatest (chunks : List String) (keep : List Bool) : Type 0 where
    pub stable : keep ≡ stable_flags chunks keep
    pub greatest : (js : List Bool) → Below js (stable_flags chunks js) → Below js keep

  stable_flags-Below :
      (chunks : List String) (ks js : List Bool)
      → Below ks js
      → Below (stable_flags chunks ks) (stable_flags chunks js)
  unfolding stable_flags
  stable_flags-Below chunks ks js h =
      allowed-Below referenced_names chunks (missing_names declared_names chunks js)
        (missing_names declared_names chunks ks)
        (missing_names-Within declared_names chunks js ks h)

  -- What holds before each round.
  record Bounds (chunks : List String) (keep : List Bool) : Type 0 where
    unrejected : Below keep (first_flags chunks)
    above : (js : List Bool) → Below js (stable_flags chunks js) → Below js keep

  first-Bounds : (chunks : List String) → Bounds chunks (first_flags chunks)
  unfolding stable_flags
  first-Bounds chunks = record {
    unrejected = Below-refl (first_flags chunks);
    above = λ js h.
        Below-trans js (stable_flags chunks js) (first_flags chunks) h
          (allowed-first_flags referenced_names (missing_names declared_names chunks js) chunks);
  }

  round-Bounds :
      (chunks : List String) (keep : List Bool)
      → Bounds chunks keep
      → Bounds chunks
          (drop_users referenced_names (missing_names declared_names chunks keep) chunks keep)
  unfolding stable_flags
  round-Bounds chunks keep b =
      let missing = missing_names declared_names chunks keep in
      record {
        unrejected =
            Below-trans (drop_users referenced_names missing chunks keep) keep (first_flags chunks)
              (drop_users-Below referenced_names missing chunks keep b.unrejected) b.unrejected;
        above = λ js h. Below-drop_users referenced_names missing chunks keep js (b.above js h) (
            Below-trans js (stable_flags chunks js) (stable_flags chunks keep) h
              (stable_flags-Below chunks js keep (b.above js h)));
      }

  settled-IsGreatest :
      (chunks : List String) (keep : List Bool)
      → Bounds chunks keep
      → dropped_any referenced_names (missing_names declared_names chunks keep) chunks keep ≡ false
      → IsGreatest chunks keep
  unfolding stable_flags
  settled-IsGreatest chunks keep b e =
      let up =
        settled-Below referenced_names (missing_names declared_names chunks keep) chunks keep e
          b.unrejected in
      record {
        stable = Below-antisym keep (stable_flags chunks keep) up (
            b.above (stable_flags chunks keep)
              (stable_flags-Below chunks keep (stable_flags chunks keep) up));
        greatest = b.above;
      }

  nil-dropped_any :
      (missing chunks : List String) (keep : List Bool)
      → is_cons missing ≡ false
      → dropped_any referenced_names missing chunks keep ≡ false
  nil-dropped_any [] chunks keep e = dropped_any-nil referenced_names chunks keep
  nil-dropped_any (x ∷ xs) chunks keep e = absurd cc

  keep_loop-IsGreatest :
      (fuel : ℕ) (chunks : List String) (keep : List Bool)
      → flag_count keep < fuel
      → Bounds chunks keep
      → (r : List Bool) × (keep_loop declared_names referenced_names fuel chunks keep ≡ some r)
        × IsGreatest chunks r
  unfolding keep_loop
  keep_loop-IsGreatest zero chunks keep h b = absurd (omega (arith, h))
  keep_loop-IsGreatest (suc fuel) chunks keep h b =
      let missing = missing_names declared_names chunks keep in
      elim (Bool-cases (is_cons missing)) [
        | inr e ↦ (
          keep,
          rw (e, keep_loop) refl,
          settled-IsGreatest chunks keep b (nil-dropped_any missing chunks keep e),
        )
        | inl e ↦ elim (Bool-cases (dropped_any referenced_names missing chunks keep)) [
          | inr f ↦ (keep, rw (e, f, keep_loop) refl, settled-IsGreatest chunks keep b f)
          | inl f ↦
              rw (e, f, keep_loop)
                (keep_loop-IsGreatest fuel chunks (drop_users referenced_names missing chunks keep)
                  (ground (arith, f, h, flag_count-drop_users referenced_names missing chunks keep))
                  (round-Bounds chunks keep b))
        ]
      ]

  -- Whatever the chunks are, the loop ends, and its flags are the greatest ones that keep no rejected
  -- chunk and no chunk that names what only dropped chunks declare: they keep exactly the chunks that may
  -- be kept beside them, and any other flags that keep only such chunks keep no more.
  pub keep_flags-IsGreatest :
      (chunks : List String)
      → (r : List Bool) × (keep_flags declared_names referenced_names chunks ≡ some r)
        × IsGreatest chunks r
  unfolding keep_flags
  keep_flags-IsGreatest chunks =
      keep_loop-IsGreatest (suc (flag_count (first_flags chunks))) chunks (first_flags chunks)
        (omega arith) (first-Bounds chunks)
