-- ===== src/Gates/Run/Files.antt =====
-- Which files `changed_files` of tools/dev-gates.py returns.
use Prim.Native.String as Texts
use Prim.Native.Nat.{Ordering}
use text.Mathlib.TextEquality.{path_by_compare}
use modern_c.Prelude.{
  ◌≡◌, refl, String, Bool, true, false, not, ◌&&◌, ◌||◌, List, [], ◌∷◌, ◌++◌, Option, none, some,
  Option-cases, cat, has, has-append, same_text, arith, inl, inr, ◌⊎◌,
}
use modern_c.Gates.Run.{
  ◌>>=◌, insert_path, sorted_set, Git, run_git, update_files, base_files, changed_files,
}

Ordering-cases : (o : Ordering) → (o ≡ Ordering.lt) ⊎ (o ≡ Ordering.eq) ⊎ (o ≡ Ordering.gt)
Ordering-cases Ordering.lt = inl refl
Ordering-cases Ordering.eq = inr (inl refl)
Ordering-cases Ordering.gt = inr (inr refl)

has-insert_path :
    (x y : String) (ys : List String) → has x (insert_path y ys) ≡ (same_text x y || has x ys)
unfolding has insert_path
has-insert_path x y [] = refl
has-insert_path x y (z ∷ ys) = elim (Ordering-cases (Texts.compare y z)) [
  | inl e ↦ rw (e, insert_path) refl
  | inr (inl e) ↦ let same = path_by_compare y z e in rw (e, insert_path, same) (ground arith)
  | inr (inr e) ↦ rw (e, insert_path) (ground (arith, has-insert_path x y ys))
]

-- Sorting into a set keeps what is there, and adds nothing.
has-sorted_set : (x : String) (xs : List String) → has x (sorted_set xs) ≡ has x xs
unfolding has sorted_set
has-sorted_set x [] = refl
has-sorted_set x (y ∷ xs) = ground (arith, has-insert_path x y (sorted_set xs), has-sorted_set x xs)

abbrev pub cached : List String
cached = "diff" ∷ "--cached" ∷ "--name-only" ∷ []

abbrev pub unstaged_diff : List String
unstaged_diff = "diff" ∷ "--name-only" ∷ []

abbrev pub others : List String
others = "ls-files" ∷ "--others" ∷ "--exclude-standard" ∷ []

abbrev chain : Option (List String) → (List String → Option (List String)) → Option (List String)
chain o f = o >>= f

bind_some :
    (o : Option (List String)) (f : List String → Option (List String)) (fs : List String)
    → chain o f ≡ some fs
    → (a : List String) × (o ≡ some a) × (f a ≡ some fs)
bind_some none f fs h = absurd cc
bind_some (some a) f fs h = (a, refl, h)

module _ (git : Git) (x : String) where
  -- Whether `git` with these arguments prints the file.
  abbrev pub printed : List String → Bool
  printed args = elim (run_git git args) [ none ↦ false | some ls ↦ has x ls ]

  update_files-has :
      (b : Bool) (args files fs : List String)
      → update_files git b args files ≡ some fs
      → has x fs ≡ ((b && printed args) || has x files)
  unfolding update_files
  update_files-has false args files fs h = let same : files ≡ fs = cc in rw same
  update_files-has true args files fs h = elim (Option-cases (run_git git args)) [
    | inl e ↦ absurd (let bad = rw (e, update_files) at h in cc)
    | inr (ls, e) ↦
        let found : some (ls ++ files) ≡ some fs = rw (e, update_files) at h in
        let same : fs ≡ ls ++ files = cc in rw (printed, e, same) (has-append x ls files)
  ]

  -- Whether the comparison with the base, where there is one that is not empty, prints the file.
  abbrev pub printed_base : Option String → Bool
  printed_base none = false
  printed_base (some b) =
      not (same_text b "") && printed ("diff" ∷ "--name-only" ∷ cat (b ∷ "...HEAD" ∷ []) ∷ [])

  base-has :
      (base : Option String) (fs : List String)
      → base_files git base ≡ some fs
      → has x fs ≡ printed_base base
  unfolding has base_files
  base-has none fs h = let same : fs ≡ [] = cc in rw same
  base-has (some b) fs h =
      let args = "diff" ∷ "--name-only" ∷ cat (b ∷ "...HEAD" ∷ []) ∷ [] in
      ground (arith, update_files-has (not (same_text b "")) args [] fs h)

  -- The steps of `changed_files` behind the first, as it runs them.
  abbrev sorted : List String → Option (List String)
  sorted d = some (sorted_set d)

  abbrev others_step : (unstaged all : Bool) → List String → Option (List String)
  others_step unstaged all c = chain (update_files git (unstaged || all) others c) sorted

  abbrev unstaged_step : (unstaged all : Bool) → List String → Option (List String)
  unstaged_step unstaged all b =
      chain (update_files git (unstaged || all) unstaged_diff b) (others_step unstaged all)

  abbrev staged_step : (staged unstaged all : Bool) → List String → Option (List String)
  staged_step staged unstaged all a =
      chain (update_files git (staged || all) cached a) (unstaged_step unstaged all)

  -- Where `changed_files` returns, a file is among what it returns exactly where one of the `git` calls
  -- that the options ask for prints it: the comparison with a base that is not empty, the staged changes,
  -- or the unstaged changes and the untracked files.
  pub changed_files-has :
      (base : Option String) (staged unstaged all_changes : Bool) (fs : List String)
      → changed_files git base staged unstaged all_changes ≡ some fs
      → has x fs ≡ (
          printed_base base
          || ((staged || all_changes) && printed cached)
          || ((unstaged || all_changes) && (printed unstaged_diff || printed others)))
  unfolding changed_files cat
  changed_files-has base staged unstaged all_changes fs h =
      let all = all_changes in
      let (a, p, h₁) = bind_some (base_files git base) (staged_step staged unstaged all) fs h in
      let (b, q, h₂) =
        bind_some (update_files git (staged || all) cached a) (unstaged_step unstaged all) fs h₁ in
      let (c, r, h₃) =
        bind_some (update_files git (unstaged || all) unstaged_diff b) (others_step unstaged all) fs
          h₂ in
      let (d, s, h₄) = bind_some (update_files git (unstaged || all) others c) sorted fs h₃ in
      let same : sorted_set d ≡ fs = cc in
      rw (← same) (
        ground (
          arith,
          has-sorted_set x d,
          base-has base a p,
          update_files-has (staged || all) cached a b q,
          update_files-has (unstaged || all) unstaged_diff b c r,
          update_files-has (unstaged || all) others c d s,
        ))
