-- ===== src/Gates/Run.antt =====
-- `changed_files`, `focused_run_commands`, `run_focused_commands` and `main` of tools/dev-gates.py. What
-- `git` prints and what a command does are arguments; what the tool prints is left out.
pub mod Laws
pub mod Files
use Prim.Native.String as Native
use Prim.Native.Nat.{Ordering}
use modern_c.Prelude.{
  is_some, ℕ, zero, suc, String, Bool, true, false, not, ◌&&◌, ◌||◌, List, [], ◌∷◌, ◌++◌, Option,
  none, some, cat, join, lstrip, rstrip, strip, same_text, is_cons, if◌then◌else◌,
}
use modern_c.Gates.Rule.{Rule}
use modern_c.Gates.Select.{Selection, select_gates}

-- `sorted(set(xs))`.
unfoldable pub insert_path : String → List String → List String
insert_path x [] = x ∷ []
insert_path x (y ∷ ys) = elim (Native.compare x y) [
  | Ordering.lt ↦ x ∷ (y ∷ ys)
  | Ordering.eq ↦ y ∷ ys
  | Ordering.gt ↦ y ∷ insert_path x ys
]

unfoldable pub sorted_set : List String → List String
sorted_set [] = []
sorted_set (x ∷ xs) = insert_path x (sorted_set xs)

-- `[line.strip() for line in output.splitlines() if line.strip()]`.
unfoldable pub clean_lines : List String → List String
unfolding lstrip rstrip
clean_lines [] = []
clean_lines (l ∷ ls) =
    let rest = clean_lines ls in if same_text (strip l) "" then rest else strip l ∷ rest

-- The lines that `git` prints; `none` where it fails, which ends the program.
abbrev pub Git : Type 0
Git = List String → Option (List String)

infixl 5 ◌>>=◌
abbrev ◌>>=◌ {ℓ κ} : {A : Type ℓ} {B : Type κ} → Option A → (A → Option B) → Option B
none >>= f = none
some a >>= f = f a

module _ (git : Git) where
  unfoldable pub run_git : List String → Option (List String)
  run_git args = elim (git args) [ none ↦ none | some ls ↦ some (clean_lines ls) ]

  -- `files.update(run_git(args))` where the option asks for it.
  unfoldable pub update_files : Bool → List String → List String → Option (List String)
  update_files false args files = some files
  update_files true args files = elim (run_git args) [ none ↦ none | some ls ↦ some (ls ++ files) ]

  -- The comparison with the base, where `if base` holds.
  unfoldable pub base_files : Option String → Option (List String)
  unfolding cat update_files
  base_files none = some []
  base_files (some b) =
      update_files (not (same_text b "")) ("diff" ∷ "--name-only" ∷ cat (b ∷ "...HEAD" ∷ []) ∷ [])
        []

  unfoldable pub changed_files :
      (base : Option String) (staged unstaged all_changes : Bool) → Option (List String)
  unfolding base_files
  changed_files base staged unstaged all_changes = do
    a ← base_files base
    b ← update_files (staged || all_changes) ("diff" ∷ "--cached" ∷ "--name-only" ∷ []) a
    c ← update_files (unstaged || all_changes) ("diff" ∷ "--name-only" ∷ []) b
    d ←
        update_files (unstaged || all_changes) ("ls-files" ∷ "--others" ∷ "--exclude-standard" ∷ [])
          c
    some (sorted_set d)

unfoldable pub focused_run_commands : List String → List String → List String
unfolding join cat
focused_run_commands gates checks =
    checks
    ++ (if is_cons gates
        then cat ("zig build " ∷ join " " gates ∷ " --summary all" ∷ []) ∷ []
        else [])

-- `returncode`: a code, or the number of the signal that ended the process, which is negative there.
pub data Code : Type 0 where
  exited : ℕ → Code
  killed : ℕ → Code

abbrev pub succeeded : Code → Bool
succeeded (exited zero) = true
succeeded _ = false

module _ {W : Type 0} (run : String → W → Code × W) where
  unfoldable pub run_focused_commands : List String → W → Code × W
  run_focused_commands [] w = (exited 0, w)
  run_focused_commands (c ∷ cs) w =
      let (code, w') = run c w in
      let rest = run_focused_commands cs w' in if succeeded code then rest else (code, w')

pub record Args : Type 0 where
  pub base : Option String
  pub staged : Bool
  pub unstaged : Bool
  pub all : Bool
  pub run : Bool
  pub paths : List String

-- The truth value of `args.base`.
abbrev pub has_base : Option String → Bool
has_base none = false
has_base (some b) = not (same_text b "")

unfoldable pub main_paths : Git → Args → Option (List String)
main_paths git a =
    if is_cons a.paths
    then some (sorted_set a.paths)
    else changed_files git a.base a.staged a.unstaged
        (a.all || not (has_base a.base || a.staged || a.unstaged))

module _ (rules : List Rule) (manifest : Option (List String))
    (read : String → Option (List String)) {W : Type 0} (run : String → W → Code × W) where
  unfoldable pub main_selected : Bool → List String → W → Code × W
  main_selected wanted paths w =
      let s = select_gates rules manifest read paths in
      let ran = run_focused_commands run (focused_run_commands s.gates s.checks) w in
      if is_cons paths && wanted then ran else (exited 0, w)

  -- `main`: `none` where `git` ends the program.
  unfoldable pub main : Git → Args → W → Option (Code × W)
  main git a w = elim (main_paths git a) [
    | none ↦ none
    | some paths ↦ some (main_selected a.run paths w)
  ]
