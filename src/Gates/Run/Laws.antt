-- ===== src/Gates/Run/Laws.antt =====
-- What tools/dev-gates.py runs: nothing is lost, and the first failure ends the run.
use modern_c.Prelude.{
  String, true, false, ◌||◌, List, [], ◌∷◌, ◌++◌, ◌≡◌, refl, ◌↔◌, Option, is_cons, Bool-cases, inl,
  inr, arith,
}
use modern_c.Gates.Rule.{Rule}
use modern_c.Gates.Select.{select_gates}
use modern_c.Gates.Select.Wants.{wants_paths}
use modern_c.Gates.Select.Laws.{expected, select_gates-eq-expected, expected-busy}
use modern_c.Gates.Run.{Code, succeeded, run_focused_commands, focused_run_commands}

commands-busy :
    (gates checks : List String)
    → (is_cons gates || is_cons checks) ≡ true
    → is_cons (focused_run_commands gates checks) ≡ true
unfolding focused_run_commands
commands-busy [] [] h = h
commands-busy (g ∷ gates) [] h = refl
commands-busy gates (c ∷ checks) h = refl

-- Where there is a path there is a command to run: the selection of one path or more, with any rule
-- table, manifest and files, gives a non-empty list of commands.
pub commands-select_gates :
    (rules : List Rule) (manifest : Option (List String)) (read : String → Option (List String))
    (path : String) (paths : List String)
    → is_cons (
        focused_run_commands
          (select_gates rules manifest read (path ∷ paths)).gates
          (select_gates rules manifest read (path ∷ paths)).checks)
      ≡ true
commands-select_gates rules manifest read path paths =
    let w = wants_paths rules manifest read (path ∷ paths) in
    rw (select_gates-eq-expected rules manifest read (path ∷ paths)) (
      commands-busy (expected (path ∷ paths) w).gates (expected (path ∷ paths) w).checks
        (expected-busy path paths w))

module _ {W : Type 0} (run : String → W → Code × W) where
  -- Every command succeeds, each in the state that the one before it left.
  abbrev pub AllSucceed : List String → W → Type 0
  AllSucceed [] w = Unit
  AllSucceed (c ∷ cs) w = (succeeded (run c w).0 ≡ true) × AllSucceed cs (run c w).1

  -- The state after all of the commands.
  abbrev pub after_all : List String → W → W
  after_all [] w = w
  after_all (c ∷ cs) w = after_all cs (run c w).1

  -- The run of the commands succeeds exactly where every command succeeds, each in the state that the
  -- one before it left.
  pub run_focused_commands_iff :
      (cs : List String) (w : W)
      → (succeeded (run_focused_commands run cs w).0 ≡ true) ↔ AllSucceed cs w
  unfolding run_focused_commands
  run_focused_commands_iff [] w = (λ h. tt, λ h. refl)
  run_focused_commands_iff (c ∷ cs) w = elim (Bool-cases (succeeded (run c w).0)) [
    | inl e ↦ rw e (
      (λ h. (refl, (run_focused_commands_iff cs (run c w).1).0 h)),
      (λ h. (run_focused_commands_iff cs (run c w).1).1 h.1),
    )
    | inr e ↦ rw e (λ h. ground arith, λ h. absurd (ground arith))
  ]

  -- Where the commands before one succeed and that one fails, the run ends with its code and in the
  -- state it left: no command behind it is run.
  pub run_focused_commands-append :
      (before : List String) (c : String) (after : List String) (w : W)
      → AllSucceed before w
      → succeeded (run c (after_all before w)).0 ≡ false
      → run_focused_commands run (before ++ c ∷ after) w ≡ run c (after_all before w)
  unfolding run_focused_commands
  run_focused_commands-append [] c after w h f = rw f
  run_focused_commands-append (b ∷ before) c after w (s, h) f =
      rw s (run_focused_commands-append before c after (run b w).1 h f)
