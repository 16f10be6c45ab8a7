-- ===== src/PassGates/Log/Reported.antt =====
-- What `assert_log` of tools/ci/pass-gates.py has found when it passes.
use Prim.Native.Char.{code}
use Prim.Native.String as Texts
use text.Mathlib.TextLemmas.{nil-append, cons-append}
use modern_c.Prelude.{
  line_starts, ℕ, ◌≡◌, refl, sym, ap, ◌∙◌, String, Bool, true, false, not, ◌&&◌, ◌↔◌, inl, inr,
  List, [], ◌∷◌, Option, some, arith, ◌==◌, length, is_cons, behind, behind-append, behind-some,
  All, NoRepeats, Bool-cases, Option-cases,
}
use modern_c.Fuzz.Result.{◌>>=◌, Gives, Gives-step, Gives-last, inr-Gives, need, need-inr, inr-need}
use modern_c.Json.{Json}
use modern_c.PassGates.Scan.{missing_file, missing_pass_lines}
use modern_c.PassGates.Manifest.{require_unique}
use modern_c.PassGates.Check.Wired.{require_iff, require_unique_iff}
use modern_c.PassGates.Log.{breaks, pass_at, has_pass, missing_passes, tier_names, assert_log}

-- A line of the log starts with the report of the gate, and then ends or goes on with white space.
pub record Reported (log name : String) : Type 0 where
  pub before : String
  pub after : String
  pub placed : log ≡ Texts.◌++◌ before (Texts.◌++◌ "PASS: " (Texts.◌++◌ name after))
  pub at_line : line_starts true before ≡ true
  pub ended : breaks after ≡ true

report : String → String → String
report name after = Texts.◌++◌ "PASS: " (Texts.◌++◌ name after)

pass_at-report :
    (name after : String) → breaks after ≡ true → pass_at name (report name after) ≡ true
unfolding pass_at report
pass_at-report name after h =
    rw (pass_at, behind-append "PASS: " (Texts.◌++◌ name after), behind-append name after) h

report-pass_at :
    (name s : String)
    → pass_at name s ≡ true
    → (after : String) × (s ≡ report name after) × (breaks after ≡ true)
unfolding pass_at report
report-pass_at name s h = elim (Option-cases (behind "PASS: " s)) [
  | inl e ↦ let never = rw (e, pass_at) at h in absurd cc
  | inr (rest, e) ↦ elim (Option-cases (behind name rest)) [
    | inl f ↦ let never = rw (e, pass_at, f) at h in absurd cc
    | inr (after, f) ↦ (
      after,
      behind-some "PASS: " s rest e
          ∙ ap (λ (t : String). Texts.◌++◌ "PASS: " t) (behind-some name rest after f),
      rw (e, pass_at, f) at h,
    )
  ]
]

module _ (name : String) where
  has_pass-here : (s : String) → pass_at name s ≡ true → has_pass name true s ≡ true
  unfolding has_pass
  has_pass-here String.[] h = unfold pass_at in h
  has_pass-here (String.◌∷◌ c s) h = ground (arith, h)

  has_pass-report :
      (starts : Bool) (before after : String)
      → line_starts starts before ≡ true
      → breaks after ≡ true
      → has_pass name starts (Texts.◌++◌ before (report name after)) ≡ true
  unfolding has_pass
  has_pass-report starts String.[] after h g =
      rw (nil-append (report name after), h)
        (has_pass-here (report name after) (pass_at-report name after g))
  has_pass-report starts (String.◌∷◌ c before) after h g =
      rw (cons-append c before (report name after))
        (ground (arith, has_pass-report (code c == 10) before after h g))

  report-has_pass :
      (starts : Bool) (s : String)
      → has_pass name starts s ≡ true
      → (before after : String) × (s ≡ Texts.◌++◌ before (report name after))
        × (line_starts starts before ≡ true)
        × (breaks after ≡ true)
  unfolding has_pass
  report-has_pass starts String.[] h = absurd cc
  report-has_pass starts (String.◌∷◌ c s) h =
      elim (Bool-cases (starts && pass_at name (String.◌∷◌ c s))) [
        | inl e ↦
            let (after, placed, ended) = report-pass_at name (String.◌∷◌ c s) (ground (arith, e)) in
            ("", after, placed ∙ sym (nil-append (report name after)), ground (arith, e), ended)
        | inr e ↦
            let (before, after, placed, starts', ended) =
              report-has_pass (code c == 10) s (ground (arith, e, h)) in
            (
              String.◌∷◌ c before,
              after,
              ap (λ (t : String). String.◌∷◌ c t) placed
                  ∙ sym (cons-append c before (report name after)),
              starts',
              ended,
            )
      ]

  has_pass_iff : (log : String) → (has_pass name true log ≡ true) ↔ Reported log name
  unfolding report
  has_pass_iff log = (
    λ h.
        let (before, after, placed, starts, ended) = report-has_pass true log h in
        record { before = before; after = after; placed = placed; at_line = starts; ended = ended },
    λ r. rw (r.placed) (has_pass-report true r.before r.after r.at_line r.ended),
  )

missing_passes_iff :
    (log : String) (names : List String)
    → (is_cons (missing_passes log names) ≡ false) ↔ All (Reported log) names
unfolding missing_passes
missing_passes_iff log [] = (λ h. tt, λ h. refl)
missing_passes_iff log (name ∷ names) = elim (Bool-cases (has_pass name true log)) [
  | inl e ↦
      rw (e, missing_passes)
        (
          λ h. ((has_pass_iff name log).0 e, (missing_passes_iff log names).0 h),
          λ (r, rs). (missing_passes_iff log names).1 rs,
        )
  | inr e ↦
      rw (e, missing_passes)
        (
          λ h. absurd cc,
          λ (r, rs). let found = (has_pass_iff name log).1 r in absurd (ground (arith, e, found)),
        )
]

-- The log of a tier whose gates are named once each and are all reported.
pub record Passed (files : String → Option String) (loads : String → Option Json)
    (tier log_path : String) (count : ℕ) : Type 0 where
  pub gates : List String
  pub gates_listed : tier_names files loads tier ≡ inr gates
  pub gates_once : NoRepeats gates
  pub log : String
  pub log_read : files log_path ≡ some log
  pub reported : All (Reported log) gates
  pub counted : count ≡ length gates

module _ (files : String → Option String) (loads : String → Option Json)
    (tier log_path : String) where
  assert_log-Gives : Gives (Passed files loads tier log_path) (assert_log files loads tier log_path)
  unfolding assert_log
  assert_log-Gives =
      let Q = Passed files loads tier log_path in
      Gives-step Q (tier_names files loads tier) _ (λ gates e1.
        Gives-step Q (require_unique tier gates) _ (λ u e2.
          Gives-step Q (need (missing_file log_path) (files log_path)) _ (λ log e3.
            Gives-step Q _ _ (λ v e4. Gives-last Q (inr (length gates)) (λ count e5. record {
              gates = gates;
              gates_listed = e1;
              gates_once = (require_unique_iff tier gates).0 e2;
              log = log;
              log_read = need-inr _ e3;
              reported = (missing_passes_iff log gates).0 (ground (arith, (require_iff _ _).0 e4));
              counted = cc;
            })))))

  Passed-assert_log :
      (count : ℕ)
      → Passed files loads tier log_path count
      → assert_log files loads tier log_path ≡ inr count
  unfolding assert_log ◌>>=◌
  Passed-assert_log count p =
      let found : not (is_cons (missing_passes p.log p.gates)) ≡ true =
        ground (arith, (missing_passes_iff p.log p.gates).1 p.reported) in
      rw
        (
          p.gates_listed,
          ◌>>=◌,
          (require_unique_iff tier p.gates).1 p.gates_once,
          inr-need (missing_file log_path) p.log_read,
          (require_iff _ (missing_pass_lines log_path (missing_passes p.log p.gates))).1 found,
          p.counted,
        )
        refl

  -- The check of a log passes with a count if and only if the gates of the tier are listed, once each and
  -- as many as the count, the log can be read, and each gate has a line in it that starts with `PASS: `
  -- and its name, and there ends or goes on with white space.
  pub assert_log_iff :
      (count : ℕ)
      → (assert_log files loads tier log_path ≡ inr count) ↔ Passed files loads tier log_path count
  assert_log_iff count = (
    λ e.
        inr-Gives (Passed files loads tier log_path) (assert_log files loads tier log_path) count e
          assert_log-Gives,
    Passed-assert_log count,
  )
