-- ===== src/Fuzz/Repro/Once.antt =====
-- `_auto_shrink_failures` of tools/fuzz/mcfuzz.py over all records.
use modern_c.Prelude.{
  some_not_none, ℕ, ◌≡◌, refl, ap, inl, inr, ◌⊎◌, String, Bool, true, false, ◌||◌, List, [], ◌∷◌,
  map, Option, none, some, arith, All, All-imp, has, NoRepeats, join, same_text, same_text_iff,
  if◌then◌else◌, Bool-cases, Option-cases,
}
use modern_c.Fuzz.Shrink.Laws.{Minimal, shrink_source-Minimal}
use modern_c.Fuzz.Commands.{RunArgs}
use modern_c.Fuzz.Repro.{
  Triaged, Shrunk, not_tried, skipped, unfinished, minimized, source_for_auto_shrink, minimize,
  shrink_again, shrink_first, record_outcome, shrink_records, auto_shrink_failures,
}

-- Whether a record was the one that stands for its signature.
abbrev pub is_tried : Shrunk → Bool
is_tried not_tried = false
is_tried (skipped why) = true
is_tried unfinished = true
is_tried (minimized path text minimal) = true

-- The signatures of those records.
pub tried : List (Triaged × Shrunk) → List String
tried [] = []
tried ((r, s) ∷ out) = let rest = tried out in if is_tried s then r.signature ∷ rest else rest

tried_cons :
    (r : Triaged) (s : Shrunk) (out : List (Triaged × Shrunk))
    → is_tried s ≡ true
    → tried ((r, s) ∷ out) ≡ r.signature ∷ tried out
unfolding tried
tried_cons r s out h = rw h refl

module _ (args : RunArgs) (generate : ℕ → String) (on_source : ℕ → String → Option String)
    (signature_of : String → String) where
  -- A reduction ends, and what it leaves is minimal for the signature.
  pub Settled : ℕ → String → Shrunk → Type 0
  Settled seed sig not_tried = ⊥
  Settled seed sig (skipped why) = Unit
  Settled seed sig unfinished = ⊥
  Settled seed sig (minimized path text minimal) =
      (lines : List String) × (minimal ≡ join "\n" lines)
      × Minimal (on_source seed) signature_of sig lines

  -- A record has a seed where it was tried, and settled.
  pub IsSettled : Triaged × Shrunk → Type 0
  IsSettled (r, s) =
      (s ≡ not_tried) ⊎ ((seed : ℕ) × (r.seed ≡ some seed) × Settled seed r.signature s)

  minimize-Settled :
      (seed : ℕ) (sig source original : String)
      → on_source seed source ≡ some original
      → signature_of original ≡ sig
      → Settled seed sig (minimize args generate on_source signature_of seed sig source)
  unfolding minimize Settled
  minimize-Settled seed sig source original e same =
      let (lines, found, minimal, sub) =
        shrink_source-Minimal (on_source seed) signature_of sig source original e same in
      rw (found, minimize) (lines, refl, minimal)

  shrink_again-Settled :
      (seed : ℕ) (sig source : String)
      → Settled seed sig (shrink_again args generate on_source signature_of seed sig source)
  unfolding shrink_again Settled
  shrink_again-Settled seed sig source = elim (Option-cases (on_source seed source)) [
    | inl e ↦ rw (e, shrink_again) tt
    | inr (original, e) ↦ elim (Bool-cases (same_text (signature_of original) sig)) [
      | inr f ↦ rw (e, f, shrink_again) tt
      | inl f ↦
          rw (e, f, shrink_again)
            (minimize-Settled seed sig source original e
              ((same_text_iff (signature_of original) sig).0 f))
    ]
  ]

  shrink_first-Settled :
      (seed : ℕ) (sig : String)
      → Settled seed sig (shrink_first args generate on_source signature_of seed sig)
  unfolding shrink_first Settled
  shrink_first-Settled seed sig =
      elim (Option-cases (source_for_auto_shrink args generate on_source signature_of seed)) [
        | inl e ↦ rw (e, shrink_first) tt
        | inr (source, e) ↦ rw (e, shrink_first) (shrink_again-Settled seed sig source)
      ]

  Settled-is_tried : (seed : ℕ) (sig : String) (s : Shrunk) → Settled seed sig s → is_tried s ≡ true
  unfolding Settled
  Settled-is_tried seed sig not_tried h = absurd h
  Settled-is_tried seed sig (skipped why) h = refl
  Settled-is_tried seed sig unfinished h = refl
  Settled-is_tried seed sig (minimized path text minimal) h = refl

  -- With a seed, its signature was tried, or had been seen.
  abbrev Covered : List String → List String → Triaged → Type 0
  Covered seen done r =
      (seed : ℕ) → r.seed ≡ some seed → (has r.signature seen || has r.signature done) ≡ true

  record Result (seen : List String) (rs : List Triaged) (out : List (Triaged × Shrunk))
      : Type 0 where
    same : map (λ p. p.0) out ≡ rs
    settled : All IsSettled out
    once : NoRepeats (tried out)
    fresh : (x : String) → has x seen ≡ true → has x (tried out) ≡ false
    covered : All (Covered seen (tried out)) rs

  skip-Result :
      (seen : List String) (r : Triaged) (rs : List Triaged) (out : List (Triaged × Shrunk))
      → ((seed : ℕ) → r.seed ≡ some seed → has r.signature seen ≡ true)
      → Result seen rs out
      → Result seen (r ∷ rs) ((r, not_tried) ∷ out)
  unfolding tried IsSettled
  skip-Result seen r rs out h res = record {
    same = ap (◌∷◌ r) res.same;
    settled = (inl refl, res.settled);
    once = res.once;
    fresh = res.fresh;
    covered = (λ seed e. ground (arith, h seed e), res.covered);
  }

  take-Result :
      (seen : List String) (r : Triaged) (rs : List Triaged) (seed : ℕ) (s : Shrunk)
      (out : List (Triaged × Shrunk))
      → r.seed ≡ some seed
      → has r.signature seen ≡ false
      → Settled seed r.signature s
      → Result (r.signature ∷ seen) rs out
      → Result seen (r ∷ rs) ((r, s) ∷ out)
  unfolding tried IsSettled has
  take-Result seen r rs seed s out e n st res =
      let itself : has r.signature (tried out) ≡ false =
        res.fresh r.signature (ground (arith, same_text_iff r.signature r.signature)) in
      let yes_tried = Settled-is_tried seed r.signature s st in
      record {
        same = ap (◌∷◌ r) res.same;
        settled = (inr (seed, e, st), res.settled);
        once = rw yes_tried (itself, res.once);
        fresh =
            rw yes_tried (λ x ex. ground (arith, n, ex, same_text_iff x r.signature, res.fresh x));
        covered = (
          (λ k f.
              rw (tried_cons r s out yes_tried)
                (ground (arith, same_text_iff r.signature r.signature))),
          All-imp (Covered (r.signature ∷ seen) (tried out)) (Covered seen (tried ((r, s) ∷ out)))
              rs (λ q h k f. rw (tried_cons r s out yes_tried) (ground (arith, h k f))) res.covered,
        );
      }

  outcome-Result :
      (seen : List String) (r : Triaged) (rs : List Triaged) (o : Option ℕ)
      → ((seen : List String)
          → Result seen rs (shrink_records args generate on_source signature_of seen rs))
      → r.seed ≡ o
      → Result seen (r ∷ rs) (
          (r, (record_outcome args generate on_source signature_of seen r o).0)
          ∷ shrink_records args generate on_source signature_of
              (record_outcome args generate on_source signature_of seen r o).1
              rs)
  unfolding record_outcome
  outcome-Result seen r rs none rest e =
      skip-Result seen r rs (shrink_records args generate on_source signature_of seen rs)
        (λ seed f. absurd (some_not_none f e)) (rest seen)
  outcome-Result seen r rs (some seed) rest e = elim (Bool-cases (has r.signature seen)) [
    | inl f ↦
        rw (f, record_outcome)
          (skip-Result seen r rs (shrink_records args generate on_source signature_of seen rs)
            (λ k g. f) (rest seen))
    | inr f ↦
        rw (f, record_outcome)
          (take-Result seen r rs seed
            (shrink_first args generate on_source signature_of seed r.signature)
            (shrink_records args generate on_source signature_of (r.signature ∷ seen) rs) e f
            (shrink_first-Settled seed r.signature) (rest (r.signature ∷ seen)))
  ]

  shrink_records-Result :
      (seen : List String) (rs : List Triaged)
      → Result seen rs (shrink_records args generate on_source signature_of seen rs)
  unfolding shrink_records tried has
  shrink_records-Result seen [] = record {
    same = refl;
    settled = tt;
    once = tt;
    fresh = λ x e. refl;
    covered = tt;
  }
  shrink_records-Result seen (r ∷ rs) =
      outcome-Result seen r rs r.seed (λ s. shrink_records-Result s rs) refl

  -- The records of a run after the reductions: one outcome for each, in their order.
  pub record Buckets (rs : List Triaged) (out : List (Triaged × Shrunk)) : Type 0 where
    pub same_records : map (λ p. p.0) out ≡ rs
    pub all_settled : All IsSettled out
    pub once_each : NoRepeats (tried out)
    pub none_missed :
        All (λ r. (seed : ℕ) → r.seed ≡ some seed → has r.signature (tried out) ≡ true) rs

  -- The reductions of all findings end, and leave one outcome for each record, in order: no signature is
  -- tried twice, the signature of each record with a seed is tried once, and a minimized program is one on
  -- which the oracle still has a finding of the signature, and has none where any one more line is taken
  -- out.
  pub auto_shrink_failures-Buckets :
      (rs : List Triaged)
      → Buckets rs (auto_shrink_failures args generate on_source signature_of rs)
  unfolding auto_shrink_failures has
  auto_shrink_failures-Buckets rs =
      let res = shrink_records-Result [] rs in
      record {
        same_records = res.same;
        all_settled = res.settled;
        once_each = res.once;
        none_missed =
            All-imp
              (Covered [] (tried (auto_shrink_failures args generate on_source signature_of rs)))
              (λ r.
                (seed : ℕ)
                → r.seed ≡ some seed
                → has r.signature
                    (tried (auto_shrink_failures args generate on_source signature_of rs))
                  ≡ true)
              rs (λ r h. h) res.covered;
      }
