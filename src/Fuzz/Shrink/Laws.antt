-- ===== src/Fuzz/Shrink/Laws.antt =====
-- What `shrink_source` of tools/fuzz/mcfuzz.py returns: a reduction that still fails, and that no
-- further line can leave.
use modern_c.Prelude.{
  ℕ, zero, suc, ◌+◌, ◌<◌, ◌≤◌, ◌≡◌, refl, String, Bool, true, false, List, [], ◌∷◌, Option, some,
  length, join, split, Bool-cases, inl, inr, arith, ◌==◌, ==_iff, join-split, same_text_iff,
}
use modern_c.Fuzz.Shrink.{
  without_line, still_fails, shrink_pass, shrink_loop, shrink_lines, shrink_source,
}

-- A list that keeps some elements of another, in their order.
pub data Sublist {ℓ} {A : Type ℓ} : List A → List A → Type ℓ where
  none_left : Sublist [] []
  dropped : (x : A) {xs ys : List A} → Sublist xs ys → Sublist xs (x ∷ ys)
  kept : (x : A) {xs ys : List A} → Sublist xs ys → Sublist (x ∷ xs) (x ∷ ys)

Sublist_refl {ℓ} : {A : Type ℓ} (xs : List A) → Sublist xs xs
Sublist_refl [] = none_left
Sublist_refl (x ∷ xs) = kept x (Sublist_refl xs)

Sublist_trans {ℓ} : {A : Type ℓ} {xs ys zs : List A} → Sublist xs ys → Sublist ys zs → Sublist xs zs
Sublist_trans p none_left = p
Sublist_trans p (dropped z q) = dropped z (Sublist_trans p q)
Sublist_trans (dropped x p) (kept _ q) = dropped x (Sublist_trans p q)
Sublist_trans (kept x p) (kept _ q) = kept x (Sublist_trans p q)

Sublist-without_line : (ls : List String) (i : ℕ) → Sublist (without_line ls i) ls
unfolding without_line
Sublist-without_line [] i = none_left
Sublist-without_line (l ∷ ls) zero = dropped l (Sublist_refl ls)
Sublist-without_line (l ∷ ls) (suc i) = kept l (Sublist-without_line ls i)

length-without_line :
    (ls : List String) (i : ℕ) → i < length ls → length (without_line ls i) + 1 ≡ length ls
unfolding without_line
length-without_line [] i h = absurd (omega arith)
length-without_line (l ∷ ls) zero h = omega arith
length-without_line (l ∷ ls) (suc i) h = omega (arith, length-without_line ls i (omega arith))

module _ (oracle : String → Option String) (finding_signature : String → String)
    (signature : String) where
  abbrev fails : List String → Bool
  fails = still_fails oracle finding_signature signature

  abbrev pass : ℕ → ℕ → List String → Bool → List String × Bool
  pass = shrink_pass oracle finding_signature signature

  -- No line from `i` on can be taken out.
  abbrev Stuck : ℕ → List String → Type 0
  Stuck i ls = (j : ℕ) → i ≤ j → j < length ls → fails (without_line ls j) ≡ false

  -- Minimal: it fails, and without any one line it does not.
  abbrev pub Minimal : List String → Type 0
  Minimal ls =
      (still_fails oracle finding_signature signature ls ≡ true)
      × ((j : ℕ)
          → j < length ls
          → still_fails oracle finding_signature signature (without_line ls j) ≡ false)

  pass-kept :
      (left i : ℕ) (ls : List String) (c : Bool)
      → fails ls ≡ true
      → (fails (pass left i ls c).0 ≡ true) × Sublist (pass left i ls c).0 ls
  unfolding shrink_pass
  pass-kept zero i ls c h = (h, Sublist_refl ls)
  pass-kept (suc left) i ls c h = elim (Bool-cases (fails (without_line ls i))) [
    | inl e ↦
        let (f, s) = pass-kept left i (without_line ls i) true e in
        rw (e, shrink_pass) (f, Sublist_trans s (Sublist-without_line ls i))
    | inr e ↦ rw (e, shrink_pass) (pass-kept left (i + 1) ls c h)
  ]

  Stuck-here :
      (i : ℕ) (ls : List String) → fails (without_line ls i) ≡ false → Stuck (i + 1) ls → Stuck i ls
  Stuck-here i ls e q j l u = elim (Bool-cases (j == i)) [
    | inl same ↦ rw ((==_iff j i).0 same) e
    | inr other ↦ q j (ground arith) u
  ]

  -- A pass that changed something says so and is shorter; else it found every line needed.
  pass-cases :
      (left i : ℕ) (ls : List String) (c : Bool)
      → i + left ≡ length ls
      → (length (pass left i ls c).0 ≤ length ls)
        × ((pass left i ls c).1 ≡ true → c ≡ false → length (pass left i ls c).0 < length ls)
        × ((pass left i ls c).1 ≡ false → ((pass left i ls c).0 ≡ ls) × Stuck i ls × (c ≡ false))
  unfolding shrink_pass
  pass-cases zero i ls c n = (
    omega arith,
    (λ t f. absurd (ground arith)),
    (λ f. (refl, (λ j l u. absurd (omega arith)), f)),
  )
  pass-cases (suc left) i ls c n = elim (Bool-cases (fails (without_line ls i))) [
    | inl e ↦
        let len = length-without_line ls i (omega arith) in
        let (a, b, d) = pass-cases left i (without_line ls i) true (omega (arith, len)) in
        rw (e, shrink_pass)
          (
            omega (arith, len, a),
            (λ t f. omega (arith, len, a)),
            (λ f. absurd (ground (arith, (d f).2))),
          )
    | inr e ↦
        let (a, b, d) = pass-cases left (i + 1) ls c (omega arith) in
        rw (e, shrink_pass) (a, b, (λ f. let (p, q, r) = d f in (p, Stuck-here i ls e q, r)))
  ]

  shrink_loop-Minimal :
      (fuel : ℕ) (ls : List String)
      → length ls < fuel
      → fails ls ≡ true
      → (r : List String) × (shrink_loop oracle finding_signature signature fuel ls ≡ some r)
        × Minimal r
        × Sublist r ls
  unfolding shrink_loop
  shrink_loop-Minimal zero ls n h = absurd (omega arith)
  shrink_loop-Minimal (suc fuel) ls n h =
      let (f, s) = pass-kept (length ls) 0 ls false h in
      let (a, b, d) = pass-cases (length ls) 0 ls false (omega arith) in
      elim (Bool-cases (pass (length ls) 0 ls false).1) [
        | inl e ↦
            let (r, p, m, t) =
              shrink_loop-Minimal fuel (pass (length ls) 0 ls false).0 (omega (arith, b e refl))
                f in
            (r, rw e p, m, Sublist_trans t s)
        | inr e ↦
            let (same, stuck, c) = d e in
            (ls, rw (e, same), (h, (λ j u. stuck j (omega arith) u)), Sublist_refl ls)
      ]

  still_fails-split :
      (source finding : String)
      → oracle source ≡ some finding
      → finding_signature finding ≡ signature
      → fails (split b'\n' source) ≡ true
  unfolding still_fails
  still_fails-split source finding o sig =
      let whole : join "\n" (split b'\n' source) ≡ source = join-split "\n" source in
      rw (still_fails, whole, o) ((same_text_iff (finding_signature finding) signature).1 sig)

  -- For an oracle that has a finding of the signature on a source, the reduction ends with lines of the
  -- source in their order, joined, on which the oracle still has a finding of the signature, and on
  -- which it has none where any one more line is taken out.
  pub shrink_source-Minimal :
      (source finding : String)
      → oracle source ≡ some finding
      → finding_signature finding ≡ signature
      → (r : List String) × (shrink_source oracle finding_signature signature source
          ≡ some (join "\n" r))
        × Minimal r
        × Sublist r (split b'\n' source)
  unfolding shrink_source shrink_lines
  shrink_source-Minimal source finding o sig =
      let lines = split b'\n' source in
      let start = still_fails-split source finding o sig in
      let (r, p, m, t) = shrink_loop-Minimal (suc (length lines)) lines (omega arith) start in
      (r, rw (shrink_source, p), m, t)
