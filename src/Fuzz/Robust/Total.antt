-- ===== src/Fuzz/Robust/Total.antt =====
-- The inputs of `oracle_robust` in tools/fuzz/mcfuzz.py: the draws never raise, and the data are bytes.
use Prim.Native.Nat.{bit_xor}
use modern_c.Prelude.{
  some_not_none, ℕ, zero, suc, ◌+◌, ◌^◌, ◌%◌, ◌<◌, ◌≤◌, ◌≡◌, refl, String, false, ◌↔◌, List, [],
  ◌∷◌, Option, none, some, arith, length, get_elem?, All, inl, inr, Option-cases,
}
use modern_c.Prelude.Bits.{bit_xor-lt, two-pow_mono}
use modern_c.Ref.Random.{Rng, lift, randrange}
use modern_c.Ref.Random.Rules.{Ensures, Draws, Draws-pure, Draws-bind, Draws-randrange}
use modern_c.Fuzz.Numbers.{pos, negsuc}
use modern_c.Fuzz.Artifacts.{Process}
use modern_c.Fuzz.Robust.Changed.{Mutated, mutate-Mutated}
use modern_c.Fuzz.Robust.{
  encode, change_at, delete_at, insert_at, cut_at, mutate_at, refill, mutate_times, mutate,
  hostile_cases, hostile_frontend_case, is_leak, Crash, check_no_crash, judge_inputs, oracle_robust,
}

abbrev pub IsByte : ℕ → Type 0
IsByte n = n < 256

change_at-IsByte :
    (f : ℕ → ℕ) (i : ℕ) (b : List ℕ)
    → ((x : ℕ) → IsByte x → IsByte (f x))
    → All IsByte b
    → All IsByte (change_at f i b)
unfolding change_at
change_at-IsByte f i [] h hs = tt
change_at-IsByte f zero (x ∷ xs) h hs = (h x hs.0, hs.1)
change_at-IsByte f (suc i) (x ∷ xs) h hs = (hs.0, change_at-IsByte f i xs h hs.1)

delete_at-IsByte : (i : ℕ) (b : List ℕ) → All IsByte b → All IsByte (delete_at i b)
unfolding delete_at
delete_at-IsByte i [] hs = tt
delete_at-IsByte zero (x ∷ xs) hs = hs.1
delete_at-IsByte (suc i) (x ∷ xs) hs = (hs.0, delete_at-IsByte i xs hs.1)

insert_at-IsByte : (i v : ℕ) (b : List ℕ) → IsByte v → All IsByte b → All IsByte (insert_at i v b)
unfolding insert_at
insert_at-IsByte zero v b h hs = (h, hs)
insert_at-IsByte (suc i) v [] h hs = (h, tt)
insert_at-IsByte (suc i) v (x ∷ xs) h hs = (hs.0, insert_at-IsByte i v xs h hs.1)

cut_at-IsByte : (i : ℕ) (b : List ℕ) → All IsByte b → All IsByte (cut_at i b)
unfolding cut_at
cut_at-IsByte zero b hs = tt
cut_at-IsByte (suc i) [] hs = tt
cut_at-IsByte (suc i) (x ∷ xs) hs = (hs.0, cut_at-IsByte i xs hs.1)

-- An index in range finds a byte.
lift-get_elem? :
    {A : Type 0} (P : A → Type 0) (i : ℕ) (xs : List A)
    → i < length xs
    → All P xs
    → Draws P (lift (get_elem? xs i))
lift-get_elem? P i [] h hs = elim h [ ]
lift-get_elem? P zero (x ∷ xs) h hs = Draws-pure P x hs.0
lift-get_elem? P (suc i) (x ∷ xs) h hs = lift-get_elem? P i xs (omega (arith, h)) hs.1

flip-IsByte : (k x : ℕ) → k < 8 → IsByte x → IsByte (bit_xor x (2 ^ k))
flip-IsByte k x h hx =
    bit_xor-lt 8 x (2 ^ k) hx (omega (arith, two-pow_mono k 7 (omega (arith, h))))

mutate_at-IsByte :
    (kind i : ℕ) (b : List ℕ)
    → i < length b
    → All IsByte b
    → Draws (All IsByte) (mutate_at kind i b)
unfolding mutate_at
mutate_at-IsByte zero i b h hs =
    Draws-bind (λ k. (0 ≤ k) × (k < 8)) (All IsByte) (randrange 0 8) _
      (Draws-randrange 0 8 (omega arith))
      (λ k hk.
        Draws-pure (All IsByte) _
          (change_at-IsByte (λ x. bit_xor x (2 ^ k)) i b (λ x hx. flip-IsByte k x hk.1 hx) hs))
mutate_at-IsByte (suc zero) i b h hs = Draws-pure (All IsByte) _ (delete_at-IsByte i b hs)
mutate_at-IsByte (suc (suc zero)) i b h hs =
    Draws-bind (λ v. (0 ≤ v) × (v < 256)) (All IsByte) (randrange 0 256) _
      (Draws-randrange 0 256 (omega arith))
      (λ v hv. Draws-pure (All IsByte) _ (insert_at-IsByte i v b hv.1 hs))
mutate_at-IsByte (suc (suc (suc zero))) i b h hs =
    Draws-bind IsByte (All IsByte) (lift (get_elem? b i)) _ (lift-get_elem? IsByte i b h hs)
      (λ v hv. Draws-pure (All IsByte) _ (insert_at-IsByte i v b hv hs))
mutate_at-IsByte (suc (suc (suc (suc n)))) i b h hs =
    Draws-pure (All IsByte) _ (cut_at-IsByte i b hs)

refill-IsByte : (b : List ℕ) → All IsByte b → (0 < length (refill b)) × All IsByte (refill b)
unfolding encode
refill-IsByte [] hs = (omega arith, ground arith)
refill-IsByte (x ∷ xs) hs = (omega arith, hs)

mutate_times-IsByte : (n : ℕ) (b : List ℕ) → All IsByte b → Draws (All IsByte) (mutate_times n b)
unfolding mutate_times
mutate_times-IsByte zero b hs = Draws-pure (All IsByte) b hs
mutate_times-IsByte (suc n) b hs =
    let (filled, bytes) = refill-IsByte b hs in
    Draws-bind (λ k. (0 ≤ k) × (k < 5)) (All IsByte) (randrange 0 5) _
      (Draws-randrange 0 5 (omega arith))
      (λ kind hk.
        Draws-bind (λ i. (0 ≤ i) × (i < length (refill b))) (All IsByte)
          (randrange 0 (length (refill b))) _ (Draws-randrange 0 (length (refill b)) filled)
          (λ i hi.
            Draws-bind (All IsByte) (All IsByte) (mutate_at kind i (refill b)) _
              (mutate_at-IsByte kind i (refill b) hi.1 bytes) (λ c hc. mutate_times-IsByte n c hc)))

mutate-IsByte : (bytes : List ℕ) → All IsByte bytes → Draws (All IsByte) (mutate bytes)
unfolding mutate
mutate-IsByte bytes hs =
    Draws-bind (λ n. (1 ≤ n) × (n < 13)) (All IsByte) (randrange 1 13) _
      (Draws-randrange 1 13 (omega arith)) (λ n hn. mutate_times-IsByte n bytes hs)

-- An index in range finds an element.
get_elem?-some :
    {A : Type 0} (i : ℕ) (xs : List A) → i < length xs → (a : A) × (get_elem? xs i ≡ some a)
get_elem?-some i [] h = elim h [ ]
get_elem?-some zero (x ∷ xs) h = (x, refl)
get_elem?-some (suc i) (x ∷ xs) h = get_elem?-some i xs (omega (arith, h))

-- The case of a seed, at a depth and a width that may be drawn.
pub record IsHostile (seed : ℕ) (c : String × List ℕ) : Type 0 where
  pub depth : ℕ
  pub width : ℕ
  pub deep : (1024 ≤ depth) × (depth < 1152)
  pub wide : (512 ≤ width) × (width < 640)
  pub chosen : get_elem? (hostile_cases depth width) (seed % 13) ≡ some c

Draws-lift :
    {A : Type 0} (P : A → Type 0) (o : Option A) (a : A) → o ≡ some a → P a → Draws P (lift o)
Draws-lift P o a e h = rw e (Draws-pure P a h)

hostile_frontend_case-IsHostile : (seed : ℕ) → Draws (IsHostile seed) (hostile_frontend_case seed)
unfolding hostile_frontend_case
hostile_frontend_case-IsHostile seed =
    Draws-bind (λ d. (0 ≤ d) × (d < 128)) (IsHostile seed) (randrange 0 128) _
      (Draws-randrange 0 128 (omega arith))
      (λ d hd.
        Draws-bind (λ w. (0 ≤ w) × (w < 128)) (IsHostile seed) (randrange 0 128) _
          (Draws-randrange 0 128 (omega arith))
          (λ w hw.
            let cases = hostile_cases (1024 + d) (512 + w) in
            let thirteen : length cases ≡ 13 = unfold hostile_cases in refl in
            let (c, found) = get_elem?-some (seed % length cases) cases (omega (arith, thirteen)) in
            Draws-lift (IsHostile seed) (get_elem? cases (seed % length cases)) c found (record {
              depth = 1024 + d;
              width = 512 + w;
              deep = omega (arith, hd);
              wide = omega (arith, hw);
              chosen = rw (← thirteen) found;
            })))

-- The compiler came to an end, not by a signal, and its errors show no failure of its own.
pub Survives : Process → Type 0
Survives Process.timeout_expired = ⊥
Survives (Process.completed (negsuc n) out err) = ⊥
Survives (Process.completed (pos n) out err) = is_leak err ≡ false

check_no_crash_iff : (label : String) (p : Process) → (check_no_crash label p ≡ none) ↔ Survives p
unfolding check_no_crash Survives
check_no_crash_iff label Process.timeout_expired = (λ e. absurd cc, λ h. absurd h)
check_no_crash_iff label (Process.completed (negsuc n) out err) = (λ e. absurd cc, λ h. absurd h)
check_no_crash_iff label (Process.completed (pos n) out err) = ground arith

module _ (check : List ℕ → Process) where
  -- What a run of the oracle has tried, and when it has no finding.
  pub record Tried (seed : ℕ) (bytes : List ℕ) (r : Rng) (finding : Option Crash) : Type 0 where
    pub mutated : List ℕ
    pub rest : Rng
    pub drawn : mutate bytes r ≡ some (mutated, rest)
    pub was_mutated : Mutated (1 + r.tape r.at % 12) bytes mutated
    pub hostile : String × List ℕ
    pub are_bytes : All IsByte mutated
    pub is_hostile : IsHostile seed hostile
    pub verdict : (finding ≡ none) ↔ (Survives (check mutated) × Survives (check hostile.1))

  judge_inputs_iff :
      (mutated : List ℕ) (hostile : String × List ℕ)
      → (judge_inputs check mutated hostile ≡ none)
        ↔ (Survives (check mutated) × Survives (check hostile.1))
  unfolding judge_inputs
  judge_inputs_iff mutated (label, hostile) =
      elim (Option-cases (check_no_crash "mutated input" (check mutated))) [
        | inl e ↦
            rw (e, judge_inputs)
              (
                λ h. (
                  (check_no_crash_iff "mutated input" (check mutated)).0 e,
                  (check_no_crash_iff label (check hostile)).0 h,
                ),
                λ (p, q). (check_no_crash_iff label (check hostile)).1 q,
              )
        | inr (c, e) ↦
            rw (e, judge_inputs)
              (
                λ h. absurd cc,
                λ (p, q).
                    absurd
                      (some_not_none e ((check_no_crash_iff "mutated input" (check mutated)).1 p)),
              )
      ]

  -- On the bytes of a program and on every tape, the robustness oracle raises no exception. It tries what
  -- `_mutate` makes of them there: they are changed as often as the first draw says, from one to twelve
  -- times, each time by a flipped bit, a deleted, inserted or doubled byte or an early end, and are bytes
  -- again. It also tries the hostile case of its seed, at a depth from 1024 to 1151 and a width from 512
  -- to 639. It has no finding if and only if the compiler ends on both, not by a signal, and shows no
  -- failure of its own.
  pub oracle_robust-Tried :
      (seed : ℕ) (bytes : List ℕ)
      → All IsByte bytes
      → (r : Rng) → Ensures (Tried seed bytes r) (oracle_robust check seed bytes r)
  unfolding oracle_robust
  oracle_robust-Tried seed bytes h r = elim (Option-cases (mutate bytes r)) [
    | inl e ↦ absurd (rw (e) at (mutate-Mutated bytes r))
    | inr ((mutated, rest), e) ↦
        let steps = rw (e) at (mutate-Mutated bytes r) in
        let still = rw (e) at ((mutate-IsByte bytes h).on r) in
        rw (e, oracle_robust)
          ((Draws-bind (IsHostile seed) (Tried seed bytes r) (hostile_frontend_case seed) _
              (hostile_frontend_case-IsHostile seed)
              (λ hostile hh.
                Draws-pure (Tried seed bytes r) (judge_inputs check mutated hostile) (record {
                  mutated = mutated;
                  rest = rest;
                  drawn = e;
                  was_mutated = steps;
                  hostile = hostile;
                  are_bytes = still;
                  is_hostile = hh;
                  verdict = judge_inputs_iff mutated hostile;
                }))).on
            rest)
  ]
