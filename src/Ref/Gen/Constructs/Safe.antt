-- ===== src/Ref/Gen/Constructs/Safe.antt =====
-- On every tape the layout and switch constructs return, and leave the core program alone.
use modern_c.Prelude.{
  ◌/◌, String, Option-cases, ℕ, zero, suc, ◌+◌, ◌^◌, ◌<◌, ◌≡◌, refl, arith, ◌∙◌, Bool, true, false,
  if◌then◌else◌, List, [], ◌∷◌, ◌++◌, All, is_cons, length, min, inl, inr, ◌⊎◌,
}
use modern_c.Prelude.Bits.{two-pow-pos}
use modern_c.Ref.Random.{Draw, ◌>>=◌, choice}
use modern_c.Ref.Random.Rules.{
  Draws, Draws-pure, Draws-bind, Draws-map, Draws-chance, Draws-choice, Draws-randrange,
}
use modern_c.Ref.Random.Distinct.{NoTwins, Draws-sample_distinct}
use modern_c.Ref.Layout.{new_overlay}
use modern_c.Ref.Gen.State.{RefGen, SameCore}
use modern_c.Ref.Gen.Build.Typed.{Built, Live, build_core-Built}
use modern_c.Ref.Typing.{TopBlock}
use modern_c.Ref.Gen.Offsets.Safe.{gen_offset_structs-SameCore, times-SameCore}
use modern_c.Ref.Gen.Overlays.{gen_overlay, gen_overlays}
use modern_c.Ref.Gen.Switches.Arms.{
  Rising, Rising-NoTwins, first_arm, scalar_exp-eq-first_arm, sort-Rising, length-sort, All-sort,
}
use modern_c.Ref.Gen.Switches.{
  numbered, scalar_lines, gen_scalar_switch, gen_enum_switch, gen_result_switch, sort, range,
}
use modern_c.Ref.Gen.Unions.{UnionCase, gen_union_switch, payload_cases, construct}
use modern_c.Ref.Gen.Constructs.{gen_switch_families, gen_constructs, build}

-- Anything may be drawn; what counts is that something is.
abbrev Any {ℓ} : {A : Type ℓ} → A → Type 0
Any a = Unit

All-Any {ℓ} : {A : Type ℓ} (xs : List A) → All Any xs
All-Any [] = tt
All-Any (x ∷ xs) = (tt, All-Any xs)

is_cons-append {ℓ} : {A : Type ℓ} (xs : List A) (y : A) → is_cons (xs ++ y ∷ []) ≡ true
is_cons-append [] y = refl
is_cons-append (x ∷ xs) y = refl

Draws-Any-choice {ℓ} : {A : Type ℓ} (xs : List A) → is_cons xs ≡ true → Draws Any (choice xs)
Draws-Any-choice xs h = Draws-choice Any xs h (All-Any xs)

gen_overlay-SameCore : (g : RefGen) → Draws (SameCore g) (gen_overlay g)
unfolding gen_overlay new_overlay
gen_overlay-SameCore g =
    Draws-bind (λ w. (w ≡ 32) ⊎ (w ≡ 64)) (SameCore g) _ _
      (Draws-choice _ _ refl (inl refl, (inr refl, tt)))
      λ w hw.
        Draws-bind Any (SameCore g) _ _
          (Draws-map _ Any _ (λ _ _. tt) (Draws-randrange 1 (2 ^ min w 32) (big w hw)))
          λ u _.
            Draws-bind Any (SameCore g) _ _
              (Draws-map _ Any _ (λ _ _. tt) (Draws-randrange 0 (w / 16) (halves w hw)))
              λ i _.
                Draws-bind Any (SameCore g) _ _
                  (Draws-map _ Any _ (λ _ _. tt) (Draws-randrange 1 (2 ^ 16) (omega arith)))
                  λ h _. Draws-pure (SameCore g) _ (refl, refl, refl)
  where
    big : (w : ℕ) → (w ≡ 32) ⊎ (w ≡ 64) → 1 < 2 ^ min w 32
    big w (inl e) = rw e (omega arith)
    big w (inr e) = rw e (omega arith)

    halves : (w : ℕ) → (w ≡ 32) ⊎ (w ≡ 64) → 0 < w / 16
    halves w h = omega arith

gen_overlays-SameCore : (g : RefGen) → Draws (SameCore g) (gen_overlays g)
unfolding gen_overlays
gen_overlays-SameCore g =
    Draws-bind _ (SameCore g) _ _ (Draws-randrange 1 3 (omega arith))
      λ k _. times-SameCore gen_overlay k g gen_overlay-SameCore

-- The integer switch that was added: three rising cases below 8, and the value of their first matching arm.
pub record AddedScalar (g g' : RefGen) : Type 0 where
  pub same : SameCore g g'
  pub out : String
  pub subj : ℕ
  pub cases : List ℕ
  pub three : length cases ≡ 3
  pub small : All (λ c. c < 8) cases
  pub rising : Rising cases
  pub lines : g'.extra_body ≡ g.extra_body ++ scalar_lines (numbered "scsw" g.n) out subj cases
  pub terms : g'.extra_terms ≡ g.extra_terms ++ (out, first_arm subj cases 0 7) ∷ []

-- On every tape the integer switch is added: its three cases rise and are below 8, its lines are the switch over
-- them, the term it adds expects the value of the first arm that matches the subject or 7 where none
-- does, and the core program is as it was.
pub gen_scalar_switch-AddedScalar : (g : RefGen) → Draws (AddedScalar g) (gen_scalar_switch g)
unfolding gen_scalar_switch range
gen_scalar_switch-AddedScalar g =
    Draws-bind _ (AddedScalar g) _ _
      (Draws-sample_distinct (λ c. c < 8) (range 0 8) 3 (omega arith) range_distinct range_small)
      λ drawn (e, nd, few).
        Draws-bind Any (AddedScalar g) _ _
          (Draws-Any-choice (sort drawn ++ 99 ∷ []) (is_cons-append (sort drawn) 99))
          λ subj _. Draws-pure (AddedScalar g) _ (record {
            same = (refl, refl, refl);
            out = numbered "scswr" (g.n + 1);
            subj = subj;
            cases = sort drawn;
            three = length-sort drawn ∙ e;
            small = All-sort (λ c. c < 8) drawn few;
            rising = sort-Rising drawn nd;
            lines = refl;
            terms = rw (
                scalar_exp-eq-first_arm subj (sort drawn) 0 7
                  (Rising-NoTwins (sort drawn) (sort-Rising drawn nd)));
          })
  where
    range_small : All (λ c. c < 8) (range 0 8)
    range_small = unfold range in ground arith

    range_distinct : NoTwins (range 0 8)
    range_distinct = unfold range in ground arith

gen_enum_switch-SameCore : (g : RefGen) → Draws (SameCore g) (gen_enum_switch g)
unfolding gen_enum_switch
gen_enum_switch-SameCore g =
    Draws-bind _ (SameCore g) _ _ (Draws-randrange 2 5 (omega arith)) λ count le.
      Draws-bind _ (SameCore g) _ _ (Draws-randrange 0 count (omega (arith, le)))
        λ pick _. Draws-pure (SameCore g) _ (refl, refl, refl)

gen_result_switch-SameCore : (g : RefGen) → Draws (SameCore g) (gen_result_switch g)
unfolding gen_result_switch
gen_result_switch-SameCore g = Draws-bind _ (SameCore g) _ _ (Draws-chance 50) λ is_ok _.
    Draws-bind _ (SameCore g) _ _ (Draws-randrange 0 (2 ^ 20) (omega arith)) λ okv _.
      Draws-bind _ (SameCore g) _ _ (Draws-randrange 0 (2 ^ 20) (omega arith))
        λ errv _. Draws-pure (SameCore g) _ (refl, refl, refl)

payload_cases-cons : (n j k : ℕ) → Draws (λ cs. 0 < k → is_cons cs ≡ true) (payload_cases n j k)
unfolding payload_cases
payload_cases-cons n j zero = Draws-pure _ [] (λ h. absurd (omega arith))
payload_cases-cons n j (suc k) =
    Draws-bind Any _ _ _ (Draws-Any-choice (8 ∷ 16 ∷ 32 ∷ 64 ∷ []) refl) λ w _.
      Draws-bind _ _ _ _ (payload_cases-cons n (j + 1) k) λ rest _. Draws-pure _ _ (λ _. refl)

construct-total : (c : UnionCase) → Draws Any (construct c)
unfolding construct
construct-total c = elim (Option-cases c.payload) [
  | inl e ↦ rw (e, construct) (Draws-pure Any _ tt)
  | inr (w, e) ↦
      rw (e, construct)
        (Draws-bind Any Any _ _
          (Draws-map _ Any _ (λ _ _. tt)
            (Draws-randrange 0 (2 ^ min w 32) (two-pow-pos (min w 32))))
          λ pv _. Draws-pure Any _ tt)
]

gen_union_switch-SameCore : (g : RefGen) → Draws (SameCore g) (gen_union_switch g)
unfolding gen_union_switch
gen_union_switch-SameCore g =
    Draws-bind _ (SameCore g) _ _ (Draws-randrange 2 4 (omega arith)) λ ncases le.
      Draws-bind _ (SameCore g) _ _ (payload_cases-cons (g.n + 1) 0 ncases) λ cases cons.
        Draws-bind _ (SameCore g) _ _ (Draws-chance 50) λ has_empty _.
          Draws-bind Any (SameCore g) _ _
            (Draws-Any-choice _ (opts_cons _ has_empty cases (cons (omega (arith, le)))))
            λ c _.
              Draws-bind Any (SameCore g) _ _ (construct-total c)
                λ p _. Draws-pure (SameCore g) _ (refl, refl, refl)
  where
    opts_cons :
        {A : Type 0} (x : A) (b : Bool) (xs : List A)
        → is_cons xs ≡ true
        → is_cons (if b then xs ++ x ∷ [] else xs) ≡ true
    opts_cons x true xs h = is_cons-append xs x
    opts_cons x false xs h = h

SameCore-trans : (g g₁ g₂ : RefGen) → SameCore g g₁ → SameCore g₁ g₂ → SameCore g g₂
SameCore-trans g g₁ g₂ (a, b, c) (a', b', c') = (a' ∙ a, b' ∙ b, c' ∙ c)

-- Two steps that keep the core.
then_same :
    (g : RefGen) (m : Draw RefGen) (f : RefGen → Draw RefGen)
    → Draws (SameCore g) m
    → ((g₁ : RefGen) → Draws (SameCore g₁) (f g₁))
    → Draws (SameCore g) (m >>= f)
then_same g m f hm hf =
    Draws-bind _ (SameCore g) m f hm
      λ g₁ s. Draws-map _ (SameCore g) (f g₁) (λ g₂ t. SameCore-trans g g₁ g₂ s t) (hf g₁)

gen_switch_families-SameCore : (g : RefGen) → Draws (SameCore g) (gen_switch_families g)
unfolding gen_switch_families
gen_switch_families-SameCore g =
    then_same g _ _ (Draws-map _ _ _ (λ g₁ a. a.same) (gen_scalar_switch-AddedScalar g)) λ g₁.
      then_same g₁ _ _ (gen_enum_switch-SameCore g₁)
        λ g₂. then_same g₂ _ _ (gen_result_switch-SameCore g₂) gen_union_switch-SameCore

pub gen_constructs-SameCore : (g : RefGen) → Draws (SameCore g) (gen_constructs g)
unfolding gen_constructs
gen_constructs-SameCore g =
    then_same g _ _ (gen_offset_structs-SameCore g)
      λ g₁. then_same g₁ _ _ (gen_overlays-SameCore g₁) gen_switch_families-SameCore

-- The core of a generated program, which the constructs leave as it was built.
pub record BuiltCore (g : RefGen) : Type 0 where
  pub ordered : All (Live g.scope) g.order
  pub typed : TopBlock [] g.stmts g.scope

-- On every tape `build` returns: no empty choice, no missing key, no failed assertion. The program is
-- well typed from the empty scope to the scope of the state, and every folded name is in that scope.
pub build-BuiltCore : Draws BuiltCore build
unfolding build
build-BuiltCore =
    Draws-bind Built BuiltCore _ _ build_core-Built
      λ g h. Draws-map _ BuiltCore _ (λ g' s. kept g g' h s) (gen_constructs-SameCore g)
  where
    kept : (g g' : RefGen) → Built g → SameCore g g' → BuiltCore g'
    kept g g' h (a, b, c) = record { ordered = rw (a, b) h.ordered; typed = rw (a, c) h.typed }
