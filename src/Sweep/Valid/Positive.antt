-- ===== src/Sweep/Valid/Positive.antt =====
-- What `strip_expect_error` and `valid_program` of tools/toolchain/spec_sweep_lib.py leave of a fixture.
use Prim.Native.String as Texts
use text.Mathlib.TextLemmas.{nil-append}
use modern_c.Prelude.{
  ◌≡◌, refl, sym, ap, ap₂, ◌∙◌, String, Bool, true, false, inl, inr, List, [], ◌∷◌, map, some,
  arith, All, cat, strip, Bool-cases, ℕ,
}
use modern_c.Sweep.Chunks.{split_top_level}
use modern_c.Sweep.Chunks.Lossless.{split_top_level-Covers}
use modern_c.Sweep.Names.{declared_names, referenced_names}
use modern_c.Sweep.Keep.{
  is_rejected_chunk, available_names, missing_from, missing_names, first_flags,
}
use modern_c.Sweep.Keep.Stable.{Below, Below-antisym, allowed}
use modern_c.Sweep.Keep.Greatest.{
  Below-refl, Below-trans, shares-nil, allowed-first_flags, stable_flags, IsGreatest,
  keep_flags-IsGreatest,
}
use modern_c.Sweep.Valid.{
  selected, extern_prototype, normalize_valid_chunk, source_flags, strip_expect_error, normalized,
  valid_program,
}
use modern_c.Sweep.Valid.Prototype.{Apart}
use modern_c.Sweep.Valid.Extern.{IsNormal, extern_prototype-IsNormal}

abbrev pub IsAccepted : String → Type 0
IsAccepted chunk = is_rejected_chunk chunk ≡ false

Below-eq : {ks js : List Bool} → ks ≡ js → Below ks js
Below-eq {ks} e = rw (← e) (Below-refl ks)

module _ (declared referenced : String → List String) where
  greatest-first_flags :
      (chunks : List String) (keep : List Bool)
      → IsGreatest declared referenced chunks keep
      → Below keep (first_flags chunks)
  unfolding stable_flags
  greatest-first_flags chunks keep g =
      Below-trans keep (stable_flags declared referenced chunks keep) (first_flags chunks)
        (Below-eq g.stable)
        (allowed-first_flags referenced (missing_names declared chunks keep) chunks)

  missing_from-accepted :
      (available chunks : List String)
      → All IsAccepted chunks
      → missing_from declared available chunks (first_flags chunks) ≡ []
  unfolding missing_from first_flags
  missing_from-accepted available [] h = refl
  missing_from-accepted available (ch ∷ chunks) (h, hs) =
      rw h (missing_from-accepted available chunks hs)

  allowed-nil : (chunks : List String) → allowed referenced [] chunks ≡ first_flags chunks
  unfolding allowed first_flags
  allowed-nil [] = refl
  allowed-nil (ch ∷ chunks) =
      ap₂ ◌∷◌ (ground (arith, shares-nil (referenced ch))) (allowed-nil chunks)

  accepted-keep :
      (chunks : List String) (keep : List Bool)
      → All IsAccepted chunks
      → IsGreatest declared referenced chunks keep
      → keep ≡ first_flags chunks
  unfolding stable_flags missing_names
  accepted-keep chunks keep h g =
      let nothing =
        missing_from-accepted (available_names declared chunks (first_flags chunks)) chunks h in
      Below-antisym keep (first_flags chunks) (greatest-first_flags chunks keep g)
        (g.greatest (first_flags chunks) (Below-eq (sym (rw nothing (allowed-nil chunks)))))

selected-accepted :
    (chunks : List String) → All IsAccepted chunks → selected chunks (first_flags chunks) ≡ chunks
unfolding selected first_flags
selected-accepted [] h = refl
selected-accepted (ch ∷ chunks) (h, hs) = rw h (ap (◌∷◌ ch) (selected-accepted chunks hs))

module _ (is_word : ℕ → Bool) where
  normalized-selected :
      (chunks : List String) (keep : List Bool)
      → Below keep (first_flags chunks)
      → cat (normalized is_word chunks keep)
        ≡ cat (map (extern_prototype is_word) (selected chunks keep))
  unfolding normalized selected normalize_valid_chunk first_flags cat
  normalized-selected [] [] h = refl
  normalized-selected [] (k ∷ keep) h = absurd h
  normalized-selected (ch ∷ chunks) [] h = absurd h
  normalized-selected (ch ∷ chunks) (false ∷ keep) (h, hs) =
      nil-append (cat (normalized is_word chunks keep)) ∙ normalized-selected chunks keep hs
  normalized-selected (ch ∷ chunks) (true ∷ keep) (h, hs) =
      elim (Bool-cases (is_rejected_chunk ch)) [
        | inl e ↦ absurd (ground (arith, h refl, e))
        | inr e ↦
            rw (e, normalize_valid_chunk)
              (ap (λ (t : String). Texts.◌++◌ (extern_prototype is_word ch) t)
                (normalized-selected chunks keep hs))
      ]

  All-IsNormal :
      Apart is_word
      → (chunks : List String)
      → All (λ chunk. IsNormal is_word chunk (extern_prototype is_word chunk)) chunks
  All-IsNormal a [] = tt
  All-IsNormal a (ch ∷ chunks) = (extern_prototype-IsNormal is_word ch a, All-IsNormal a chunks)

  -- Both ways to strip a fixture end, and keep the same chunks, which the greatest flags of
  -- `_keep_flags` choose. `strip_expect_error` leaves them as they are. `valid_program` joins one text
  -- for each: in a kept chunk that ends with `;`, blanks aside, and has a line that starts like a
  -- prototype, the `fn` that begins one of its lines and the white space behind it become `extern fn `;
  -- any other chunk is left as it is. The test for a character of a word must hold of no white space and
  -- not of an opening parenthesis.
  pub valid_program-selected :
      Apart is_word
      → (src : String)
      → (keep : List Bool) × (IsGreatest
          (declared_names is_word)
          (referenced_names is_word)
          (split_top_level src)
          keep)
        × (strip_expect_error is_word src ≡ some (cat (selected (split_top_level src) keep)))
        × (valid_program is_word src
            ≡ some (cat (map (extern_prototype is_word) (selected (split_top_level src) keep))))
        × All
            (λ chunk. IsNormal is_word chunk (extern_prototype is_word chunk))
            (selected (split_top_level src) keep)
  unfolding strip_expect_error valid_program source_flags
  valid_program-selected a src =
      let (keep, e, g) =
        keep_flags-IsGreatest (declared_names is_word) (referenced_names is_word)
          (split_top_level src) in
      (
        keep,
        g,
        rw e refl,
        rw e (
            ap some (
              normalized-selected (split_top_level src) keep (
                greatest-first_flags (declared_names is_word) (referenced_names is_word)
                  (split_top_level src) keep g))),
        All-IsNormal a (selected (split_top_level src) keep),
      )

  -- A fixture whose chunks hold none of the two markers is left as it is, up to blanks at its end.
  strip_expect_error-positive :
      (src : String)
      → All IsAccepted (split_top_level src)
      → (out rest : String) × (strip_expect_error is_word src ≡ some out)
        × (strip rest ≡ "")
        × (Texts.◌++◌ out rest ≡ src)
  unfolding strip_expect_error source_flags
  strip_expect_error-positive src h =
      let chunks = split_top_level src in
      let (keep, e, g) =
        keep_flags-IsGreatest (declared_names is_word) (referenced_names is_word) chunks in
      let covers = split_top_level-Covers src in
      let same =
        accepted-keep (declared_names is_word) (referenced_names is_word) chunks keep h g in
      (
        cat chunks,
        covers.rest,
        rw (e, same) (ap some (ap cat (selected-accepted chunks h))),
        covers.blank,
        covers.joined,
      )
