-- ===== src/Fuzz/Edges/Agree.antt =====
-- What a text that passes `_check_trap_edge_counts` of tools/fuzz/mcfuzz.py says of its functions.
use modern_c.Prelude.{
  ℕ, ◌+◌, ◌<◌, ◌≡◌, refl, ◌∙◌, sym, ap, String, true, List, [], ◌∷◌, Option, none, some,
  Option-cases, Bool-cases, ◌⊎◌, inl, inr, same_text, same_text_iff, arith, ==_iff,
}
use modern_c.Fuzz.Result.{inr-Gives}
use modern_c.Fuzz.Keys.{splitlines}
use modern_c.Fuzz.Rows.{get}
use modern_c.Fuzz.Numbers.{ℤ, pos, negsuc, same_int}
use modern_c.Fuzz.Edges.{
  Complaint, Edges, no_edges, or_zero, parse_lines, parse_trap_edges, known_functions,
  declared_counts, first_of, check_edges, check_trap_edge_counts,
}
use modern_c.Fuzz.Edges.Counts.{edge_rows, parse_lines-count}

same_int-eq : (a b : ℤ) → same_int a b ≡ true → a ≡ b
same_int-eq (pos m) (pos n) h = ap pos ((==_iff m n).0 h)
same_int-eq (negsuc m) (negsuc n) h = ap negsuc ((==_iff m n).0 h)
same_int-eq (pos m) (negsuc n) h = absurd (ground arith)
same_int-eq (negsuc m) (pos n) h = absurd (ground arith)

-- No complaint: every edge has its function.
known_functions-none :
    (es : List (String × ℕ)) (fs : List (String × ℤ)) (fn : String) (m : ℕ)
    → known_functions es fs ≡ none
    → get fn es ≡ some m
    → (n : ℤ) × (get fn fs ≡ some n)
unfolding known_functions get
known_functions-none [] fs fn m h g = absurd cc
known_functions-none ((j, x) ∷ es) fs fn m h g = elim (Option-cases (get j fs)) [
  | inl none_there ↦ absurd (let bad = rw (none_there, known_functions) at h in cc)
  | inr (n, there) ↦ elim (Bool-cases (same_text fn j)) [
    | inl same ↦ (n, rw ((same_text_iff fn j).0 same) there)
    | inr other ↦
        known_functions-none es fs fn m (rw (there, known_functions) at h) (rw (other, get) at g)
  ]
]

-- No complaint: every function declares the number of its edges.
declared_counts-none :
    (fs : List (String × ℤ)) (es : List (String × ℕ)) (fn : String) (n : ℤ)
    → declared_counts fs es ≡ none
    → get fn fs ≡ some n
    → n ≡ pos (or_zero (get fn es))
unfolding declared_counts get
declared_counts-none [] es fn n h g = absurd cc
declared_counts-none ((j, x) ∷ fs) es fn n h g =
    elim (Bool-cases (same_int (pos (or_zero (get j es))) x)) [
      | inr off ↦ absurd (let bad = rw (off, declared_counts) at h in cc)
      | inl ok ↦ elim (Bool-cases (same_text fn j)) [
        | inl same ↦
            let here : some x ≡ some n = rw (same, get) at g in
            let to_n : x ≡ n = cc in
            rw ((same_text_iff fn j).0 same)
              (sym to_n ∙ sym (same_int-eq (pos (or_zero (get j es))) x ok))
        | inr other ↦
            declared_counts-none fs es fn n (rw (ok, declared_counts) at h) (rw (other, get) at g)
      ]
    ]

-- Every declared function declares the number of its rows, and every row names a declared function.
pub record Agree (prefix text : String) (e : Edges) : Type 0 where
  pub parsed : parse_trap_edges prefix text ≡ inr e
  pub declared :
      (fn : String) (n : ℤ)
      → get fn e.functions ≡ some n
      → n ≡ pos (edge_rows prefix fn (splitlines text))
  pub known :
      (fn : String)
      → 0 < edge_rows prefix fn (splitlines text)
      → (n : ℤ) × (get fn e.functions ≡ some n)

parse_trap_edges-count :
    (prefix text fn : String) (e : Edges)
    → parse_trap_edges prefix text ≡ inr e
    → or_zero (get fn e.edges) ≡ edge_rows prefix fn (splitlines text)
unfolding parse_trap_edges get
parse_trap_edges-count prefix text fn e h =
    let rows : or_zero (get fn e.edges) ≡ 0 + edge_rows prefix fn (splitlines text) =
      inr-Gives _ (parse_lines prefix (splitlines text) no_edges) e h
        (parse_lines-count prefix fn (splitlines text) no_edges) in
    omega (arith, rows)

first_of-none : (a b : Option Complaint) → first_of a b ≡ none → (a ≡ none) × (b ≡ none)
first_of-none none b h = (refl, h)
first_of-none (some c) b h = absurd cc

some_of_pos : (o : Option ℕ) → 0 < or_zero o → (m : ℕ) × (o ≡ some m)
some_of_pos none h = absurd (omega arith)
some_of_pos (some m) h = (m, refl)

check_edges-Agree :
    (prefix text : String) (r : Complaint ⊎ Edges)
    → parse_trap_edges prefix text ≡ r
    → check_edges r ≡ none
    → (e : Edges) × Agree prefix text e
unfolding check_edges
check_edges-Agree prefix text (inl c) p h = absurd cc
check_edges-Agree prefix text (inr e) p h =
    let (known, counts) =
      first_of-none (known_functions e.edges e.functions) (declared_counts e.functions e.edges) h in
    (
      e,
      record {
        parsed = p;
        declared = λ fn n g.
            declared_counts-none e.functions e.edges fn n counts g
            ∙ ap pos (parse_trap_edges-count prefix text fn e p);
        known = λ fn lt.
            let rows = parse_trap_edges-count prefix text fn e p in
            let (m, g) = some_of_pos (get fn e.edges) (omega (arith, rows)) in
            known_functions-none e.edges e.functions fn m known g;
      },
    )

-- A text that is checked without a complaint parses; each function of the parse declares, in the last
-- row of its name, as many trap edges as the text has trap-edge rows of it; and each function with a
-- trap-edge row is declared.
pub check_trap_edge_counts-Agree :
    (text prefix : String)
    → check_trap_edge_counts text prefix ≡ none
    → (e : Edges) × Agree prefix text e
unfolding check_trap_edge_counts
check_trap_edge_counts-Agree text prefix h =
    check_edges-Agree prefix text (parse_trap_edges prefix text) refl h
