-- ===== src/Fuzz/Facts/Reach.antt =====
-- When `_check_checked_facts_reach_ir` of tools/fuzz/mcfuzz.py has no complaint.
use modern_c.Prelude.{
  ◌≡◌, refl, sym, ◌∙◌, ◌↔◌, String, true, false, List, [], ◌∷◌, none, All, Bool-cases, ◌⊎◌, inl,
  inr,
}
use modern_c.Fuzz.Result.{◌>>=◌, bind-inr, Gives, Gives-step, Gives-pure, inr-Gives}
use modern_c.Fuzz.Keys.{splitlines}
use modern_c.Fuzz.Edges.{
  Key, Edges, Complaint, no_edges, edge_row_missing, edge_row_position, fact_missing, fact_position,
  has_key, row_key, add_edge, function_row, edge_row, is_function_row, is_edge_row, parse_line,
  parse_lines, parse_trap_edges,
}
use modern_c.Fuzz.Facts.{
  is_trap_fact, fact_lines, facts_in, compare_facts, checked_fact_traps,
  check_checked_facts_reach_ir,
}
use modern_c.Fuzz.Facts.Rows.{IsIn, has_key_iff, HasKey, row_key_iff}

-- A line is a trap-edge row for an edge.
abbrev pub IsEdge : String → String → Key → Type 0
IsEdge prefix line k =
    (is_function_row prefix line ≡ false) × (is_edge_row prefix line ≡ true) × HasKey line "kind" k

-- Some of the lines is.
abbrev pub SomeEdge : String → List String → Key → Type 0
SomeEdge prefix [] k = ⊥
SomeEdge prefix (line ∷ lines) k = IsEdge prefix line k ⊎ SomeEdge prefix lines k

function_row-keys :
    (line : String) (e : Edges) → Gives (λ e'. e.edge_keys ≡ e'.edge_keys) (function_row line e)
unfolding function_row
function_row-keys line e =
    let Q = λ (e' : Edges). e.edge_keys ≡ e'.edge_keys in
    Gives-step Q _ _ (λ name e1.
      Gives-step Q _ _ (λ count e2. Gives-step Q _ _ (λ n e3. Gives-pure Complaint Q _ refl)))

edge_row-keys :
    (prefix line : String) (e e' : Edges) (k : Key)
    → is_function_row prefix line ≡ false
    → is_edge_row prefix line ≡ true
    → edge_row line e ≡ inr e'
    → IsIn k e'.edge_keys ↔ (IsEdge prefix line k ⊎ IsIn k e.edge_keys)
unfolding edge_row
edge_row-keys prefix line e e' k f g h =
    let missing = edge_row_missing line in
    let bad = edge_row_position line in
    let (j, e1, e2) =
      bind-inr {r = row_key line "kind" missing bad} {f = λ (x : Key). inr (add_edge x e)} h in
    let same : add_edge j e ≡ e' = cc in
    rw (← same) (
      λ there. elim there [
        | inl here ↦ inl (f, g, rw here ((row_key_iff line "kind" missing bad j).0 e1))
        | inr before ↦ inr before
      ],
      λ w. elim w [
        | inl (x, y, has) ↦
            let again = (row_key_iff line "kind" missing bad k).1 has in
            let here : k ≡ j = cc in inl here
        | inr before ↦ inr before
      ],
    )

module _ (prefix : String) where
  parse_line-keys :
      (line : String) (e e' : Edges) (k : Key)
      → parse_line prefix line e ≡ inr e'
      → IsIn k e'.edge_keys ↔ (IsEdge prefix line k ⊎ IsIn k e.edge_keys)
  unfolding parse_line
  parse_line-keys line e e' k h = elim (Bool-cases (is_function_row prefix line)) [
    | inl f ↦
        let row = rw (f, parse_line) at h in
        let same : e.edge_keys ≡ e'.edge_keys =
          inr-Gives _ (function_row line e) e' row (function_row-keys line e) in
        rw (← same)
          (λ there. inr there, λ w. elim w [ inl (x, y, z) ↦ absurd cc | inr there ↦ there ])
    | inr f ↦ elim (Bool-cases (is_edge_row prefix line)) [
      | inl g ↦ edge_row-keys prefix line e e' k f g (rw (f, g, parse_line) at h)
      | inr g ↦
          let found = rw (f, g, parse_line) at h in
          let same : e ≡ e' = cc in
          rw (← same)
            (λ there. inr there, λ w. elim w [ inl (x, y, z) ↦ absurd cc | inr there ↦ there ])
    ]
  ]

  parse_lines-keys :
      (lines : List String) (e e' : Edges) (k : Key)
      → parse_lines prefix lines e ≡ inr e'
      → IsIn k e'.edge_keys ↔ (SomeEdge prefix lines k ⊎ IsIn k e.edge_keys)
  unfolding parse_lines
  parse_lines-keys [] e e' k h =
      let same : e ≡ e' = cc in
      rw (← same) (λ there. inr there, λ w. elim w [ inl never ↦ absurd never | inr there ↦ there ])
  parse_lines-keys (line ∷ lines) e e' k h =
      let (mid, e1, e2) =
        bind-inr {r = parse_line prefix line e} {f = parse_lines prefix lines} h in
      let (to, from) = parse_line-keys line e mid k e1 in
      let (to', from') = parse_lines-keys lines mid e' k e2 in
      (
        λ there. elim (to' there) [
          | inl later ↦ inl (inr later)
          | inr there' ↦ elim (to there') [ inl here ↦ inl (inl here) | inr before ↦ inr before ]
        ],
        λ w. elim w [
          | inl (inl here) ↦ from' (inr (from (inl here)))
          | inl (inr later) ↦ from' (inl later)
          | inr before ↦ from' (inr (from (inr before)))
        ],
      )

-- The trap edges of a text that parses are those of its rows.
parse_trap_edges-keys :
    (prefix text : String) (e : Edges) (k : Key)
    → parse_trap_edges prefix text ≡ inr e
    → IsIn k e.edge_keys ↔ SomeEdge prefix (splitlines text) k
unfolding parse_trap_edges
parse_trap_edges-keys prefix text e k h =
    let (to, from) = parse_lines-keys prefix (splitlines text) no_edges e k h in
    (
      λ there. elim (to there) [ inl some_row ↦ some_row | inr never ↦ absurd never ],
      λ some_row. from (inl some_row),
    )

-- A fact names its function, its trap, its line and its column, and the IR has that trap edge.
pub record Reached (ir_text line : String) : Type 0 where
  pub key : Key
  pub fact : HasKey line "trap" key
  pub edge : SomeEdge "ir" (splitlines ir_text) key

abbrev pub AllReached : String → List String → Type 0
AllReached ir_text lines = All (λ line. is_trap_fact line ≡ true → Reached ir_text line) lines

facts_in_iff : (ks edges : List Key) → (facts_in ks edges ≡ none) ↔ All (λ k. IsIn k edges) ks
unfolding facts_in
facts_in_iff [] edges = (λ h. tt, λ h. refl)
facts_in_iff (k ∷ ks) edges = elim (Bool-cases (has_key k edges)) [
  | inl e ↦
      rw (e, facts_in)
        (
          λ h. ((has_key_iff k edges).0 e, (facts_in_iff ks edges).0 h),
          λ (there, others). (facts_in_iff ks edges).1 others,
        )
  | inr e ↦
      rw (e, facts_in)
        (λ h. absurd cc, λ (there, others). let never = (has_key_iff k edges).1 there in absurd cc)
]

module _ (ir_text : String) (edges : List Key)
    (known : (k : Key) → IsIn k edges ↔ SomeEdge "ir" (splitlines ir_text) k) where
  fact_lines-Reached :
      (lines : List String) (ks : List Key)
      → fact_lines lines ≡ inr ks
      → All (λ k. IsIn k edges) ks
      → AllReached ir_text lines
  unfolding fact_lines
  fact_lines-Reached [] ks e h = tt
  fact_lines-Reached (line ∷ lines) ks e h = elim (Bool-cases (is_trap_fact line)) [
    | inr f ↦
        let rest = rw (f, fact_lines) at e in
        (λ t. let never : true ≡ false = sym t ∙ f in absurd cc, fact_lines-Reached lines ks rest h)
    | inl f ↦
        let chain = rw (f, fact_lines) at e in
        let missing = fact_missing line in
        let bad = fact_position line in
        let (k, e1, f1) =
          bind-inr {r = row_key line "trap" missing bad}
            {f = λ (k : Key). fact_lines lines >>= (λ (more : List Key). inr (k ∷ more))} chain in
        let (more, e2, e3) =
          bind-inr {r = fact_lines lines} {f = λ (more : List Key). inr (k ∷ more)} f1 in
        let same : ks ≡ k ∷ more = cc in
        let (here, others) = rw (same) at h in
        (
          λ t. record {
            key = k;
            fact = (row_key_iff line "trap" missing bad k).0 e1;
            edge = (known k).0 here;
          },
          fact_lines-Reached lines more e2 others,
        )
  ]

  Reached-fact_lines :
      (lines : List String)
      → AllReached ir_text lines
      → (ks : List Key) × (fact_lines lines ≡ inr ks) × All (λ k. IsIn k edges) ks
  unfolding fact_lines ◌>>=◌
  Reached-fact_lines [] h = ([], refl, tt)
  Reached-fact_lines (line ∷ lines) (first, others) =
      let (ks, e, all) = Reached-fact_lines lines others in
      elim (Bool-cases (is_trap_fact line)) [
        | inr f ↦ (ks, rw (f, fact_lines) e, all)
        | inl f ↦
            let r = first f in
            (
              r.key ∷ ks,
              rw
                  (
                    f,
                    fact_lines,
                    (row_key_iff line "trap" (fact_missing line) (fact_position line) r.key).1
                        r.fact,
                    ◌>>=◌,
                    e,
                  )
                  refl,
              ((known r.key).1 r.edge, all),
            )
      ]

compare_facts-none :
    (f : Complaint ⊎ List Key) (r : Complaint ⊎ Edges)
    → compare_facts f r ≡ none
    → (ks : List Key) × (e : Edges) × (f ≡ inr ks) × (r ≡ inr e) × (facts_in ks e.edge_keys ≡ none)
unfolding compare_facts
compare_facts-none (inl c) r h = absurd cc
compare_facts-none (inr ks) (inl c) h = absurd cc
compare_facts-none (inr ks) (inr e) h = (ks, e, refl, refl, h)

-- The check of the facts against the IR has no complaint if and only if the IR parses, and each line of
-- the facts that starts with one of the two names of checked traps has a function, a trap, a line and a
-- column, and some trap-edge row of the IR has the same function, that trap as its kind, and the same
-- line and column.
pub check_checked_facts_reach_ir_iff :
    (facts_text ir_text : String)
    → (check_checked_facts_reach_ir facts_text ir_text ≡ none) ↔ (
        (e : Edges) × (parse_trap_edges "ir" ir_text ≡ inr e)
        × AllReached ir_text (splitlines facts_text))
unfolding check_checked_facts_reach_ir checked_fact_traps compare_facts
check_checked_facts_reach_ir_iff facts_text ir_text = (
  λ h.
      let (ks, e, e1, e2, e3) =
        compare_facts-none (checked_fact_traps facts_text) (parse_trap_edges "ir" ir_text) h in
      let known = λ (k : Key). parse_trap_edges-keys "ir" ir_text e k e2 in
      (
        e,
        e2,
        fact_lines-Reached ir_text e.edge_keys known (splitlines facts_text) ks e1
            ((facts_in_iff ks e.edge_keys).0 e3),
      ),
  λ (e, parsed, all).
      let known = λ (k : Key). parse_trap_edges-keys "ir" ir_text e k parsed in
      let (ks, found, there) =
        Reached-fact_lines ir_text e.edge_keys known (splitlines facts_text) all in
      rw (found, parsed, compare_facts) ((facts_in_iff ks e.edge_keys).1 there),
)
