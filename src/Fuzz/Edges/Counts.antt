-- ===== src/Fuzz/Edges/Counts.antt =====
-- What a text that passes `_check_trap_edge_counts` of tools/fuzz/mcfuzz.py says: every function
-- declares as many trap edges as there are rows of its name.
use modern_c.Prelude.{
  ℕ, suc, ◌+◌, ◌≡◌, refl, String, Bool, false, ◌&&◌, not, List, [], ◌∷◌, Option, none, some,
  Bool-cases, inl, inr, same_text, same_text_iff, arith, if◌then◌else◌,
}
use modern_c.Fuzz.Result.{Gives, Gives-bind, Gives-need, Gives-map, Gives-pure}
use modern_c.Fuzz.Rows.{get, get-put, parse_kv}
use modern_c.Fuzz.Edges.{
  Key, Complaint, Edges, or_zero, row_key, function_row, is_function_row, is_edge_row,
  edge_row_missing, edge_row_position, add_edge, non_empty, parse_line, parse_lines,
}

-- The function that a trap-edge row names.
abbrev pub edge_fn : String → Option String
edge_fn line = get "fn" (parse_kv line)

abbrev names : String → Option String → Bool
names fn none = false
names fn (some g) = same_text fn g

non_empty-some : (o : Option String) (s : String) → non_empty o ≡ some s → o ≡ some s
non_empty-some none s h = cc
non_empty-some (some t) s h = ground arith

module _ (prefix fn : String) where
  -- A row of a trap edge of the function.
  abbrev pub is_edge_of : String → Bool
  is_edge_of line =
      not (is_function_row prefix line) && is_edge_row prefix line && names fn (edge_fn line)

  -- How many of the lines are trap-edge rows of the function.
  abbrev pub edge_rows : List String → ℕ
  edge_rows [] = 0
  edge_rows (line ∷ lines) =
      let rest = edge_rows lines in if is_edge_of line then suc rest else rest

  -- The count of the function so far.
  abbrev count : Edges → ℕ
  count e = or_zero (get fn e.edges)

  counted :
      (line : String) (lines : List String) (a b c : ℕ)
      → b ≡ (if is_edge_of line then suc a else a)
      → c ≡ b + edge_rows lines
      → c ≡ a + edge_rows (line ∷ lines)
  counted line lines a b c h k = elim (Bool-cases (is_edge_of line)) [
    | inl e ↦ rw e (let h' : b ≡ suc a = rw e at h in omega arith)
    | inr e ↦ rw e (let h' : b ≡ a = rw e at h in omega arith)
  ]

  -- A function row changes no count.
  function_row-count :
      (line : String) (e : Edges) → Gives (λ e'. count e' ≡ count e) (function_row line e)
  unfolding function_row
  function_row-count line e =
      let Q = λ (e' : Edges). count e' ≡ count e in
      Gives-need Q _ _ _ λ name p. Gives-need Q _ _ _ λ declared q. Gives-need Q _ _ _ λ n r.
        Gives-pure Complaint Q _ (
          ground
            (arith, get-put fn name (or_zero (get name e.edges)) e.edges, same_text_iff fn name))

  -- The edge of a row has the function that the row names.
  row_key-fn :
      (line kind_key : String) (missing bad : Complaint)
      → Gives (λ k. edge_fn line ≡ some k.fn) (row_key line kind_key missing bad)
  unfolding row_key
  row_key-fn line kind_key missing bad =
      let Q = λ (k : Key). edge_fn line ≡ some k.fn in
      Gives-need Q _ _ _ λ f p. Gives-need Q _ _ _ λ kind q. Gives-need Q _ _ _ λ l r.
        Gives-need Q _ _ _ λ c s. Gives-need Q _ _ _ λ l' t.
          Gives-need Q _ _ _ λ c' u. Gives-pure Complaint Q _ (non_empty-some (edge_fn line) f p)

  parse_line-count :
      (line : String) (e : Edges)
      → Gives
          (λ e'. count e' ≡ (if is_edge_of line then suc (count e) else count e))
          (parse_line prefix line e)
  unfolding parse_line
  parse_line-count line e = elim (Bool-cases (is_function_row prefix line)) [
    | inl p ↦ rw p (function_row-count line e)
    | inr p ↦ elim (Bool-cases (is_edge_row prefix line)) [
      | inl q ↦
          rw (p, q)
            (Gives-bind (λ k. edge_fn line ≡ some k.fn)
              (λ e'. count e' ≡ (if names fn (edge_fn line) then suc (count e) else count e)) _ _
              (row_key-fn line "kind" (edge_row_missing line) (edge_row_position line))
              λ k h.
                Gives-pure Complaint
                  (λ e'. count e' ≡ (if names fn (edge_fn line) then suc (count e) else count e))
                  (add_edge k e)
                  (rw h (
                    ground (
                      arith,
                      get-put fn k.fn (or_zero (get k.fn e.edges) + 1) e.edges,
                      same_text_iff fn k.fn,
                    ))))
      | inr q ↦ rw (p, q) (Gives-pure Complaint (λ e'. count e' ≡ count e) e refl)
    ]
  ]

  pub parse_lines-count :
      (lines : List String) (e : Edges)
      → Gives (λ e'. count e' ≡ count e + edge_rows lines) (parse_lines prefix lines e)
  unfolding parse_lines
  parse_lines-count [] e = Gives-pure Complaint (λ e'. count e' ≡ count e + 0) e (omega arith)
  parse_lines-count (line ∷ lines) e =
      Gives-bind (λ e'. count e' ≡ (if is_edge_of line then suc (count e) else count e))
        (λ e'. count e' ≡ count e + edge_rows (line ∷ lines)) _ _ (parse_line-count line e)
        λ e₁ h.
          Gives-map (λ e'. count e' ≡ count e₁ + edge_rows lines)
            (λ e'. count e' ≡ count e + edge_rows (line ∷ lines)) (parse_lines prefix lines e₁)
            (parse_lines-count lines e₁)
            λ e' k. counted line lines (count e) (count e₁) (count e') h k
