-- ===== src/Fuzz/Facts/Rows.antt =====
-- The rows behind the trap edges and the facts of tools/fuzz/mcfuzz.py: what `row_key` reads, and which
-- rows are the edges of `_parse_trap_edges`.
use modern_c.Prelude.{
  ◌≡◌, refl, ap, ◌↔◌, String, true, false, List, [], ◌∷◌, Option, none, some, Bool-cases, ◌⊎◌, inl,
  inr, same_text, same_text_iff, arith, ==_iff,
}
use modern_c.Fuzz.Result.{◌>>=◌, bind-inr, need-inr, inr-need}
use modern_c.Fuzz.Rows.{get, parse_kv}
use modern_c.Fuzz.Numbers.{ℤ, pos, negsuc, to_int, same_int}
use modern_c.Fuzz.Edges.{Key, Complaint, same_key, has_key, non_empty, required, row_key}

same_int_iff : (a b : ℤ) → (same_int a b ≡ true) ↔ (a ≡ b)
same_int_iff (pos m) (pos n) = (λ h. ap pos ((==_iff m n).0 h), λ e. (==_iff m n).1 (cc))
same_int_iff (negsuc m) (negsuc n) = (λ h. ap negsuc ((==_iff m n).0 h), λ e. (==_iff m n).1 (cc))
same_int_iff (pos m) (negsuc n) = (λ h. absurd cc, λ h. absurd cc)
same_int_iff (negsuc m) (pos n) = (λ h. absurd cc, λ h. absurd cc)

same_key_iff : (a b : Key) → (same_key a b ≡ true) ↔ (a ≡ b)
same_key_iff a b = (
  λ h.
      let p : a.fn ≡ b.fn = (same_text_iff a.fn b.fn).0 (ground (arith, h)) in
      let q : a.kind ≡ b.kind = (same_text_iff a.kind b.kind).0 (ground (arith, h)) in
      let r : a.line ≡ b.line = (same_int_iff a.line b.line).0 (ground (arith, h)) in
      let s : a.column ≡ b.column = (same_int_iff a.column b.column).0 (ground (arith, h)) in
      λ i. record { fn = p i; kind = q i; line = r i; column = s i },
  λ e.
      let p = (same_text_iff a.fn b.fn).1 (ap (λ (k : Key). k.fn) e) in
      let q = (same_text_iff a.kind b.kind).1 (ap (λ (k : Key). k.kind) e) in
      let r = (same_int_iff a.line b.line).1 (ap (λ (k : Key). k.line) e) in
      let s = (same_int_iff a.column b.column).1 (ap (λ (k : Key). k.column) e) in
      ground (arith, p, q, r, s),
)

-- An edge is in a list: one there has the same function, kind, line and column.
abbrev pub IsIn : Key → List Key → Type 0
IsIn k [] = ⊥
IsIn k (j ∷ js) = (k ≡ j) ⊎ IsIn k js

pub has_key_iff : (k : Key) (js : List Key) → (has_key k js ≡ true) ↔ IsIn k js
unfolding has_key
has_key_iff k [] = (λ h. absurd cc, λ h. absurd h)
has_key_iff k (j ∷ js) = elim (Bool-cases (same_key k j)) [
  | inl e ↦ rw (e, has_key) (λ h. inl ((same_key_iff k j).0 e), λ h. refl)
  | inr e ↦
      rw (e, has_key)
        (
          λ h. inr ((has_key_iff k js).0 h),
          λ h. elim h [
            | inl same ↦ let never = (same_key_iff k j).1 same in absurd cc
            | inr there ↦ (has_key_iff k js).1 there
          ],
        )
]

-- A row has a number under a name.
pub record HasNumber (line name : String) (n : ℤ) : Type 0 where
  pub shown : String
  pub stored : get name (parse_kv line) ≡ some shown
  pub read : to_int shown ≡ some n

-- A row has a text under a name, and it is not empty.
pub record HasName (line name s : String) : Type 0 where
  pub stored : get name (parse_kv line) ≡ some s
  pub named : same_text s "" ≡ false

-- A row names a function, a kind under the given name, a line and a column.
pub record HasKey (line kind_key : String) (k : Key) : Type 0 where
  pub fn_named : HasName line "fn" k.fn
  pub kind_named : HasName line kind_key k.kind
  pub line_numbered : HasNumber line "line" k.line
  pub column_numbered : HasNumber line "column" k.column

non_empty-some :
    (o : Option String) (s : String)
    → (non_empty o ≡ some s) ↔ ((o ≡ some s) × (same_text s "" ≡ false))
non_empty-some none s = (λ h. absurd cc, λ (h, n). absurd cc)
non_empty-some (some t) s = elim (Bool-cases (same_text t "")) [
  | inl e ↦ rw (e) (λ h. absurd cc, λ (h, n). let same : t ≡ s = cc in absurd cc)
  | inr e ↦ rw (e) (λ h. let same : t ≡ s = cc in (h, rw (← same) e), λ (h, n). h)
]

required-HasName :
    (line name s : String) → (required name (parse_kv line) ≡ some s) ↔ HasName line name s
required-HasName line name s = (
  λ h.
      let (stored, named) = (non_empty-some (get name (parse_kv line)) s).0 h in
      record { stored = stored; named = named },
  λ h. (non_empty-some (get name (parse_kv line)) s).1 (h.stored, h.named),
)

-- A row is read if and only if it has all four, and what is read is what it has.
pub row_key_iff :
    (line kind_key : String) (missing bad : Complaint) (k : Key)
    → (row_key line kind_key missing bad ≡ inr k) ↔ HasKey line kind_key k
unfolding row_key ◌>>=◌
row_key_iff line kind_key missing bad k = (
  λ e.
      let (fn, e1, f1) = bind-inr e in
      let (kind, e2, f2) = bind-inr f1 in
      let (line_no, e3, f3) = bind-inr f2 in
      let (column, e4, f4) = bind-inr f3 in
      let (l, e5, f5) = bind-inr f4 in
      let (c, e6, f6) = bind-inr f5 in
      let same : record { fn = fn; kind = kind; line = l; column = c } ≡ k = cc in
      rw⁻¹ (same) (record {
        fn_named = (required-HasName line "fn" fn).0 (need-inr _ e1);
        kind_named = (required-HasName line kind_key kind).0 (need-inr _ e2);
        line_numbered = record { shown = line_no; stored = need-inr _ e3; read = need-inr _ e5 };
        column_numbered = record { shown = column; stored = need-inr _ e4; read = need-inr _ e6 };
      }),
  λ h.
      rw
        (
          inr-need missing ((required-HasName line "fn" k.fn).1 h.fn_named),
          ◌>>=◌,
          inr-need missing ((required-HasName line kind_key k.kind).1 h.kind_named),
          inr-need missing h.line_numbered.stored,
          inr-need missing h.column_numbered.stored,
          inr-need bad h.line_numbered.read,
          inr-need bad h.column_numbered.read,
        )
        refl,
)
