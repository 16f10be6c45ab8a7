-- ===== src/Ref/Gen/Unions.antt =====
-- `_gen_union_switch` of tools/fuzz/mcref.py: a tagged union with payload cases and, half of the
-- time, a case without one.
use modern_c.Prelude.{
  ℕ, zero, suc, ◌+◌, ◌^◌, min, String, if◌then◌else◌, Option, none, some, List, [], ◌∷◌, ◌++◌, map,
  cat, join, decimal,
}
use modern_c.Ref.Random.{Draw, ◌>>=◌, pure, chance, randrange, choice}
use modern_c.Ref.Gen.State.{RefGen}
use modern_c.Ref.Gen.Switches.{numbered}

-- A case: its name, and the width of its payload, `none` for the empty case.
pub record UnionCase : Type 0 where
  pub cname : String
  pub payload : Option ℕ

unfoldable pub payload_cases : ℕ → ℕ → ℕ → Draw (List UnionCase)
payload_cases n j zero = pure []
payload_cases n j (suc k) = do
  w ← choice (8 ∷ 16 ∷ 32 ∷ 64 ∷ [])
  rest ← payload_cases n (j + 1) k
  pure (record { cname = cat ("uc" ∷ decimal n ∷ "_" ∷ decimal j ∷ []); payload = some w } ∷ rest)

pub case_line : UnionCase → String
case_line c = elim c.payload [
  | none ↦ cat ("    " ∷ c.cname ∷ "," ∷ [])
  | some w ↦ cat ("    " ∷ c.cname ∷ ": u" ∷ decimal w ∷ "," ∷ [])
]

pub case_arm : UnionCase → String
case_arm c = elim c.payload [
  | none ↦ cat ("        ." ∷ c.cname ∷ " => { return 7; }" ∷ [])
  | some w ↦ cat ("        " ∷ c.cname ∷ "(b) => { return (b as u64); }" ∷ [])
]

-- The constructor call of the value that is folded, with the value that the switch gives for it.
unfoldable pub construct : UnionCase → Draw (String × ℕ)
construct c = elim c.payload [
  | none ↦ pure (cat (c.cname ∷ "()" ∷ []), 7)
  | some w ↦ do
    pv ← randrange 0 (2 ^ min w 32)
    pure (cat (c.cname ∷ "(" ∷ decimal pv ∷ ")" ∷ []), pv)
]

pub union_decls : String → List UnionCase → List String
union_decls uname opts =
    cat ("union " ∷ uname ∷ " {\n" ∷ join "\n" (map case_line opts) ∷ "\n}" ∷ [])
    ∷ cat (
        "fn ufold_"
        ∷ uname
        ∷ "(s: "
        ∷ uname
        ∷ ") -> u64 {\n    switch s {\n"
        ∷ join "\n" (map case_arm opts)
        ∷ "\n    }\n}"
        ∷ [])
    ∷ []

unfoldable pub gen_union_switch : RefGen → Draw RefGen
gen_union_switch g = do
  let uname = numbered "RU" g.n
  ncases ← randrange 2 4
  cases ← payload_cases (g.n + 1) 0 ncases
  has_empty ← chance 50
  let opts =
      if has_empty
      then cases ++ record { cname = numbered "ue" (g.n + 1); payload = none } ∷ []
      else cases
  c ← choice opts
  (ctor, exp) ← construct c
  let uv = numbered "uv" (g.n + 1)
  let fv = numbered "ufv" (g.n + 2)
  pure (record g {
    n = g.n + 3;
    pre_decls = g.pre_decls ++ union_decls uname opts;
    extra_body =
        g.extra_body
        ++ (cat ("    var " ∷ uv ∷ ": " ∷ uname ∷ " = " ∷ ctor ∷ ";" ∷ [])
            ∷ cat ("    var " ∷ fv ∷ ": u64 = ufold_" ∷ uname ∷ "(" ∷ uv ∷ ");" ∷ [])
            ∷ []);
    extra_terms = g.extra_terms ++ (fv, exp) ∷ [];
  })
