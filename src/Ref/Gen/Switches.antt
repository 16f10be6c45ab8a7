-- ===== src/Ref/Gen/Switches.antt =====
-- The switch families of tools/fuzz/mcref.py: `_gen_scalar_switch`, `_gen_enum_switch`,
-- `_gen_result_switch` and `_gen_union_switch`.
pub mod Arms
use Prim.Native.Nat.{bit_xor}
use modern_c.Prelude.{
  ℕ, zero, suc, ◌+◌, ◌-◌, ◌*◌, ◌^◌, min, String, Bool, true, false, ltb, leb, ◌==◌, if◌then◌else◌,
  Option, none, some, List, [], ◌∷◌, ◌++◌, map, cat, join, decimal,
}
use modern_c.Ref.Random.{Draw, ◌>>=◌, pure, chance, randrange, choice, sample}
use modern_c.Ref.Gen.State.{RefGen}

-- `prefix + str(self.n)`, whose count goes up.
abbrev pub numbered : String → ℕ → String
numbered prefix n = cat (prefix ∷ decimal n ∷ [])

-- `range(lo, lo + k)`.
unfoldable pub range : ℕ → ℕ → List ℕ
range lo zero = []
range lo (suc k) = lo ∷ range (lo + 1) k

-- `sorted` of numbers.
pub insert_sorted : ℕ → List ℕ → List ℕ
insert_sorted x [] = x ∷ []
insert_sorted x (y ∷ ys) =
    let rest = insert_sorted x ys in if leb x y then x ∷ (y ∷ ys) else y ∷ rest

pub sort : List ℕ → List ℕ
sort [] = []
sort (x ∷ xs) = insert_sorted x (sort xs)

-- `for k, c in enumerate(cases): if subj == c: exp = (k + 1) * 11`: a later match overwrites.
pub scalar_exp : ℕ → List ℕ → ℕ → ℕ → ℕ
scalar_exp subj [] k exp = exp
scalar_exp subj (c ∷ cs) k exp =
    scalar_exp subj cs (k + 1) (if subj == c then (k + 1) * 11 else exp)

pub scalar_arms : String → ℕ → List ℕ → List String
scalar_arms out k [] = []
scalar_arms out k (c ∷ cs) =
    cat ("        " ∷ decimal c ∷ " => { " ∷ out ∷ " = " ∷ decimal ((k + 1) * 11) ∷ "; }" ∷ [])
    ∷ scalar_arms out (k + 1) cs

pub scalar_lines : String → String → ℕ → List ℕ → List String
scalar_lines vn out subj cases =
    (cat ("    var " ∷ vn ∷ ": u32 = " ∷ decimal subj ∷ ";" ∷ [])
      ∷ cat ("    var " ∷ out ∷ ": u64 = 0;" ∷ [])
      ∷ cat ("    switch " ∷ vn ∷ " {" ∷ [])
      ∷ [])
    ++ (scalar_arms out 0 cases ++ (cat ("        _ => { " ∷ out ∷ " = 7; }" ∷ []) ∷ "    }" ∷ []))

unfoldable pub gen_scalar_switch : RefGen → Draw RefGen
gen_scalar_switch g = do
  drawn ← sample (range 0 8) 3
  let cases = sort drawn
  subj ← choice (cases ++ 99 ∷ [])
  let vn = numbered "scsw" g.n
  let out = numbered "scswr" (g.n + 1)
  pure (record g {
    n = g.n + 2;
    extra_body = g.extra_body ++ scalar_lines vn out subj cases;
    extra_terms = g.extra_terms ++ (out, scalar_exp subj cases 0 7) ∷ [];
  })

-- `", ".join(".%s => %d" % (v, (k + 1) * scale) for k, v in enumerate(variants))`.
pub enum_arms : ℕ → ℕ → List String → List String
enum_arms scale k [] = []
enum_arms scale k (v ∷ vs) =
    cat ("." ∷ v ∷ " => " ∷ decimal ((k + 1) * scale) ∷ []) ∷ enum_arms scale (k + 1) vs

unfoldable pub gen_enum_switch : RefGen → Draw RefGen
gen_enum_switch g = do
  let ename = numbered "RE" g.n
  count ← randrange 2 5
  let variants = map (λ k. numbered "V" k) (range 0 count)
  let arms = join ", " (enum_arms 13 0 variants)
  pick ← randrange 0 count
  let variant = numbered "V" pick
  let ev = numbered "esv" (g.n + 1)
  let rv = numbered "esr" (g.n + 2)
  let arms2 = join ", " (enum_arms 17 0 variants)
  let iv = numbered "esi" (g.n + 3)
  pure (record g {
    n = g.n + 4;
    pre_decls =
        g.pre_decls
        ++ (cat (
              "enum "
              ∷ ename
              ∷ " {\n"
              ∷ join "\n" (map (λ v. cat ("    " ∷ v ∷ "," ∷ [])) variants)
              ∷ "\n}"
              ∷ [])
            ∷ cat (
                "fn eswf_" ∷ ename ∷ "(e: " ∷ ename ∷ ") -> u64 {\n    return switch e { " ∷ arms
                ∷ " };\n}" ∷ [])
            ∷ []);
    extra_body =
        g.extra_body
        ++ (cat ("    var " ∷ ev ∷ ": " ∷ ename ∷ " = ." ∷ variant ∷ ";" ∷ [])
            ∷ cat ("    var " ∷ rv ∷ ": u64 = eswf_" ∷ ename ∷ "(" ∷ ev ∷ ");" ∷ [])
            ∷ cat ("    var " ∷ iv ∷ ": u64 = switch " ∷ ev ∷ " { " ∷ arms2 ∷ " };" ∷ [])
            ∷ []);
    extra_terms = g.extra_terms ++ ((rv, (pick + 1) * 13) ∷ (iv, (pick + 1) * 17) ∷ []);
  })

-- The value that the two arms of the `Result` switch give.
pub result_exp : Bool → ℕ → ℕ → ℕ
result_exp is_ok okv errv = if is_ok then okv else bit_xor errv 1000

unfoldable pub gen_result_switch : RefGen → Draw RefGen
gen_result_switch g = do
  let fn = numbered "rfn" g.n
  is_ok ← chance 50
  okv ← randrange 0 (2 ^ 20)
  errv ← randrange 0 (2 ^ 20)
  let body =
      if is_ok
      then cat ("    return ok(" ∷ decimal okv ∷ ");" ∷ [])
      else cat ("    return err(" ∷ decimal errv ∷ ");" ∷ [])
  let out = numbered "rsw" (g.n + 1)
  pure (record g {
    n = g.n + 2;
    pre_decls =
        g.pre_decls ++ cat ("fn " ∷ fn ∷ "() -> Result<u32, u32> {\n" ∷ body ∷ "\n}" ∷ []) ∷ [];
    extra_body =
        g.extra_body
        ++ (cat ("    var " ∷ out ∷ ": u64 = 0;" ∷ [])
            ∷ cat ("    switch " ∷ fn ∷ "() {" ∷ [])
            ∷ cat ("        ok(v) => { " ∷ out ∷ " = (v as u64); }" ∷ [])
            ∷ cat ("        err(e) => { " ∷ out ∷ " = ((e as u64) ^ 1000); }" ∷ [])
            ∷ "    }"
            ∷ []);
    extra_terms = g.extra_terms ++ (out, result_exp is_ok okv errv) ∷ [];
  })
