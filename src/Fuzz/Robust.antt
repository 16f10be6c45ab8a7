-- ===== src/Fuzz/Robust.antt =====
-- `oracle_robust` of tools/fuzz/mcfuzz.py, with `_mutate`, `_hostile_frontend_case` and
-- `_check_no_crash`. Data are bytes. What `mcc check` gives for a file is an argument, with its errors
-- decoded; the draws of the two generators stand on one tape.
pub mod Changed
pub mod Total
use Prim.Native.Char.{code}
use Prim.Native.Nat.{bit_xor}
use modern_c.Prelude.{
  ℕ, zero, suc, ◌+◌, ◌^◌, ◌%◌, String, Bool, true, false, ◌||◌, List, [], ◌∷◌, ◌++◌, Option, none,
  some, ◌==◌, is_cons, length, get_elem?, mentions, cat, join, decimal, if◌then◌else◌,
}
use modern_c.Ref.Random.{Draw, ◌>>=◌, pure, lift, randrange}
use modern_c.Fuzz.Keys.{splitlines}
use modern_c.Fuzz.Numbers.{ℤ, pos, negsuc}
use modern_c.Fuzz.Artifacts.{Process, timeout_expired, completed}

-- `text.encode()` of an ASCII text.
unfoldable pub encode : String → List ℕ
encode String.[] = []
encode (String.◌∷◌ c s) = code c ∷ encode s

-- `b[i] = f(b[i])`, `del b[i]`, `b.insert(i, v)` and `del b[i:]`.
unfoldable pub change_at : (ℕ → ℕ) → ℕ → List ℕ → List ℕ
change_at f i [] = []
change_at f zero (x ∷ xs) = f x ∷ xs
change_at f (suc i) (x ∷ xs) = x ∷ change_at f i xs

unfoldable pub delete_at : ℕ → List ℕ → List ℕ
delete_at i [] = []
delete_at zero (x ∷ xs) = xs
delete_at (suc i) (x ∷ xs) = x ∷ delete_at i xs

unfoldable pub insert_at : ℕ → ℕ → List ℕ → List ℕ
insert_at zero v xs = v ∷ xs
insert_at (suc i) v [] = v ∷ []
insert_at (suc i) v (x ∷ xs) = x ∷ insert_at i v xs

unfoldable pub cut_at : ℕ → List ℕ → List ℕ
cut_at zero xs = []
cut_at (suc i) [] = []
cut_at (suc i) (x ∷ xs) = x ∷ cut_at i xs

-- The change of one kind at `i`.
unfoldable pub mutate_at : ℕ → ℕ → List ℕ → Draw (List ℕ)
unfolding change_at delete_at insert_at cut_at
mutate_at zero i b = do k ← randrange 0 8; pure (change_at (λ x. bit_xor x (2 ^ k)) i b)
mutate_at (suc zero) i b = pure (delete_at i b)
mutate_at (suc (suc zero)) i b = do v ← randrange 0 256; pure (insert_at i v b)
mutate_at (suc (suc (suc zero))) i b = do v ← lift (get_elem? b i); pure (insert_at i v b)
mutate_at _ i b = pure (cut_at i b)

abbrev pub refill : List ℕ → List ℕ
refill b = if is_cons b then b else encode "fn main() {}"

-- `for _ in range(n)`.
unfoldable pub mutate_times : ℕ → List ℕ → Draw (List ℕ)
unfolding mutate_at encode
mutate_times zero b = pure b
mutate_times (suc n) b = do
  kind ← randrange 0 5
  i ← randrange 0 (length (refill b))
  b' ← mutate_at kind i (refill b)
  mutate_times n b'

-- `_mutate(data, rng)`.
unfoldable pub mutate : List ℕ → Draw (List ℕ)
unfolding mutate_times
mutate bytes = do n ← randrange 1 13; mutate_times n bytes

-- `token * n`, and the texts of the `range`s.
unfoldable pub copies : ℕ → String → List String
copies zero token = []
copies (suc n) token = token ∷ copies n token

unfoldable pub numbers : ℕ → ℕ → List String
unfolding decimal
numbers i zero = []
numbers i (suc n) = decimal i ∷ numbers (i + 1) n

abbrev run_of : ℕ → String → String
run_of n token = cat (copies n token)

-- `_repeat_token(token, count)`.
unfoldable pub repeat_token : String → ℕ → String
unfolding join copies
repeat_token token count = join " " (copies count token)

abbrev case_of : String → List String → String × List ℕ
case_of label parts = (label, encode (cat parts))

-- The list `cases`.
unfoldable pub hostile_cases : (depth width : ℕ) → List (String × List ℕ)
unfolding cat encode copies join numbers repeat_token
hostile_cases depth width =
    case_of "deep balanced parens"
      ("fn hostile() -> u32 { return " ∷ run_of depth "(" ∷ "1" ∷ run_of depth ")" ∷ "; }\n" ∷ [])
    ∷ case_of "deep unary chain"
        ("fn hostile() -> bool { return " ∷ run_of depth "!" ∷ "false; }\n" ∷ [])
    ∷ case_of "deep pointer type" ("fn hostile(p: " ∷ run_of depth "*" ∷ "u32) -> void { }\n" ∷ [])
    ∷ case_of "deep nested blocks"
        ("fn hostile() -> void { " ∷ run_of depth "{ " ∷ run_of depth "} " ∷ "}\n" ∷ [])
    ∷ case_of "deep else-if chain" (
        "fn hostile() -> void { if true { } "
        ∷ run_of depth "else if false { } "
        ∷ "else { } }\n"
        ∷ [])
    ∷ case_of "wide unterminated call"
        ("fn hostile() -> u32 { return f(" ∷ join ", " (numbers 0 width) ∷ "\n" ∷ [])
    ∷ case_of "wide flat expression"
        ("fn hostile() -> u32 { return " ∷ join " + " (copies width "1") ∷ "; }\n" ∷ [])
    ∷ case_of "deep cast chain"
        ("fn hostile(x: u32) -> u32 { return x" ∷ run_of depth " as u32" ∷ "; }\n" ∷ [])
    ∷ case_of "deep postfix member chain"
        ("fn hostile(x: Node) -> u32 { return x" ∷ run_of depth ".next" ∷ "; }\n" ∷ [])
    ∷ case_of "deep postfix index chain"
        ("fn hostile(x: []u32) -> u32 { return x" ∷ run_of depth "[0]" ∷ "; }\n" ∷ [])
    ∷ case_of "deep type member chain" ("type Hostile = A" ∷ run_of depth ".B" ∷ ";\n" ∷ [])
    ∷ (
      "invalid bytes in declaration stream",
      encode "fn hostile() -> u32 {\n  let x: u32 = 1;\n}\n"
          ++ (0 ∷ 128 ∷ 255 ∷ [])
          ++ encode "\nfn after() -> void {}\n",
    )
    ∷ case_of "unbalanced delimiter storm"
        ("fn hostile() -> void { " ∷ repeat_token "(" width ∷ repeat_token "{" width ∷ "\n" ∷ [])
    ∷ []

-- `_hostile_frontend_case(seed)`.
unfoldable pub hostile_frontend_case : ℕ → Draw (String × List ℕ)
unfolding hostile_cases
hostile_frontend_case seed = do
  d ← randrange 0 128
  w ← randrange 0 128
  let cases = hostile_cases (1024 + d) (512 + w)
  lift (get_elem? cases (seed % length cases))

pub data Crash : Type 0 where
  hangs_on : String → Crash
  crashed_on : String → ℕ → Crash
  leaked_on : String → String → Crash

-- A line of a compiler failure.
abbrev pub is_leak : String → Bool
is_leak text = mentions "panic:" text || mentions "error return trace:" text

unfoldable pub first_leak : List String → String
unfolding mentions
first_leak [] = ""
first_leak (l ∷ ls) = let rest = first_leak ls in if is_leak l then l else rest

-- `_check_no_crash(env, path, label)` from what the compiler gave.
unfoldable pub check_no_crash : String → Process → Option Crash
unfolding first_leak mentions splitlines
check_no_crash label timeout_expired = some (hangs_on label)
check_no_crash label (completed (negsuc n) out err) = some (crashed_on label (n + 1))
check_no_crash label (completed (pos n) out err) =
    if is_leak err then some (leaked_on label (first_leak (splitlines err))) else none

module _ (check : List ℕ → Process) where
  -- The second file is tried where the first is no finding.
  unfoldable pub judge_inputs : List ℕ → String × List ℕ → Option Crash
  unfolding check_no_crash
  judge_inputs mutated (label, hostile) = elim (check_no_crash "mutated input" (check mutated)) [
    | some finding ↦ some finding
    | none ↦ check_no_crash label (check hostile)
  ]

  -- `oracle_robust(env, seed, src_path, work)` on the bytes of the program.
  unfoldable pub oracle_robust : ℕ → List ℕ → Draw (Option Crash)
  unfolding judge_inputs mutate hostile_frontend_case
  oracle_robust seed bytes = do
    mutated ← mutate bytes
    hostile ← hostile_frontend_case seed
    pure (judge_inputs mutated hostile)
