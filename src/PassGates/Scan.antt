-- ===== src/PassGates/Scan.antt =====
-- The parts of build/tiers.zig that tools/ci/pass-gates.py reads, and the errors it ends with.
use Prim.Native.Char.{code}
use modern_c.Prelude.{
  ℕ, String, Bool, true, false, not, List, [], ◌∷◌, Option, none, some, ◌>>=◌, ◌==◌, is_space, size,
  begins, behind, span, find_all, has, same_text, ◌⊎◌, inl, inr, if◌then◌else◌,
}

-- The messages of `fail`. Those that list gates sort them; here they stand in their order.
pub data Failure : Type 0 where
  missing_file : String → Failure
  invalid_json : String → Failure
  missing_array : String → Failure
  empty_array : String → Failure
  missing_marker : String → Failure
  missing_end_marker : String → Failure
  duplicate_gates : String → List String → Failure
  below_floor : String → ℕ → ℕ → Failure
  unknown_tier : String → Failure
  manifest_not_object : Failure
  no_assertions : Failure
  no_tier : String → Failure
  no_gates : String → Failure
  gate_not_text : String → Failure
  no_build_tier : String → Failure
  no_min_count : String → Failure
  unsupported_build_tier : String → Failure
  not_dependencies : List String → Failure
  missing_snippet : String → Failure
  stale_snippet : String → Failure
  missing_pass_lines : String → List String → Failure

abbrev pub not_quote : ℕ → Bool
not_quote n = not (n == 34)

-- `[^"]+"`, behind the opening quote: the text, and what follows.
unfoldable pub quoted_name : String → Option (String × String)
unfolding span behind
quoted_name s = do
  rest ← behind "\"" (span not_quote s).1
  if same_text (span not_quote s).0 "" then none else some ((span not_quote s).0, rest)

-- `"([^"]+)"` at the start of a text.
unfoldable pub gate_name : String → Option (String × String)
unfolding behind quoted_name
gate_name s = do s' ← behind "\"" s; quoted_name s'

-- `\n\s*\};` at the start of a text.
unfoldable pub array_end : String → Bool
unfolding behind begins span
array_end s = elim (behind "\n" s) [ none ↦ false | some s' ↦ begins "};" (span is_space s').1 ]

-- `(?P<body>.*?)\n\s*\};`: the shortest body.
unfoldable pub array_body : String → Option String
unfolding array_end
array_body String.[] = none
array_body (String.◌∷◌ c s) = elim (array_end (String.◌∷◌ c s)) [
  | true ↦ some ""
  | false ↦ elim (array_body s) [ none ↦ none | some body ↦ some (String.◌∷◌ c body) ]
]

-- `\s+`.
unfoldable pub some_spaces : String → Option String
unfolding span
some_spaces String.[] = none
some_spaces (String.◌∷◌ c s) = if is_space (code c) then some (span is_space s).1 else none

-- The expression of `names_in_array` at the start of a text.
unfoldable pub array_at : String → String → Option String
unfolding behind some_spaces span array_body
array_at zig_name s = do
  s1 ← behind "const" s
  s2 ← some_spaces s1
  s3 ← behind zig_name s2
  s4 ← behind "=" (span is_space s3).1
  s5 ← behind "[_][]const u8" (span is_space s4).1
  s6 ← behind "{" (span is_space s5).1
  array_body s6

-- `re.search` of it.
unfoldable pub find_array : String → String → Option String
unfolding array_at
find_array zig_name String.[] = none
find_array zig_name (String.◌∷◌ c s) = elim (array_at zig_name (String.◌∷◌ c s)) [
  | some body ↦ some body
  | none ↦ find_array zig_name s
]

-- `names_in_array(source, zig_name)`.
unfoldable pub names_in_array : String → String → Failure ⊎ List String
unfolding find_array find_all gate_name
names_in_array source zig_name = elim (find_array zig_name source) [
  | none ↦ inl (missing_array zig_name)
  | some body ↦ inr (find_all gate_name (size body) body)
]

-- The text from the first occurrence of a marker on: `source.find(marker)`.
unfoldable pub from_first : String → String → Option String
unfolding begins
from_first marker String.[] = if begins marker "" then some "" else none
from_first marker (String.◌∷◌ c s) =
    let later = from_first marker s in
    if begins marker (String.◌∷◌ c s) then some (String.◌∷◌ c s) else later

-- The text before the first occurrence.
unfoldable pub until_first : String → String → Option String
unfolding begins
until_first marker String.[] = if begins marker "" then some "" else none
until_first marker (String.◌∷◌ c s) = elim (begins marker (String.◌∷◌ c s)) [
  | true ↦ some ""
  | false ↦ elim (until_first marker s) [ none ↦ none | some t ↦ some (String.◌∷◌ c t) ]
]

-- `block_after(source, marker, end_marker)`.
unfoldable pub block_after : String → String → String → Failure ⊎ String
unfolding from_first until_first
block_after source marker end_marker = elim (from_first marker source) [
  | none ↦ inl (missing_marker marker)
  | some from ↦ elim (until_first end_marker from) [
    | none ↦ inl (missing_end_marker end_marker)
    | some block ↦ inr block
  ]
]

-- `m0_step\.dependOn\(ctx\.cmd\("([^"]+)"\)\);` at the start of a text.
unfoldable pub dependency : String → Option (String × String)
unfolding behind quoted_name
dependency s = do
  s1 ← behind "m0_step.dependOn(ctx.cmd(\"" s
  (name, s2) ← quoted_name s1
  s3 ← behind "));" s2
  some (name, s3)

-- The elements of a `set`.
unfoldable pub set_of : List String → List String
unfolding has
set_of [] = []
set_of (x ∷ xs) = let rest = set_of xs in if has x xs then rest else x ∷ rest

-- `m0_dependencies(source)`.
unfoldable pub m0_dependencies : String → Failure ⊎ List String
unfolding block_after find_all dependency set_of
m0_dependencies source =
    elim (block_after source "const m0_step = b.step(\"m0\"" "const fast_step = b.step(\"fast\"") [
      | inl failure ↦ inl failure
      | inr block ↦ inr (set_of (find_all dependency (size block) block))
    ]
