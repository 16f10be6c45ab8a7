-- ===== src/Sweep/Valid.antt =====
-- `strip_expect_error`, `normalize_valid_chunk` and `valid_program` of
-- tools/toolchain/spec_sweep_lib.py. `none` would be a loop that does not end.
pub mod Heads
pub mod Prototype
pub mod Extern
pub mod Positive
use Prim.Native.Char.{Char, code}
use Prim.Native.String as Texts
use modern_c.Prelude.{
  is_some, ℕ, zero, suc, String, Bool, true, false, ◌&&◌, ◌||◌, List, [], ◌∷◌, map, Option, none,
  some, ◌>>=◌, ◌==◌, cat, lstrip, rstrip, strip, is_space, behind, span, is_cons, if◌then◌else◌,
}
use modern_c.Sweep.Chunks.{split_top_level}
use modern_c.Sweep.Names.{spaces, spaces1, declared_names, referenced_names}
use modern_c.Sweep.Keep.{is_rejected_chunk, keep_flags}

-- The chunks with a flag.
unfoldable pub selected : List String → List Bool → List String
selected (ch ∷ chunks) (k ∷ keep) = let rest = selected chunks keep in if k then ch ∷ rest else rest
selected _ _ = []

-- `text.endswith(c)`.
unfoldable pub ends_with : ℕ → String → Bool
ends_with n String.[] = false
ends_with n (String.◌∷◌ c String.[]) = code c == n
ends_with n (String.◌∷◌ c (String.◌∷◌ d s)) = ends_with n (String.◌∷◌ d s)

-- `(\s*)fn\s+`: the white space in front, and the rest.
unfoldable pub fn_head : String → Option (String × String)
unfolding span behind spaces1
fn_head s = do
  rest ← behind "fn" (span is_space s).1
  rest' ← spaces1 rest
  some ((span is_space s).0, rest')

-- `re.sub(r"(?m)^(\s*)fn\s+", r"\1extern fn ", chunk, count=1)`, from where a line starts or not.
unfoldable pub add_extern : Bool → String → String
unfolding fn_head
add_extern starts String.[] = ""
add_extern false (String.◌∷◌ c s) = String.◌∷◌ c (add_extern (code c == 10) s)
add_extern true (String.◌∷◌ c s) = elim (fn_head (String.◌∷◌ c s)) [
  | some (indent, rest) ↦ Texts.◌++◌ indent (Texts.◌++◌ "extern fn " rest)
  | none ↦ String.◌∷◌ c (add_extern (code c == 10) s)
]

-- The characters of a text that is not empty.
abbrev nonempty : String → Bool
nonempty String.[] = false
nonempty (String.◌∷◌ c s) = true

module _ (is_word : ℕ → Bool) where
  -- `\s*fn\s+\w+\s*\(` at the start of a text.
  unfoldable pub prototype_at : String → Bool
  unfolding fn_head span spaces behind
  prototype_at s = elim (fn_head s) [
    | none ↦ false
    | some (indent, rest) ↦
        nonempty (span is_word rest).0 && is_some (behind "(" (spaces (span is_word rest).1))
  ]

  -- `re.search(r"(?m)^\s*fn\s+\w+\s*\(", chunk)`.
  unfoldable pub has_prototype : Bool → String → Bool
  unfolding prototype_at
  has_prototype starts String.[] = false
  has_prototype starts (String.◌∷◌ c s) =
      (starts && prototype_at (String.◌∷◌ c s)) || has_prototype (code c == 10) s

  -- A prototype becomes `extern`; what else there is stays.
  unfoldable pub extern_prototype : String → String
  unfolding ends_with lstrip rstrip has_prototype add_extern
  extern_prototype chunk =
      if ends_with b';' (strip chunk) && has_prototype true chunk
      then add_extern true chunk
      else chunk

  -- `normalize_valid_chunk(chunk)`.
  unfoldable pub normalize_valid_chunk : String → String
  unfolding is_rejected_chunk extern_prototype
  normalize_valid_chunk chunk = if is_rejected_chunk chunk then "" else extern_prototype chunk

  -- `_keep_flags(split_top_level(src))`.
  unfoldable pub source_flags : String → Option (List Bool)
  unfolding split_top_level keep_flags declared_names referenced_names
  source_flags src =
      keep_flags (declared_names is_word) (referenced_names is_word) (split_top_level src)

  -- `strip_expect_error(src)`.
  unfoldable pub strip_expect_error : String → Option String
  unfolding source_flags cat split_top_level selected
  strip_expect_error src = do
    keep ← source_flags src
    some (cat (selected (split_top_level src) keep))

  -- The text of each chunk, empty without its flag.
  unfoldable pub normalized : List String → List Bool → List String
  unfolding normalize_valid_chunk
  normalized (ch ∷ chunks) (k ∷ keep) =
      (if k then normalize_valid_chunk ch else "") ∷ normalized chunks keep
  normalized _ _ = []

  -- `valid_program(src)`.
  unfoldable pub valid_program : String → Option String
  unfolding source_flags cat split_top_level normalized
  valid_program src = do keep ← source_flags src; some (cat (normalized (split_top_level src) keep))
