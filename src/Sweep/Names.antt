-- ===== src/Sweep/Names.antt =====
-- The names in a chunk of a fixture, from tools/toolchain/spec_sweep_lib.py: `_without_comments`,
-- `declared_names` and `referenced_names`, with their regular expressions. The characters of `\w`
-- stand in tables of Unicode, and are an argument.
use Prim.Native.Char.{code}
use modern_c.Prelude.{
  ℕ, zero, suc, String, Bool, true, false, not, List, [], ◌∷◌, ◌++◌, Option, none, some, ◌>>=◌,
  ◌==◌, is_space, minus, behind, span, size, if◌then◌else◌,
}
use modern_c.Fuzz.Keys.{is_word_start}
use modern_c.Sweep.Chunks.{to_comment_end}

abbrev in_line : ℕ → Bool
in_line n = not (n == 10)

-- The text behind a comment, where one starts: a `//` comment leaves its newline.
unfoldable pub behind_comment : String → Option String
unfolding span to_comment_end
behind_comment String.[] = none
behind_comment (String.◌∷◌ c String.[]) = none
behind_comment (String.◌∷◌ c (String.◌∷◌ d s)) = elim (code c == b'/') [
  | false ↦ none
  | true ↦ elim (code d == b'/') [
    | true ↦ some (span in_line s).1
    | false ↦ if code d == b'*' then some (to_comment_end s).1 else none
  ]
]

-- `while i < n`, on fuel: the length of the text, which every step shortens.
unfoldable pub code_from : ℕ → String → String
unfolding behind_comment
code_from zero s = ""
code_from (suc fuel) String.[] = ""
code_from (suc fuel) (String.◌∷◌ c s) = elim (behind_comment (String.◌∷◌ c s)) [
  | some rest ↦ code_from fuel rest
  | none ↦ String.◌∷◌ c (code_from fuel s)
]

-- `_without_comments(chunk)`.
unfoldable pub without_comments : String → String
unfolding code_from
without_comments chunk = code_from (size chunk) chunk

-- `\s*`.
unfoldable pub spaces : String → String
unfolding span
spaces s = (span is_space s).1

-- `\s+`.
unfoldable pub spaces1 : String → Option String
unfolding spaces
spaces1 String.[] = none
spaces1 (String.◌∷◌ c s) = if is_space (code c) then some (spaces s) else none

-- One of the words, and white space.
unfoldable pub one_word : List String → String → Option String
unfolding behind spaces1
one_word [] s = none
one_word (w ∷ ws) s = elim (behind w s) [
  | none ↦ one_word ws s
  | some rest ↦ elim (spaces1 rest) [ some rest' ↦ some rest' | none ↦ one_word ws s ]
]

-- As many of them as there are: the fuel is the length of the text.
unfoldable pub all_words : ℕ → List String → String → String
unfolding one_word
all_words zero ws s = s
all_words (suc fuel) ws s = elim (one_word ws s) [ some rest ↦ all_words fuel ws rest | none ↦ s ]

abbrev pub decl_prefix : List String
decl_prefix = "pub" ∷ "export" ∷ "extern" ∷ "comptime" ∷ "region" ∷ "view" ∷ "const" ∷ []

abbrev pub decl_keywords : List String
decl_keywords = "fn" ∷ "struct" ∷ "enum" ∷ "union" ∷ "trait" ∷ "global" ∷ "type" ∷ "module" ∷ []

abbrev pub value_prefix : List String
value_prefix = "pub" ∷ "export" ∷ []

abbrev pub value_keywords : List String
value_keywords = "const" ∷ "global" ∷ []

module _ (is_word : ℕ → Bool) where
  -- `[A-Za-z_]\w*`, and the rest.
  unfoldable pub ident : String → Option (String × String)
  unfolding span
  ident String.[] = none
  ident (String.◌∷◌ c s) =
      if is_word_start (code c)
      then some (String.◌∷◌ c (span is_word s).0, (span is_word s).1)
      else none

  -- What `_DECLARES` and `_DECLARES_VALUE` have in common: prefixes, a keyword and the name.
  unfoldable pub introduced : List String → List String → String → Option (String × String)
  unfolding spaces all_words one_word ident
  introduced prefixes keywords s = do
    rest ← one_word keywords (all_words (size s) prefixes (spaces s))
    ident rest

  -- One match of `_DECLARES` at the start of a line.
  unfoldable pub declares : String → Option (String × String)
  unfolding introduced
  declares s = introduced decl_prefix decl_keywords s

  -- One match of `_DECLARES_VALUE`.
  unfoldable pub declares_value : String → Option (String × String)
  unfolding introduced spaces behind
  declares_value s = do
    (name, rest) ← introduced value_prefix value_keywords s
    rest' ← behind ":" (spaces rest)
    some (name, rest')

  -- `_IDENT.findall(text)`, on fuel.
  unfoldable pub idents : ℕ → String → List String
  unfolding ident
  idents zero s = []
  idents (suc fuel) String.[] = []
  idents (suc fuel) (String.◌∷◌ c s) = elim (ident (String.◌∷◌ c s)) [
    | some (name, rest) ↦ name ∷ idents fuel rest
    | none ↦ idents fuel s
  ]

-- `findall` of an expression that starts with `^`: it is tried where a line starts, and the search goes
-- on behind a match, which does not end a line.
unfoldable pub find_lines : (String → Option (String × String)) → ℕ → Bool → String → List String
find_lines match zero starts s = []
find_lines match (suc fuel) starts String.[] = []
find_lines match (suc fuel) false (String.◌∷◌ c s) = find_lines match fuel (code c == 10) s
find_lines match (suc fuel) true (String.◌∷◌ c s) = elim (match (String.◌∷◌ c s)) [
  | some (name, rest) ↦ name ∷ find_lines match fuel false rest
  | none ↦ find_lines match fuel (code c == 10) s
]

module _ (is_word : ℕ → Bool) where
  -- `declared_names(chunk)`.
  unfoldable pub declared_names : String → List String
  unfolding without_comments find_lines declares declares_value
  declared_names chunk =
      let text = without_comments chunk in
      find_lines (declares is_word) (size text) true text
      ++ find_lines (declares_value is_word) (size text) true text

  -- `referenced_names(chunk)`.
  unfoldable pub referenced_names : String → List String
  unfolding without_comments idents minus declared_names
  referenced_names chunk =
      let text = without_comments chunk in
      minus (idents is_word (size text) text) (declared_names chunk)
