-- ===== src/Fuzz/Keys.antt =====
-- The rows of the compiler's artifacts in tools/fuzz/mcfuzz.py: `_KV_RE`, `_unescape_map_string`,
-- `_parse_kv` and `_positive_int`, with what they use of `str`, `re`, `int` and `dict`.
use Prim.Native.Char.{Char, code}
use modern_c.Prelude.{
  ℕ, String, Bool, true, false, not, ◌&&◌, ◌||◌, List, [], ◌∷◌, Option, none, some, leb, ◌==◌,
  if◌then◌else◌,
}

-- Whether a character ends a line for `str.splitlines`.
abbrev pub is_break : ℕ → Bool
is_break n = (leb 10 n && leb n 13) || (leb 28 n && leb n 30) || n == 133 || n == 8232 || n == 8233

abbrev push : Char → List String → List String
push c [] = String.◌∷◌ c "" ∷ []
push c (w ∷ ws) = String.◌∷◌ c w ∷ ws

abbrev starts_newline : String → Bool
starts_newline String.[] = false
starts_newline (String.◌∷◌ c s) = code c == 10

-- `text.splitlines()`.
unfoldable pub splitlines : String → List String
splitlines String.[] = []
splitlines (String.◌∷◌ c s) =
    let rest = splitlines s in
    if code c == 13 && starts_newline s
    then rest
    else if is_break (code c)
    then "" ∷ rest
    else push c rest

abbrev pub is_word_start : ℕ → Bool
is_word_start n = (leb 65 n && leb n 90) || (leb 97 n && leb n 122) || n == 95

abbrev pub is_word : ℕ → Bool
is_word n = is_word_start n || (leb 48 n && leb n 57)

-- `[A-Za-z0-9_]*=`: the rest of a key, and what is behind the `=`.
unfoldable pub key_rest : String → Option (String × String)
key_rest String.[] = none
key_rest (String.◌∷◌ c s) = elim (code c == b'=') [
  | true ↦ some ("", s)
  | false ↦ elim (is_word (code c)) [
    | true ↦ elim (key_rest s) [ none ↦ none | some (key, rest) ↦ some (String.◌∷◌ c key, rest) ]
    | false ↦ none
  ]
]

-- `[A-Za-z_][A-Za-z0-9_]*=`.
unfoldable pub key : String → Option (String × String)
unfolding key_rest
key String.[] = none
key (String.◌∷◌ c s) = elim (is_word_start (code c)) [
  | true ↦ elim (key_rest s) [ none ↦ none | some (k, rest) ↦ some (String.◌∷◌ c k, rest) ]
  | false ↦ none
]

abbrev with_char : Char → Option (String × String) → Option (String × String)
with_char c none = none
with_char c (some (text, rest)) = some (String.◌∷◌ c text, rest)

-- The first of two matches, as a regular expression with backtracking takes it.
abbrev or_else : Option (String × String) → Option (String × String) → Option (String × String)
or_else none other = other
or_else (some m) other = some m

-- `(?:\\.|[^"])*"`: an escaped pair is tried first, the backslash alone after it.
unfoldable pub quoted : String → Option (String × String)
quoted String.[] = none
quoted (String.◌∷◌ c String.[]) = elim (code c == 34) [ true ↦ some ("", "") | false ↦ none ]
quoted (String.◌∷◌ c (String.◌∷◌ d s)) = elim (code c == 34) [
  | true ↦ some ("", String.◌∷◌ d s)
  | false ↦ elim (code c == 92 && not (code d == 10)) [
    | true ↦ or_else (with_char c (with_char d (quoted s))) (with_char c (quoted (String.◌∷◌ d s)))
    | false ↦ with_char c (quoted (String.◌∷◌ d s))
  ]
]

abbrev is_blank : ℕ → Bool
is_blank n = n == 32 || n == 9 || n == 13 || n == 10

-- `[^ \t\r\n]*`.
unfoldable pub bare_rest : String → String × String
bare_rest String.[] = ("", "")
bare_rest (String.◌∷◌ c s) = elim (is_blank (code c)) [
  | true ↦ ("", String.◌∷◌ c s)
  | false ↦ (String.◌∷◌ c (bare_rest s).0, (bare_rest s).1)
]

abbrev non_empty : String × String → Option (String × String)
non_empty (String.[], rest) = none
non_empty (String.◌∷◌ c w, rest) = some (String.◌∷◌ c w, rest)

-- `[^ \t\r\n]+`.
unfoldable pub bare : String → Option (String × String)
unfolding bare_rest
bare s = non_empty (bare_rest s)
