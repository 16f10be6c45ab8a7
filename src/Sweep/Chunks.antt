-- ===== src/Sweep/Chunks.antt =====
-- `split_top_level` of tools/toolchain/spec_sweep_lib.py: the top-level chunks of a source, with
-- comments and literals taken as they are.
pub mod Lossless
use Prim.Native.Char.{Char, code}
use Prim.Native.String as Texts
use modern_c.Prelude.{
  ℕ, zero, suc, ◌-◌, String, Bool, true, false, ◌&&◌, ◌||◌, List, [], ◌∷◌, Option, none, some, ◌==◌,
  lstrip, rstrip, strip, same_text, size, with_char, if◌then◌else◌,
}
use modern_c.Fuzz.Numbers.{ℤ, pos, negsuc}

-- To the end of the line, with its newline: `src[i:j]` for the `j` of a `//` comment.
unfoldable pub to_newline : String → String × String
to_newline String.[] = ("", "")
to_newline (String.◌∷◌ c s) = elim (code c == 10) [
  | true ↦ (String.◌∷◌ c "", s)
  | false ↦ with_char c (to_newline s)
]

-- To the first `*/`, with it.
unfoldable pub to_comment_end : String → String × String
to_comment_end String.[] = ("", "")
to_comment_end (String.◌∷◌ c String.[]) = (String.◌∷◌ c "", "")
to_comment_end (String.◌∷◌ c (String.◌∷◌ d s)) = elim (code c == b'*' && code d == b'/') [
  | true ↦ (String.◌∷◌ c (String.◌∷◌ d ""), s)
  | false ↦ with_char c (to_comment_end (String.◌∷◌ d s))
]

-- The rest of a literal that the quote `q` opens: a backslash takes the next character with it.
unfoldable pub to_quote : ℕ → String → String × String
to_quote q String.[] = ("", "")
to_quote q (String.◌∷◌ c String.[]) = (String.◌∷◌ c "", "")
to_quote q (String.◌∷◌ c (String.◌∷◌ d s)) = elim (code c == 92) [
  | true ↦ with_char c (with_char d (to_quote q s))
  | false ↦ elim (code c == q) [
    | true ↦ (String.◌∷◌ c "", String.◌∷◌ d s)
    | false ↦ with_char c (to_quote q (String.◌∷◌ d s))
  ]
]

-- The comment at the start of a text, where there is one, and the rest.
unfoldable pub comment : String → Option (String × String)
unfolding to_newline to_comment_end
comment String.[] = none
comment (String.◌∷◌ c String.[]) = none
comment (String.◌∷◌ c (String.◌∷◌ d s)) = elim (code c == b'/') [
  | false ↦ none
  | true ↦ elim (code d == b'/') [
    | true ↦ some (with_char c (with_char d (to_newline s)))
    | false ↦ elim (code d == b'*') [
      | true ↦ some (with_char c (with_char d (to_comment_end s)))
      | false ↦ none
    ]
  ]
]

-- The string or character literal at the start of a text.
unfoldable pub literal : String → Option (String × String)
unfolding to_quote
literal String.[] = none
literal (String.◌∷◌ c s) = elim (code c == 34 || code c == 39) [
  | true ↦ some (with_char c (to_quote (code c) s))
  | false ↦ none
]

-- What is copied without being read.
unfoldable pub verbatim : String → Option (String × String)
unfolding comment literal
verbatim s = elim (comment s) [ some piece ↦ some piece | none ↦ literal s ]

abbrev up : ℤ → ℤ
up (pos n) = pos (suc n)
up (negsuc zero) = pos 0
up (negsuc (suc n)) = negsuc n

abbrev down : ℤ → ℤ
down (pos zero) = negsuc 0
down (pos (suc n)) = pos n
down (negsuc n) = negsuc (suc n)

abbrev pub is_zero : ℤ → Bool
is_zero (pos n) = n == 0
is_zero (negsuc n) = false

-- The depth of braces behind a character; more `}` than `{` make it negative.
abbrev pub depth_behind : ℕ → ℤ → ℤ
depth_behind c depth = if c == b'{' then up depth else if c == b'}' then down depth else depth

-- Whether a character that leaves the depth ends a chunk.
abbrev pub ends_chunk : ℕ → ℤ → Bool
ends_chunk c depth = (c == b'}' || c == b';') && is_zero depth

-- What is left in `buf` is a chunk unless it is blank.
unfoldable pub last_chunk : String → List String
unfolding lstrip rstrip
last_chunk buf = if same_text (strip buf) "" then [] else buf ∷ []

-- `while i < n`: the fuel is the length of the text that is left, and no step leaves it as long.
unfoldable pub split_from : ℕ → ℤ → String → String → List String
unfolding verbatim last_chunk
split_from zero depth buf s = last_chunk buf
split_from (suc fuel) depth buf String.[] = last_chunk buf
split_from (suc fuel) depth buf (String.◌∷◌ c s) = elim (verbatim (String.◌∷◌ c s)) [
  | some (piece, rest) ↦ split_from fuel depth (Texts.◌++◌ buf piece) rest
  | none ↦ elim (ends_chunk (code c) (depth_behind (code c) depth)) [
    | true ↦ Texts.◌++◌ buf (String.◌∷◌ c "") ∷ split_from fuel (depth_behind (code c) depth) "" s
    | false ↦ split_from fuel (depth_behind (code c) depth) (Texts.◌++◌ buf (String.◌∷◌ c "")) s
  ]
]

-- `split_top_level(src)`.
unfoldable pub split_top_level : String → List String
unfolding split_from
split_top_level src = split_from (size src) (pos 0) "" src
