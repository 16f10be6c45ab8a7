-- ===== src/Fuzz/Rows.antt =====
-- `_unescape_map_string` and `_parse_kv` of tools/fuzz/mcfuzz.py, and the `dict` they fill.
use Prim.Native.Char.{Char, code, char, nul}
use Prim.Native.Nat.{Ordering, compare}
use Prim.Native.String as Texts
use modern_c.Prelude.{
  ℕ, zero, suc, ◌+◌, ◌-◌, ◌*◌, ◌≡◌, refl, String, true, false, ◌&&◌, ◌||◌, List, [], ◌∷◌, Option,
  none, some, leb, ◌==◌, is_space, same_text, same_text_iff, arith, if◌then◌else◌,
}
use modern_c.Fuzz.Keys.{key, quoted, bare}

-- `d[k] = v`: in its place where the key is there, else at the end.
module _ {ℓ} {V : Type ℓ} where
  unfoldable pub put : String → V → List (String × V) → List (String × V)
  put k v [] = (k, v) ∷ []
  put k v ((j, w) ∷ d) = let rest = put k v d in if same_text k j then (k, v) ∷ d else (j, w) ∷ rest

  -- `d.get(k)`.
  unfoldable pub get : String → List (String × V) → Option V
  get k [] = none
  get k ((j, w) ∷ d) = let rest = get k d in if same_text k j then some w else rest

-- The value of a hexadecimal digit.
abbrev hex : ℕ → Option ℕ
hex n =
    if leb 48 n && leb n 57
    then some (n - 48)
    else if leb 97 n && leb n 102
    then some (n - 87)
    else if leb 65 n && leb n 70
    then some (n - 55)
    else none

-- `int(text, 16)` for a text of two characters, where it is the code of a character: two digits, or
-- one with a sign or a space.
abbrev hex_byte : ℕ → ℕ → Option ℕ
hex_byte c d = elim (hex c) [
  | some x ↦ elim (hex d) [
    | some y ↦ some (x * 16 + y)
    | none ↦ if is_space d then some x else none
  ]
  | none ↦ elim (hex d) [
    | some y ↦ if is_space c || c == b'+' || (c == b'-' && y == 0) then some y else none
    | none ↦ none
  ]
]

chr_of : (n : ℕ) (o : Ordering) → compare n 55296 ≡ o → Char
chr_of n Ordering.lt e = char n (rw e tt)
chr_of n Ordering.eq e = nul
chr_of n Ordering.gt e = nul

-- `chr(n)` for a byte.
unfoldable pub chr : ℕ → Char
unfolding chr_of
chr n = chr_of n (compare n 55296) refl

-- What the character behind a backslash stands for, apart from `x`.
abbrev escaped : Char → String
escaped c =
    if code c == b'n'
    then "\n"
    else if code c == b'r'
    then "\r"
    else if code c == b't'
    then "\t"
    else String.◌∷◌ c ""

-- `_unescape_map_string(value)`.
unfoldable pub unescape_map_string : String → String
unfolding chr
unescape_map_string String.[] = ""
unescape_map_string (String.◌∷◌ c String.[]) = String.◌∷◌ c ""
unescape_map_string (String.◌∷◌ c (String.◌∷◌ d String.[])) = elim (code c == 92) [
  | false ↦ String.◌∷◌ c (unescape_map_string (String.◌∷◌ d String.[]))
  | true ↦ escaped d
]
unescape_map_string (String.◌∷◌ c (String.◌∷◌ d (String.◌∷◌ e String.[]))) = elim (code c == 92) [
  | false ↦ String.◌∷◌ c (unescape_map_string (String.◌∷◌ d (String.◌∷◌ e String.[])))
  | true ↦ Texts.◌++◌ (escaped d) (unescape_map_string (String.◌∷◌ e String.[]))
]
unescape_map_string (String.◌∷◌ c (String.◌∷◌ d (String.◌∷◌ e (String.◌∷◌ f s)))) =
    elim (code c == 92) [
      | false ↦ String.◌∷◌ c (unescape_map_string (String.◌∷◌ d (String.◌∷◌ e (String.◌∷◌ f s))))
      | true ↦ elim (code d == b'x') [
        | true ↦ elim (hex_byte (code e) (code f)) [
          | some n ↦ String.◌∷◌ (chr n) (unescape_map_string s)
          | none ↦ String.◌∷◌ d (unescape_map_string (String.◌∷◌ e (String.◌∷◌ f s)))
        ]
        | false ↦ Texts.◌++◌ (escaped d) (unescape_map_string (String.◌∷◌ e (String.◌∷◌ f s)))
      ]
    ]

-- The value behind a key: quoted, where the text starts with a `"` and a match is found, else bare.
abbrev pub value : String → Option (String × String)
value String.[] = none
value (String.◌∷◌ c s) = elim (code c == 34) [
  | true ↦ elim (quoted s) [
    | some (text, rest) ↦ some (unescape_map_string text, rest)
    | none ↦ bare (String.◌∷◌ c s)
  ]
  | false ↦ bare (String.◌∷◌ c s)
]

-- One match of `_KV_RE` at the start of a text: the pair, and what is behind it.
unfoldable pub pair_at : String → Option ((String × String) × String)
unfolding key quoted bare unescape_map_string
pair_at s = elim (key s) [
  | none ↦ none
  | some (k, s') ↦ elim (value s') [ none ↦ none | some (x, rest) ↦ some ((k, x), rest) ]
]

-- `_KV_RE.finditer(line)` from one position on: a match goes on behind it, else one character on.
-- The fuel is the length of the text, and no step leaves it as long.
unfoldable pub pairs : ℕ → String → List (String × String)
unfolding pair_at
pairs zero s = []
pairs (suc fuel) String.[] = []
pairs (suc fuel) (String.◌∷◌ c s) = elim (pair_at (String.◌∷◌ c s)) [
  | none ↦ pairs fuel s
  | some (kv, rest) ↦ kv ∷ pairs fuel rest
]

abbrev size : String → ℕ
size String.[] = 0
size (String.◌∷◌ c s) = suc (size s)

unfoldable pub fill : List (String × String) → List (String × String) → List (String × String)
unfolding put
fill [] d = d
fill ((k, x) ∷ kvs) d = fill kvs (put k x d)

-- `_parse_kv(line)`.
unfoldable pub parse_kv : String → List (String × String)
unfolding pairs fill
parse_kv line = fill (pairs (size line) line) []

pub get-put {ℓ} :
    {V : Type ℓ} (k j : String) (v : V) (d : List (String × V))
    → get k (put j v d) ≡ (if same_text k j then some v else get k d)
unfolding get put
get-put k j v [] = refl
get-put k j v ((i, w) ∷ d) =
    ground (arith, same_text_iff k j, same_text_iff j i, same_text_iff k i, get-put k j v d)
