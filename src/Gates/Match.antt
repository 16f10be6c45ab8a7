-- ===== src/Gates/Match.antt =====
-- `matches` of tools/dev-gates.py, with what it uses of `fnmatch` and `pathlib`. No pattern of the
-- rules has a `[`, so the wildcards are `*` and `?`; `PurePosixPath.match` takes `**` for `*`.
use modern_c.Prelude.{
  String, Bool, true, false, ◌&&◌, ◌||◌, not, List, [], ◌∷◌, ◌++◌, ◌==◌, length, split, same_text,
  starts_with, if◌then◌else◌,
}
use Prim.Native.Char.{Char, code}

-- `*` in front of a pattern: the pattern may go on at every later place.
pub anywhere : (String → Bool) → String → Bool
anywhere rest String.[] = rest ""
anywhere rest (String.◌∷◌ c s) = rest (String.◌∷◌ c s) || anywhere rest s

pub next_char : (Char → Bool) → (String → Bool) → String → Bool
next_char ok rest String.[] = false
next_char ok rest (String.◌∷◌ c s) = ok c && rest s

-- `fnmatch.fnmatch(text, pattern)`, the pattern first.
pub fnmatch : String → String → Bool
unfolding anywhere next_char
fnmatch String.[] s = same_text s ""
fnmatch (String.◌∷◌ p ps) s = elim (code p == b'*') [
  | true ↦ anywhere (fnmatch ps) s
  | false ↦ next_char (λ c. code p == b'?' || code p == code c) (fnmatch ps) s
]

-- The parts of a relative path: no empty ones, and no `.`.
pub kept_parts : List String → List String
kept_parts [] = []
kept_parts (w ∷ ws) =
    let rest = kept_parts ws in if same_text w "" || same_text w "." then rest else w ∷ rest

-- `PurePosixPath(path).parts`; an absolute path starts with the root.
pub path_parts : String → List String
unfolding split kept_parts
path_parts s = (if starts_with s "/" then "/" ∷ [] else []) ++ kept_parts (split b'/' s)

pub reverse_onto : List String → List String → List String
reverse_onto [] acc = acc
reverse_onto (w ∷ ws) acc = reverse_onto ws (w ∷ acc)

-- The parts are compared from the right; the path may have more than the pattern.
pub match_parts : List String → List String → Bool
unfolding fnmatch
match_parts [] ws = true
match_parts (p ∷ ps) [] = false
match_parts (p ∷ ps) (w ∷ ws) = fnmatch p w && match_parts ps ws

-- `PurePosixPath(path).match(pattern)` for a pattern with a part; an absolute one matches the whole.
unfoldable pub path_match : String → String → Bool
unfolding path_parts reverse_onto match_parts
path_match path pattern =
    let ps = path_parts pattern in
    let ws = path_parts path in
    match_parts (reverse_onto ps []) (reverse_onto ws [])
    && (not (starts_with pattern "/") || length ps == length ws)

-- `"/" in pattern`.
pub has_slash : String → Bool
has_slash String.[] = false
has_slash (String.◌∷◌ c s) = code c == b'/' || has_slash s

unfoldable pub matches : String → String → Bool
unfolding has_slash path_match fnmatch
matches path pattern = if has_slash pattern then path_match path pattern else fnmatch pattern path
