-- ===== src/Fuzz/Commands.antt =====
-- The commands that run a finding of tools/fuzz/mcfuzz.py again, with what it uses of `shlex`.
use Prim.Native.Char.{code}
use Prim.Native.String as Texts
use modern_c.Prelude.{
  ℕ, String, Bool, true, ◌&&◌, ◌||◌, List, [], ◌∷◌, ◌++◌, map, leb, ◌==◌, cat, join, decimal,
  same_text, if◌then◌else◌,
}
use modern_c.Fuzz.Signature.{is_digit}

-- What the command line fixes.
pub record RunArgs : Type 0 where
  pub oracle : String
  pub mcc : String
  pub trapping : Bool
  pub async_mode : Bool
  pub triage_dir : String

-- `[a-zA-Z0-9@%_+=:,./-]`, the characters that a shell takes as they are.
abbrev pub is_shell_safe : ℕ → Bool
is_shell_safe n =
    (leb 97 n && leb n 122)
    || (leb 65 n && leb n 90)
    || is_digit n
    || n == 64
    || n == 37
    || n == 95
    || n == 43
    || n == 61
    || n == 58
    || n == 44
    || n == 46
    || n == 47
    || n == 45

unfoldable pub all_plain : String → Bool
all_plain String.[] = true
all_plain (String.◌∷◌ c s) = is_shell_safe (code c) && all_plain s

-- Each `'` becomes `'"'"'`.
unfoldable pub escape_quotes : String → String
escape_quotes String.[] = ""
escape_quotes (String.◌∷◌ c s) =
    Texts.◌++◌ (if code c == 39 then "'\"'\"'" else String.◌∷◌ c "") (escape_quotes s)

-- `shlex.quote(text)`.
unfoldable pub quote : String → String
unfolding all_plain escape_quotes cat
quote s =
    if same_text s ""
    then "''"
    else if all_plain s
    then s
    else cat ("'" ∷ escape_quotes s ∷ "'" ∷ [])

-- `_shell_command(argv)`.
unfoldable pub shell_command : List String → String
unfolding join quote
shell_command argv = join " " (map quote argv)

abbrev flags : RunArgs → List String
flags args =
    (if args.trapping then "--trapping" ∷ [] else [])
    ++ (if args.async_mode then "--async" ∷ [] else [])

-- `_run_reproduce_command(args, seed)`.
unfoldable pub run_reproduce_command : RunArgs → ℕ → String
unfolding shell_command decimal
run_reproduce_command args seed = shell_command (
    ("python3"
      ∷ "tools/fuzz/mcfuzz.py"
      ∷ "run"
      ∷ "--oracle"
      ∷ args.oracle
      ∷ "--count"
      ∷ "1"
      ∷ "--start"
      ∷ decimal seed
      ∷ "--jobs"
      ∷ "1"
      ∷ "--mcc"
      ∷ args.mcc
      ∷ [])
    ++ flags args)

-- `_shrink_command(args, seed)`.
unfoldable pub shrink_command : RunArgs → ℕ → String
unfolding shell_command decimal
shrink_command args seed = shell_command (
    ("python3"
      ∷ "tools/fuzz/mcfuzz.py"
      ∷ "shrink"
      ∷ "--seed"
      ∷ decimal seed
      ∷ "--oracle"
      ∷ args.oracle
      ∷ "--mcc"
      ∷ args.mcc
      ∷ [])
    ++ flags args)
