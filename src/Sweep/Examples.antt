-- ===== src/Sweep/Examples.antt =====
-- Runs of the functions of tools/toolchain/spec_sweep_lib.py on small fixtures, and the theorems at them.
use modern_c.Prelude.{arith, All, ◌≡◌, refl, String, Bool, List, [], ◌∷◌, map, some, cat}
use modern_c.Fuzz.Keys.{is_word}
use modern_c.Sweep.Chunks.{split_top_level}
use modern_c.Sweep.Chunks.Lossless.{Covers, split_top_level-Covers}
use modern_c.Sweep.Names.{declared_names, referenced_names}
use modern_c.Sweep.Keep.{is_rejected_chunk, keep_flags}
use modern_c.Sweep.Keep.Greatest.{IsGreatest, keep_flags-IsGreatest}
use modern_c.Sweep.Valid.{selected, extern_prototype, strip_expect_error, valid_program}
use modern_c.Sweep.Valid.Prototype.{Apart}
use modern_c.Sweep.Valid.Extern.{IsNormal}
use modern_c.Sweep.Valid.Positive.{valid_program-selected}

abbrev fixture : String
fixture = "// a; b {\nstruct Box { n: u8; }\nfn put(s: *u8);\nfn f(b: Box) { g(\"}\"); }\n\n"

abbrev declared_fixture : String
declared_fixture = "// EXPECT_ERROR\nfn bad() {}\n  fn put(s: *u8);\nfn h() { put(x); }\n"

abbrev negative_fixture : String
negative_fixture = "// EXPECT_ERROR\nstruct Bad {}\nfn f(b: Bad) {}\nfn g() { f(x); }\nfn h() {}\n"

split_top_level_test : split_top_level fixture ≡ (
    "// a; b {\nstruct Box { n: u8; }" ∷ "\nfn put(s: *u8);" ∷ "\nfn f(b: Box) { g(\"}\"); }" ∷ [])
unfolding split_top_level
split_top_level_test = refl

names_test :
    (declared_names is_word "export  fn f(b: Box) { /* Bad */ g(); }" ≡ "f" ∷ [])
    × (referenced_names is_word "fn f(b: Box) { /* Bad */ g(); }" ≡ "fn" ∷ "b" ∷ "Box" ∷ "g" ∷ [])
    × (declared_names is_word "\npub const limit : u8 = 3;" ≡ "limit" ∷ [])
unfolding declared_names referenced_names
names_test = (refl, refl, refl)

strip_expect_error_test : strip_expect_error is_word negative_fixture ≡ some "\nfn h() {}"
unfolding strip_expect_error is_rejected_chunk
strip_expect_error_test = refl

extern_test : extern_prototype is_word "\n  fn put(s: *u8);" ≡ "\n  extern fn put(s: *u8);"
unfolding extern_prototype
extern_test = refl

split_top_level-Covers_example : Covers fixture (split_top_level fixture)
split_top_level-Covers_example = split_top_level-Covers fixture

keep_flags-IsGreatest_example :
    (r : List Bool) × (keep_flags
        (declared_names is_word)
        (referenced_names is_word)
        (split_top_level negative_fixture)
      ≡ some r)
    × IsGreatest
        (declared_names is_word)
        (referenced_names is_word)
        (split_top_level negative_fixture)
        r
keep_flags-IsGreatest_example =
    keep_flags-IsGreatest (declared_names is_word) (referenced_names is_word)
      (split_top_level negative_fixture)

is_word-Apart : Apart is_word
is_word-Apart = record { no_space = λ n h. ground (arith, h); no_paren = refl }

valid_program-selected_example :
    (keep : List Bool) × (IsGreatest
      (declared_names is_word)
      (referenced_names is_word)
      (split_top_level declared_fixture)
      keep)
    × (strip_expect_error is_word declared_fixture
        ≡ some (cat (selected (split_top_level declared_fixture) keep)))
    × (valid_program is_word declared_fixture
        ≡ some (
            cat
              (map (extern_prototype is_word) (selected (split_top_level declared_fixture) keep))))
    × All
        (λ chunk. IsNormal is_word chunk (extern_prototype is_word chunk))
        (selected (split_top_level declared_fixture) keep)
valid_program-selected_example = valid_program-selected is_word is_word-Apart declared_fixture
