-- ===== src/Fuzz/Repro.antt =====
-- What tools/fuzz/mcfuzz.py does with findings: `_triage_record` and `_auto_shrink_failures`.
pub mod Once
use Prim.Native.Char.{Char, code}
use Prim.Native.String as Texts
use modern_c.Prelude.{
  ℕ, zero, suc, ◌+◌, String, Bool, true, false, not, ◌&&◌, ◌||◌, List, [], ◌∷◌, ◌++◌, map, Option,
  none, some, ◌>>=◌, leb, ◌==◌, cat, join, decimal, has, same_text, mentions, behind, ◌⊎◌, inl, inr,
  if◌then◌else◌,
}
use modern_c.Fuzz.Numbers.{ℤ, digits_from}
use modern_c.Fuzz.Differential.{succeeds}
use modern_c.Fuzz.Signature.{is_digit, run1, split_finding, squeeze}
use modern_c.Fuzz.Buckets.{finding_signature}
use modern_c.Fuzz.Shrink.{shrink_source}
use modern_c.Fuzz.Commands.{RunArgs, run_reproduce_command, shrink_command}

pub record Triaged : Type 0 where
  pub seed : Option ℕ
  pub signature : String
  pub message : String
  pub reproduce_command : Option String
  pub shrink_with : Option String
  pub confirmed : Bool

abbrev pub with_seed : (ℕ → String) → Option ℕ → Option String
with_seed f none = none
with_seed f (some seed) = some (f seed)

module _ (is_word : ℕ → Bool) (lower : String → String) (args : RunArgs) where
  -- `_triage_record(args, finding, confirmed_after_hang_recheck)`; what it copies of `args` stays there.
  unfoldable pub triage_record : String × Bool → Triaged
  unfolding split_finding finding_signature run_reproduce_command shrink_command
  triage_record (finding, confirmed) = record {
    seed = (split_finding finding).0;
    signature = finding_signature is_word lower args.oracle finding;
    message = finding;
    reproduce_command = with_seed (run_reproduce_command args) (split_finding finding).0;
    shrink_with = with_seed (shrink_command args) (split_finding finding).0;
    confirmed = confirmed;
  }

-- What becomes of a record: nothing, or its `shrink_status`. `unfinished` would be a reduction that does
-- not end.
pub data Shrunk : Type 0 where
  not_tried : Shrunk
  skipped : String → Shrunk
  unfinished : Shrunk
  minimized : (path text minimal : String) → Shrunk

-- `[A-Za-z0-9_.-]`.
abbrev in_name : ℕ → Bool
in_name n =
    (leb 97 n && leb n 122) || (leb 65 n && leb n 90) || is_digit n || n == 95 || n == 46 || n == 45

unfoldable pub ends_newline : String → Bool
ends_newline String.[] = false
ends_newline (String.◌∷◌ c String.[]) = code c == 10
ends_newline (String.◌∷◌ c (String.◌∷◌ d s)) = ends_newline (String.◌∷◌ d s)

unfoldable pub ends_slash : String → Bool
ends_slash String.[] = false
ends_slash (String.◌∷◌ c String.[]) = code c == 47
ends_slash (String.◌∷◌ c (String.◌∷◌ d s)) = ends_slash (String.◌∷◌ d s)

-- `os.path.join(directory, name)` for a name that starts with no slash.
unfoldable pub join_path : String → String → String
unfolding ends_slash cat
join_path directory name =
    if same_text directory "" || ends_slash directory
    then cat (directory ∷ name ∷ [])
    else cat (directory ∷ "/" ∷ name ∷ [])

-- The path of the minimized program.
unfoldable pub repro_path : RunArgs → ℕ → String → String
unfolding join_path cat decimal squeeze
repro_path args seed sig =
    join_path args.triage_dir
      (cat ("minimized-seed-" ∷ decimal seed ∷ "-" ∷ squeeze in_name "_" false sig ∷ ".mc" ∷ []))

-- What is written there.
unfoldable pub repro_text : RunArgs → ℕ → (sig minimal : String) → String
unfolding cat decimal ends_newline
repro_text args seed sig minimal = cat (
    "// minimized repro for seed "
    ∷ decimal seed
    ∷ " (mcfuzz/"
    ∷ args.oracle
    ∷ ", signature "
    ∷ sig
    ∷ ")\n"
    ∷ minimal
    ∷ (if ends_newline minimal then "" else "\n")
    ∷ [])

module _ (args : RunArgs) (generate : ℕ → String) (on_source : ℕ → String → Option String)
    (signature_of : String → String) where
  -- `_source_for_auto_shrink(args, seed)`.
  unfoldable pub source_for_auto_shrink : ℕ → Option String
  source_for_auto_shrink seed =
      if same_text args.oracle "reference" || same_text args.oracle "floatbits"
      then none
      else some (generate seed)

  -- The reduction of a source whose failure came again.
  unfoldable pub minimize : ℕ → (sig source : String) → Shrunk
  unfolding shrink_source repro_path repro_text
  minimize seed sig source = elim (shrink_source (on_source seed) signature_of sig source) [
    | none ↦ unfinished
    | some minimal ↦ minimized (repro_path args seed sig) (repro_text args seed sig minimal) minimal
  ]

  unfoldable pub shrink_again : ℕ → (sig source : String) → Shrunk
  unfolding minimize
  shrink_again seed sig source = elim (on_source seed source) [
    | none ↦ skipped "failure did not reproduce through the shrink oracle"
    | some original ↦
        if same_text (signature_of original) sig
        then minimize seed sig source
        else skipped "failure did not reproduce through the shrink oracle"
  ]

  -- The first record of a signature.
  unfoldable pub shrink_first : ℕ → (sig : String) → Shrunk
  unfolding source_for_auto_shrink shrink_again
  shrink_first seed sig = elim (source_for_auto_shrink seed) [
    | none ↦ skipped "oracle does not shrink against the run source"
    | some source ↦ shrink_again seed sig source
  ]

  -- What becomes of a record with this seed, and the signatures that are seen then.
  unfoldable pub record_outcome : List String → Triaged → Option ℕ → Shrunk × List String
  unfolding shrink_first has
  record_outcome seen r none = (not_tried, seen)
  record_outcome seen r (some seed) = elim (has r.signature seen) [
    | true ↦ (not_tried, seen)
    | false ↦ (shrink_first seed r.signature, r.signature ∷ seen)
  ]

  -- `for record in records`.
  unfoldable pub shrink_records : List String → List Triaged → List (Triaged × Shrunk)
  unfolding record_outcome
  shrink_records seen [] = []
  shrink_records seen (r ∷ rs) =
      (r, (record_outcome seen r r.seed).0) ∷ shrink_records (record_outcome seen r r.seed).1 rs

  -- `_auto_shrink_failures(env, args, records)`.
  unfoldable pub auto_shrink_failures : List Triaged → List (Triaged × Shrunk)
  unfolding shrink_records
  auto_shrink_failures records = shrink_records [] records
