-- ===== src/Fuzz/MapFile.antt =====
-- The source map of the compiler in tools/fuzz/mcfuzz.py: `_parse_mcmap_entries` and
-- `_check_emit_map`. A complaint is a constructor with what the message names.
pub mod Accepted
use modern_c.Prelude.{
  is_some, String, Bool, true, false, not, ◌&&◌, ◌||◌, List, [], ◌∷◌, Option, none, some, ◌⊎◌, inl,
  inr, split, lstrip, rstrip, strip, has, same_text, starts_with, if◌then◌else◌,
}
use modern_c.Fuzz.Keys.{splitlines}
use modern_c.Fuzz.Rows.{get, parse_kv}
use modern_c.Fuzz.Numbers.{ℤ, positive_int}

abbrev pub Entry : Type 0
Entry = List (String × String)

pub data MapComplaint : Type 0 where
  no_header : MapComplaint
  no_entries : MapComplaint
  entry_missing : String → Entry → MapComplaint
  not_positive : String → Entry → MapComplaint
  other_source : Entry → MapComplaint
  unknown_mir : String → Entry → MapComplaint
  no_harness : MapComplaint

unfoldable pub entry_rows : List String → List Entry
unfolding parse_kv
entry_rows [] = []
entry_rows (line ∷ lines) =
    let rest = entry_rows lines in if starts_with line "entry " then parse_kv line ∷ rest else rest

abbrev pub or_none : List Entry → MapComplaint ⊎ List Entry
or_none [] = inl no_entries
or_none (e ∷ es) = inr (e ∷ es)

unfoldable pub mcmap_lines : List String → MapComplaint ⊎ List Entry
unfolding entry_rows lstrip rstrip
mcmap_lines [] = inl no_header
mcmap_lines (line ∷ lines) =
    if same_text (strip line) "# mcmap v1"
    then or_none (entry_rows (line ∷ lines))
    else inl no_header

-- `_parse_mcmap_entries(map_text)`.
unfoldable pub parse_mcmap_entries : String → MapComplaint ⊎ List Entry
unfolding mcmap_lines splitlines
parse_mcmap_entries text = mcmap_lines (splitlines text)

abbrev pub entry_keys : List String
entry_keys =
    "kind" ∷ "symbol" ∷ "source_line" ∷ "source_column" ∷ "source_len" ∷ "source_path"
    ∷ "typed_ast_node" ∷ "mir_block" ∷ "visibility" ∷ "origin" ∷ []

abbrev pub position_keys : List String
position_keys = "source_line" ∷ "source_column" ∷ "source_len" ∷ []

abbrev pub synthetic_mir_names : List String
synthetic_mir_names = "function" ∷ "global" ∷ "switch" ∷ []

-- `entry.get(key) == text`.
abbrev pub holds : String → String → Entry → Bool
holds key text entry = elim (get key entry) [ none ↦ false | some s ↦ same_text s text ]

-- The first key that fails a test.
unfoldable pub first_failing : (String → Bool) → List String → Option String
first_failing ok [] = none
first_failing ok (k ∷ ks) = let rest = first_failing ok ks in if ok k then rest else some k

abbrev pub or_empty : Option String → String
or_empty none = ""
or_empty (some s) = s

-- `parts[1]` of a text that `split(":")` takes into three parts or more.
abbrev pub second_of_three : List String → Option String
second_of_three (a ∷ (b ∷ (c ∷ ws))) = some b
second_of_three _ = none

-- The lower-mir function that an entry names.
unfoldable pub mir_function : Entry → Option String
unfolding get split
mir_function entry =
    let block = or_empty (get "mir_block" entry) in
    if starts_with block "mir:" then second_of_three (split b':' block) else none

unfoldable pub named : (String → MapComplaint) → Option String → Option MapComplaint
named c none = none
named c (some k) = some (c k)

abbrev pub is_export : Entry → Bool
is_export entry =
    holds "kind" "function" entry
    && holds "symbol" "harness" entry
    && holds "visibility" "exported" entry

unfoldable pub then_check : Option MapComplaint → Option MapComplaint → Option MapComplaint
then_check none c = c
then_check (some c) d = some c

module _ (src_path : String) (mir_functions : String → Bool) where
  abbrev pub mir_known : Option String → Bool
  mir_known none = true
  mir_known (some fn) = has fn synthetic_mir_names || mir_functions fn

  abbrev pub source_matches : Entry → Bool
  source_matches entry = not (holds "origin" "source" entry) || holds "source_path" src_path entry

  -- The complaint about one entry.
  unfoldable pub entry_complaint : Entry → Option MapComplaint
  unfolding first_failing get mir_function positive_int
  entry_complaint entry =
      then_check
        (named (λ k. entry_missing k entry) (first_failing (λ k. is_some (get k entry)) entry_keys))
        (then_check
          (named (λ k. not_positive k entry)
            (first_failing (λ k. positive_int (get k entry)) position_keys))
          (then_check (if source_matches entry then none else some (other_source entry)) (
            if mir_known (mir_function entry)
            then none
            else some (unknown_mir (or_empty (mir_function entry)) entry))))

  -- The loop over the entries, with `saw_harness_export`.
  unfoldable pub check_entries : List Entry → Bool → Option MapComplaint
  unfolding entry_complaint
  check_entries [] saw = if saw then none else some no_harness
  check_entries (entry ∷ entries) saw =
      then_check (entry_complaint entry) (check_entries entries (saw || is_export entry))

  unfoldable pub check_parsed : MapComplaint ⊎ List Entry → Option MapComplaint
  unfolding check_entries
  check_parsed (inl c) = some c
  check_parsed (inr entries) = check_entries entries false

  -- `_check_emit_map(map_text, src_path, mir_functions)`.
  unfoldable pub check_emit_map : String → Option MapComplaint
  unfolding parse_mcmap_entries check_parsed
  check_emit_map text = check_parsed (parse_mcmap_entries text)
