-- ===== src/Fuzz/MapFile/Accepted.antt =====
-- When `_check_emit_map` of tools/fuzz/mcfuzz.py has no complaint.
use modern_c.Prelude.{
  is_some, ◌≡◌, refl, ◌↔◌, String, Bool, true, false, ◌||◌, List, [], ◌∷◌, Option, none, some, All,
  Bool-cases, ◌⊎◌, inl, inr, arith, if◌then◌else◌,
}
use modern_c.Fuzz.Rows.{get}
use modern_c.Fuzz.Numbers.{positive_int}
use modern_c.Fuzz.MapFile.{
  Entry, MapComplaint, first_failing, entry_keys, position_keys, is_export, mir_known, mir_function,
  source_matches, then_check, named, entry_complaint, check_entries, check_parsed,
  parse_mcmap_entries, check_emit_map,
}

first_failing_iff :
    (ok : String → Bool) (ks : List String)
    → (first_failing ok ks ≡ none) ↔ All (λ k. ok k ≡ true) ks
unfolding first_failing
first_failing_iff ok [] = ((λ h. tt), (λ h. refl))
first_failing_iff ok (k ∷ ks) = elim (Bool-cases (ok k)) [
  | inl e ↦
      rw e ((λ h. (refl, (first_failing_iff ok ks).0 h)), (λ h. (first_failing_iff ok ks).1 h.1))
  | inr e ↦ rw e ((λ h. absurd cc), (λ h. absurd cc))
]

then_check_iff : (a b : Option MapComplaint) → (then_check a b ≡ none) ↔ ((a ≡ none) × (b ≡ none))
unfolding then_check
then_check_iff none b = ((λ h. (refl, h)), (λ h. h.1))
then_check_iff (some c) b = ((λ h. absurd cc), (λ h. absurd cc))

named_iff : (c : String → MapComplaint) (o : Option String) → (named c o ≡ none) ↔ (o ≡ none)
unfolding named
named_iff c none = ((λ h. refl), (λ h. refl))
named_iff c (some k) = ((λ h. absurd cc), (λ h. absurd cc))

test_iff : (b : Bool) (c : MapComplaint) → ((if b then none else some c) ≡ none) ↔ (b ≡ true)
test_iff true c = ((λ h. refl), (λ h. refl))
test_iff false c = ((λ h. absurd cc), (λ h. absurd cc))

module _ (src_path : String) (mir_functions : String → Bool) where
  -- An entry with all of its keys, positive positions, the source path where it comes from the source,
  -- and a block of a known function where it names one.
  abbrev pub Accepted : Entry → Type 0
  Accepted entry =
      All (λ k. is_some (get k entry) ≡ true) entry_keys
      × All (λ k. positive_int (get k entry) ≡ true) position_keys
      × (source_matches src_path mir_functions entry ≡ true)
      × (mir_known src_path mir_functions (mir_function entry) ≡ true)

  abbrev any_export : List Entry → Bool
  any_export [] = false
  any_export (e ∷ es) = is_export e || any_export es

  entry_complaint_iff :
      (entry : Entry) → (entry_complaint src_path mir_functions entry ≡ none) ↔ Accepted entry
  unfolding entry_complaint
  entry_complaint_iff entry = (
    (λ h.
        let (keys, h₁) = (then_check_iff _ _).0 h in
        let (positions, h₂) = (then_check_iff _ _).0 h₁ in
        let (source, mir) = (then_check_iff _ _).0 h₂ in
        (
          (first_failing_iff (λ k. is_some (get k entry)) entry_keys).0 ((named_iff _ _).0 keys),
          (first_failing_iff (λ k. positive_int (get k entry)) position_keys).0
              ((named_iff _ _).0 positions),
          (test_iff _ _).0 source,
          (test_iff _ _).0 mir,
        )),
    (λ h. (then_check_iff _ _).1 (
      (named_iff _ _).1 ((first_failing_iff (λ k. is_some (get k entry)) entry_keys).1 h.0),
      (then_check_iff _ _).1 (
        (named_iff _ _).1
            ((first_failing_iff (λ k. positive_int (get k entry)) position_keys).1 h.1),
        (then_check_iff _ _).1 ((test_iff _ _).1 h.2, (test_iff _ _).1 h.3),
      ),
    )),
  )

  check_entries_iff :
      (es : List Entry) (saw : Bool)
      → (check_entries src_path mir_functions es saw ≡ none)
        ↔ (All Accepted es × ((saw || any_export es) ≡ true))
  unfolding check_entries
  check_entries_iff [] saw = ((λ h. ground arith), (λ h. ground arith))
  check_entries_iff (e ∷ es) saw =
      let (to, from) = check_entries_iff es (saw || is_export e) in
      let (accept, refuse) = entry_complaint_iff e in
      (
        (λ h.
            let (here, rest) = (then_check_iff _ _).0 h in
            let (all, found) = to rest in ((accept here, all), ground arith)),
        (λ h. (then_check_iff _ _).1 (refuse h.0.0, from (h.0.1, ground (arith, h.1)))),
      )

  -- The map parses, and its entries are accepted and export the harness.
  abbrev pub AcceptedMap : MapComplaint ⊎ List Entry → Type 0
  AcceptedMap (inl c) = ⊥
  AcceptedMap (inr es) = All Accepted es × (any_export es ≡ true)

  check_parsed_iff :
      (r : MapComplaint ⊎ List Entry)
      → (check_parsed src_path mir_functions r ≡ none) ↔ AcceptedMap r
  unfolding check_parsed
  check_parsed_iff (inl c) = ((λ h. absurd cc), (λ h. absurd h))
  check_parsed_iff (inr es) = check_entries_iff es false

  -- The check of the source map has no complaint exactly where the map parses, each of its entries has
  -- every key, positive positions, the source path where it comes from the source and a known function
  -- where it names a block of one, and some entry exports the harness.
  pub check_emit_map_iff :
      (text : String)
      → (check_emit_map src_path mir_functions text ≡ none) ↔ AcceptedMap (parse_mcmap_entries text)
  unfolding check_emit_map
  check_emit_map_iff text = check_parsed_iff (parse_mcmap_entries text)
