-- ===== src/Json.antt =====
-- What `json.loads` gives, with the tests of Python on it.
use modern_c.Prelude.{String, Bool, List, [], ◌∷◌, Option, none, some, same_text, if◌then◌else◌}
use modern_c.Fuzz.Numbers.{ℤ, pos}

mutual
  pub data Json : Type 0 where
    null : Json
    boolean : Bool → Json
    number : ℤ → Json
    real : String → Json
    text : String → Json
    array : Items → Json
    object : Fields → Json

  pub data Items : Type 0 where
    last_item : Items
    item : Json → Items → Items

  -- The keys of a `dict` are different from each other, as `json.loads` leaves them.
  pub data Fields : Type 0 where
    last_field : Fields
    field : String → Json → Fields → Fields

-- `d.get(key)`.
unfoldable pub get_field : String → Fields → Option Json
get_field key last_field = none
get_field key (field k j fs) =
    let rest = get_field key fs in if same_text key k then some j else rest

unfoldable pub keys : Fields → List String
keys last_field = []
keys (field k j fs) = k ∷ keys fs

-- The value where `isinstance` passes; a `bool` is an `int` too.
abbrev pub as_dict : Json → Option Fields
as_dict (object fs) = some fs
as_dict _ = none

abbrev pub as_list : Json → Option Items
as_list (array js) = some js
as_list _ = none

abbrev pub as_text : Json → Option String
as_text (text s) = some s
as_text _ = none

abbrev pub as_int : Json → Option ℤ
as_int (number n) = some n
as_int (boolean b) = some (pos (if b then 1 else 0))
as_int _ = none
