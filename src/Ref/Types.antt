-- ===== src/Ref/Types.antt =====
-- The type table of tools/fuzz/mcref.py (`REF_TYPES`, `_mask`, `_fold`), and the names it declares.
use modern_c.Prelude.{ℕ, ◌-◌, ◌^◌, Bool, true, false, ◌&&◌, ◌==◌, List, [], ◌∷◌}

-- The four widths of the table's loop.
pub data Width : Type 0 where
  w8 w16 w32 w64 : Width

pub data Kind : Type 0 where
  plain wrap sat : Kind

-- The keys of `REF_TYPES`: `u8`, `wrap<u8>`, `sat<u8>` and so on, and `usize`.
pub data RefType : Type 0 where
  uint : Width → RefType
  wrap_of : Width → RefType
  sat_of : Width → RefType
  usize : RefType

abbrev pub bits : Width → ℕ
bits w8 = 8
bits w16 = 16
bits w32 = 32
bits w64 = 64

-- `REF_TYPES[rt][0]` and `REF_TYPES[rt][1]`.
abbrev pub width : RefType → ℕ
width (uint w) = bits w
width (wrap_of w) = bits w
width (sat_of w) = bits w
width usize = 64

abbrev pub kind : RefType → Kind
kind (uint w) = plain
kind (wrap_of w) = wrap
kind (sat_of w) = sat
kind usize = plain

-- The keys in the order in which the loop inserts them.
abbrev pub ref_types : List RefType
ref_types =
    uint w8
    ∷ wrap_of w8
    ∷ sat_of w8
    ∷ uint w16
    ∷ wrap_of w16
    ∷ sat_of w16
    ∷ uint w32
    ∷ wrap_of w32
    ∷ sat_of w32
    ∷ uint w64
    ∷ wrap_of w64
    ∷ sat_of w64
    ∷ usize
    ∷ []

-- `(1 << w) - 1`.
abbrev pub mask : ℕ → ℕ
mask w = 2 ^ w - 1

abbrev pub same_width : Width → Width → Bool
same_width w8 w8 = true
same_width w16 w16 = true
same_width w32 w32 = true
same_width w64 w64 = true
same_width _ _ = false

-- Equality of keys.
abbrev pub same_type : RefType → RefType → Bool
same_type (uint v) (uint w) = same_width v w
same_type (wrap_of v) (wrap_of w) = same_width v w
same_type (sat_of v) (sat_of w) = same_width v w
same_type usize usize = true
same_type _ _ = false

-- The prefixes with which `_new` makes the names of the core: variables and loop counters.
pub data Prefix : Type 0 where
  v j : Prefix

-- `"%s%d" % (prefix, n)`, kept apart.
pub record Ident : Type 0 where
  pub prefix : Prefix
  pub number : ℕ

abbrev pub same_prefix : Prefix → Prefix → Bool
same_prefix v v = true
same_prefix j j = true
same_prefix _ _ = false

abbrev pub same_name : Ident → Ident → Bool
same_name a b = same_prefix a.prefix b.prefix && a.number == b.number
