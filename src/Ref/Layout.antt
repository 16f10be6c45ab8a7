-- ===== src/Ref/Layout.antt =====
-- `_align_up`, `OffsetStruct` and `OverlayUnion` of tools/fuzz/mcref.py.
pub mod Laws
use text.Mathlib.Text.{◌==◌ as text_eq}
use modern_c.Prelude.{
  ℕ, ◌+◌, ◌-◌, ◌*◌, ◌/◌, max, String, if◌then◌else◌, Option, none, some, List, [], ◌∷◌, map, cat,
  join, decimal,
}

-- `(x + a - 1) // a * a`.
pub align_up : ℕ → ℕ → ℕ
align_up x a = (x + a - 1) / a * a

-- One entry of `fields`: name, width in bits, offset in bytes, mode.
pub record Field : Type 0 where
  pub fname : String
  pub bits : ℕ
  pub offset : ℕ
  pub mode : String

pub record OffsetStruct : Type 0 where
  pub name : String
  pub fields : List Field

-- `fields[-1]`.
pub last_field : List Field → Option Field
last_field [] = none
last_field (f ∷ []) = some f
last_field (f ∷ (g ∷ fs)) = last_field (g ∷ fs)

-- `max(w // 8 for ...)` over a list that is not empty.
pub max_align : List Field → ℕ
max_align [] = 0
max_align (f ∷ fs) = max (f.bits / 8) (max_align fs)

-- `sizeof`: `none` is the `IndexError` of a struct with no field.
pub sizeof_fields : List Field → Option ℕ
sizeof_fields fs = elim (last_field fs) [
  | none ↦ none
  | some f ↦ some (align_up (f.offset + f.bits / 8) (max_align fs))
]

-- `field_offset`: `none` is the `KeyError`.
pub field_offset : List Field → String → Option ℕ
field_offset [] n = none
field_offset (f ∷ fs) n = if text_eq f.fname n then some f.offset else field_offset fs n

pub offset_decl : OffsetStruct → String
offset_decl s = cat (
    "extern mmio struct "
    ∷ s.name
    ∷ " {\n"
    ∷ join "\n" (
        map
          (λ (f : Field). cat (
            "    "
            ∷ f.fname
            ∷ ": Reg<u"
            ∷ decimal f.bits
            ∷ ", "
            ∷ f.mode
            ∷ "> @offset("
            ∷ decimal f.offset
            ∷ "),"
            ∷ []))
          s.fields)
    ∷ "\n}"
    ∷ [])

pub record OverlayUnion : Type 0 where
  pub name : String
  pub width : ℕ
  pub nbytes : ℕ
  pub nhalves : ℕ

unfoldable pub new_overlay : String → ℕ → OverlayUnion
new_overlay name w = record { name = name; width = w; nbytes = w / 8; nhalves = w / 16 }

pub overlay_decl : OverlayUnion → String
overlay_decl o = cat (
    "overlay union "
    ∷ o.name
    ∷ " {\n    u: u"
    ∷ decimal o.width
    ∷ ",\n    bytes: ["
    ∷ decimal o.nbytes
    ∷ "]u8,\n    halves: ["
    ∷ decimal o.nhalves
    ∷ "]u16,\n}"
    ∷ [])
