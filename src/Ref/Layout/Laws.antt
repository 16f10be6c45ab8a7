-- ===== src/Ref/Layout/Laws.antt =====
-- The layout of a struct with pinned offsets: alignment, and that every field lies inside.
use native.Mathlib.Nat.{div-add-mod', mod-lt, mul-mod_left}
use text.Mathlib.Text.{◌==◌ as text_eq}
use text.Mathlib.TextPositions.{eq_refl}
use modern_c.Prelude.{
  ℕ, ◌+◌, ◌-◌, ◌/◌, ◌%◌, ◌<◌, ◌≤◌, ◌≡◌, refl, arith, Bool-cases, inl, inr, some, List, [], ◌∷◌, All,
  All-imp,
}
use modern_c.Ref.Layout.{align_up, Field, last_field, max_align, sizeof_fields, field_offset}

-- `align_up x a` is the least multiple of `a` that is not below `x`.
pub align_up_lem :
    (x a : ℕ) → 0 < a → (x ≤ align_up x a) × (align_up x a < x + a) × (align_up x a % a ≡ 0)
unfolding align_up
align_up_lem x a h = (
  omega (arith, div-add-mod' (x + a - 1) a, mod-lt (x + a - 1) h),
  omega (arith, div-add-mod' (x + a - 1) a, mod-lt (x + a - 1) h),
  mul-mod_left ((x + a - 1) / a) a,
)

-- Fields one behind the other from `off` on, none over another, each at a multiple of its size.
abbrev pub Laid : ℕ → List Field → Type 0
Laid off [] = Unit
Laid off (f ∷ fs) =
    (off ≤ f.offset)
    × (0 < f.bits / 8)
    × (f.offset % (f.bits / 8) ≡ 0)
    × Laid (f.offset + f.bits / 8) fs

-- Every field ends at or before the end of the last one.
abbrev pub EndsBy : ℕ → List Field → Type 0
EndsBy m fs = All (λ f. f.offset + f.bits / 8 ≤ m) fs

Laid-EndsBy :
    (off : ℕ) (fs : List Field) (l : Field)
    → Laid off fs
    → last_field fs ≡ some l
    → EndsBy (l.offset + l.bits / 8) fs × (off ≤ l.offset)
unfolding last_field
Laid-EndsBy off [] l h e = cc
Laid-EndsBy off (f ∷ []) l h e = ground arith
Laid-EndsBy off (f ∷ (g ∷ fs)) l (p, q, r, h) e =
    let (ends, le) = Laid-EndsBy (f.offset + f.bits / 8) (g ∷ fs) l h e in
    ((omega arith, ends), omega arith)

-- Looked up by the last field's name, some offset is found, at or before its own.
field_offset_last :
    (off : ℕ) (fs : List Field) (l : Field)
    → Laid off fs
    → last_field fs ≡ some l
    → (o : ℕ) × (field_offset fs l.fname ≡ some o) × (o ≤ l.offset)
unfolding last_field field_offset
field_offset_last off [] l h e = cc
field_offset_last off (f ∷ []) l h e =
    let same : f ≡ l = cc in (f.offset, rw same (rw (eq_refl l.fname)), rw same (omega arith))
field_offset_last off (f ∷ (g ∷ fs)) l h e =
    let (o, p, le) = field_offset_last (f.offset + f.bits / 8) (g ∷ fs) l h.3 e in
    elim (Bool-cases (text_eq f.fname l.fname)) [
      | inl eq ↦
          let (ends, lo) = Laid-EndsBy (f.offset + f.bits / 8) (g ∷ fs) l h.3 e in
          (f.offset, rw eq, omega arith)
      | inr ne ↦ (o, rw ne p, le)
    ]

max_align-pos : (off : ℕ) (f : Field) (fs : List Field) → Laid off (f ∷ fs) → 0 < max_align (f ∷ fs)
unfolding max_align
max_align-pos off f fs h = omega (arith, h.1)

last_field_cons : (f : Field) (fs : List Field) → (l : Field) × (last_field (f ∷ fs) ≡ some l)
unfolding last_field
last_field_cons f [] = (f, refl)
last_field_cons f (g ∷ fs) = last_field_cons g fs

EndsBy-le : (m n : ℕ) (fs : List Field) → m ≤ n → EndsBy m fs → EndsBy n fs
EndsBy-le m n [] le h = tt
EndsBy-le m n (f ∷ fs) le h = (omega (arith, h.0), EndsBy-le m n fs le h.1)

-- What `gen_offset_structs` needs of a laid-out struct: its size, and the offset that the identity
-- observer asks for, with the assertion that compares the two.
pub record Sized (fs : List Field) (l : Field) : Type 0 where
  pub size : ℕ
  pub found : ℕ
  pub size_lem : sizeof_fields fs ≡ some size
  pub found_lem : field_offset fs l.fname ≡ some found
  pub inside : EndsBy size fs
  pub aligned : size % max_align fs ≡ 0
  pub least : size < l.offset + l.bits / 8 + max_align fs
  pub asserted : found + l.bits / 8 ≤ size

-- A laid-out list with a first field has a last field, `sizeof` and `field_offset` of the last field
-- return, every field ends within the size, the size is aligned to the largest field and less than
-- one alignment past the end of the last field, and the assertion of the generator holds.
pub Laid-Sized :
    (off : ℕ) (f : Field) (fs : List Field)
    → Laid off (f ∷ fs)
    → (l : Field) × (last_field (f ∷ fs) ≡ some l) × Sized (f ∷ fs) l
unfolding sizeof_fields
Laid-Sized off f fs h =
    let (l, e) = last_field_cons f fs in
    let (o, p, le) = field_offset_last off (f ∷ fs) l h e in
    let (ends, lo) = Laid-EndsBy off (f ∷ fs) l h e in
    let end : ℕ = l.offset + l.bits / 8 in
    let (ge, lt, al) = align_up_lem end (max_align (f ∷ fs)) (max_align-pos off f fs h) in
    (
      l,
      e,
      record {
        size = align_up end (max_align (f ∷ fs));
        found = o;
        size_lem = rw (e, sizeof_fields);
        found_lem = p;
        inside = EndsBy-le end (align_up end (max_align (f ∷ fs))) (f ∷ fs) ge ends;
        aligned = al;
        least = lt;
        asserted = omega arith;
      },
    )

-- Every field of a struct is found by its name.
pub field_offset-Found :
    (fs : List Field) → All (λ f. (o : ℕ) × (field_offset fs f.fname ≡ some o)) fs
unfolding field_offset
field_offset-Found [] = tt
field_offset-Found (f ∷ fs) =
    ((f.offset, rw (eq_refl f.fname)), All-imp _ _ fs (λ g h. found g h) (field_offset-Found fs))
  where
    found :
        (g : Field)
        → ((o : ℕ) × (field_offset fs g.fname ≡ some o))
        → (o : ℕ) × (field_offset (f ∷ fs) g.fname ≡ some o)
    found g (o, p) = elim (Bool-cases (text_eq f.fname g.fname)) [
      | inl e ↦ (f.offset, rw e)
      | inr e ↦ (o, rw e p)
    ]
