-- ===== src/Ref/Gen/Offsets/Safe.antt =====
-- On every tape the struct generator lays its fields out, and its assertion holds.
use Prim.Native.Nat.{bit_and, bit_xor}
use modern_c.Prelude.{
  ◌∙◌, le→leb, cat, decimal, is_cons, ℕ, zero, suc, ◌+◌, ◌*◌, ◌/◌, ◌%◌, ◌^◌, ◌<◌, ◌≤◌, ◌≡◌, refl,
  arith, String, true, some, List, [], ◌∷◌, All, inl, inr, ◌⊎◌,
}
use modern_c.Ref.Layout.{Field, OffsetStruct, field_offset}
use modern_c.Ref.Layout.Laws.{field_offset-Found, Laid, Laid-Sized, Sized}
use modern_c.Ref.Random.{Draw}
use modern_c.Ref.Random.Rules.{
  Draws, Draws-pure, Draws-if, Draws-bind, Draws-map, Draws-chance, Draws-choice, Draws-randrange,
}
use modern_c.Ref.Gen.State.{RefGen, bump, SameCore}
use modern_c.Ref.Types.{mask}
use modern_c.Ref.Gen.Offsets.{
  pin, gen_gap, gen_fields, offset_fold_loop, offset_fold_val, add_offset_struct, gen_offset_struct,
  times, gen_offset_structs,
}

-- The three register widths.
abbrev IsReg : ℕ → Type 0
IsReg w = (w ≡ 8) ⊎ (w ≡ 16) ⊎ (w ≡ 32)

pin_lem :
    (off gap w : ℕ) → IsReg w → (off ≤ pin off gap (w / 8)) × (pin off gap (w / 8) % (w / 8) ≡ 0)
unfolding pin
pin_lem off gap w h = ground arith

gen_gap-total : (j sz : ℕ) → Draws (λ gap. Unit {0}) (gen_gap j sz)
unfolding gen_gap
gen_gap-total zero sz = Draws-pure _ 0 tt
gen_gap-total (suc j) sz =
    Draws-bind (λ _. Unit {0}) _ _ _ (Draws-chance 50)
      λ packed _.
        Draws-if _ packed _ _ (λ _. Draws-pure _ 0 tt) (λ _. Draws-choice _ _ refl (omega arith))

-- From every running offset and on every tape the fields that are drawn are laid out, each of at least
-- a byte, at a multiple of its size and behind the one before it; where a field is asked for, there is
-- one.
pub gen_fields-Laid :
    (left j off : ℕ)
    → Draws (λ fs. Laid off fs × (0 < left → is_cons fs ≡ true)) (gen_fields left j off)
unfolding gen_fields
gen_fields-Laid zero j off = Draws-pure _ [] (tt, λ h. absurd (omega arith))
gen_fields-Laid (suc left) j off =
    let P = λ (fs : List Field). Laid off fs × (0 < suc left → is_cons fs ≡ true) in
    Draws-bind IsReg P _ _
      (Draws-choice IsReg _ refl (inl refl, (inr (inl refl), (inr (inr refl), tt))))
      λ w hw.
        Draws-bind (λ _. Unit {0}) P _ _ (Draws-choice _ _ refl (omega arith))
          λ mode _.
            Draws-bind (λ _. Unit {0}) P _ _ (gen_gap-total j (w / 8))
              λ gap _.
                let cur = pin off gap (w / 8) in
                Draws-bind _ P _ _ (gen_fields-Laid left (j + 1) (cur + w / 8)) λ rest hr.
                  Draws-pure P _ (
                    ((pin_lem off gap w hw).0, reg_pos w hw, (pin_lem off gap w hw).1, hr.0),
                    λ _. refl,
                  )
  where
    reg_pos : (w : ℕ) → IsReg w → 0 < w / 8
    reg_pos w h = ground arith

module _ (all : List Field) where
  -- A name for which `field_offset` has an answer.
  abbrev Found : Field → Type 0
  Found f = (o : ℕ) × (field_offset all f.fname ≡ some o)

  fold_loop_total :
      (k : ℕ) (fs : List Field) (acc : ℕ)
      → All Found fs
      → (r : ℕ) × (offset_fold_loop all k fs acc ≡ some r)
  unfolding offset_fold_loop
  fold_loop_total k [] acc h = (acc, refl)
  fold_loop_total k (f ∷ fs) acc ((o, p), h) =
      let (r, q) = fold_loop_total (k + 1) fs (bit_xor acc (o * 2 ^ ((k + 1) * 4))) h in
      (r, rw (p, offset_fold_loop) q)

fold_val_total :
    (s : OffsetStruct) (l : Field) → Sized s.fields l → (x : ℕ) × (offset_fold_val s ≡ some x)
unfolding offset_fold_val
fold_val_total s l z =
    let (r, p) =
      fold_loop_total s.fields 0 s.fields (bit_and z.size (mask 64))
        (field_offset-Found s.fields) in
    (bit_and r (mask 64), rw (z.size_lem, p, offset_fold_val))

-- A struct that is laid out is added: no lookup fails, and the assertion holds.
pub add_offset_struct-SameCore :
    (name : String) (f : Field) (fs : List Field) (g : RefGen)
    → Laid 0 (f ∷ fs)
    → Draws (SameCore g) (add_offset_struct (record { name = name; fields = f ∷ fs }) g)
unfolding add_offset_struct
add_offset_struct-SameCore name f fs g h =
    let s : OffsetStruct = record { name = name; fields = f ∷ fs } in
    let (l, e, z) = Laid-Sized 0 f fs h in
    let (x, p) = fold_val_total s l z in
    record {
      on = λ r.
          rw (e, p, z.size_lem, z.found_lem, le→leb (z.found + l.bits / 8) z.size z.asserted)
            (refl, refl, refl);
    }

pub gen_offset_struct-SameCore : (g : RefGen) → Draws (SameCore g) (gen_offset_struct g)
unfolding gen_offset_struct
gen_offset_struct-SameCore g =
    let name = cat ("OFF" ∷ decimal g.n ∷ []) in
    Draws-bind _ (SameCore g) _ _ (Draws-randrange 2 5 (omega arith)) λ nf le.
      Draws-bind _ (SameCore g) _ _ (gen_fields-Laid nf 0 0)
        λ fs (laid, cons). added name fs laid (cons (omega arith))
  where
    added :
        (name : String) (fs : List Field)
        → Laid 0 fs
        → is_cons fs ≡ true
        → Draws (SameCore g) (add_offset_struct (record { name = name; fields = fs }) (bump g))
    added name [] h e = cc
    added name (f ∷ fs) h e = add_offset_struct-SameCore name f fs (bump g) h

-- A step that keeps the core keeps it however often it is made.
pub times-SameCore :
    (m : RefGen → Draw RefGen) (k : ℕ) (g : RefGen)
    → ((g : RefGen) → Draws (SameCore g) (m g))
    → Draws (SameCore g) (times k m g)
unfolding times
times-SameCore m zero g h = Draws-pure (SameCore g) g (refl, refl, refl)
times-SameCore m (suc k) g h = Draws-bind _ (SameCore g) _ _ (h g) λ g₁ (a, b, c).
    Draws-map _ (SameCore g) _ (λ g₂ (a', b', c'). (a' ∙ a, b' ∙ b, c' ∙ c))
      (times-SameCore m k g₁ h)

pub gen_offset_structs-SameCore : (g : RefGen) → Draws (SameCore g) (gen_offset_structs g)
unfolding gen_offset_structs
gen_offset_structs-SameCore g =
    Draws-bind _ (SameCore g) _ _ (Draws-randrange 1 3 (omega arith))
      λ k _. times-SameCore gen_offset_struct k g gen_offset_struct-SameCore
