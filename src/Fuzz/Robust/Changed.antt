-- ===== src/Fuzz/Robust/Changed.antt =====
-- What `_mutate` of tools/fuzz/mcfuzz.py may make of its data.
use Prim.Native.Nat.{bit_xor}
use modern_c.Prelude.{
  ℕ, zero, suc, ◌^◌, ◌<◌, ◌≤◌, ◌+◌, ◌%◌, ◌≡◌, refl, ap, List, [], ◌∷◌, ◌++◌, some, arith, length,
  get_elem?,
}
use modern_c.Ref.Random.{Rng, lift, randrange}
use modern_c.Ref.Random.Rules.{Ensures, Draws, Draws-pure, Draws-bind, Draws-map, Draws-randrange}
use modern_c.Fuzz.Robust.{
  encode, change_at, delete_at, insert_at, cut_at, mutate_at, refill, mutate_times, mutate,
}

-- One change at an element `x` behind `front` and before `back`: a bit of it is flipped, it is taken out,
-- a byte is put before it, it is doubled, or the data end before it.
pub data Edit (front : List ℕ) (x : ℕ) (back b : List ℕ) : Type 0 where
  flipped : (k : ℕ) → k < 8 → b ≡ front ++ (bit_xor x (2 ^ k) ∷ back) → Edit front x back b
  deleted : b ≡ front ++ back → Edit front x back b
  inserted : (v : ℕ) → v < 256 → b ≡ front ++ (v ∷ (x ∷ back)) → Edit front x back b
  doubled : b ≡ front ++ (x ∷ (x ∷ back)) → Edit front x back b
  ended : b ≡ front → Edit front x back b

pub record Changed (a b : List ℕ) : Type 0 where
  pub front : List ℕ
  pub x : ℕ
  pub back : List ℕ
  pub joined : a ≡ front ++ (x ∷ back)
  pub edit : Edit front x back b

-- That many changes, one after the other; data that have become empty are refilled first.
pub Mutated : ℕ → List ℕ → List ℕ → Type 0
Mutated zero a b = a ≡ b
Mutated (suc n) a b = (mid : List ℕ) × Changed (refill a) mid × Mutated n mid b

-- A place in the data, and what each edit does there.
record Place (i : ℕ) (b : List ℕ) : Type 0 where
  front : List ℕ
  x : ℕ
  back : List ℕ
  joined : b ≡ front ++ (x ∷ back)
  changes : (f : ℕ → ℕ) → change_at f i b ≡ front ++ (f x ∷ back)
  deletes : delete_at i b ≡ front ++ back
  inserts : (v : ℕ) → insert_at i v b ≡ front ++ (v ∷ (x ∷ back))
  found : get_elem? b i ≡ some x
  cuts : cut_at i b ≡ front

place : (i : ℕ) (b : List ℕ) → i < length b → Place i b
unfolding change_at delete_at insert_at cut_at
place i [] h = absurd (omega (arith, h))
place zero (y ∷ ys) h = record {
  front = [];
  x = y;
  back = ys;
  joined = refl;
  changes = λ f. refl;
  deletes = refl;
  inserts = λ v. refl;
  found = refl;
  cuts = refl;
}
place (suc i) (y ∷ ys) h =
    let p = place i ys (omega (arith, h)) in
    record {
      front = y ∷ p.front;
      x = p.x;
      back = p.back;
      joined = ap (◌∷◌ y) p.joined;
      changes = λ f. ap (◌∷◌ y) (p.changes f);
      deletes = ap (◌∷◌ y) p.deletes;
      inserts = λ v. ap (◌∷◌ y) (p.inserts v);
      found = p.found;
      cuts = ap (◌∷◌ y) p.cuts;
    }

changed : (i : ℕ) (b c : List ℕ) (p : Place i b) → Edit p.front p.x p.back c → Changed b c
changed i b c p e = record { front = p.front; x = p.x; back = p.back; joined = p.joined; edit = e }

mutate_at-Changed :
    (kind i : ℕ) (b : List ℕ) → i < length b → Draws (Changed b) (mutate_at kind i b)
unfolding mutate_at
mutate_at-Changed zero i b h =
    let p = place i b h in
    Draws-bind (λ k. (0 ≤ k) × (k < 8)) (Changed b) (randrange 0 8) _
      (Draws-randrange 0 8 (omega arith))
      (λ k hk.
        Draws-pure (Changed b) _
          (changed i b _ p (flipped k hk.1 (p.changes (λ x. bit_xor x (2 ^ k))))))
mutate_at-Changed (suc zero) i b h =
    let p = place i b h in Draws-pure (Changed b) _ (changed i b _ p (deleted p.deletes))
mutate_at-Changed (suc (suc zero)) i b h =
    let p = place i b h in
    Draws-bind (λ v. (0 ≤ v) × (v < 256)) (Changed b) (randrange 0 256) _
      (Draws-randrange 0 256 (omega arith))
      (λ v hv. Draws-pure (Changed b) _ (changed i b _ p (inserted v hv.1 (p.inserts v))))
mutate_at-Changed (suc (suc (suc zero))) i b h =
    let p = place i b h in
    Draws-bind (λ v. v ≡ p.x) (Changed b) (lift (get_elem? b i)) _
      (rw (p.found) (Draws-pure (λ v. v ≡ p.x) p.x refl))
      (λ v hv. Draws-pure (Changed b) _ (changed i b _ p (doubled (rw (hv) (p.inserts p.x)))))
mutate_at-Changed (suc (suc (suc (suc n)))) i b h =
    let p = place i b h in Draws-pure (Changed b) _ (changed i b _ p (ended p.cuts))

refill-nonempty : (b : List ℕ) → 0 < length (refill b)
unfolding encode
refill-nonempty [] = omega arith
refill-nonempty (x ∷ xs) = omega arith

mutate_times-Mutated : (n : ℕ) (b : List ℕ) → Draws (Mutated n b) (mutate_times n b)
unfolding mutate_times Mutated
mutate_times-Mutated zero b = Draws-pure (Mutated zero b) b refl
mutate_times-Mutated (suc n) b =
    Draws-bind (λ k. (0 ≤ k) × (k < 5)) (Mutated (suc n) b) (randrange 0 5) _
      (Draws-randrange 0 5 (omega arith))
      (λ kind hk.
        Draws-bind (λ i. (0 ≤ i) × (i < length (refill b))) (Mutated (suc n) b)
          (randrange 0 (length (refill b))) _
          (Draws-randrange 0 (length (refill b)) (refill-nonempty b))
          (λ i hi.
            Draws-bind (Changed (refill b)) (Mutated (suc n) b) (mutate_at kind i (refill b)) _
              (mutate_at-Changed kind i (refill b) hi.1)
              (λ mid hm.
                Draws-map (Mutated n mid) (Mutated (suc n) b) (mutate_times n mid)
                  (λ c hc. (mid, hm, hc)) (mutate_times-Mutated n mid))))

-- The data after as many changes as the first draw says, one to twelve.
pub mutate-Mutated :
    (bytes : List ℕ) (r : Rng) → Ensures (Mutated (1 + r.tape r.at % 12) bytes) (mutate bytes r)
unfolding mutate randrange
mutate-Mutated bytes r =
    (mutate_times-Mutated (1 + r.tape r.at % 12) bytes).on (record r { at = r.at + 1 })
