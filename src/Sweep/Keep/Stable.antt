-- ===== src/Sweep/Keep/Stable.antt =====
-- What the flags of `_keep_flags` in tools/toolchain/spec_sweep_lib.py are to be: a monotone operator
-- on flags, and the order in which it is monotone.
use modern_c.Prelude.{
  ◌≡◌, refl, ap₂, String, Bool, true, false, not, ◌&&◌, List, [], ◌∷◌, ◌++◌, arith, has, has-append,
  minus, has-minus, Within,
}
use modern_c.Sweep.Keep.{is_rejected_chunk, shares, available_names, missing_from, missing_names}

-- Every flag of the first list is one of the second, which is as long.
abbrev pub Below : List Bool → List Bool → Type 0
Below [] [] = Unit
Below (k ∷ ks) (j ∷ js) = (k ≡ true → j ≡ true) × Below ks js
Below _ _ = ⊥

pub Below-antisym : (ks js : List Bool) → Below ks js → Below js ks → ks ≡ js
Below-antisym [] [] h g = refl
Below-antisym [] (j ∷ js) h g = absurd h
Below-antisym (k ∷ ks) [] h g = absurd h
Below-antisym (k ∷ ks) (j ∷ js) (h, hs) (g, gs) =
    ap₂ ◌∷◌ (ground (arith, h, g)) (Below-antisym ks js hs gs)

pub shares-Within :
    (xs ys zs : List String) → Within ys zs → shares xs ys ≡ true → shares xs zs ≡ true
unfolding shares
shares-Within [] ys zs h e = cc
shares-Within (x ∷ xs) ys zs h e = ground (arith, h x, shares-Within xs ys zs h)

append-Within :
    (xs xs' ys ys' : List String) → Within xs xs' → Within ys ys' → Within (xs ++ ys) (xs' ++ ys')
append-Within xs xs' ys ys' h g x e =
    ground (arith, has-append x xs ys, has-append x xs' ys', h x, g x)

module _ (declared_names : String → List String) where
  available_names-Within :
      (chunks : List String) (ks js : List Bool)
      → Below ks js
      → Within (available_names declared_names chunks ks) (available_names declared_names chunks js)
  unfolding available_names has
  available_names-Within [] ks js h x e = cc
  available_names-Within (ch ∷ chunks) [] js h x e = cc
  available_names-Within (ch ∷ chunks) (k ∷ ks) [] h x e = absurd h
  available_names-Within (ch ∷ chunks) (true ∷ ks) (false ∷ js) (h, hs) x e =
      absurd (ground (arith, h refl))
  available_names-Within (ch ∷ chunks) (true ∷ ks) (true ∷ js) (h, hs) x e =
      append-Within (declared_names ch) (declared_names ch)
        (available_names declared_names chunks ks) (available_names declared_names chunks js)
        (λ y f. f) (available_names-Within chunks ks js hs) x e
  available_names-Within (ch ∷ chunks) (false ∷ ks) (j ∷ js) (h, hs) x e = ground (
    arith,
    available_names-Within chunks ks js hs x,
    has-append x (declared_names ch) (available_names declared_names chunks js),
  )

  minus-Within :
      (xs available less : List String)
      → Within less available
      → Within (minus xs available) (minus xs less)
  minus-Within xs available less h x e =
      ground (arith, has-minus x xs available, has-minus x xs less, h x)

  -- More is missing where fewer chunks are kept and less is there.
  missing_from-Within :
      (available less : List String) (chunks : List String) (ks js : List Bool)
      → Within less available
      → Below js ks
      → Within
          (missing_from declared_names available chunks ks)
          (missing_from declared_names less chunks js)
  unfolding missing_from has
  missing_from-Within available less [] ks js l h x e = cc
  missing_from-Within available less (ch ∷ chunks) [] js l h x e = cc
  missing_from-Within available less (ch ∷ chunks) (k ∷ ks) [] l h x e = absurd h
  missing_from-Within available less (ch ∷ chunks) (false ∷ ks) (true ∷ js) l (h, hs) x e =
      absurd (ground (arith, h refl))
  missing_from-Within available less (ch ∷ chunks) (false ∷ ks) (false ∷ js) l (h, hs) x e =
      append-Within (minus (declared_names ch) available) (minus (declared_names ch) less)
        (missing_from declared_names available chunks ks)
        (missing_from declared_names less chunks js)
        (minus-Within (declared_names ch) available less l)
        (missing_from-Within available less chunks ks js l hs) x e
  missing_from-Within available less (ch ∷ chunks) (true ∷ ks) (j ∷ js) l (h, hs) x e = ground (
    arith,
    missing_from-Within available less chunks ks js l hs x,
    has-append x (minus (declared_names ch) less) (missing_from declared_names less chunks js),
  )

  pub missing_names-Within :
      (chunks : List String) (ks js : List Bool)
      → Below js ks
      → Within (missing_names declared_names chunks ks) (missing_names declared_names chunks js)
  unfolding missing_names
  missing_names-Within chunks ks js h =
      missing_from-Within (available_names declared_names chunks ks)
        (available_names declared_names chunks js) chunks ks js
        (available_names-Within chunks js ks h) h

module _ (referenced_names : String → List String) where
  -- A chunk is to be kept if it is not rejected and names nothing that is missing.
  unfoldable pub allowed : List String → List String → List Bool
  allowed missing [] = []
  allowed missing (ch ∷ chunks) =
      (not (is_rejected_chunk ch) && not (shares (referenced_names ch) missing))
      ∷ allowed missing chunks

  pub allowed-Below :
      (chunks xs ys : List String) → Within xs ys → Below (allowed ys chunks) (allowed xs chunks)
  unfolding allowed
  allowed-Below [] xs ys h = tt
  allowed-Below (ch ∷ chunks) xs ys h =
      (ground (arith, shares-Within (referenced_names ch) xs ys h), allowed-Below chunks xs ys h)
