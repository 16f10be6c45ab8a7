-- ===== src/Ref/Gen/Offsets.antt =====
-- `gen_offset_structs` of tools/fuzz/mcref.py, with its fold of `sizeof` and `field_offset`.
pub mod Safe
use Prim.Native.Nat.{bit_and, bit_xor}
use modern_c.Prelude.{
  ℕ, zero, suc, ◌+◌, ◌-◌, ◌*◌, ◌/◌, ◌%◌, ◌^◌, String, Bool, true, false, ltb, leb, ◌==◌,
  if◌then◌else◌, Option, none, some, List, [], ◌∷◌, ◌++◌, cat, join, decimal,
}
use modern_c.Ref.Types.{mask}
use modern_c.Ref.Layout.{Field, OffsetStruct, last_field, sizeof_fields, field_offset, offset_decl}
use modern_c.Ref.Random.{Draw, ◌>>=◌, pure, raise, lift, chance, randrange, choice}
use modern_c.Ref.Gen.State.{RefGen, bump}

-- A gap behind the running offset, and the rise to the next multiple of the size.
pub pin : ℕ → ℕ → ℕ → ℕ
pin off gap sz = let cur = off + gap in if cur % sz == 0 then cur else cur + (sz - cur % sz)

-- `cur` before alignment, less the running offset: the first field is at 0.
pub gen_gap : ℕ → ℕ → Draw ℕ
gen_gap zero sz = pure 0
gen_gap (suc j) sz = do
  packed ← chance 50
  if packed then pure 0 else choice (sz ∷ 8 ∷ 16 ∷ 64 ∷ 0x100 ∷ [])

-- Field `j` and the `left - 1` behind it, from the running offset on.
pub gen_fields : ℕ → ℕ → ℕ → Draw (List Field)
gen_fields zero j off = pure []
gen_fields (suc left) j off = do
  w ← choice (8 ∷ 16 ∷ 32 ∷ [])
  let sz = w / 8
  mode ← choice (".read" ∷ ".write" ∷ ".read_write" ∷ [])
  gap ← gen_gap j sz
  let cur = pin off gap sz
  rest ← gen_fields left (j + 1) (cur + sz)
  pure (record { fname = cat ("of" ∷ decimal j ∷ []); bits = w; offset = cur; mode = mode } ∷ rest)

-- `_offset_fold_expr`.
pub offset_fold_parts : String → ℕ → List Field → List String
offset_fold_parts name k [] = []
offset_fold_parts name k (f ∷ fs) =
    cat (
      "((field_offset("
      ∷ name
      ∷ ", ."
      ∷ f.fname
      ∷ ") as u64) << "
      ∷ decimal ((k + 1) * 4)
      ∷ ")"
      ∷ [])
    ∷ offset_fold_parts name (k + 1) fs

pub offset_fold_expr : OffsetStruct → String
offset_fold_expr s =
    join " ^ " (cat ("(sizeof(" ∷ s.name ∷ ") as u64)" ∷ []) ∷ offset_fold_parts s.name 0 s.fields)

-- The loop of `_offset_fold_val`: `none` is a missing key.
pub offset_fold_loop : List Field → ℕ → List Field → ℕ → Option ℕ
offset_fold_loop all k [] acc = some acc
offset_fold_loop all k (f ∷ fs) acc = elim (field_offset all f.fname) [
  | none ↦ none
  | some o ↦ offset_fold_loop all (k + 1) fs (bit_xor acc (o * 2 ^ ((k + 1) * 4)))
]

pub offset_fold_val : OffsetStruct → Option ℕ
offset_fold_val s = elim (sizeof_fields s.fields) [
  | none ↦ none
  | some size ↦ elim (offset_fold_loop s.fields 0 s.fields (bit_and size (mask 64))) [
    | none ↦ none
    | some acc ↦ some (bit_and acc (mask 64))
  ]
]

-- What one struct adds: its declaration and observer, the two body lines' variables and terms.
pub add_offset_struct : OffsetStruct → RefGen → Draw RefGen
add_offset_struct s g = do
  last ← lift (last_field s.fields)
  value ← lift (offset_fold_val s)
  size ← lift (sizeof_fields s.fields)
  found ← lift (field_offset s.fields last.fname)
  let tn = cat ("off_" ∷ s.name ∷ [])
  let idn = cat ("offid_" ∷ s.name ∷ [])
  let observer =
      cat ("fn offobs_" ∷ s.name ∷ "() -> u64 {\n    return " ∷ offset_fold_expr s ∷ ";\n}" ∷ [])
  let identity = cat (
      "    if ((field_offset("
      ∷ s.name
      ∷ ", ."
      ∷ last.fname
      ∷ ") as u64) + "
      ∷ decimal (last.bits / 8)
      ∷ ") <= (sizeof("
      ∷ s.name
      ∷ ") as u64) { "
      ∷ idn
      ∷ " = 1; }"
      ∷ [])
  -- `assert (s.field_offset(lastf) + lastw // 8) <= s.sizeof()`
  if leb (found + last.bits / 8) size
      then pure (record g {
        pre_decls = g.pre_decls ++ (offset_decl s ∷ observer ∷ []);
        extra_body =
            g.extra_body
            ++ (cat ("    var " ∷ tn ∷ ": u64 = offobs_" ∷ s.name ∷ "();" ∷ [])
                ∷ cat ("    var " ∷ idn ∷ ": u64 = 0;" ∷ [])
                ∷ identity
                ∷ []);
        extra_terms = g.extra_terms ++ ((tn, value) ∷ (idn, 1) ∷ []);
      })
      else raise

pub gen_offset_struct : RefGen → Draw RefGen
gen_offset_struct g = do
  let name = cat ("OFF" ∷ decimal g.n ∷ [])
  nf ← randrange 2 5
  fields ← gen_fields nf 0 0
  add_offset_struct (record { name = name; fields = fields }) (bump g)

-- `for i in range(k)` over the generator.
pub times : ℕ → (RefGen → Draw RefGen) → RefGen → Draw RefGen
times zero m g = pure g
times (suc k) m g = do g' ← m g; times k m g'

pub gen_offset_structs : RefGen → Draw RefGen
gen_offset_structs g = do k ← randrange 1 3; times k gen_offset_struct g
