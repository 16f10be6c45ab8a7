-- ===== src/Ref/Gen/Constructs.antt =====
-- `gen_switch_families`, `gen_constructs` and the whole of `build` of tools/fuzz/mcref.py.
pub mod Safe
use modern_c.Ref.Random.{Draw, ◌>>=◌, pure}
use modern_c.Ref.Gen.State.{RefGen}
use modern_c.Ref.Gen.Build.{build_core}
use modern_c.Ref.Gen.Offsets.{gen_offset_structs}
use modern_c.Ref.Gen.Overlays.{gen_overlays}
use modern_c.Ref.Gen.Switches.{gen_scalar_switch, gen_enum_switch, gen_result_switch}
use modern_c.Ref.Gen.Unions.{gen_union_switch}

pub gen_switch_families : RefGen → Draw RefGen
gen_switch_families g = do
  g₁ ← gen_scalar_switch g
  g₂ ← gen_enum_switch g₁
  g₃ ← gen_result_switch g₂
  gen_union_switch g₃

pub gen_constructs : RefGen → Draw RefGen
gen_constructs g = do g₁ ← gen_offset_structs g; g₂ ← gen_overlays g₁; gen_switch_families g₂

pub build : Draw RefGen
build = do g ← build_core; gen_constructs g
