-- ===== src/Words/Tests.antt =====
-- The theorems on words at concrete addresses.
use ocaml_boxroot.Prelude.{◌≡◌, inl, refl, ◌&&◌, arith}
use ocaml_boxroot.Words.{in_young_range, is_young_block}
use ocaml_boxroot.Words.Laws.{in_young_range-young_block}
use ocaml_boxroot.Words.Samples.{runtime, runtime-IsRuntime}

in_young_range-young_block_example :
    (in_young_range runtime 1002 && runtime.is_block 1002) ≡ is_young_block runtime 1002
in_young_range-young_block_example =
    in_young_range-young_block runtime runtime-IsRuntime 1002 (omega arith) (inl refl)
