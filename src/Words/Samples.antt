-- ===== src/Words/Samples.antt =====
-- A runtime for tests: OCaml 5, a small minor heap, and pools of three slots.
use ocaml_boxroot.Prelude.{◌-◌, ◌%◌, true, refl, ◌&&◌, arith, ltb, ◌==◌}
use ocaml_boxroot.Words.{Runtime, IsRuntime}

abbrev pub runtime : Runtime
runtime = record {
  sizeof_pool = 16384 - 24;
  ocaml_multicore = true;
  young_start = 1000;
  young_end = 2000;
  is_block = λ v. (v % 2) == 0;
  is_young = λ v. ltb 1000 v && ltb v 2000;
}

pub runtime-IsRuntime : IsRuntime runtime
runtime-IsRuntime = record {
  sizeof_aligned = omega arith;
  sizeof_pos = omega arith;
  room = omega arith;
  block_even = λ v. refl;
  young_inside = λ v. refl;
  heap_bounds = (omega arith, omega arith);
}
