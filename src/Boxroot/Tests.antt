-- ===== src/Boxroot/Tests.antt =====
-- Runs of the allocator on small pools: three slots each.

use ocaml_boxroot.Prelude.{
  ℕ, ◌-◌, ◌%◌, true, false, ◌&&◌, [], ◌∷◌, Option, none, some, ltb, ◌==◌, ◌>>=◌,
}
use ocaml_boxroot.Words.{Runtime}
use ocaml_boxroot.Ring.{ring_link, ring_push_back, ring_pop}
use ocaml_boxroot.Pool.{untracked, create_fast, gc_pool, init_pool}
use ocaml_boxroot.Boxroot.State.{
  State, Caller, not_setup, e_ok, no_rings, push_place, pop_place, set_current_fl, init_pool_rings,
}
use ocaml_boxroot.Boxroot.Classes.{
  set_current_pool, reclassify_pool, move_current_to_young, pop_available, get_empty_pool,
  find_available_pool, find_and_set_available_pool,
}
use ocaml_boxroot.Boxroot.Collect.{
  try_gc_and_reclassify_pool, try_gc_one_loop, try_gc_and_reclassify_one_pool_no_stw,
}
use ocaml_boxroot.Boxroot.Api.{
  setup, refill, bxr_create_slow, create_in_rings, ensure_rings, boxroot_create,
}

abbrev pub runtime : Runtime
runtime = record {
  sizeof_pool = 16384 - 24;
  ocaml_multicore = true;
  young_start = 1000;
  young_end = 2000;
  is_block = λ v. (v % 2) == 0;
  is_young = λ v. ltb 1000 v && ltb v 2000;
}

abbrev pub start : State
start = record {
  store = record {
    slots = λ a. 0;
    free_list =
        λ p. record { next = p; end = 0; alloc_count = 0; domain_id = 0; class = untracked };
    delayed_fl = λ p. record { a_next = p; end = 0; a_alloc_count = 0 };
    links = record { next = λ p. p; prev = λ p. p };
  };
  pools = λ dom. none;
  orphan = no_rings;
  current_fl = λ dom. 8;
  cached_dom_id = none;
  thread_has_lock = false;
  status = not_setup;
  errno = e_ok;
  memory = 16384 ∷ 32768 ∷ [];
  malloc_ok = true;
  freed = [];
  empty_fl = 8;
}

abbrev pub caller : Caller
caller = record { caml_state = true; domain_id = 3 }

create_three : Option (ℕ × ℕ × ℕ × ℕ)
unfolding boxroot_create bxr_create_slow create_in_rings ensure_rings setup refill
    find_and_set_available_pool find_available_pool pop_available get_empty_pool set_current_pool
    set_current_fl init_pool_rings create_fast init_pool move_current_to_young reclassify_pool
    push_place pop_place ring_push_back ring_pop ring_link try_gc_and_reclassify_one_pool_no_stw
    try_gc_one_loop try_gc_and_reclassify_pool gc_pool
create_three = do
  (a, s1) ← boxroot_create runtime 3 5 caller 7 start
  (b, s2) ← boxroot_create runtime 3 5 caller 9 s1
  (c, s3) ← boxroot_create runtime 3 5 caller 11 s2
  (d, s4) ← boxroot_create runtime 3 5 caller 13 s3
  some (a, b, c, d)
