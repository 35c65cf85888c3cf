-- ===== src/Hooks/Tests.antt =====
-- The hooks on a small example.
use ocaml_boxroot.Prelude.{◌≡◌, refl, true, arith}
use ocaml_boxroot.Hooks.{
  Hooks, no_hook, record_minor_begin, record_minor_end, bxr_in_minor_collection,
}
use ocaml_boxroot.Hooks.Minor.{outside, begins, ends, bxr_in_minor_collection-Collecting}

abbrev idle : Hooks
idle = record {
  in_minor_collection = 0;
  caml_scan_roots = no_hook;
  caml_minor_begin = no_hook;
  caml_minor_end = no_hook;
  caml_domain_terminated = no_hook;
  caml_leave_blocking = no_hook;
  caml_enter_blocking = no_hook;
  prev_scan_roots = no_hook;
  prev_minor_begin = no_hook;
  prev_minor_end = no_hook;
  prev_domain_terminated = no_hook;
  prev_leave_blocking = no_hook;
  prev_enter_blocking = no_hook;
  thread_has_lock = true;
}

abbrev two_begun : Hooks
two_begun = record_minor_begin (record_minor_begin idle)

bxr_in_minor_collection-Collecting_example :
    bxr_in_minor_collection (record_minor_end two_begun) ≡ true
bxr_in_minor_collection-Collecting_example =
    bxr_in_minor_collection-Collecting 1 (record_minor_end two_begun) (
      ends 1 two_begun (
        begins 1 (record_minor_begin idle) (begins 0 idle (outside idle refl) (omega arith))
          (omega arith)))
