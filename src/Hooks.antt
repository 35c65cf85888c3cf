-- ===== src/Hooks.antt =====
-- boxroot/ocaml_hooks.c: the hooks that are put in front of those of the OCaml runtime, and the
-- count of the domains that are in a minor collection.
mod Minor
mod Tests
use ocaml_boxroot.Prelude.{ℕ, Bool, true, false, not, List, [], ◌∷◌, ◌++◌, Option, none, some, ◌==◌}
use ocaml_boxroot.Words.{incr32, decr32}

-- A hook of the runtime: NULL, one of another library, or the one of ocaml_hooks.c.
pub data Hook : Type 0 where
  no_hook : Hook
  other : ℕ → Hook
  bxr_hook : Hook

-- What happens when a hook is run: another library's hook, the scanning callback with its
-- `only_young`, and the callback for the end of a domain.
pub data Event : Type 0 where
  called : ℕ → Event
  scanning : Bool → Event
  domain_terminated : Event

-- The runtime's hooks, those that were there before, the count, and `bxr_thread_has_lock`.
pub record Hooks : Type 0 where
  pub in_minor_collection : ℕ
  pub caml_scan_roots : Hook
  pub caml_minor_begin : Hook
  pub caml_minor_end : Hook
  pub caml_domain_terminated : Hook
  pub caml_leave_blocking : Hook
  pub caml_enter_blocking : Hook
  pub prev_scan_roots : Hook
  pub prev_minor_begin : Hook
  pub prev_minor_end : Hook
  pub prev_domain_terminated : Hook
  pub prev_leave_blocking : Hook
  pub prev_enter_blocking : Hook
  pub thread_has_lock : Bool

-- `if (hook != NULL) hook();`, for a hook that was there before the installation.
unfoldable pub run_prev : Hook → Option (List Event)
run_prev no_hook = some []
run_prev (other n) = some (called n ∷ [])
run_prev bxr_hook = none

-- `record_minor_begin`, but for the previous hook.
unfoldable pub record_minor_begin : Hooks → Hooks
record_minor_begin h = record h { in_minor_collection = incr32 h.in_minor_collection }

-- `record_minor_end`, but for the previous hook.
unfoldable pub record_minor_end : Hooks → Hooks
record_minor_end h = record h { in_minor_collection = decr32 h.in_minor_collection }

-- `bxr_in_minor_collection`.
unfoldable pub bxr_in_minor_collection : Hooks → Bool
bxr_in_minor_collection h = not (h.in_minor_collection == 0)

-- `bxr_scan_hook`: the previous hook, and then the callback. A previous hook that is this one would
-- call itself without end.
unfoldable pub bxr_scan_hook : Bool → Hooks → Option (List Event)
bxr_scan_hook only_young h = elim (run_prev h.prev_scan_roots) [
  | none ↦ none
  | some events ↦ some (events ++ scanning only_young ∷ [])
]

-- `domain_terminated_hook`.
unfoldable pub domain_terminated_hook : Hooks → Option (List Event)
domain_terminated_hook h = elim (run_prev h.prev_domain_terminated) [
  | none ↦ none
  | some events ↦ some (events ++ domain_terminated ∷ [])
]

-- `bxr_enter_blocking_section`, but for the previous hook, which it calls behind.
unfoldable pub bxr_enter_blocking_section : Hooks → Hooks
bxr_enter_blocking_section h = record h { thread_has_lock = false }

-- `bxr_leave_blocking_section`, but for the previous hook, which it calls before.
unfoldable pub bxr_leave_blocking_section : Hooks → Hooks
bxr_leave_blocking_section h = record h { thread_has_lock = true }

-- `setup_thread_hooks`.
unfoldable pub setup_thread_hooks : Hooks → Hooks
setup_thread_hooks h = record h {
  prev_leave_blocking = h.caml_leave_blocking;
  prev_enter_blocking = h.caml_enter_blocking;
  caml_leave_blocking = bxr_hook;
  caml_enter_blocking = bxr_hook;
  thread_has_lock = true;
}

-- `bxr_setup_hooks` on OCaml 5.
unfoldable pub bxr_setup_hooks : Hooks → Hooks
bxr_setup_hooks h = record h {
  prev_scan_roots = h.caml_scan_roots;
  caml_scan_roots = bxr_hook;
  prev_minor_begin = h.caml_minor_begin;
  caml_minor_begin = bxr_hook;
  prev_minor_end = h.caml_minor_end;
  caml_minor_end = bxr_hook;
  prev_domain_terminated = h.caml_domain_terminated;
  caml_domain_terminated = bxr_hook;
}

-- `bxr_setup_hooks` on OCaml 4.
unfoldable pub bxr_setup_hooks_four : Hooks → Hooks
bxr_setup_hooks_four h = setup_thread_hooks (record h {
  prev_scan_roots = h.caml_scan_roots;
  prev_minor_begin = h.caml_minor_begin;
  prev_minor_end = h.caml_minor_end;
  caml_scan_roots = bxr_hook;
  caml_minor_begin = bxr_hook;
  caml_minor_end = bxr_hook;
})
