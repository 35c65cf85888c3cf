-- ===== src/Boxroot/GcTests.antt =====
-- A young pool with a delayed deallocation, and `gc_pool_rings`.
use ocaml_boxroot.Prelude.{◌≡◌, refl, inr, [], ◌∷◌, none, some, arith, ap, length}
use ocaml_boxroot.Words.{is_pool_member}
use ocaml_boxroot.Words.Samples.{runtime-IsRuntime}
use ocaml_boxroot.Pool.{free_slot_atomic}
use ocaml_boxroot.Pool.Delete.{Deleted, free_slot_atomic-Deleted}
use ocaml_boxroot.Boxroot.State.{State}
use ocaml_boxroot.Boxroot.Classes.{move_current_to_young}
use ocaml_boxroot.Boxroot.Collect.{gc_pool_rings}
use ocaml_boxroot.Boxroot.Tests.{runtime}
use ocaml_boxroot.Boxroot.Heap.{View, IsHeap}
use ocaml_boxroot.Boxroot.Heap.Tags.{IsTagged}
use ocaml_boxroot.Boxroot.Heap.Touch.{touched-IsHeap}
use ocaml_boxroot.Boxroot.Heap.Uncurrent.{
  IsTagged-same, IsUncurrent, move_current_to_young-IsUncurrent,
}
use ocaml_boxroot.Boxroot.Heap.GcRing.{IsGcedAll, gc_pool_rings-IsGcedAll}
use ocaml_boxroot.Boxroot.RootTests.{one_root, one_pool, one-IsHeap, one-ready, made}
use ocaml_boxroot.Boxroot.ScanTests.{one-IsTagged}

-- Another domain has deleted the boxroot 32744.
abbrev remote : State
remote = record one_root { store = free_slot_atomic 16384 32744 one_root.store }

remote-Deleted :
    Deleted runtime 16384 32744 (32752 ∷ 32760 ∷ []) (32744 ∷ []) 1 one_root.store remote.store
unfolding is_pool_member
remote-Deleted =
    free_slot_atomic-Deleted runtime runtime-IsRuntime one_root.store 16384 32744
      (32752 ∷ 32760 ∷ []) [] 1 made.pool made.in_pool refl

remote-IsHeap : IsHeap runtime remote one_pool
remote-IsHeap =
    touched-IsHeap runtime runtime-IsRuntime one_root one_pool one-IsHeap 18 16384 32744 none
      remote.store refl (32752 ∷ 32760 ∷ [], 32744 ∷ [], remote-Deleted.pool) made.in_pool
      remote-Deleted.values remote-Deleted.elsewhere

remote-IsTagged : IsTagged remote one_pool
unfolding free_slot_atomic
remote-IsTagged = IsTagged-same one_root remote one_pool refl one-IsTagged

-- Its pool is then made a young one.
abbrev pending_young : State
pending_young = move_current_to_young 3 remote

young_view : (v' : View) × IsUncurrent runtime 3 remote pending_young one_pool v'
young_view =
    move_current_to_young-IsUncurrent runtime runtime-IsRuntime 3 remote one_pool remote-IsHeap
      (inr one-ready) remote-IsTagged

one_young : length (young_view.0 17) ≡ 1
one_young = young_view.1.length_young

none_old : length (young_view.0 16) ≡ 0
none_old = ap length (young_view.1.others 16 (λ e. omega (arith, e)) (λ e. omega (arith, e)))

gc_pool_rings-IsGcedAll_example :
    (s' : State) × (gc_pool_rings 2 3 pending_young ≡ some s')
    × (v' : View) × IsGcedAll runtime 3 pending_young s' young_view.0 v'
gc_pool_rings-IsGcedAll_example =
    gc_pool_rings-IsGcedAll runtime runtime-IsRuntime 3 2 pending_young young_view.0
      young_view.1.kept.heap (young_view.1.kept.ready (inr one-ready)) young_view.1.tagged
      young_view.1.no_current (omega (arith, one_young)) (omega (arith, none_old))
