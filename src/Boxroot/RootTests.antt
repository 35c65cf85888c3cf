-- ===== src/Boxroot/RootTests.antt =====
-- A state with one boxroot, in the current pool of domain 3.
use ocaml_boxroot.Prelude.{
  ℕ, ◌≡◌, refl, sym, ◌∙◌, ap, subst, ◌≢◌, inl, inr, true, false, [], ◌∷◌, none, some, arith, has,
  upd, upd_ne, eq_cases, ==→eq, some-ne-none,
}
use mathlib.Core.Bool.{false≢true}
use ocaml_boxroot.Words.{is_young_block, is_pool_member}
use ocaml_boxroot.Words.Samples.{runtime-IsRuntime}
use ocaml_boxroot.Pool.{init_pool}
use ocaml_boxroot.Pool.Create.{Created, after_create, after_create-Created}
use ocaml_boxroot.Pool.Init.{init_pool-IsPool}
use ocaml_boxroot.Pool.Invariant.{IsPool}
use ocaml_boxroot.Pool.Kept.{IsPool-recount}
use ocaml_boxroot.Boxroot.State.{State, current_ring, fl_of, running, set_current_fl}
use ocaml_boxroot.Boxroot.Tests.{runtime, start, caller}
use ocaml_boxroot.Boxroot.HeapTests.{start-Fresh}
use ocaml_boxroot.Boxroot.Classes.{set_current_pool}
use ocaml_boxroot.Boxroot.Api.{boxroot_delete, boxroot_modify}
use ocaml_boxroot.Boxroot.Heap.{View, InHeap, IsHeap, IsRoot}
use ocaml_boxroot.Boxroot.Heap.Initial.{no_pools, initial-IsHeap}
use ocaml_boxroot.Boxroot.Heap.Fill.{new-IsFound}
use ocaml_boxroot.Boxroot.Heap.Search.{IsFound}
use ocaml_boxroot.Boxroot.Heap.Install.{IsInstalled, set_current_pool-IsInstalled}
use ocaml_boxroot.Boxroot.Heap.Setup.{IsHeap-local}
use ocaml_boxroot.Boxroot.Heap.Touch.{touched-IsHeap}
use ocaml_boxroot.Boxroot.Heap.Demote.{used_current}
use ocaml_boxroot.Boxroot.Heap.Delete.{Removes, boxroot_delete-Removes}
use ocaml_boxroot.Boxroot.Heap.Modify.{IsModified, boxroot_modify-IsModified}

abbrev pub filled : State
filled = record start { memory = 32768 ∷ []; store = init_pool runtime 16384 start.store }

filled-IsFound : IsFound runtime 3 start filled no_pools no_pools 16384
filled-IsFound =
    new-IsFound runtime runtime-IsRuntime 3 start no_pools
      (initial-IsHeap runtime start (λ d. refl) refl refl refl start-Fresh) 16384 (32768 ∷ []) refl
      (λ m. false≢true m.1) (λ e. omega (arith, e)) ((λ e. omega (arith, e)), tt)
      (λ e. omega (arith, e)) start-Fresh.1 refl

abbrev pub with_current : State
with_current = record (set_current_pool 3 16384 filled) { status = running; cached_dom_id = some 3 }

abbrev pub one_pool : View
one_pool = upd no_pools 18 (16384 ∷ [])

installed : IsInstalled runtime 3 filled (set_current_pool 3 16384 filled) no_pools one_pool 16384
installed =
    set_current_pool-IsInstalled runtime runtime-IsRuntime 3 filled no_pools 16384
      filled-IsFound.heap filled-IsFound.nonzero filled-IsFound.spare refl

current-IsPool : IsPool runtime with_current.store 16384 (32744 ∷ 32752 ∷ 32760 ∷ []) [] 1
unfolding set_current_pool set_current_fl init_pool
current-IsPool =
    IsPool-recount runtime (init_pool runtime 16384 start.store) with_current.store 16384
      (32744 ∷ 32752 ∷ 32760 ∷ []) [] 0 1
      (init_pool-IsPool runtime runtime-IsRuntime start.store 16384 refl).0 (λ a i. refl) refl refl
      refl (omega arith) refl

-- The boxroot 32744 with the value 7.
abbrev pub one_root : State
one_root = record with_current { store = after_create 16384 32744 7 with_current.store }

pub made : Created runtime 16384 32744 7 (32752 ∷ 32760 ∷ []) [] 1 with_current.store one_root.store
unfolding is_pool_member
made =
    after_create-Created runtime runtime-IsRuntime with_current.store 16384 7 32744
      (32752 ∷ 32760 ∷ []) [] 1 current-IsPool refl

current-IsHeap : IsHeap runtime with_current one_pool
unfolding set_current_pool set_current_fl
current-IsHeap =
    IsHeap-local runtime (set_current_pool 3 16384 filled) one_pool running false (some 3)
      installed.heap

pub one-IsHeap : IsHeap runtime one_root one_pool
one-IsHeap =
    touched-IsHeap runtime runtime-IsRuntime with_current one_pool current-IsHeap 18 16384 32744
      (some 7) one_root.store refl (32752 ∷ 32760 ∷ [], [], made.pool) made.in_pool made.values
      made.elsewhere

one-IsRoot : IsRoot runtime one_root.store one_pool 32744 7
one-IsRoot = (16384, (18, refl), made.in_pool, made.values 32744)

one-domain : (fl_of 16384 one_root).domain_id ≡ 3
unfolding set_current_pool set_current_fl
one-domain = refl

pub one-ready : one_root.pools 3 ≢ none
unfolding set_current_pool set_current_fl
one-ready e = some-ne-none e

boxroot_delete-Removes_example :
    Removes runtime 32744 one_root one_pool (boxroot_delete runtime caller 32744 one_root)
boxroot_delete-Removes_example =
    boxroot_delete-Removes runtime runtime-IsRuntime caller one_root one_pool 32744 7 3 16384
      current_ring one-IsHeap (inr one-ready) used_current refl one-domain made.in_pool
      (made.values 32744)

pub in_it : (q : ℕ) → has q (16384 ∷ []) ≡ true → q ≡ 16384
in_it q h = ==→eq q 16384 (ground (arith, h))

outside : (q : ℕ) → InHeap one_pool q → is_pool_member 9 q ≡ false
unfolding is_pool_member
outside q (i, m) = elim (eq_cases i 18) [
  | inl e ↦
      subst (λ x. is_pool_member 9 x ≡ false)
        (sym (in_it q (subst (λ j. has q (one_pool j) ≡ true) e m))) refl
  | inr n ↦ absurd (false≢true (ap (has q) (sym (upd_ne no_pools 18 (16384 ∷ []) i n)) ∙ m))
]

boxroot_modify-IsModified_example :
    (s' : State) × (boxroot_modify runtime 3 5 caller 32744 9 one_root ≡ some (true, 32744, s'))
    × IsHeap runtime s' one_pool
    × IsModified runtime one_root.store s'.store one_pool one_pool 32744 9
unfolding is_young_block
boxroot_modify-IsModified_example =
    boxroot_modify-IsModified runtime runtime-IsRuntime 3 5 caller one_root one_pool 32744 7 9
      one-IsHeap refl one-IsRoot outside (inr refl)
