-- ===== src/Boxroot/ScanTests.antt =====
-- A scan of the state with one boxroot, in the current pool of domain 3.
use ocaml_boxroot.Prelude.{
  ℕ, ◌≡◌, refl, sym, ◌∙◌, ap, subst, ◌≢◌, inl, inr, true, false, List, [], ◌∷◌, some, arith, has,
  upd_ne, eq_cases,
}
use mathlib.Core.Bool.{false≢true}
use ocaml_boxroot.Words.Samples.{runtime-IsRuntime}
use ocaml_boxroot.Pool.{Class, young, class_allows}
use ocaml_boxroot.Pool.Scan.Validate.{class_allows-young}
use ocaml_boxroot.Boxroot.State.{State, set_current_fl}
use ocaml_boxroot.Boxroot.Tests.{runtime}
use ocaml_boxroot.Boxroot.Classes.{set_current_pool}
use ocaml_boxroot.Boxroot.Collect.{scan_roots}
use ocaml_boxroot.Boxroot.Heap.{View}
use ocaml_boxroot.Boxroot.Heap.Initial.{no_pools}
use ocaml_boxroot.Boxroot.Heap.Tags.{class_of, Tag, IsTagged}
use ocaml_boxroot.Boxroot.Validate.{validate_all_pools}
use ocaml_boxroot.Boxroot.Heap.Validate.{HeldByClass, validate_all_pools-IsTagged}
use ocaml_boxroot.Boxroot.Heap.ScanRoots.{IsScanned, scan_roots-IsScanned}
use ocaml_boxroot.Boxroot.RootTests.{one_root, one_pool, one-IsHeap, one-ready, in_it}

pool-Tag : Tag (one_root.store.free_list 16384) 18
unfolding set_current_pool set_current_fl
pool-Tag = record { class = refl; empty = λ e. absurd (false≢true e); domain = λ l. refl }

elsewhere : (i q : ℕ) → i ≢ 18 → has q (one_pool i) ≡ false
elsewhere i q n = ap (has q) (upd_ne no_pools 18 (16384 ∷ []) i n)

pub one-IsTagged : IsTagged one_root one_pool
one-IsTagged = record {
  tags = λ i q m. elim (eq_cases i 18) [
    | inl e ↦
        let at : q ≡ 16384 = in_it q (subst (λ j. has q (one_pool j) ≡ true) e m) in
        subst (λ j. Tag (one_root.store.free_list q) j) (sym e)
          (subst (λ x. Tag (one_root.store.free_list x) 18) (sym at) pool-Tag)
    | inr n ↦ absurd (false≢true (sym (elsewhere i q n) ∙ m))
  ];
  no_free_orphans = λ q. elsewhere 3 q (λ e. omega (arith, e));
  no_current_orphans = λ q. elsewhere 2 q (λ e. omega (arith, e));
}

scan_roots-IsScanned_example :
    (found : List ℕ) × (work : ℕ) × (s' : State) × (v' : View) × (scan_roots runtime 2 true false 3
        one_root
      ≡ some (found, work, s'))
    × IsScanned runtime 3 true one_root s' one_pool v' found
scan_roots-IsScanned_example =
    scan_roots-IsScanned runtime runtime-IsRuntime 3 2 true one_root one_pool one-IsHeap
      (inr one-ready) one-IsTagged (omega arith)

one-HeldByClass : HeldByClass runtime runtime-IsRuntime one_root.store one_pool
one-HeldByClass i q m a b h =
    ap (λ (c : Class). class_allows runtime c (one_root.store.slots a)) (is_young i q m)
    ∙ class_allows-young runtime (one_root.store.slots a)
  where
    is_young : (i q : ℕ) → has q (one_pool i) ≡ true → (one_root.store.free_list q).class ≡ young
    is_young i q m = elim (eq_cases i 18) [
      | inl e ↦ (one-IsTagged.tags i q m).class ∙ ap class_of e
      | inr n ↦ absurd (false≢true (sym (elsewhere i q n) ∙ m))
    ]

validate_all_pools-IsTagged_example : validate_all_pools runtime 1 3 one_root ≡ some one_root
validate_all_pools-IsTagged_example =
    validate_all_pools-IsTagged runtime runtime-IsRuntime 3 1 one_root one_pool one-IsHeap
      one-IsTagged one-HeldByClass one-ready (omega arith) (omega arith) (omega arith) (omega arith)
