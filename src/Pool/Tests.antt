-- ===== src/Pool/Tests.antt =====
-- The theorems on pools at a concrete pool of three slots.
use mathlib.Core.Bool.{true, false, false≢true}
use ocaml_boxroot.Prelude.{
  ℕ, ◌+◌, ◌≡◌, ◌↔◌, ◌≤◌, inl, inr, refl, List, [], ◌∷◌, some, arith, filter, length, has, ◌==◌,
  if◌then◌else◌, eq_cases, ne→==, ==→eq, sym, subst,
}
use ocaml_boxroot.Words.{is_young_block, is_pool_member}
use ocaml_boxroot.Words.Samples.{runtime, runtime-IsRuntime}
use ocaml_boxroot.Pool.{
  Store, untracked, create_fast, init_pool, bxr_free_slot, free_slot_atomic, gc_pool, scan_pool_gen,
  scan_pool_young, validate_pool, class_allows, anticipated_alloc_count,
}
use ocaml_boxroot.Pool.Count.{pool_slots}
use ocaml_boxroot.Pool.Invariant.{IsPool, live_slots}
use ocaml_boxroot.Pool.Init.{init_pool-IsPool}
use ocaml_boxroot.Pool.Create.{Created, create_fast-Created, after_create, after_create-Created}
use ocaml_boxroot.Pool.Delete.{Deleted, bxr_free_slot-Deleted, free_slot_atomic-Deleted}
use ocaml_boxroot.Pool.Gc.{Collected, gc_pool-Collected}
use ocaml_boxroot.Pool.Scan.{scan_pool_gen-live, anticipated-live}
use ocaml_boxroot.Pool.Scan.Young.{scan_pool_young-live, IsOutside}
use ocaml_boxroot.Pool.Scan.Validate.{validate_pool-IsPool, ClassHolds}

abbrev p : ℕ
p = 16384

-- The three slots.
abbrev a : ℕ
a = 32744

abbrev b : ℕ
b = 32752

abbrev c : ℕ
c = 32760

abbrev zeros : Store
zeros = record {
  slots = λ x. 0;
  free_list = λ q. record { next = q; end = 0; alloc_count = 0; domain_id = 0; class = untracked };
  delayed_fl = λ q. record { a_next = q; end = 0; a_alloc_count = 0 };
  links = record { next = λ q. q; prev = λ q. q };
}

abbrev fresh : Store
fresh = init_pool runtime p zeros

init_pool-IsPool_example :
    IsPool runtime fresh p (a ∷ b ∷ c ∷ []) [] 0
    × ((x : ℕ) → has x (pool_slots runtime p) ≡ false → fresh.slots x ≡ 0)
init_pool-IsPool_example = init_pool-IsPool runtime runtime-IsRuntime zeros p refl

fresh-IsPool : IsPool runtime fresh p (a ∷ b ∷ c ∷ []) [] 0
fresh-IsPool = (init_pool-IsPool runtime runtime-IsRuntime zeros p refl).0

create_fast-Created_example :
    (st : Store) × (create_fast p 1002 fresh ≡ some (a, st))
    × Created runtime p a 1002 (b ∷ c ∷ []) [] 0 fresh st
unfolding is_pool_member
create_fast-Created_example =
    create_fast-Created runtime runtime-IsRuntime fresh p 1002 a (b ∷ c ∷ []) [] 0 fresh-IsPool refl

-- One boxroot, for a young block.
abbrev one : Store
one = after_create p a 1002 fresh

one-Created : Created runtime p a 1002 (b ∷ c ∷ []) [] 0 fresh one
unfolding is_pool_member
one-Created =
    after_create-Created runtime runtime-IsRuntime fresh p 1002 a (b ∷ c ∷ []) [] 0 fresh-IsPool
      refl

-- A pool beside a word that holds a young block.
abbrev beside : Store
beside = init_pool runtime p (record zeros { slots = λ x. if x == 8 then 1002 else 0 })

beside-IsPool : IsPool runtime beside p (a ∷ b ∷ c ∷ []) [] 0
beside-IsPool =
    (init_pool-IsPool runtime runtime-IsRuntime
      (record zeros { slots = λ x. if x == 8 then 1002 else 0 }) p refl).0

-- One boxroot in it, for an immediate.
abbrev imm : Store
imm = after_create p a 7 beside

imm-young : is_young_block runtime (imm.slots 8) ≡ true
unfolding init_pool is_young_block
imm-young = refl

imm-Created : Created runtime p a 7 (b ∷ c ∷ []) [] 0 beside imm
unfolding is_pool_member
imm-Created =
    after_create-Created runtime runtime-IsRuntime beside p 7 a (b ∷ c ∷ []) [] 0 beside-IsPool refl

bxr_free_slot-Deleted_example :
    Deleted runtime p a (a ∷ b ∷ c ∷ []) [] 0 one (bxr_free_slot p a one).1
    × ((bxr_free_slot p a one).0 ≡ true)
unfolding is_pool_member
bxr_free_slot-Deleted_example =
    bxr_free_slot-Deleted runtime runtime-IsRuntime one p a (b ∷ c ∷ []) [] 0 one-Created.pool
      one-Created.in_pool refl

free_slot_atomic-Deleted_example :
    Deleted runtime p a (b ∷ c ∷ []) (a ∷ []) 0 one (free_slot_atomic p a one)
unfolding is_pool_member
free_slot_atomic-Deleted_example =
    free_slot_atomic-Deleted runtime runtime-IsRuntime one p a (b ∷ c ∷ []) [] 0 one-Created.pool
      one-Created.in_pool refl

abbrev remotely : Store
remotely = free_slot_atomic p a one

remotely-Deleted : Deleted runtime p a (b ∷ c ∷ []) (a ∷ []) 0 one remotely
unfolding is_pool_member
remotely-Deleted =
    free_slot_atomic-Deleted runtime runtime-IsRuntime one p a (b ∷ c ∷ []) [] 0 one-Created.pool
      one-Created.in_pool refl

gc_pool-Collected_example :
    Collected runtime p (a ∷ b ∷ c ∷ []) 0 remotely (gc_pool p remotely).1
    × (((gc_pool p remotely).0 ≡ 0) ↔ (◌≡◌ {A = List ℕ} (a ∷ []) []))
gc_pool-Collected_example =
    gc_pool-Collected runtime runtime-IsRuntime remotely p (b ∷ c ∷ []) (a ∷ []) 0
      remotely-Deleted.pool

anticipated-live_example :
    anticipated_alloc_count p remotely ≡ length (live_slots runtime remotely p) + 0
anticipated-live_example =
    anticipated-live runtime runtime-IsRuntime remotely p (b ∷ c ∷ []) (a ∷ []) 0
      remotely-Deleted.pool

scan_pool_gen-live_example :
    (work : ℕ) × (scan_pool_gen runtime one p ≡ some (live_slots runtime one p, work)) × (work ≤ 3)
scan_pool_gen-live_example =
    scan_pool_gen-live runtime runtime-IsRuntime one p (b ∷ c ∷ []) [] one-Created.pool

one-IsOutside : IsOutside runtime one p
unfolding init_pool
one-IsOutside = record {
  aligned = refl;
  words = λ x h. ground arith;
  heap = inr (omega arith);
  ends = λ x h e. inl refl;
}

scan_pool_young-live_example :
    (scan_pool_young runtime one p).0
    ≡ filter (λ x. is_young_block runtime (one.slots x)) (live_slots runtime one p)
scan_pool_young-live_example = scan_pool_young-live runtime runtime-IsRuntime one p one-IsOutside

imm-ClassHolds : ClassHolds runtime runtime-IsRuntime imm p
unfolding init_pool class_allows is_pool_member is_young_block
imm-ClassHolds x i h = elim (eq_cases x a) [
  | inl e ↦ subst (λ y. class_allows runtime untracked (imm.slots y) ≡ true) (sym e) refl
  | inr n ↦ elim (eq_cases x b) [
    | inl e ↦ absurd (false≢true (sym (subst (λ y. is_pool_member (imm.slots y) p ≡ false) e h)))
    | inr m ↦
        let last : x ≡ c = ==→eq x c (ground (arith, i, ne→== x a n, ne→== x b m)) in
        absurd (false≢true (sym (subst (λ y. is_pool_member (imm.slots y) p ≡ false) last h)))
  ]
]

validate_pool-IsPool_example : validate_pool runtime imm p ≡ true
validate_pool-IsPool_example =
    validate_pool-IsPool runtime runtime-IsRuntime imm p (b ∷ c ∷ []) [] (λ e. omega arith)
      imm-Created.pool imm-ClassHolds
