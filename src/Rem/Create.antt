-- ===== src/Rem/Create.antt =====
-- `rem_boxroot_create` from the first pool, and `rem_boxroot_delete`.
use ocaml_boxroot.Prelude.{
  ℕ, ◌+◌, ◌≡◌, refl, ◌≢◌, true, false, List, some, arith, has, upd, ◌==◌, ne→==,
}
use ocaml_boxroot.Words.{Runtime, is_young_block}
use ocaml_boxroot.Pool.Count.{addrs-index}
use ocaml_boxroot.Rem.{
  Rem, sizeof_header, pool_roots_capacity, is_free_slot, alloc_in_pool, alloc_slot,
}
use ocaml_boxroot.Rem.Api.{rem_boxroot_create, rem_boxroot_delete}
use ocaml_boxroot.Rem.Invariant.{IsPool, IsLive}
use ocaml_boxroot.Rem.Steps.{IsDealloc, dealloc_slot-Deallocs}
use ocaml_boxroot.Rem.Alloc.{IsAlloc, alloc_in_pool-Allocs}

module _ (r : Runtime) (n init : ℕ) (s : Rem) (fs ms : List ℕ) where
  abbrev p : ℕ
  p = s.pools

  first_pool :
      p ≢ 0
      → (s.header p).alloc_count ≢ pool_roots_capacity
      → alloc_slot n (is_young_block r init) s ≡ some (alloc_in_pool (is_young_block r init) p s)
  unfolding alloc_slot
  first_pool nz room =
      rw (ne→== p 0 nz, ne→== (s.header p).alloc_count pool_roots_capacity room, alloc_slot) refl

  -- If the first pool of rem_boxroot.c is there, not full and well formed, the slots of its minor
  -- free list are in the remembered set and the value looks like no free slot of it, then
  -- `rem_boxroot_create` returns a slot of that pool which was free, the slot holds the value, no
  -- other slot is changed, the pool is well formed, the slot is in the remembered set if the value
  -- is a young block, and so are the slots of the minor free list still.
  pub rem_boxroot_create-IsAlloc :
      p ≢ 0
      → (s.header p).alloc_count ≢ pool_roots_capacity
      → IsPool s.slots (s.header p) p fs ms
      → is_free_slot init p ≡ false
      → ((a : ℕ) → has a ms ≡ true → has a s.remembered ≡ true)
      → (x : ℕ) × (t : Rem) × (rem_boxroot_create r n init s ≡ some (x, t))
        × (fs' : List ℕ) × (ms' : List ℕ) × IsAlloc s t p x init (is_young_block r init) fs' ms'
  unfolding rem_boxroot_create
  rem_boxroot_create-IsAlloc nz room v plain minor_slots =
      let (fs', ms', k) =
        alloc_in_pool-Allocs s p init (is_young_block r init) fs ms v plain minor_slots room in
      let res = alloc_in_pool (is_young_block r init) p s in
      let (i, lt, at) = addrs-index res.0 (p + sizeof_header) pool_roots_capacity k.in_pool in
      let x_nz : (res.0 == 0) ≡ false = ne→== _ _ (λ z. omega (arith, z, at)) in
      (
        res.0,
        record res.1 { slots = upd res.1.slots res.0 init },
        rw (first_pool nz room, rem_boxroot_create) (rw x_nz refl),
        fs',
        ms',
        k,
      )

-- For a slot of a well-formed pool of rem_boxroot.c that holds a value, `rem_boxroot_delete` makes
-- the slot free, changes no other slot, and leaves the pool well formed, whichever free list the
-- slot goes to and whether or not the pool moves to another ring.
pub rem_boxroot_delete-IsDealloc :
    (r : Runtime) (s : Rem) (p x : ℕ) (fs ms : List ℕ)
    → IsPool s.slots (s.header p) p fs ms
    → IsLive s.slots p x
    → (fs' : List ℕ) × (ms' : List ℕ) × IsDealloc s (rem_boxroot_delete r x s) p x fs' ms'
unfolding rem_boxroot_delete
rem_boxroot_delete-IsDealloc r s p x fs ms v live = dealloc_slot-Deallocs r s p x fs ms v live
