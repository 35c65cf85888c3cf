-- ===== src/Words/Laws.antt =====
-- The address tests are right.
use ocaml_boxroot.Prelude.{
  ℕ, ◌+◌, ◌%◌, ◌^◌, ◌<◌, ◌≡◌, ◌≢◌, ◌⊎◌, true, false, ◌&&◌, arith, ltb, leb, ◌==◌, Bool-cases, inl,
  inr, eq→==,
}
use ocaml_boxroot.Words.{
  bxr_pool_size, get_pool_header, is_pool_member, Runtime, IsRuntime, pool_capacity, slot_addr,
  is_young_block, in_young_range,
}

module _ (r : Runtime) (ok : IsRuntime r) where
  -- The pool header of the address of any slot of an aligned pool is the pool's address.
  pub get_pool_header-slot_addr :
      (p i : ℕ)
      → p % bxr_pool_size ≡ 0
      → i < pool_capacity r
      → get_pool_header (slot_addr r p i) ≡ p
  unfolding get_pool_header
  get_pool_header-slot_addr p i al h = omega (arith, ok.room, ok.sizeof_pos)

  pub is_pool_member-slot_addr :
      (p i : ℕ)
      → p % bxr_pool_size ≡ 0
      → i < pool_capacity r
      → is_pool_member (slot_addr r p i) p ≡ true
  unfolding is_pool_member
  is_pool_member-slot_addr p i al h =
      eq→== _ _ (omega (arith, ok.room, ok.sizeof_pos, ok.sizeof_aligned))

  -- For a 64-bit word that, on OCaml 4, is neither end of the minor heap, the wrapping comparison
  -- of `scan_pool_young` together with `Is_block` holds exactly of the young blocks.
  pub in_young_range-young_block :
      (v : ℕ)
      → v < 2 ^ 64
      → (r.ocaml_multicore ≡ true) ⊎ ((v ≢ r.young_start) × (v ≢ r.young_end))
      → (in_young_range r v && r.is_block v) ≡ is_young_block r v
  unfolding in_young_range is_young_block
  in_young_range-young_block v h (inl m) = rw m (ground (arith, ok.young_inside v, ok.heap_bounds))
  in_young_range-young_block v h (inr ne) = elim (Bool-cases r.ocaml_multicore) [
    | inl m ↦ rw m (ground (arith, ok.young_inside v, ok.heap_bounds))
    | inr m ↦ rw m (ground (arith, ok.young_inside v, ok.heap_bounds))
  ]

pub is_pool_member_self : (p : ℕ) → p % bxr_pool_size ≡ 0 → is_pool_member p p ≡ true
unfolding is_pool_member
is_pool_member_self p h = eq→== _ _ (omega arith)

-- An immediate is no pool member, and neither is a word outside the pool's own page.
pub is_pool_member_imm : (v p : ℕ) → p % bxr_pool_size ≡ 0 → v % 2 ≡ 1 → is_pool_member v p ≡ false
unfolding is_pool_member
is_pool_member_imm v p al h = ground arith

-- For an aligned pool address `p`, `is_pool_member(v, p)` holds exactly of the even words `v` in
-- the pool's BXR_POOL_SIZE bytes.
pub is_pool_member_iff :
    (v p : ℕ)
    → p % bxr_pool_size ≡ 0
    → is_pool_member v p ≡ (leb p v && ltb v (p + bxr_pool_size) && (v % 2 == 0))
unfolding is_pool_member
is_pool_member_iff v p al = ground arith
