-- ===== src/Pool/Scan/Young.antt =====
-- `scan_pool_young`, the scan of a pool at a minor collection.
use ocaml_boxroot.Prelude.{
  ℕ, zero, suc, ◌+◌, ◌%◌, ◌^◌, ◌<◌, ◌≤◌, ◌≡◌, refl, sym, ◌∙◌, ◌≢◌, ◌⊎◌, Bool, true, false, ◌&&◌,
  List, [], ◌∷◌, arith, filter, All-of, filter-eq, Bool-cases, inl, inr,
}
use ocaml_boxroot.Words.{
  Runtime, IsRuntime, bxr_pool_size, pool_capacity, slot_addr, is_pool_member, in_young_range,
  is_young_block,
}
use ocaml_boxroot.Words.Laws.{in_young_range-young_block, is_pool_member_iff}
use ocaml_boxroot.Pool.{Store, scan_young_loop, scan_pool_young}
use ocaml_boxroot.Pool.Count.{addrs, pool_slots, InPool}
use ocaml_boxroot.Pool.Invariant.{holds_value, live_slots}

-- The words of the pool are machine words, the pool lies outside the minor heap, and on OCaml 4 no
-- value is one of the minor heap's two ends.
pub record IsOutside (r : Runtime) (st : Store) (p : ℕ) : Type 0 where
  pub aligned : p % bxr_pool_size ≡ 0
  pub words : (a : ℕ) → InPool r p a → st.slots a < 2 ^ 64
  pub heap : (p + bxr_pool_size ≤ r.young_start) ⊎ (r.young_end < p)
  pub ends :
      (a : ℕ)
      → InPool r p a
      → is_pool_member (st.slots a) p ≡ false
      → (r.ocaml_multicore ≡ true) ⊎ ((st.slots a ≢ r.young_start) × (st.slots a ≢ r.young_end))

filter-filter {ℓ} :
    {A : Type ℓ} (f g : A → Bool) (xs : List A)
    → filter f (filter g xs) ≡ filter (λ a. g a && f a) xs
filter-filter f g [] = refl
filter-filter f g (x ∷ xs) = ground (arith, filter-filter f g xs)

module _ (r : Runtime) (ok : IsRuntime r) (st : Store) (p : ℕ) (o : IsOutside r st p) where
  free_not_young :
      (v : ℕ)
      → is_pool_member v p ≡ true
      → (v ≢ r.young_start) × (v ≢ r.young_end) × (is_young_block r v ≡ false)
  unfolding is_young_block
  free_not_young v h =
      let h' = sym (is_pool_member_iff v p o.aligned) ∙ h in
      ground (arith, o.heap, ok.young_inside v, ok.heap_bounds)

  young_test :
      (a : ℕ)
      → InPool r p a
      → (in_young_range r (st.slots a) && r.is_block (st.slots a))
        ≡ (holds_value st p a && is_young_block r (st.slots a))
  young_test a i = elim (Bool-cases (is_pool_member (st.slots a) p)) [
    | inl e ↦
        let (s, t, y) = free_not_young (st.slots a) e in
        rw e (in_young_range-young_block r ok _ (o.words a i) (inr (s, t)) ∙ y)
    | inr e ↦ rw e (in_young_range-young_block r ok _ (o.words a i) (o.ends a i e))
  ]

  scan_young_loop-filter :
      (n current : ℕ)
      → scan_young_loop r n st current
        ≡ filter (λ a. in_young_range r (st.slots a) && r.is_block (st.slots a)) (addrs current n)
  unfolding scan_young_loop
  scan_young_loop-filter zero current = refl
  scan_young_loop-filter (suc n) current = rw (scan_young_loop-filter n (current + 8))

  -- If the pool's words are 64-bit words, the pool lies outside the minor heap and, on OCaml 4, no
  -- value of it is an end of the minor heap, then `scan_pool_young` calls the GC's action on
  -- exactly the slots that hold a young block, in the order of their addresses.
  pub scan_pool_young-live :
      (scan_pool_young r st p).0 ≡ filter (λ a. is_young_block r (st.slots a)) (live_slots r st p)
  unfolding scan_pool_young
  scan_pool_young-live =
      scan_young_loop-filter (pool_capacity r) (slot_addr r p 0)
      ∙ filter-eq _ _ (pool_slots r p) (All-of (pool_slots r p) young_test)
      ∙ sym (filter-filter _ (holds_value st p) (pool_slots r p))
