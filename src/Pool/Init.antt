-- ===== src/Pool/Init.antt =====
-- `get_empty_pool` lays out a pool with all slots free.
use ocaml_boxroot.Prelude.{
  ℕ, zero, suc, ◌+◌, ◌-◌, ◌*◌, ◌%◌, ◌<◌, ◌≡◌, refl, sym, ◌∙◌, ap, subst, ◌≢◌, true, false, [],
  arith, upd_self, upd_ne, last, All-of, NotIn-has, has, eq→==, eq_cases, inl, inr,
}
use mathlib.Core.Bool.{false≢true}
use ocaml_boxroot.Words.{Runtime, IsRuntime, bxr_pool_size, pool_capacity, slot_addr}
use ocaml_boxroot.Pool.{Store, link_slots, init_pool}
use ocaml_boxroot.Pool.Chain.{Chain, Ends}
use ocaml_boxroot.Pool.Count.{addrs, has-addrs, length-addrs, Distinct-addrs, pool_slots}
use ocaml_boxroot.Pool.Invariant.{IsPool}
use ocaml_boxroot.Pool.Gc.{Apart-nil}

module _ (r : Runtime) (p : ℕ) where
  link_slots_above :
      (i : ℕ) (a : ℕ) (m : ℕ → ℕ)
      → ((j : ℕ) → j < i → a ≢ slot_addr r p j)
      → link_slots r p i m a ≡ m a
  unfolding link_slots
  link_slots_above zero a m h = refl
  link_slots_above (suc i) a m h =
      link_slots_above i a _ (λ j k. h j (omega arith)) ∙ upd_ne m _ _ a (h i (omega arith))

  link_slots_below :
      (i j : ℕ) (m : ℕ → ℕ) → j < i → link_slots r p i m (slot_addr r p j) ≡ slot_addr r p (suc j)
  unfolding link_slots
  link_slots_below zero j m h = absurd (omega arith)
  link_slots_below (suc i) j m h = elim (eq_cases j i) [
    | inl e ↦
        rw e (link_slots_above i (slot_addr r p i) _ (λ k h' e'. omega arith) ∙ upd_self m _ _)
    | inr e ↦ link_slots_below i j _ (omega arith)
  ]

  -- The slots from the `j`th on form a chain.
  slots-Chain :
      (m : ℕ → ℕ) (last_one : ℕ)
      → ((j : ℕ) → j < last_one → m (slot_addr r p j) ≡ slot_addr r p (suc j))
      → m (slot_addr r p last_one) ≡ p
      → (n j : ℕ) → j + n ≡ last_one
      → Chain m p (slot_addr r p j) (addrs (slot_addr r p j) (suc n))
  slots-Chain m l steps stop zero j h = let e : j ≡ l = omega arith in (refl, rw e stop)
  slots-Chain m l steps stop (suc n) j h = (
    refl,
    let e : slot_addr r p (suc j) ≡ slot_addr r p j + 8 = omega arith in
        rw (steps j (omega arith)) (
          subst (λ a. Chain m p (slot_addr r p (suc j)) (addrs a (suc n))) e
            (slots-Chain m l steps stop n (suc j) (omega arith))),
  )

  last-addrs : (a n : ℕ) → last a (addrs (a + 8) n) ≡ a + 8 * n
  last-addrs a zero = omega arith
  last-addrs a (suc n) = last-addrs (a + 8) n ∙ omega arith

module _ (r : Runtime) (ok : IsRuntime r) (st : Store) (p : ℕ) (al : p % bxr_pool_size ≡ 0) where
  capacity-suc : pool_capacity r ≡ suc (pool_capacity r - 1)
  capacity-suc = omega (arith, ok.room)

  apart_from_last :
      (j : ℕ) → j < pool_capacity r - 1 → slot_addr r p (pool_capacity r - 1) ≢ slot_addr r p j
  apart_from_last j h e = omega arith

  init-Chain : Chain (init_pool r p st).slots p (slot_addr r p 0) (pool_slots r p)
  unfolding init_pool
  init-Chain =
      subst (λ c. Chain (init_pool r p st).slots p (slot_addr r p 0) (addrs (slot_addr r p 0) c))
        (sym capacity-suc)
        (slots-Chain r p _ (pool_capacity r - 1) (λ j h. link_slots_below r p _ j _ h)
          (link_slots_above r p _ _ _ apart_from_last ∙ upd_self st.slots _ _) (pool_capacity r - 1)
          0 (omega arith))

  init-Ends : Ends (pool_slots r p) (slot_addr r p (pool_capacity r - 1))
  init-Ends =
      subst (λ c. Ends (addrs (slot_addr r p 0) c) (slot_addr r p (pool_capacity r - 1)))
        (sym capacity-suc)
        (sym (last-addrs r p (slot_addr r p 0) (pool_capacity r - 1) ∙ omega arith))

  -- At an aligned address `get_empty_pool` lays out a well-formed pool whose free list is all its
  -- slots in the order of their addresses, with an empty delayed free list, and writes no slot
  -- outside the pool.
  pub init_pool-IsPool :
      IsPool r (init_pool r p st) p (pool_slots r p) [] 0
      × ((a : ℕ) → has a (pool_slots r p) ≡ false → (init_pool r p st).slots a ≡ st.slots a)
  unfolding init_pool
  init_pool-IsPool = (
    record {
      extra = omega arith;
      aligned = al;
      fl_chain = rw (eq→== p p refl) init-Chain;
      fl_end = rw (eq→== p p refl) init-Ends;
      fl_count =
          rw (eq→== p p refl) (omega (arith, length-addrs (slot_addr r p 0) (pool_capacity r)));
      delayed_chain = rw (eq→== p p refl);
      delayed_end = tt;
      delayed_count = rw (eq→== p p refl);
      fl_members = All-of (pool_slots r p) (λ a h. h);
      delayed_members = tt;
      fl_distinct = Distinct-addrs (slot_addr r p 0) (pool_capacity r);
      delayed_distinct = tt;
      apart = Apart-nil (pool_slots r p);
      others = λ a i n m. absurd (false≢true (sym (NotIn-has a (pool_slots r p) n) ∙ i));
    },
    λ a h.
        let out = λ (j : ℕ) (lt : j < pool_capacity r) (e : a ≡ slot_addr r p j). false≢true (
          sym h
          ∙ ap (λ x. has x (pool_slots r p)) e
          ∙ subst (λ b. has b (pool_slots r p) ≡ true) (omega arith)
              (has-addrs (slot_addr r p 0) (pool_capacity r) j lt)) in
        link_slots_above r p (pool_capacity r - 1) a _
          (λ (j : ℕ) (lt : j < pool_capacity r - 1) (e : a ≡ slot_addr r p j).
            out j (omega arith) e)
        ∙ upd_ne st.slots _ _ a (out (pool_capacity r - 1) (omega (arith, ok.room))),
  )
