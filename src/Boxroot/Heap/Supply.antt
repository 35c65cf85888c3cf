-- ===== src/Boxroot/Heap/Supply.antt =====
-- `find_and_set_available_pool` makes a pool with a free slot the current one, if there is one.
use ocaml_boxroot.Prelude.{
  ℕ, ◌≡◌, refl, sym, ap, subst, inl, inr, Bool, true, false, not, ◌&&◌, arith, ◌==◌, if◌then◌else◌,
  eq→==, ne→==,
}
use ocaml_boxroot.Words.{Runtime, IsRuntime}
use ocaml_boxroot.Pool.{is_not_too_full}
use ocaml_boxroot.Boxroot.State.{State, of_domain, old_ring, young_ring, free_ring, rings_of}
use ocaml_boxroot.Boxroot.Classes.{pop_available, find_available_pool, get_empty_pool}
use ocaml_boxroot.Boxroot.Heap.{View, Ready, IsHeap}
use ocaml_boxroot.Boxroot.Heap.Search.{Tried, Tried-then, pop_available-Tried}
use ocaml_boxroot.Boxroot.Heap.Fill.{Got, get_empty_pool-Got}

module _ (r : Runtime) (ok : IsRuntime r) (dom : ℕ) (s : State) (v : View) (inv : IsHeap r s v)
    (ready : Ready s dom) where
  Got-of_Tried :
      (p : ℕ) (s3 : State)
      → Tried r dom s v (p, s3)
      → Got r dom s v (if p == 0 then get_empty_pool r s3 else (p, s3))
  Got-of_Tried p s3 (inl (z, e)) = rw (eq→== p 0 z) (
      subst (λ x. Got r dom s v (get_empty_pool r x)) (sym e) (get_empty_pool-Got r ok dom s v inv))
  Got-of_Tried p s3 (inr (v', f)) = rw (ne→== p 0 f.nonzero) (inr (v', f))

  abbrev stage1 : ℕ × State
  stage1 = pop_available (of_domain dom young_ring) s

  -- Whether the old ring is worth a try.
  abbrev try_old : Bool
  try_old =
      not ((rings_of dom stage1.1).old == 0)
      && is_not_too_full (rings_of dom stage1.1).old stage1.1.store

  abbrev stage2 : ℕ × State
  stage2 =
      if (stage1.0 == 0) && try_old then pop_available (of_domain dom old_ring) stage1.1 else stage1

  abbrev stage3 : ℕ × State
  stage3 = if stage2.0 == 0 then pop_available (of_domain dom free_ring) stage2.1 else stage2

  stages :
      find_available_pool r dom s ≡ (if stage3.0 == 0 then get_empty_pool r stage3.1 else stage3)
  unfolding find_available_pool
  stages =
      ap
        (λ b.
          let st2 : ℕ × State =
            if b then pop_available (of_domain dom old_ring) stage1.1 else stage1 in
          let st3 : ℕ × State =
            if st2.0 == 0 then pop_available (of_domain dom free_ring) st2.1 else st2 in
          if st3.0 == 0 then get_empty_pool r st3.1 else st3)
        (assoc (stage1.0 == 0) (not ((rings_of dom stage1.1).old == 0))
          (is_not_too_full (rings_of dom stage1.1).old stage1.1.store))
    where
      assoc : (a b c : Bool) → ((a && b) && c) ≡ (a && (b && c))
      assoc true b c = refl
      assoc false b c = refl

  tried1 : Tried r dom s v stage1
  tried1 =
      pop_available-Tried r ok dom s v inv ready (of_domain dom young_ring) tt refl (ground arith)

  tried2 : Tried r dom s v stage2
  tried2 =
      Tried-then r dom s v stage1.0 stage1.1 try_old (pop_available (of_domain dom old_ring)) tried1
        (pop_available-Tried r ok dom s v inv ready (of_domain dom old_ring) tt refl (ground arith))

  -- The free ring is tried whatever the test above.
  Tried-else :
      (p : ℕ) (s1 : State) (next : State → ℕ × State)
      → Tried r dom s v (p, s1)
      → Tried r dom s v (next s)
      → Tried r dom s v (if p == 0 then next s1 else (p, s1))
  Tried-else p s1 next (inl (z, e)) t =
      rw (eq→== p 0 z) (subst (λ x. Tried r dom s v (next x)) (sym e) t)
  Tried-else p s1 next (inr (v', f)) t = rw (ne→== p 0 f.nonzero) (inr (v', f))

  tried3 : Tried r dom s v stage3
  tried3 =
      Tried-else stage2.0 stage2.1 (pop_available (of_domain dom free_ring)) tried2 (
        pop_available-Tried r ok dom s v inv ready (of_domain dom free_ring) tt refl (ground arith))

  pub find_available_pool-Got : Got r dom s v (find_available_pool r dom s)
  find_available_pool-Got =
      subst (Got r dom s v) (sym stages) (Got-of_Tried stage3.0 stage3.1 tried3)
