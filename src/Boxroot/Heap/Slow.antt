-- ===== src/Boxroot/Heap/Slow.antt =====
-- `bxr_create_slow` on a well-formed state, and with it `boxroot_create` as a whole.
use ocaml_boxroot.Prelude.{
  ℕ, suc, ◌+◌, ◌*◌, ◌<◌, ◌≡◌, refl, sym, ◌∙◌, ap, subst, ◌≢◌, inl, inr, Bool, true, false, Option,
  none, some, ◌==◌, if◌then◌else◌, eq→==, ne→==, length, ◌>>=◌,
}
use ocaml_boxroot.Words.{Runtime, IsRuntime, is_pool_member}
use ocaml_boxroot.Ring.Paths.{IsRing}
use ocaml_boxroot.Pool.{create_fast}
use ocaml_boxroot.Boxroot.State.{State, Caller, lock_held, of_domain, current_ring, rings_of}
use ocaml_boxroot.Boxroot.Api.{
  current_free_list, domain_of, refill, create_in_rings, boxroot_create,
}
use ocaml_boxroot.Boxroot.Heap.{View, cur_key, current_of, IsHeap}
use ocaml_boxroot.Boxroot.Heap.Supplied.{IsSupplied, Supplies}
use ocaml_boxroot.Boxroot.Heap.Refill.{refill-Supplies}
use ocaml_boxroot.Boxroot.Heap.Roots.{
  IsAdded-after, SameRoots-of_IsOut, SameRoots-of_IsSupplied, create_fast-IsAdded,
}
use ocaml_boxroot.Boxroot.Heap.Create.{Creates, IsOutside, root-ne-zero, fast-lem}

own_read :
    (b : Bool) (cd : Option ℕ) (d e : ℕ) (fl : ℕ → ℕ)
    → cd ≡ some (if b then d else 0)
    → (if b then (elim cd [ none ↦ e | some x ↦ fl x ]) else fl 0) ≡ fl (if b then d else 0)
own_read true cd d e fl z = ap (λ o. elim o as (λ _. ℕ) [ none ↦ e | some x ↦ fl x ]) z
own_read false cd d e fl z = refl

module _ (r : Runtime) (ok : IsRuntime r) (c : Caller) (n init : ℕ) (s : State) (v : View)
    (out : IsOutside s v init) where
  abbrev here : ℕ
  here = domain_of r c

  -- The domain's own list is read once it is cached.
  own_list :
      (t : State) (w : View)
      → IsHeap r t w
      → t.cached_dom_id ≡ some here
      → t.pools here ≢ none
      → current_free_list r t ≡ current_of (w (cur_key here)) t.empty_fl
  own_list t w inv cached rings =
      own_read r.ocaml_multicore t.cached_dom_id c.domain_id t.empty_fl t.current_fl cached
      ∙ inv.current here (inr rings)

  -- With a free slot in the current pool, the second call goes the fast way.
  again-Creates :
      (k : ℕ) (t : State) (w : View) (p : ℕ)
      → IsSupplied r here s t v w p
      → lock_held r c t ≡ true
      → t.cached_dom_id ≡ some here
      → Creates r init s v (boxroot_create r (suc k) n c init t)
  again-Creates k t w p o lock cached =
      let h : is_pool_member init p ≡ false =
        out p (elim o.source [ inl m ↦ inl m | inr m ↦ inr m.0 ]) in
      let (x, st', done, heap, added, i) =
        create_fast-IsAdded r ok here t w p init o.heap o.cur o.room h in
      let list =
        own_list t w o.heap cached o.some_rings ∙ ap (λ xs. current_of xs t.empty_fl) o.cur in
      (
        x,
        record t { store = st' },
        w,
        fast-lem r ok c n init k x st' t lock (ap (λ fl. create_fast fl init t.store) list ∙ done),
        heap,
        inr (
          root-ne-zero r ok c n init p x i,
          IsAdded-after r s.store t.store st' v w w x init
              (SameRoots-of_IsSupplied r here s t v w p o) added,
        ),
      )

  after_refill :
      (k : ℕ) (t : State)
      → Supplies r here s v t
      → lock_held r c s ≡ true
      → s.cached_dom_id ≡ some here
      → Creates r init s v (
          if (rings_of here t).current == 0
          then some (0, t)
          else boxroot_create r (suc k) n c init t)
  after_refill k t (w, inl o) lock cached =
      let head =
        subst (IsRing t.store.links (rings_of here t).current) o.cur
          (o.kept.rings.rings (of_domain here current_ring) tt) in
      rw (eq→== (rings_of here t).current 0 head)
        (0, t, w, refl, o.kept, inl (refl, o.no_memory, SameRoots-of_IsOut r here s t v w o))
  after_refill k t (w, inr (p, o)) lock cached =
      let head =
        subst (IsRing t.store.links (rings_of here t).current) o.cur
          (o.heap.rings.rings (of_domain here current_ring) tt) in
      rw (ne→== (rings_of here t).current 0 (λ z. o.nonzero (sym head.0 ∙ z))) (
        again-Creates k t w p o
          (ap (λ b. if r.ocaml_multicore then c.caml_state else b) o.thread_has_lock ∙ lock)
          (o.cached_dom_id ∙ cached))

  in_rings-lem :
      (again : State → Option (ℕ × State))
      → s.cached_dom_id ≡ some here
      → create_in_rings r n here again s ≡ (
          refill r n here s >>= λ s'.
          if (rings_of here s').current == 0 then some (0, s') else again s')
  unfolding create_in_rings
  in_rings-lem again cached =
      ap
        (λ o. elim o as (λ _. Option (ℕ × State)) [
          | none ↦ again (record s { cached_dom_id = some here })
          | some d ↦
              if d == here
              then (refill r n here s >>= λ s'.
                  if (rings_of here s').current == 0 then some (0, s') else again s')
              else none
        ])
        cached
      ∙ ap
          (λ b.
            if b
            then (refill r n here s >>= λ s'.
                if (rings_of here s').current == 0 then some (0, s') else again s')
            else none)
          (eq→== here here refl)

  pub in_rings-Creates :
      (k : ℕ)
      → IsHeap r s v
      → lock_held r c s ≡ true
      → s.cached_dom_id ≡ some here
      → s.pools here ≢ none
      → length (v (4 + 4 * here + 1)) < n
      → Creates r init s v (create_in_rings r n here (boxroot_create r (suc k) n c init) s)
  in_rings-Creates k inv lock cached rings fuel =
      let (t, done, all) = refill-Supplies r ok here n s v inv (inr rings) fuel in
      subst (Creates r init s v) (sym (in_rings-lem (boxroot_create r (suc k) n c init) cached)) (
        subst
          (λ o. Creates r init s v (
            o >>= λ s'.
            if (rings_of here s').current == 0
            then some (0, s')
            else boxroot_create r (suc k) n c init s'))
          (sym done) (after_refill k t all lock cached))
