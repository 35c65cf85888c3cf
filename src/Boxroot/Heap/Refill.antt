-- ===== src/Boxroot/Heap/Refill.antt =====
-- The part of `bxr_create_slow` that gives the domain a new current pool.
use ocaml_boxroot.Prelude.{
  ℕ, ◌+◌, ◌*◌, ◌≤◌, ◌<◌, ◌≡◌, refl, sym, ◌∙◌, ap, subst, inl, inr, true, List, [], ◌∷◌, some, arith,
  has, eq→==, ne→==, length, ◌>>=◌,
}
use mathlib.Core.Bool.{false≢true}
use ocaml_boxroot.Words.{Runtime, IsRuntime}
use ocaml_boxroot.Ring.Paths.{IsRing}
use ocaml_boxroot.Boxroot.State.{State, of_domain, young_ring, current_ring, rings_of}
use ocaml_boxroot.Boxroot.Classes.{find_and_set_available_pool, move_current_to_young}
use ocaml_boxroot.Boxroot.Collect.{try_gc_and_reclassify_one_pool_no_stw, try_gc_one_loop}
use ocaml_boxroot.Boxroot.Api.{refill}
use ocaml_boxroot.Boxroot.Heap.{View, cur_key, Ready, IsHeap, IsKept}
use ocaml_boxroot.Boxroot.Heap.Local.{own-cur_key}
use ocaml_boxroot.Boxroot.Heap.Kept.{IsKept-trans, IsKept-IsShuffled}
use ocaml_boxroot.Boxroot.Heap.OnePool.{loop-Shuffles}
use ocaml_boxroot.Boxroot.Heap.Current.{move_current_to_young-IsKept}
use ocaml_boxroot.Boxroot.Heap.Fill.{refused}
use ocaml_boxroot.Boxroot.Heap.Supplied.{Supplies, find_and_set_available_pool-Supplies}

module _ (r : Runtime) (ok : IsRuntime r) (dom : ℕ) where
  refill-empty :
      (n : ℕ) (s : State) (v : View)
      → IsHeap r s v
      → Ready s dom
      → v (cur_key dom) ≡ []
      → (s' : State) × (refill r n dom s ≡ some s') × Supplies r dom s v s'
  unfolding refill
  refill-empty n s v inv ready e =
      let head =
        subst (IsRing s.store.links (rings_of dom s).current) e
          (inv.rings.rings (of_domain dom current_ring) tt) in
      (
        find_and_set_available_pool r dom s,
        rw (eq→== (rings_of dom s).current 0 head, refill) refl,
        find_and_set_available_pool-Supplies r ok dom s v inv ready e,
      )

  -- What `Supplies` says survives work before it that keeps the boxroots.
  Supplies-after :
      (s t u : State) (v w : View)
      → s.memory ≡ t.memory
      → IsKept r dom s t v w
      → Supplies r dom t w u
      → Supplies r dom s v u
  Supplies-after s t u v w m k (x, inl o) = (
    x,
    inl (record {
      no_memory = ap refused m ∙ o.no_memory;
      kept = o.kept;
      cur = o.cur;
      back = λ q h. k.back q (o.back q h);
      forth = λ q h. o.forth q (k.forth q h);
      values = λ q a h i. o.values q a (k.forth q h) i ∙ k.values q a h i;
    }),
  )
  Supplies-after s t u v w m k (x, inr (p, o)) = (
    x,
    inr (
      p,
      record {
        nonzero = o.nonzero;
        heap = o.heap;
        cur = o.cur;
        room = o.room;
        back = λ q h. elim (o.back q h) [ inl e ↦ inl e | inr h ↦ inr (k.back q h) ];
        forth = λ q h. o.forth q (k.forth q h);
        values = λ q a h i. o.values q a (k.forth q h) i ∙ k.values q a h i;
        source = elim o.source [ inl h ↦ inl (k.back p h) | inr h ↦ inr (ap (has p) m ∙ h.0, h.1) ];
        empty_fl = o.empty_fl ∙ k.empty_fl;
        cached_dom_id = o.cached_dom_id ∙ k.cached_dom_id;
        thread_has_lock = o.thread_has_lock ∙ k.thread_has_lock;
        status = o.status ∙ k.status;
        some_rings = o.some_rings;
      },
    ),
  )

  -- The young ring is not empty when a pool of it may be collected.
  collect-Supplies :
      (n : ℕ) (s t : State) (v w : View) (a : ℕ) (xs : List ℕ)
      → IsKept r dom s t v w
      → Ready s dom
      → w (cur_key dom) ≡ []
      → w (4 + 4 * dom + 1) ≡ a ∷ xs
      → length (a ∷ xs) ≤ n
      → (u : State) × (try_gc_and_reclassify_one_pool_no_stw n (of_domain dom young_ring) dom t
          ≡ some u)
        × Supplies r dom s v (find_and_set_available_pool r dom u)
  unfolding try_gc_and_reclassify_one_pool_no_stw
  collect-Supplies n s t v w a xs k ready cur young fuel =
      let (u, done, (x, sh)) =
        loop-Shuffles r ok dom t w k.heap (k.ready ready) (of_domain dom young_ring) tt refl
          (ground arith) n a xs young fuel in
      let head : (rings_of dom t).young ≡ a =
        (subst (IsRing t.store.links (rings_of dom t).young) young
          (k.heap.rings.rings (of_domain dom young_ring) tt)).0 in
      let both = IsKept-trans r dom s t u v w x k (IsKept-IsShuffled r dom t u w x sh) in
      (
        u,
        ap (λ p. try_gc_one_loop n (of_domain dom young_ring) dom p p t) head ∙ done,
        Supplies-after s u (find_and_set_available_pool r dom u) v x (sym both.memory) both (
            find_and_set_available_pool-Supplies r ok dom u x sh.heap (both.ready ready)
              (sh.local.same (cur_key dom) (own-cur_key dom dom) ∙ cur)),
      )

  refill-current :
      (n : ℕ) (s : State) (v : View) (p : ℕ)
      → IsHeap r s v
      → Ready s dom
      → v (cur_key dom) ≡ p ∷ []
      → length (v (4 + 4 * dom + 1)) < n
      → (s' : State) × (refill r n dom s ≡ some s') × Supplies r dom s v s'
  unfolding refill
  refill-current n s v p inv ready e fuel =
      let (kept, cur, young, len) = move_current_to_young-IsKept r ok dom s v p inv ready e in
      let (a, xs, split) = nonempty p _ young in
      let (u, done, all) =
        collect-Supplies n s (move_current_to_young dom s) v _ a xs kept ready cur split
          (subst (λ k. k ≤ n) (sym len ∙ ap length split) (omega (arith, fuel))) in
      let head =
        subst (IsRing s.store.links (rings_of dom s).current) e
          (inv.rings.rings (of_domain dom current_ring) tt) in
      (
        find_and_set_available_pool r dom u,
        rw (ne→== (rings_of dom s).current 0 (λ z. head.1.0 (sym z ∙ head.0)), refill)
            (ap (λ o. o >>= λ s1. some (find_and_set_available_pool r dom s1)) done),
        all,
      )
    where
      nonempty : (q : ℕ) (xs : List ℕ) → has q xs ≡ true → (a : ℕ) × (ys : List ℕ) × (xs ≡ a ∷ ys)
      nonempty q [] h = absurd (false≢true h)
      nonempty q (x ∷ xs) h = (x, xs, refl)

  -- `n` rounds of the loop over the young ring and the current pool are enough.
  pub refill-Supplies :
      (n : ℕ) (s : State) (v : View)
      → IsHeap r s v
      → Ready s dom
      → length (v (4 + 4 * dom + 1)) < n
      → (s' : State) × (refill r n dom s ≡ some s') × Supplies r dom s v s'
  refill-Supplies n s v inv ready fuel = by_current (v (cur_key dom)) refl (inv.one_current dom)
    where
      by_current :
          (xs : List ℕ)
          → v (cur_key dom) ≡ xs
          → length (v (cur_key dom)) ≤ 1
          → (s' : State) × (refill r n dom s ≡ some s') × Supplies r dom s v s'
      by_current [] e h = refill-empty n s v inv ready e
      by_current (p ∷ []) e h = refill-current n s v p inv ready e fuel
      by_current (p ∷ q ∷ xs) e h =
          let h' : length (p ∷ q ∷ xs) ≤ 1 = subst (λ zs. length zs ≤ 1) e h in
          absurd (omega (arith, h'))
