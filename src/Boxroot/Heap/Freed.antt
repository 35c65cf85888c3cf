-- ===== src/Boxroot/Heap/Freed.antt =====
-- `free_pool_ring` on a well-formed state, and the pools that keep nothing alive.
use ocaml_boxroot.Prelude.{
  ℕ, zero, suc, ◌≤◌, ◌≡◌, refl, sym, ◌∙◌, ap, subst, ◌≢◌, inl, inr, true, List, [], ◌∷◌, some, not,
  arith, has, upd, upd_self, upd_ne, length, length-filter-pos, if◌then◌else◌, eq_cases, eq→==,
  ne→==,
}
use ocaml_boxroot.Words.{Runtime, IsRuntime, is_pool_member}
use ocaml_boxroot.Ring.Paths.{IsRing}
use ocaml_boxroot.Pool.{Store}
use ocaml_boxroot.Pool.Count.{InPool, pool_slots}
use ocaml_boxroot.Pool.Invariant.{root_value, holds_value, live_count}
use ocaml_boxroot.Pool.Kept.{PoolAt, KeptAt, KeptAt-refl, KeptAt-trans, PoolAt-KeptAt}
use ocaml_boxroot.Boxroot.State.{State, of_domain, free_ring, get_place, pop_place}
use ocaml_boxroot.Boxroot.Classes.{free_pool_ring}
use ocaml_boxroot.Boxroot.Rings.{pop_place-IsRings}
use ocaml_boxroot.Boxroot.Release.{IsRings-freed}
use ocaml_boxroot.Boxroot.Reclassify.{free_list-pop_place}
use ocaml_boxroot.Boxroot.Heap.{View, cur_key, current_of, Ready, IsHeap, IsFrame}
use ocaml_boxroot.Boxroot.Heap.Local.{IsHeap-rest, Ready-back, IsFrame-refl, IsFrame-trans}
use ocaml_boxroot.Boxroot.Heap.Relabel.{IsRelabel, pop_place-IsRelabel}
use ocaml_boxroot.Boxroot.Heap.Delete.{live_of_value}
use ocaml_boxroot.Boxroot.Heap.Tags.{IsTagged}
use ocaml_boxroot.Boxroot.Heap.Uncurrent.{IsTagged-same}
use ocaml_boxroot.Boxroot.Heap.GcStep.{free_key}

-- A pool whose allocation count is 0 has no boxroot.
pub empty-no_root :
    (r : Runtime) (ok : IsRuntime r) (st : Store) (p a w : ℕ)
    → PoolAt r st p 0
    → (st.free_list p).alloc_count ≡ 0
    → InPool r p a
    → root_value st p a ≡ some w
    → ⊥
empty-no_root r ok st p a w (fs, ds, v) e m h =
    let live = ap not (live_of_value (is_pool_member (st.slots a) p) (st.slots a) w h) in
    omega (
      arith,
      v.fl_count,
      live_count r ok v,
      e,
      length-filter-pos (holds_value st p) a (pool_slots r p) m live,
    )

-- The free ring of the domain is empty, and the other rings are as before.
pub record IsFreed (r : Runtime) (dom : ℕ) (s s' : State) (v v' : View) : Type 0 where
  pub heap : IsHeap r s' v'
  pub tagged : IsTagged s' v'
  pub kept : (q : ℕ) → KeptAt r s.store s'.store q
  pub frame : IsFrame dom s s'
  pub empty : v' (free_key dom) ≡ []
  pub others : (j : ℕ) → j ≢ free_key dom → v' j ≡ v j

module _ (r : Runtime) (dom : ℕ) where
  -- One pool is given back.
  module _ (s : State) (v : View) (inv : IsHeap r s v) (ready : Ready s dom) (tagged : IsTagged s v)
      (x : ℕ) (xs : List ℕ) (e : v (free_key dom) ≡ x ∷ xs) where
    abbrev s1 : State
    s1 = (pop_place (of_domain dom free_ring) s).1

    abbrev s2 : State
    s2 = record s1 { freed = x ∷ s1.freed }

    abbrev v2 : View
    v2 = upd v (free_key dom) xs

    relabel : IsRelabel r dom s s1
    relabel = pop_place-IsRelabel r dom (of_domain dom free_ring) s refl

    freed-IsFrame : IsFrame dom s s2
    freed-IsFrame = record {
      memory = relabel.frame.memory;
      empty_fl = relabel.frame.empty_fl;
      cached_dom_id = relabel.frame.cached_dom_id;
      thread_has_lock = relabel.frame.thread_has_lock;
      status = relabel.frame.status;
      current_fl = relabel.frame.current_fl;
      pools = relabel.frame.pools;
      ready = relabel.frame.ready;
      trap = relabel.frame.trap;
    }

    fewer : (i q : ℕ) → has q (v2 i) ≡ true → has q (v i) ≡ true
    fewer i q m = elim (eq_cases i (free_key dom)) [
      | inl k ↦
          let m' : has q xs ≡ true =
            ap (λ b. has q (if b then xs else v i)) (sym (eq→== i (free_key dom) k)) ∙ m in
          ap (λ j. has q (v j)) k ∙ ap (has q) e ∙ ground (arith, m')
      | inr n ↦ ap (λ b. has q (if b then xs else v i)) (sym (ne→== i (free_key dom) n)) ∙ m
    ]

    same_current : (d : ℕ) → v2 (cur_key d) ≡ v (cur_key d)
    same_current d = upd_ne v (free_key dom) xs (cur_key d) (λ k. omega (arith, k))

    freed-IsHeap : IsHeap r s2 v2
    freed-IsHeap =
        let rest = IsHeap-rest r dom s s2 v v2 inv freed-IsFrame (λ p m. (m.0, fewer m.0 p m.1)) in
        record {
          rings =
              IsRings-freed (x ∷ s1.freed) s1 v2
                (pop_place-IsRings s v (of_domain dom free_ring) x xs tt inv.rings e).1;
          pools = λ i p m.
              PoolAt-KeptAt r s.store s2.store p _ (relabel.kept p) (inv.pools i p (fewer i p m));
          one_current = λ d. subst (λ ys. length ys ≤ 1) (sym (same_current d)) (inv.one_current d);
          current = λ d h.
              freed-IsFrame.current_fl d
              ∙ inv.current d (Ready-back dom d s s2 ready freed-IsFrame h)
              ∙ ap (λ ys. current_of ys s.empty_fl) (sym (same_current d))
              ∙ ap (current_of (v2 (cur_key d))) (sym freed-IsFrame.empty_fl);
          trap = rest.0;
          trap_apart = rest.1;
          fresh = rest.2;
        }

    freed-IsTagged : IsTagged s2 v2
    freed-IsTagged =
        IsTagged-same s s2 v2 (free_list-pop_place (of_domain dom free_ring) s) (record {
          tags = λ i q m. tagged.tags i q (fewer i q m);
          no_free_orphans = λ q.
              ap (has q) (upd_ne v (free_key dom) xs 3 (λ k. omega (arith, k)))
              ∙ tagged.no_free_orphans q;
          no_current_orphans = λ q.
              ap (has q) (upd_ne v (free_key dom) xs 2 (λ k. omega (arith, k)))
              ∙ tagged.no_current_orphans q;
        })

    IsFreed-more : (s' : State) (v' : View) → IsFreed r dom s2 s' v2 v' → IsFreed r dom s s' v v'
    IsFreed-more s' v' h = record {
      heap = h.heap;
      tagged = h.tagged;
      kept = λ q. KeptAt-trans r s.store s2.store s'.store q (relabel.kept q) (h.kept q);
      frame = IsFrame-trans dom s s2 s' freed-IsFrame h.frame;
      empty = h.empty;
      others = λ j n. h.others j n ∙ upd_ne v (free_key dom) xs j n;
    }

    freed-head :
        (get_place (of_domain dom free_ring) s ≢ 0)
        × ((pop_place (of_domain dom free_ring) s).0 ≡ x)
    freed-head =
        let t =
          subst (IsRing s.store.links (get_place (of_domain dom free_ring) s)) e
            (inv.rings.rings (of_domain dom free_ring) tt) in
        (
          (λ h. t.1.0 (sym h ∙ t.0)),
          (pop_place-IsRings s v (of_domain dom free_ring) x xs tt inv.rings e).0,
        )

  IsFreed-none :
      (s : State) (v : View)
      → IsHeap r s v
      → IsTagged s v
      → v (free_key dom) ≡ []
      → IsFreed r dom s s v v
  IsFreed-none s v inv tagged e = record {
    heap = inv;
    tagged = tagged;
    kept = λ q. KeptAt-refl r s.store q;
    frame = IsFrame-refl dom s;
    empty = e;
    others = λ j n. refl;
  }

  pub free_pool_ring-IsFreed :
      (n : ℕ) (s : State) (v : View) (xs : List ℕ)
      → IsHeap r s v
      → Ready s dom
      → IsTagged s v
      → v (free_key dom) ≡ xs
      → length xs ≤ n
      → (s' : State) × (free_pool_ring n (of_domain dom free_ring) s ≡ some s')
        × (v' : View) × IsFreed r dom s s' v v'
  unfolding free_pool_ring
  free_pool_ring-IsFreed zero s v [] inv ready tagged e fuel =
      let h =
        subst (IsRing s.store.links (get_place (of_domain dom free_ring) s)) e
          (inv.rings.rings (of_domain dom free_ring) tt) in
      (
        s,
        rw (eq→== (get_place (of_domain dom free_ring) s) 0 h) refl,
        v,
        IsFreed-none s v inv tagged e,
      )
  free_pool_ring-IsFreed (suc n) s v [] inv ready tagged e fuel =
      let h =
        subst (IsRing s.store.links (get_place (of_domain dom free_ring) s)) e
          (inv.rings.rings (of_domain dom free_ring) tt) in
      (
        s,
        rw (eq→== (get_place (of_domain dom free_ring) s) 0 h, free_pool_ring) refl,
        v,
        IsFreed-none s v inv tagged e,
      )
  free_pool_ring-IsFreed zero s v (x ∷ xs) inv ready tagged e fuel = absurd (omega (arith, fuel))
  free_pool_ring-IsFreed (suc n) s v (x ∷ xs) inv ready tagged e fuel =
      let (head, front) = freed-head s v inv ready tagged x xs e in
      let (s', done, v', h) =
        free_pool_ring-IsFreed n (s2 s v inv ready tagged x xs e) (v2 s v inv ready tagged x xs e)
          xs (freed-IsHeap s v inv ready tagged x xs e)
          ((freed-IsFrame s v inv ready tagged x xs e).ready ready)
          (freed-IsTagged s v inv ready tagged x xs e) (upd_self v (free_key dom) xs)
          (omega (arith, fuel)) in
      (
        s',
        rw (ne→== (get_place (of_domain dom free_ring) s) 0 head, front, free_pool_ring) done,
        v',
        IsFreed-more s v inv ready tagged x xs e s' v' h,
      )
