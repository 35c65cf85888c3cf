-- ===== src/Boxroot/Heap/GcStep.antt =====
-- One round of `gc_ring`: a pool with delayed deallocations is collected, and perhaps moved.
use ocaml_boxroot.Prelude.{
  ℕ, suc, ◌+◌, length, ◌%◌, ◌≤◌, ◌≡◌, refl, sym, ◌∙◌, ap, subst, ◌≢◌, ◌⊎◌, inl, inr, Bool, true,
  false, not, ◌||◌, List, ◌∷◌, arith, has, upd, upd_self, upd_ne, ◌==◌, if◌then◌else◌, Bool-cases,
  eq_cases, ne→==,
}
use mathlib.Core.Bool.{false≢true}
use ocaml_boxroot.Words.{Runtime, IsRuntime}
use ocaml_boxroot.Ring.{ring_pop}
use ocaml_boxroot.Pool.{Store, FreeList, AtomicFreeList, Class, young, old, untracked, gc_pool}
use ocaml_boxroot.Boxroot.State.{State, Place, pop_place, get_place}
use ocaml_boxroot.Boxroot.Reclassify.{target_key, settled, reclassified}
use ocaml_boxroot.Boxroot.Heap.{View, Ready, IsHeap, IsShuffled}
use ocaml_boxroot.Boxroot.Heap.Current.{length-settled}
use ocaml_boxroot.Boxroot.Heap.Collect.{collected, the_gc}
use ocaml_boxroot.Boxroot.Heap.Touch.{in_one_place}
use ocaml_boxroot.Boxroot.Heap.Moves.{has-settled}
use ocaml_boxroot.Boxroot.Heap.Tags.{Tag, IsTagged}

-- There are delayed deallocations in the pool.
abbrev pub pending : Store → ℕ → Bool
pending st q = not ((st.delayed_fl q).a_alloc_count == 0)

module _ (st : Store) (p : ℕ) where
  pub gc_pool-idle : pending st p ≡ false → gc_pool p st ≡ (0, st)
  unfolding gc_pool
  gc_pool-idle h = elim (Bool-cases ((st.delayed_fl p).a_alloc_count == 0)) [
    | inl e ↦ rw (e, gc_pool) refl
    | inr e ↦ absurd (false≢true (sym h ∙ ap not e))
  ]

  pub gc_pool-moved : pending st p ≡ true → ((gc_pool p st).0 == 0) ≡ false
  unfolding gc_pool
  gc_pool-moved h = elim (Bool-cases ((st.delayed_fl p).a_alloc_count == 0)) [
    | inl e ↦ absurd (false≢true (sym (ap not e) ∙ h))
    | inr e ↦ rw (e, gc_pool) e
  ]

  pub gc_pool-done : pending st p ≡ true → pending (gc_pool p st).1 p ≡ false
  unfolding gc_pool
  gc_pool-done h = elim (Bool-cases ((st.delayed_fl p).a_alloc_count == 0)) [
    | inl e ↦ absurd (false≢true (sym (ap not e) ∙ h))
    | inr e ↦
        rw (e, gc_pool)
          (ap (λ (d : AtomicFreeList). not (d.a_alloc_count == 0)) (upd_self st.delayed_fl p _))
  ]

  gc_pool-labels :
      (((gc_pool p st).1.free_list p).class ≡ (st.free_list p).class)
      × (((gc_pool p st).1.free_list p).domain_id ≡ (st.free_list p).domain_id)
  unfolding gc_pool
  gc_pool-labels = elim (Bool-cases ((st.delayed_fl p).a_alloc_count == 0)) [
    | inl e ↦ rw (e, gc_pool) (refl, refl)
    | inr e ↦
        rw (e, gc_pool)
          (
            ap (λ (f : FreeList). f.class) (upd_self st.free_list p _),
            ap (λ (f : FreeList). f.domain_id) (upd_self st.free_list p _),
          )
  ]

pub pop_place-front : (source : Place) (s : State) → (pop_place source s).0 ≡ get_place source s
unfolding pop_place ring_pop
pop_place-front source s =
    elim (Bool-cases (s.store.links.next (get_place source s) == get_place source s)) [
      | inl e ↦ rw (e, pop_place, ring_pop) refl
      | inr e ↦ rw (e, pop_place, ring_pop) refl
    ]

module _ (r : Runtime) (ok : IsRuntime r) (dom : ℕ) (s : State) (v : View) (inv : IsHeap r s v)
    (ready : Ready s dom) (tagged : IsTagged s v) (i x : ℕ) (m : has x (v i) ≡ true)
    (used : (i % 4 == 3) ≡ false) where
  abbrev s1 : State
  s1 = collected x s

  pub collected-IsTagged : IsTagged s1 v
  collected-IsTagged = record {
    tags = λ j q h. elim (eq_cases q x) [
      | inl e ↦
          let same : j ≡ i =
            in_one_place v inv.rings.apart x i j m (subst (λ y. has y (v j) ≡ true) e h) in
          let t = tagged.tags j q h in
          let t' = subst (λ y. Tag (s.store.free_list y) j) e t in
          subst (λ y. Tag (s1.store.free_list y) j) (sym e)
            (record {
              class = (gc_pool-labels s.store x).0 ∙ t'.class;
              empty = λ k. absurd (false≢true (sym used ∙ subst (λ l. (l % 4 == 3) ≡ true) same k));
              domain = λ l. (gc_pool-labels s.store x).1 ∙ t'.domain l;
            })
      | inr n ↦
          subst (λ f. Tag f j) (sym ((the_gc r ok dom s v inv ready i x m).elsewhere.free_list q n))
            (tagged.tags j q h)
    ];
    no_free_orphans = tagged.no_free_orphans;
    no_current_orphans = tagged.no_current_orphans;
  }

abbrev pub free_key : ℕ → ℕ
free_key dom = target_key dom untracked

-- The pools of the ring `i` stay in it or go to the free ring `f`, where those come from that were
-- not in it before.
pub record Frees (i f : ℕ) (v v' : View) : Type 0 where
  pub back : (q : ℕ) → has q (v' i) ≡ true → has q (v i) ≡ true
  pub forth : (q : ℕ) → has q (v i) ≡ true → (has q (v' i) || has q (v' f)) ≡ true
  pub free_back : (q : ℕ) → has q (v' f) ≡ true → (has q (v i) || has q (v f)) ≡ true
  pub free_forth : (q : ℕ) → has q (v f) ≡ true → has q (v' f) ≡ true

pub Frees-refl : (i f : ℕ) (v : View) → Frees i f v v
Frees-refl i f v = record {
  back = λ q h. h;
  forth = λ q h. ground (arith, h);
  free_back = λ q h. ground (arith, h);
  free_forth = λ q h. h;
}

pub Frees-trans : (i f : ℕ) (v w z : View) → Frees i f v w → Frees i f w z → Frees i f v z
Frees-trans i f v w z a b = record {
  back = λ q h. a.back q (b.back q h);
  forth = λ q h. elim (Bool-cases (has q (w i))) [
    | inl e ↦ b.forth q e
    | inr e ↦ let m = b.free_forth q (ground (arith, a.forth q h, e)) in ground (arith, m)
  ];
  free_back = λ q h. elim (Bool-cases (has q (w i))) [
    | inl e ↦ let m = a.back q e in ground (arith, m)
    | inr e ↦ a.free_back q (ground (arith, b.free_back q h, e))
  ];
  free_forth = λ q h. b.free_forth q (a.free_forth q h);
}

-- What a round with the pool `x` of the ring `i` does: it stays, it goes to the free ring, or it
-- comes to the front. `rest` are the others.
pub record IsRound (r : Runtime) (dom i x : ℕ) (rest : List ℕ) (s s' : State) (v v' : View)
    : Type 0 where
  pub shuffled : IsShuffled r dom s s' v v'
  pub tagged : IsTagged s' v'
  pub done : pending s'.store x ≡ false
  pub mono : (q : ℕ) → pending s.store q ≡ false → pending s'.store q ≡ false
  pub ring : (v' i ≡ v i) ⊎ (v' i ≡ rest) ⊎ (v' i ≡ x ∷ rest)
  pub frees : Frees i (free_key dom) v v'
  pub others : (j : ℕ) → j ≢ i → j ≢ free_key dom → v' j ≡ v j
  pub shorter : length (v' i) ≤ length (v i)
  pub total : length (v' i) + length (v' (free_key dom)) ≤ length (v i) + length (v (free_key dom))

pub reclassified-source :
    (v : View) (a c : ℕ) (b : Bool) (x : ℕ) (rest : List ℕ)
    → a ≢ c
    → reclassified v a c b x rest a ≡ rest
reclassified-source v a c b x rest n =
    ap (λ k. if k then settled b x (upd v a rest c) else upd v a rest a) (ne→== a c n)
    ∙ upd_self v a rest

pub reclassified-target :
    (v : View) (a c : ℕ) (b : Bool) (x : ℕ) (rest : List ℕ)
    → a ≢ c
    → length (reclassified v a c b x rest c) ≡ suc (length (v c))
reclassified-target v a c b x rest n =
    ap length (upd_self (upd v a rest) c (settled b x (upd v a rest c)))
    ∙ length-settled b x (upd v a rest c)
    ∙ ap (λ ys. suc (length ys)) (upd_ne v a rest c (λ e. n (sym e)))

pub has-reclassified :
    (v : View) (a c : ℕ) (b : Bool) (x : ℕ) (rest : List ℕ) (q : ℕ)
    → a ≢ c
    → has q (reclassified v a c b x rest c) ≡ ((q == x) || has q (v c))
has-reclassified v a c b x rest q n =
    ap (has q) (upd_self (upd v a rest) c (settled b x (upd v a rest c)))
    ∙ has-settled q b x (upd v a rest c)
    ∙ ap (λ ys. (q == x) || has q ys) (upd_ne v a rest c (λ e. n (sym e)))

pub reclassified-same :
    (v : View) (a : ℕ) (x : ℕ) (rest : List ℕ) → reclassified v a a true x rest a ≡ x ∷ rest
reclassified-same v a x rest =
    upd_self (upd v a rest) a (x ∷ upd v a rest a) ∙ ap (λ ys. x ∷ ys) (upd_self v a rest)

pub reclassified-others :
    (v : View) (a c : ℕ) (b : Bool) (x : ℕ) (rest : List ℕ) (j : ℕ)
    → j ≢ a
    → j ≢ c
    → reclassified v a c b x rest j ≡ v j
reclassified-others v a c b x rest j n m =
    upd_ne (upd v a rest) c (settled b x (upd v a rest c)) j m ∙ upd_ne v a rest j n

pub ring-free : (dom : ℕ) (cl : Class) → cl ≢ untracked → target_key dom cl ≢ free_key dom
ring-free dom old n e = omega (arith, e)
ring-free dom young n e = omega (arith, e)
ring-free dom untracked n e = n refl
