-- ===== src/Boxroot/Heap/Inside.antt =====
-- `reclassify_pool` of a pool that is not the head of its ring.
use ocaml_boxroot.Prelude.{
  ℕ, ◌≡◌, refl, sym, ap, subst, ◌≢◌, inl, inr, true, List, ◌∷◌, ◌++◌, Apart, Apart-right, upd,
  if◌then◌else◌, eq_cases, eq→==, ne→==,
}
use ocaml_boxroot.Words.{Runtime, IsRuntime}
use ocaml_boxroot.Ring.{Links, ring_pop}
use ocaml_boxroot.Ring.Paths.{IsRing, IsRing-SameAt}
use ocaml_boxroot.Ring.Inside.{
  ring_pop-inside, ring_pop-inside_SameAt, inside-head, middle-NotIn, middle-Apart,
}
use ocaml_boxroot.Pool.{Class, is_not_too_full}
use ocaml_boxroot.Boxroot.State.{State, Place, variable, get_place, pop_place}
use ocaml_boxroot.Boxroot.Classes.{reclassify_pool}
use ocaml_boxroot.Boxroot.Rings.{key, IsGlobal, IsRings, IsDetached, get_place-set_links, Apart-upd}
use ocaml_boxroot.Boxroot.Reclassify.{
  settle, reclassified, target_key, settle-IsRings, not_too_full-pop_place,
}
use ocaml_boxroot.Boxroot.Heap.{View, own, Ready, IsHeap, IsShuffled}
use ocaml_boxroot.Boxroot.Heap.Local.{IsShuffled-intro}
use ocaml_boxroot.Boxroot.Heap.Relabel.{reclassify_pool-IsRelabel}
use ocaml_boxroot.Boxroot.Heap.Moves.{reclassified-IsLocal, IsWithout-inside, own-target}

-- `ring_pop` of a pool behind the head of a ring.
module _ (s : State) (v : View) (i x a : ℕ) (before after : List ℕ) (inv : IsRings s v)
    (e : v i ≡ a ∷ before ++ x ∷ after) (i_place : Place) (g : IsGlobal i_place)
    (k : key i_place ≡ i) where
  abbrev popped : Links
  popped = (ring_pop x s.store.links).2

  ring-at :
      (h : ℕ) → IsRing s.store.links h (v i) → IsRing s.store.links h (a ∷ before ++ x ∷ after)
  ring-at h = subst (IsRing s.store.links h) e

  the_ring : IsRing s.store.links (get_place i_place s) (a ∷ before ++ x ∷ after)
  the_ring =
      ring-at (get_place i_place s)
        (subst (λ j. IsRing s.store.links (get_place i_place s) (v j)) k (inv.rings i_place g))

  abbrev view_popped : View
  view_popped = upd v i (a ∷ before ++ after)

  popped-outside : (j : ℕ) → j ≢ i → Apart (a ∷ before ++ x ∷ after) (v j)
  popped-outside j n = subst (λ zs. Apart zs (v j)) e (inv.apart i j (λ q. n (sym q)))

  popped-rings : (pl : Place) → IsGlobal pl → IsRing popped (get_place pl s) (view_popped (key pl))
  popped-rings pl g' = elim (eq_cases (key pl) i) [
    | inl same ↦
        let t =
          ring-at (get_place pl s)
            (subst (λ j. IsRing s.store.links (get_place pl s) (v j)) same (inv.rings pl g')) in
        let (_, _, rest) = ring_pop-inside s.store.links (get_place pl s) x (a ∷ before) after t in
        rw (eq→== (key pl) i same) (
          subst (λ h. IsRing popped h (a ∷ before ++ after))
            (ap (λ b. if b then (ring_pop x s.store.links).1 else get_place pl s)
              (ne→== (get_place pl s) x
                (inside-head s.store.links (get_place pl s) x a before after t)))
            rest)
    | inr n ↦ rw (ne→== (key pl) i n) (
        IsRing-SameAt s.store.links popped (get_place pl s) (v (key pl))
          (ring_pop-inside_SameAt s.store.links (get_place i_place s) x (a ∷ before) after
            (v (key pl)) the_ring (popped-outside (key pl) n))
          (inv.rings pl g'))
  ]

  pub pop_inside-IsRings :
      ((pop_place (variable x) s).0 ≡ x)
      × IsRings (pop_place (variable x) s).1 view_popped
      × IsDetached (pop_place (variable x) s).1 view_popped x
  unfolding pop_place
  pop_inside-IsRings =
      let (front, single, _) =
        ring_pop-inside s.store.links (get_place i_place s) x (a ∷ before) after the_ring in
      (
        front,
        record {
          rings = λ pl g'. rw (get_place-set_links pl popped s) (popped-rings pl g');
          apart =
              Apart-upd v i (a ∷ before ++ after) inv.apart
                (λ j n. (middle-Apart x (a ∷ before) after (v j) (popped-outside j n)).1);
        },
        record {
          single = single;
          outside = λ j. elim (eq_cases j i) [
            | inl q ↦ rw (eq→== j i q) (middle-NotIn x (a ∷ before) after the_ring.2, tt)
            | inr n ↦
                rw (ne→== j i n)
                  ((Apart-right (a ∷ before) (x ∷ after) (v j) (popped-outside j n)).0, tt)
          ];
        },
      )

  reclassify_pool_inside-IsRings :
      (dom : ℕ) (cl : Class)
      → IsRings
          (reclassify_pool (variable x) dom cl s)
          (reclassified v i (target_key dom cl) (is_not_too_full x s.store) x (a ∷ before ++ after))
  unfolding reclassify_pool
  reclassify_pool_inside-IsRings dom cl =
      let (front, rest, d) = pop_inside-IsRings in
      rw front (
        subst
          (λ b.
            IsRings (settle x dom cl (pop_place (variable x) s).1)
              (reclassified v i (target_key dom cl) b x (a ∷ before ++ after)))
          (not_too_full-pop_place x (variable x) s)
          (settle-IsRings x dom cl (pop_place (variable x) s).1 view_popped rest d))

module _ (r : Runtime) (ok : IsRuntime r) (dom : ℕ) (s : State) (v : View) (inv : IsHeap r s v)
    (ready : Ready s dom) where
  -- Another pool of a ring of the domain.
  pub reclassify_pool-inside :
      (place : Place) (cl : Class) (a : ℕ) (before : List ℕ) (x : ℕ) (after : List ℕ)
      → IsGlobal place
      → own dom (key place) ≡ true
      → v (key place) ≡ a ∷ before ++ x ∷ after
      → IsShuffled r dom s (reclassify_pool (variable x) dom cl s) v (
          reclassified v
            (key place)
            (target_key dom cl)
            (is_not_too_full x s.store)
            x
            (a ∷ before ++ after))
  reclassify_pool-inside place cl a before x after g o e =
      let relabel = reclassify_pool-IsRelabel r dom (variable x) cl s tt in
      IsShuffled-intro r dom s (reclassify_pool (variable x) dom cl s) v _ inv ready
        (reclassified-IsLocal dom v (key place) (target_key dom cl) (is_not_too_full x s.store) x
          (a ∷ before ++ after) (IsWithout-inside x (a ∷ before) after (v (key place)) e) o
          (own-target dom cl))
        relabel.frame
        (reclassify_pool_inside-IsRings s v (key place) x a before after inv.rings e place g refl
          dom cl)
        ok (λ p i. relabel.kept p)
