-- ===== src/Boxroot/Moves.antt =====
-- `move_current_to_young` and the other operations on a pool in no ring.
use ocaml_boxroot.Prelude.{
  ℕ, ◌/◌, ◌≡◌, refl, sym, ◌∙◌, ap, subst, ◌≢◌, Bool, [], ◌∷◌, arith, upd, upd_self, upd_ne, eq→==,
  ne→==,
}
use ocaml_boxroot.Words.{decr32, sle32, bxr_dealloc_threshold}
use ocaml_boxroot.Ring.{ring_pop}
use ocaml_boxroot.Ring.Paths.{IsRing, IsRing-SameAt}
use ocaml_boxroot.Ring.Pop.{ring_pop-IsRing, ring_pop-SameAt}
use ocaml_boxroot.Pool.{FreeList, Class, young, is_not_too_full}
use ocaml_boxroot.Boxroot.State.{
  State, Place, of_domain, orphaned, variable, current_ring, young_ring, get_place, set_fl, fl_of,
  pop_place, set_current_fl,
}
use ocaml_boxroot.Boxroot.Classes.{reclassify_pool, move_current_to_young}
use ocaml_boxroot.Boxroot.Rings.{
  View, key, IsRings, IsDetached, get_place-set_links, pop_place-IsRings,
}
use ocaml_boxroot.Boxroot.Reclassify.{
  settled, settle, target_key, settle-IsRings, IsRings-set_fl, not_too_full-pop_place,
  free_list-pop_place,
}

-- `ring_pop` of a pool on its own.
pop_variable-IsRings :
    (s : State) (v : View) (p : ℕ)
    → IsRings s v
    → IsDetached s v p
    → ((pop_place (variable p) s).0 ≡ p)
      × IsRings (pop_place (variable p) s).1 v
      × IsDetached (pop_place (variable p) s).1 v p
unfolding pop_place
pop_variable-IsRings s v p inv d =
    let l = (ring_pop p s.store.links).2 in
    let (front, single, rest) = ring_pop-IsRing s.store.links p p [] d.single in
    (
      front,
      record {
        rings = λ pl g. rw (get_place-set_links pl l s) (
            IsRing-SameAt s.store.links l (get_place pl s) (v (key pl))
              (ring_pop-SameAt s.store.links p p [] (v (key pl)) d.single (d.outside (key pl)))
              (inv.rings pl g));
        apart = inv.apart;
      },
      record { single = single; outside = d.outside },
    )

-- `reclassify_pool` of a pool in no ring.
pub reclassify_pool-IsDetached :
    (s : State) (v : View) (p dom : ℕ) (cl : Class)
    → IsRings s v
    → IsDetached s v p
    → IsRings
        (reclassify_pool (variable p) dom cl s)
        (upd v (target_key dom cl) (settled (is_not_too_full p s.store) p (v (target_key dom cl))))
unfolding reclassify_pool
reclassify_pool-IsDetached s v p dom cl inv d =
    let (front, rest, d') = pop_variable-IsRings s v p inv d in
    rw front (
      subst
        (λ b.
          IsRings (settle p dom cl (pop_place (variable p) s).1)
            (upd v (target_key dom cl) (settled b p (v (target_key dom cl)))))
        (not_too_full-pop_place p (variable p) s)
        (settle-IsRings p dom cl (pop_place (variable p) s).1 v rest d'))

pub current_fl-set_current_fl :
    (dom fl : ℕ) (s : State) → (set_current_fl dom fl s).current_fl dom ≡ fl
unfolding set_current_fl
current_fl-set_current_fl dom fl s = upd_self s.current_fl dom fl

pub IsRings-set_current_fl :
    (dom fl : ℕ) (s : State) (v : View) → IsRings s v → IsRings (set_current_fl dom fl s) v
unfolding set_current_fl
IsRings-set_current_fl dom fl s v inv = record {
  rings = λ pl g. subst (λ h. IsRing s.store.links h (v (key pl))) (sym (same pl)) (inv.rings pl g);
  apart = inv.apart;
}
  where
    same : (pl : Place) → get_place pl (set_current_fl dom fl s) ≡ get_place pl s
    same (of_domain d f) = refl
    same (orphaned f) = refl
    same (variable p) = refl

-- `--p->free_list.alloc_count` for a pool that has been popped.
abbrev pub uncounted : ℕ → State → State
uncounted p s = set_fl p (record (fl_of p s) { alloc_count = decr32 (fl_of p s).alloc_count }) s

not_too_full-uncounted :
    (p : ℕ) (pl : Place) (s : State)
    → is_not_too_full p (uncounted p (pop_place pl s).1).store
      ≡ sle32 (decr32 (fl_of p s).alloc_count) (bxr_dealloc_threshold / 8)
not_too_full-uncounted p pl s =
    ap (λ (n : ℕ). sle32 n (bxr_dealloc_threshold / 8))
      (written (pop_place pl s).1
        ∙ ap (λ (m : ℕ → FreeList). decr32 (m p).alloc_count) (free_list-pop_place pl s))
  where
    written : (s : State) → (fl_of p (uncounted p s)).alloc_count ≡ decr32 (fl_of p s).alloc_count
    written s = rw (eq→== p p refl) refl

-- The rings after the current pool has gone to the young ones.
abbrev pub current_moved : View → ℕ → ℕ → Bool → View
current_moved v dom p b =
    upd (upd v (key (of_domain dom current_ring)) []) (key (of_domain dom young_ring))
      (settled b p (v (key (of_domain dom young_ring))))

-- If the ring heads of the domains and the orphans lead to rings with no common pool and the
-- current ring of the domain is the one pool `p`, `move_current_to_young` empties the current ring
-- and puts `p` into the domain's young ring, in front if it is not too full once the count is
-- decremented and else at the back, leaves all other rings as before, and makes the empty free
-- list the domain's current one.
pub move_current_to_young-IsRings :
    (dom : ℕ) (s : State) (v : View) (p : ℕ)
    → IsRings s v
    → v (key (of_domain dom current_ring)) ≡ p ∷ []
    → IsRings
        (move_current_to_young dom s)
        (current_moved v dom p (sle32 (decr32 (fl_of p s).alloc_count) (bxr_dealloc_threshold / 8)))
      × ((move_current_to_young dom s).current_fl dom ≡ s.empty_fl)
unfolding move_current_to_young
move_current_to_young-IsRings dom s v p inv e =
    let ck = key (of_domain dom current_ring) in
    let yk = key (of_domain dom young_ring) in
    let r =
      subst (IsRing s.store.links (get_place (of_domain dom current_ring) s)) e
        (inv.rings (of_domain dom current_ring) tt) in
    let head : get_place (of_domain dom current_ring) s ≢ 0 = λ h. r.1.0 (sym h ∙ r.0) in
    let (front, rest, d) = pop_place-IsRings s v (of_domain dom current_ring) p [] tt inv e in
    let s1 = (pop_place (of_domain dom current_ring) s).1 in
    let moved =
      reclassify_pool-IsDetached (uncounted p s1) (upd v ck []) p dom young
        (IsRings-set_fl p _ s1 _ rest) (record { single = d.single; outside = d.outside }) in
    let spared : upd v ck [] yk ≡ v yk = upd_ne v ck [] yk (λ k. omega (arith, k)) in
    rw (ne→== (get_place (of_domain dom current_ring) s) 0 head, front)
      (
        IsRings-set_current_fl dom s.empty_fl _ _ (
            subst
              (λ b.
                IsRings (reclassify_pool (variable p) dom young (uncounted p s1))
                  (current_moved v dom p b))
              (not_too_full-uncounted p (of_domain dom current_ring) s)
              (subst
                (λ ys.
                  IsRings (reclassify_pool (variable p) dom young (uncounted p s1)) (
                    upd (upd v ck []) yk (settled (is_not_too_full p (uncounted p s1).store) p ys)))
                spared moved)),
        current_fl-set_current_fl dom s.empty_fl
            (reclassify_pool (variable p) dom young (uncounted p s1)),
      )
