-- ===== src/Boxroot/Orphans.antt =====
-- `ring_push_back` of boxroot/boxroot.c with its assertions, and its calls by `orphan_pools`.
use ocaml_boxroot.Prelude.{
  ℕ, ◌≡◌, refl, sym, ◌∙◌, ap, ◌≢◌, Bool, true, false, ◌&&◌, List, [], ◌∷◌, Option, none, some,
  arith, ◌==◌, ◌||◌, ◌++◌, Apart, upd, Bool-cases, inl, inr, eq→==, ne→==,
}
use ocaml_boxroot.Ring.Paths.{IsRing}
use ocaml_boxroot.Boxroot.State.{
  State, PoolRings, Place, orphaned, old_ring, get_place, push_place, rings_of, fl_of,
}
use mathlib.Core.Bool.{false≢true}
use ocaml_boxroot.Boxroot.Rings.{View, key, IsGlobal, IsRings, IsDetached, push_place-IsRings}
use ocaml_boxroot.Boxroot.Heap.ValidateRing.{same_class_self}
use ocaml_boxroot.Boxroot.Validate.{same_class}
use ocaml_boxroot.Boxroot.Classes.{move_current_to_young}
use ocaml_boxroot.Boxroot.Collect.{gc_pool_rings, push_checked, orphan_pools}

-- The first pool of the place, if any, has the class of `x`.
abbrev pub HasClass : State → Place → ℕ → Type 0
HasClass s pl x = get_place pl s ≢ 0 → (fl_of (get_place pl s) s).class ≡ (fl_of x s).class

module _ (s : State) (v : View) (pl : Place) (x : ℕ) (g : IsGlobal pl) (inv : IsRings s v)
    (d : IsDetached s v x) (class : HasClass s pl x) where
  new_head : (x == get_place pl s) ≡ false
  new_head = by_ring (v (key pl)) (inv.rings pl g) (d.outside (key pl))
    where
      by_ring :
          (ys : List ℕ)
          → IsRing s.store.links (get_place pl s) ys
          → Apart (x ∷ []) ys
          → (x == get_place pl s) ≡ false
      by_ring [] r out = ne→== x _ (λ e. d.single.1.0 (sym (e ∙ r)))
      by_ring (y ∷ ys) r out = ne→== x _ (λ e. out.0.0 (e ∙ r.0))

  accepted_class :
      (get_place pl s == 0 || same_class (fl_of (get_place pl s) s).class (fl_of x s).class) ≡ true
  accepted_class = elim (Bool-cases (get_place pl s == 0)) [
    | inl e ↦ ap (λ b. b || same_class (fl_of (get_place pl s) s).class (fl_of x s).class) e
    | inr e ↦
        let same =
          ap (λ c. same_class c (fl_of x s).class)
            (class (λ z. false≢true (sym e ∙ eq→== (get_place pl s) 0 z)))
          ∙ same_class_self (fl_of x s).class in
        ground (arith, e, same)
  ]

  -- If the ring heads of the domains and the orphans lead to rings with no common pool, and `x` is
  -- a pool in none of them that is a ring of its own and has the class of the first pool of the
  -- target, if any, then `ring_push_back` of boxroot.c passes its three assertions and puts `x` at
  -- the back of the target's ring; all other pools stay in their rings, in order.
  pub push_checked-IsRings :
      (s' : State) × (push_checked x pl s ≡ some s')
      × IsRings s' (upd v (key pl) (v (key pl) ++ x ∷ []))
  unfolding push_checked
  push_checked-IsRings = (
    push_place x pl s,
    rw
        (
          ne→== x 0 (λ e. d.single.1.0 (sym e)),
          eq→== (s.store.links.prev x) x d.single.4.1,
          eq→== (s.store.links.next x) x d.single.4.0,
          new_head,
          accepted_class,
          push_checked,
        )
        refl,
    push_place-IsRings s v pl x g inv d,
  )

-- The assertions fail for a ring of two pools or more.
push_checked-more :
    (source : ℕ) (target : Place) (s : State) (x y : ℕ) (ys : List ℕ)
    → IsRing s.store.links source (x ∷ y ∷ ys)
    → push_checked source target s ≡ none
unfolding push_checked
push_checked-more source target s x y ys ring =
    let nz : (source == 0) ≡ false = ne→== source 0 (λ e. ring.1.0 (sym e ∙ ring.0)) in
    let next : s.store.links.next source ≡ y = ap s.store.links.next ring.0 ∙ ring.3.0.0 in
    let other : (s.store.links.next source == source) ≡ false =
      ne→== _ _ (λ e. ring.2.0.0 (sym ring.0 ∙ sym e ∙ next)) in
    rw (nz, and_false (s.store.links.prev source == source) _ other) refl
  where
    and_false : (a b : Bool) → b ≡ false → (a && b) ≡ false
    and_false true b e = e
    and_false false b e = refl

module _ (dom n : ℕ) (s s1 : State) (x y : ℕ) (ys : List ℕ) where
  -- For a domain with rings, if `gc_pool_rings` behind `move_current_to_young` leaves two pools or
  -- more in its old ring, `orphan_pools` fails: an assertion of `ring_push_back` does not hold.
  pub orphan_pools-push_checked :
      s.pools dom ≢ none
      → gc_pool_rings n dom (move_current_to_young dom s) ≡ some s1
      → IsRing s1.store.links (rings_of dom s1).old (x ∷ y ∷ ys)
      → orphan_pools n dom s ≡ none
  unfolding orphan_pools
  orphan_pools-push_checked rings done ring = by_rings (s.pools dom) refl
    where
      fails : push_checked (rings_of dom s1).old (orphaned old_ring) s1 ≡ none
      fails = push_checked-more (rings_of dom s1).old (orphaned old_ring) s1 x y ys ring

      by_rings : (o : Option PoolRings) → s.pools dom ≡ o → orphan_pools n dom s ≡ none
      by_rings none e = absurd (rings e)
      by_rings (some ps) e = rw (e, done, fails, orphan_pools) refl
