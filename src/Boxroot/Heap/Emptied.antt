-- ===== src/Boxroot/Heap/Emptied.antt =====
-- `reclassify_ring` on a well-formed state.
use ocaml_boxroot.Prelude.{
  ℕ, zero, suc, ◌+◌, ◌≤◌, ◌≡◌, refl, sym, ◌∙◌, ap, subst, ◌≢◌, inl, inr, true, ◌||◌, List, [], ◌∷◌,
  ◌++◌, some, arith, has, NotIn-has, upd, upd_self, upd_ne, last, length, if◌then◌else◌, eq_cases,
  eq→==, ne→==,
}
use mathlib.Core.Bool.{false≢true}
use ocaml_boxroot.Words.{Runtime, IsRuntime}
use ocaml_boxroot.Ring.Paths.{IsRing}
use ocaml_boxroot.Pool.{Store, Class, untracked, is_not_too_full}
use ocaml_boxroot.Pool.Invariant.{has-append}
use ocaml_boxroot.Boxroot.State.{State, Place, get_place, set_place}
use ocaml_boxroot.Boxroot.Classes.{reclassify_pool, reclassify_ring}
use ocaml_boxroot.Boxroot.Rings.{key, IsGlobal, IsRings-rotate, store-set_place}
use ocaml_boxroot.Boxroot.Rounds.{but_last, but_last-append, length-but_last}
use ocaml_boxroot.Boxroot.Reclassify.{target_key, reclassified}
use ocaml_boxroot.Boxroot.Heap.{View, Ready, own, IsLocal, IsHeap, IsShuffled}
use ocaml_boxroot.Boxroot.Heap.Local.{IsShuffled-refl, IsShuffled-trans, IsShuffled-intro}
use ocaml_boxroot.Boxroot.Heap.Relabel.{IsMine, set_place-IsRelabel}
use ocaml_boxroot.Boxroot.Heap.Moves.{reclassify_pool-head}
use ocaml_boxroot.Boxroot.Heap.Tags.{Tag, IsTagged, reclassify_pool-IsTagged}
use ocaml_boxroot.Boxroot.Heap.GcStep.{
  pop_place-front, reclassified-source, reclassified-target, reclassified-others,
}

-- The pools of the ring `a` have all gone to the ring `c`.
pub record IsEmptied (r : Runtime) (dom a c : ℕ) (s s' : State) (v v' : View) : Type 0 where
  pub shuffled : IsShuffled r dom s s' v v'
  pub tagged : IsTagged s' v'
  pub empty : v' a ≡ []
  pub others : (j : ℕ) → j ≢ a → j ≢ c → v' j ≡ v j
  pub length_target : length (v' c) ≡ length (v a) + length (v c)

-- The members of the rings once one of them is turned.
has-upd :
    (v : View) (k : ℕ) (zs : List ℕ)
    → ((q : ℕ) → has q zs ≡ has q (v k))
    → (i q : ℕ) → has q (upd v k zs i) ≡ has q (v i)
has-upd v k zs h i q = elim (eq_cases i k) [
  | inl e ↦
      ap (λ b. has q (if b then zs else v i)) (eq→== i k e) ∙ h q ∙ ap (λ j. has q (v j)) (sym e)
  | inr n ↦ ap (λ b. has q (if b then zs else v i)) (ne→== i k n)
]

has-turned : (ys : List ℕ) (z q : ℕ) → has q (z ∷ ys) ≡ has q (ys ++ z ∷ [])
has-turned ys z q = let e = has-append q ys (z ∷ []) in ground (arith, e)

module _ (r : Runtime) (ok : IsRuntime r) (dom : ℕ) (ring : Place) (g : IsGlobal ring)
    (mine : IsMine dom ring) (o : own dom (key ring) ≡ true) (cl : Class) (tracked : cl ≢ untracked)
    (n : key ring ≢ target_key dom cl) where
  abbrev a : ℕ
  a = key ring

  abbrev c : ℕ
  c = target_key dom cl

  module _ (s : State) (v : View) (inv : IsHeap r s v) (ready : Ready s dom) (tagged : IsTagged s v)
      (x : ℕ) (xs : List ℕ) (e : v a ≡ x ∷ xs) where
    abbrev z : ℕ
    z = last x xs

    abbrev ys : List ℕ
    ys = but_last x xs

    abbrev s1 : State
    s1 = set_place ring z s

    abbrev v1 : View
    v1 = upd v a (z ∷ ys)

    abbrev s2 : State
    s2 = reclassify_pool ring dom cl s1

    abbrev v2 : View
    v2 = reclassified v1 a c (is_not_too_full z s1.store) z ys

    e' : v a ≡ ys ++ z ∷ []
    e' = e ∙ sym (but_last-append x xs)

    members : (i q : ℕ) → has q (v1 i) ≡ has q (v i)
    members = has-upd v a (z ∷ ys) (λ q. has-turned ys z q ∙ ap (has q) (sym e'))

    turned-IsLocal : IsLocal dom v v1
    turned-IsLocal = record {
      same = λ i h. upd_ne v a (z ∷ ys) i (λ k. false≢true (sym h ∙ ap (own dom) k ∙ o));
      back = λ i p h m. (i, h, sym (members i p) ∙ m);
      forth = λ i p h m. (i, h, members i p ∙ m);
    }

    turned-IsShuffled : IsShuffled r dom s s1 v v1
    turned-IsShuffled =
        let relabel = set_place-IsRelabel r dom ring z s mine in
        IsShuffled-intro r dom s s1 v v1 inv ready turned-IsLocal relabel.frame
          (IsRings-rotate s v ring z ys g inv.rings e') ok (λ p i. relabel.kept p)

    turned-IsTagged : IsTagged s1 v1
    turned-IsTagged = record {
      tags = λ i q m.
          subst (λ (st : Store). Tag (st.free_list q) i) (sym (store-set_place ring z s))
            (tagged.tags i q (sym (members i q) ∙ m));
      no_free_orphans = λ q. members 3 q ∙ tagged.no_free_orphans q;
      no_current_orphans = λ q. members 2 q ∙ tagged.no_current_orphans q;
    }

    here : v1 a ≡ z ∷ ys
    here = upd_self v a (z ∷ ys)

    turned-ring : IsRing s1.store.links (get_place ring s1) (z ∷ ys)
    turned-ring =
        subst (IsRing s1.store.links (get_place ring s1)) here
          (turned-IsShuffled.heap.rings.rings ring g)

    round-IsShuffled : IsShuffled r dom s s2 v v2
    round-IsShuffled = IsShuffled-trans r dom s s1 s2 v v1 v2 turned-IsShuffled (
        reclassify_pool-head r ok dom s1 v1 turned-IsShuffled.heap
          (turned-IsShuffled.frame.ready ready) ring cl z ys g mine o here)

    round-IsTagged : IsTagged s2 v2
    round-IsTagged =
        reclassify_pool-IsTagged s1 v1 ring dom cl (is_not_too_full z s1.store) a z ys
          turned-IsTagged turned-IsShuffled.heap.rings.apart
          (ap (has z) here ∙ ap (λ b. b || has z ys) (eq→== z z refl))
          (λ q m. ap (has q) here ∙ ground (arith, m)) (NotIn-has z ys turned-ring.2.0)
          (pop_place-front ring s1 ∙ turned-ring.0) (λ k. absurd (tracked k))

    round-source : v2 a ≡ ys
    round-source = reclassified-source v1 a c (is_not_too_full z s1.store) z ys n

    round-length : length (v2 c) ≡ suc (length (v c))
    round-length =
        reclassified-target v1 a c (is_not_too_full z s1.store) z ys n
        ∙ ap (λ zs. suc (length zs)) (upd_ne v a (z ∷ ys) c (λ k. n (sym k)))

    round-others : (j : ℕ) → j ≢ a → j ≢ c → v2 j ≡ v j
    round-others j k l =
        reclassified-others v1 a c (is_not_too_full z s1.store) z ys j k l ∙ upd_ne v a (z ∷ ys) j k

    -- One round, and the rounds behind it.
    IsEmptied-more :
        (s' : State) (v' : View) → IsEmptied r dom a c s2 s' v2 v' → IsEmptied r dom a c s s' v v'
    IsEmptied-more s' v' h = record {
      shuffled = IsShuffled-trans r dom s s2 s' v v2 v' round-IsShuffled h.shuffled;
      tagged = h.tagged;
      empty = h.empty;
      others = λ j k l. h.others j k l ∙ round-others j k l;
      length_target = omega (
        arith,
        h.length_target,
        ap length round-source,
        round-length,
        ap length e,
        length-but_last x xs,
      );
    }

    round-prev : s.store.links.prev (get_place ring s) ≡ z
    round-prev =
        let t = subst (IsRing s.store.links (get_place ring s)) e (inv.rings.rings ring g) in
        ap s.store.links.prev t.0 ∙ t.4.1

    round-head : get_place ring s ≢ 0
    round-head h =
        let t = subst (IsRing s.store.links (get_place ring s)) e (inv.rings.rings ring g) in
        t.1.0 (sym h ∙ t.0)

  IsEmptied-none :
      (s : State) (v : View) → IsHeap r s v → IsTagged s v → v a ≡ [] → IsEmptied r dom a c s s v v
  IsEmptied-none s v inv tagged e = record {
    shuffled = IsShuffled-refl r dom s v inv;
    tagged = tagged;
    empty = e;
    others = λ j k l. refl;
    length_target = omega (arith, ap length e);
  }

  pub reclassify_ring-IsEmptied :
      (m : ℕ) (s : State) (v : View) (xs : List ℕ)
      → IsHeap r s v
      → Ready s dom
      → IsTagged s v
      → v a ≡ xs
      → length xs ≤ m
      → (s' : State) × (reclassify_ring m ring dom cl s ≡ some s')
        × (v' : View) × IsEmptied r dom a c s s' v v'
  unfolding reclassify_ring
  reclassify_ring-IsEmptied zero s v [] inv ready tagged e fuel =
      let h = subst (IsRing s.store.links (get_place ring s)) e (inv.rings.rings ring g) in
      (s, rw (eq→== (get_place ring s) 0 h) refl, v, IsEmptied-none s v inv tagged e)
  reclassify_ring-IsEmptied (suc m) s v [] inv ready tagged e fuel =
      let h = subst (IsRing s.store.links (get_place ring s)) e (inv.rings.rings ring g) in
      (
        s,
        rw (eq→== (get_place ring s) 0 h, reclassify_ring) refl,
        v,
        IsEmptied-none s v inv tagged e,
      )
  reclassify_ring-IsEmptied zero s v (x ∷ xs) inv ready tagged e fuel = absurd (omega (arith, fuel))
  reclassify_ring-IsEmptied (suc m) s v (x ∷ xs) inv ready tagged e fuel =
      let sh = round-IsShuffled s v inv ready tagged x xs e in
      let (s', done, v', h) =
        reclassify_ring-IsEmptied m (s2 s v inv ready tagged x xs e)
          (v2 s v inv ready tagged x xs e) (but_last x xs) sh.heap (sh.frame.ready ready)
          (round-IsTagged s v inv ready tagged x xs e) (round-source s v inv ready tagged x xs e)
          (omega (arith, fuel, length-but_last x xs)) in
      (
        s',
        rw
            (
              ne→== (get_place ring s) 0 (round-head s v inv ready tagged x xs e),
              round-prev s v inv ready tagged x xs e,
              reclassify_ring,
            )
            done,
        v',
        IsEmptied-more s v inv ready tagged x xs e s' v' h,
      )
