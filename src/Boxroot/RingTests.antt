-- ===== src/Boxroot/RingTests.antt =====
-- The rings of domain 0 in a small state: two young pools and the current one.
use ocaml_boxroot.Prelude.{
  ℕ, ◌+◌, ◌*◌, ◌≡◌, refl, ◌≢◌, true, [], ◌∷◌, none, some, arith, ◌==◌, if◌then◌else◌, Apart, inl,
  inr, eq_cases, ne→==, subst, sym, ap, ◌∙◌, upd, some-ne-none,
}
use ocaml_boxroot.Ring.Paths.{IsRing}
use ocaml_boxroot.Boxroot.State.{
  State, PoolRings, Place, of_domain, orphaned, variable, Field, old_ring, young_ring, current_ring,
  free_ring, get_place, get_field, rings_of, no_rings,
}
use ocaml_boxroot.Boxroot.Rings.{View, key, field_key, IsGlobal, IsRings, IsDetached}
use ocaml_boxroot.Boxroot.Tests.{start}
use ocaml_boxroot.Pool.{old, is_not_too_full}
use ocaml_boxroot.Pool.{gc_pool}
use ocaml_boxroot.Boxroot.Classes.{reclassify_pool, move_current_to_young}
use ocaml_boxroot.Boxroot.Collect.{
  gc_pool_rings, gc_ring, gc_head, gc_tail, try_gc_and_reclassify_pool, push_checked, orphan_pools,
}
use ocaml_boxroot.Boxroot.Orphans.{push_checked-IsRings, orphan_pools-push_checked}
use ocaml_boxroot.Boxroot.Reclassify.{reclassified, reclassify_pool-IsRings}
use ocaml_boxroot.Boxroot.Rounds.{Reclassifies, reclassify_ring-IsRings}
use ocaml_boxroot.Boxroot.Release.{Releases, free_pool_ring-IsRings}

abbrev swap : ℕ → ℕ
swap p = if p == 32768 then 65536 else if p == 65536 then 32768 else p

abbrev two_young : PoolRings
two_young = record { old = 0; young = 32768; current = 49152; free = 0 }

abbrev three_pools : State
three_pools = record start {
  store = record (start.store) { links = record { next = swap; prev = swap } };
  pools = λ d. if d == 0 then some two_young else none;
}

abbrev contents : View
contents k = if k == 5 then 32768 ∷ 65536 ∷ [] else if k == 6 then 49152 ∷ [] else []

contents-other : (d : ℕ) (f : Field) → d ≢ 0 → contents (key (of_domain d f)) ≡ []
contents-other d f n =
    rw
      (
        ne→== (4 + 4 * d + field_key f) 5 (λ e. omega (arith, e, n)),
        ne→== (4 + 4 * d + field_key f) 6 (λ e. omega (arith, e, n)),
      )
      refl

contents-Apart : (i j : ℕ) → i ≢ j → Apart (contents i) (contents j)
contents-Apart i j n = ground arith

domain-IsRing :
    (f : Field)
    → IsRing three_pools.store.links (get_field f two_young) (contents (key (of_domain 0 f)))
domain-IsRing old_ring = refl
domain-IsRing young_ring = omega arith
domain-IsRing current_ring = omega arith
domain-IsRing free_ring = refl

none_yet : (f : Field) → get_field f no_rings ≡ 0
none_yet old_ring = refl
none_yet young_ring = refl
none_yet current_ring = refl
none_yet free_ring = refl

three_pools-IsRings : IsRings three_pools contents
three_pools-IsRings = record { rings = rings; apart = contents-Apart }
  where
    other : (d : ℕ) (f : Field) → d ≢ 0 → get_place (of_domain d f) three_pools ≡ 0
    other d f n = ap (get_field f) (rw (ne→== d 0 n, rings_of) refl) ∙ none_yet f

    rings :
        (pl : Place)
        → IsGlobal pl
        → IsRing three_pools.store.links (get_place pl three_pools) (contents (key pl))
    rings (variable p) g = absurd g
    rings (orphaned old_ring) g = refl
    rings (orphaned young_ring) g = refl
    rings (orphaned current_ring) g = refl
    rings (orphaned free_ring) g = refl
    rings (of_domain d f) g = elim (eq_cases d 0) [
      | inl e ↦
          subst
            (λ d'.
              IsRing three_pools.store.links (get_place (of_domain d' f) three_pools)
                (contents (key (of_domain d' f))))
            (sym e) (domain-IsRing f)
      | inr n ↦ rw (contents-other d f n) (other d f n)
    ]

abbrev young_place : Place
young_place = of_domain 0 young_ring

reclassify_pool-IsRings_example :
    IsRings
      (reclassify_pool young_place 0 old three_pools)
      (reclassified contents 5 4 true 32768 (65536 ∷ []))
reclassify_pool-IsRings_example =
    reclassify_pool-IsRings three_pools contents young_place 0 old 32768 (65536 ∷ []) tt
      three_pools-IsRings refl

reclassify_ring-IsRings_example :
    Reclassifies 2 young_place 0 old three_pools contents (λ q. is_not_too_full q three_pools.store)
reclassify_ring-IsRings_example =
    reclassify_ring-IsRings 2 young_place 0 old three_pools contents tt (λ e. omega (arith, e))
      three_pools-IsRings (omega arith)

free_pool_ring-IsRings_example : Releases 2 young_place three_pools contents (32768 ∷ 65536 ∷ [])
free_pool_ring-IsRings_example =
    free_pool_ring-IsRings 2 young_place three_pools contents tt three_pools-IsRings (omega arith)

-- A pool in no ring, behind the two young ones.
new_pool-IsDetached : IsDetached three_pools contents 81920
new_pool-IsDetached = record { single = omega arith; outside = λ i. ground arith }

push_checked-IsRings_example :
    (s' : State) × (push_checked 81920 young_place three_pools ≡ some s')
    × IsRings s' (upd contents 5 (32768 ∷ 65536 ∷ 81920 ∷ []))
push_checked-IsRings_example =
    push_checked-IsRings three_pools contents young_place 81920 tt three_pools-IsRings
      new_pool-IsDetached (λ n. refl)

-- Two old pools and no current one.
abbrev two_old : State
two_old = record three_pools {
  pools = λ d. if d == 0 then some (record no_rings { old = 32768 }) else none;
}

collected-two_old : gc_pool_rings 4 0 (move_current_to_young 0 two_old) ≡ some two_old
unfolding gc_pool_rings move_current_to_young gc_ring gc_head gc_tail try_gc_and_reclassify_pool
    gc_pool
collected-two_old = refl

orphan_pools-push_checked_example : orphan_pools 4 0 two_old ≡ none
orphan_pools-push_checked_example =
    orphan_pools-push_checked 0 4 two_old two_old 32768 65536 [] (λ e. some-ne-none e)
      collected-two_old (omega arith)
