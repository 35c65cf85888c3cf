-- ===== src/Boxroot/Heap/Validate.antt =====
-- `validate_all_pools`: the run-time checks of a debug build accept the well-formed states.
use ocaml_boxroot.Prelude.{
  ℕ, ◌+◌, ◌*◌, ◌/◌, ◌-◌, ◌%◌, ◌^◌, ◌≤◌, ◌<◌, ◌≡◌, refl, sym, ◌∙◌, ap, subst, ◌≢◌, inl, inr, Bool,
  true, false, ◌&&◌, ◌||◌, List, [], ◌∷◌, Option, none, some, arith, has, upd, upd_self, upd_ne,
  length, ◌==◌, eq_cases, eq→==, ne→==, ==→eq, ◌>>=◌,
}
use mathlib.Core.Path.{fun_ext}
use ocaml_boxroot.Words.{Runtime, IsRuntime, incr32, decr32}
use ocaml_boxroot.Ring.Paths.{IsRing}
use ocaml_boxroot.Pool.{Store, FreeList, Class, young, old, untracked, class_allows}
use ocaml_boxroot.Pool.Kept.{PoolAt}
use ocaml_boxroot.Pool.Scan.Validate.{ClassHolds, validate_pool-IsPool}
use ocaml_boxroot.Boxroot.State.{
  State, PoolRings, Place, of_domain, old_ring, young_ring, current_ring, free_ring, get_place,
  fl_of,
}
use ocaml_boxroot.Boxroot.Validate.{
  same_class, pool_checks, validate_ring, validate_current_pool, validate_all_pools,
}
use ocaml_boxroot.Boxroot.Rings.{key, IsGlobal}
use ocaml_boxroot.Boxroot.Heap.{View, extra, cur_key, IsHeap}
use ocaml_boxroot.Boxroot.Heap.Kept.{counted, counted-PoolAt}
use ocaml_boxroot.Boxroot.Heap.Current.{decr32-current}
use ocaml_boxroot.Boxroot.Heap.Tags.{class_of, IsTagged}
use ocaml_boxroot.Boxroot.Heap.ValidateRing.{same_class_self, ring-nonzero, validate_ring-IsRing}

-- The slots of the pools hold no young block, but for those of young pools.
abbrev pub HeldByClass : (r : Runtime) → IsRuntime r → Store → View → Type 0
HeldByClass r ok st v = (i q : ℕ) → has q (v i) ≡ true → ClassHolds r ok st q

-- `++` behind `--` brings the free list back.
module _ (fl : ℕ → FreeList) (p : ℕ)
    (e : incr32 (decr32 (fl p).alloc_count) ≡ (fl p).alloc_count) where
  abbrev once : ℕ → FreeList
  once = upd fl p (record (fl p) { alloc_count = decr32 (fl p).alloc_count })

  abbrev twice : ℕ → FreeList
  twice = upd once p (record (once p) { alloc_count = incr32 (once p).alloc_count })

  there : record (once p) { alloc_count = incr32 (once p).alloc_count } ≡ fl p
  there =
      ap (λ (f : FreeList). record f { alloc_count = incr32 f.alloc_count }) (upd_self fl p _)
      ∙ ap (λ k. record (fl p) { alloc_count = k }) e

  restored : (q : ℕ) → twice q ≡ fl q
  restored q = elim (eq_cases q p) [
    | inl k ↦ subst (λ y. twice y ≡ fl y) (sym k) (upd_self once p _ ∙ there)
    | inr k ↦ upd_ne once p _ q k ∙ upd_ne fl p _ q k
  ]

module _ (r : Runtime) (ok : IsRuntime r) (dom n : ℕ) (s : State) (v : View) (inv : IsHeap r s v)
    (tagged : IsTagged s v) (held : HeldByClass r ok s.store v) where
  ring-checks :
      (cl : Class) (i q : ℕ)
      → class_of i ≡ cl
      → extra i ≡ 0
      → 4 ≤ i
      → (i - 4) / 4 ≡ dom
      → q ≢ 0
      → has q (v i) ≡ true
      → pool_checks r s.store dom cl q ≡ true
  ring-checks cl i q c x l d nz m =
      let t = tagged.tags i q m in
      let (fs, ds, pool) = subst (PoolAt r s.store q) x (inv.pools i q m) in
      let domain : ((s.store.free_list q).domain_id == dom) ≡ true = eq→== _ _ (t.domain l ∙ d) in
      let class : same_class (s.store.free_list q).class cl ≡ true =
        ap (λ k. same_class k cl) (t.class ∙ c) ∙ same_class_self cl in
      let valid = validate_pool-IsPool r ok s.store q fs ds nz pool (held i q m) in
      ground (arith, domain, class, valid)

  ring-accepted :
      (cl : Class) (pl : Place) (g : IsGlobal pl)
      → class_of (key pl) ≡ cl
      → extra (key pl) ≡ 0
      → 4 ≤ key pl
      → (key pl - 4) / 4 ≡ dom
      → length (v (key pl)) ≤ n
      → validate_ring r n s.store (get_place pl s) dom cl ≡ true
  ring-accepted cl pl g c x l d fuel =
      let ring = inv.rings.rings pl g in
      validate_ring-IsRing r s.store dom n cl (get_place pl s) (v (key pl)) ring
        (λ q m.
          ring-checks cl (key pl) q c x l d
            (ring-nonzero s.store.links (get_place pl s) q (v (key pl)) ring m) m)
        fuel

  module _ (p : ℕ) (e : v (cur_key dom) ≡ p ∷ []) where
    abbrev s1 : State
    s1 = counted p (decr32 (fl_of p s).alloc_count) s

    p-in : has p (v (cur_key dom)) ≡ true
    p-in = ap (has p) e ∙ ap (λ c. c || false) (eq→== p p refl)

    the_pool : PoolAt r s.store p 1
    the_pool = subst (PoolAt r s.store p) (ground arith) (inv.pools (cur_key dom) p p-in)

    the_ring : IsRing s.store.links (get_place (of_domain dom current_ring) s) (p ∷ [])
    the_ring =
        subst (IsRing s.store.links (get_place (of_domain dom current_ring) s)) e
          (inv.rings.rings (of_domain dom current_ring) tt)

    label : (s1.store.free_list p).class ≡ young
    label =
        ap (λ (f : FreeList). f.class) (upd_self s.store.free_list p _)
        ∙ (tagged.tags (cur_key dom) p p-in).class
        ∙ class_cur
      where
        class_cur : class_of (cur_key dom) ≡ young
        class_cur =
            rw
              (
                ne→== ((4 + 4 * dom + 2) % 4) 0 (λ k. omega (arith, k)),
                ne→== ((4 + 4 * dom + 2) % 4) 3 (λ k. omega (arith, k)),
              )
              refl

    domain : (s1.store.free_list p).domain_id ≡ dom
    domain =
        ap (λ (f : FreeList). f.domain_id) (upd_self s.store.free_list p _)
        ∙ (tagged.tags (cur_key dom) p p-in).domain (omega arith)
        ∙ omega arith

    held_now : ClassHolds r ok s1.store p
    held_now a i h =
        ap (λ (f : FreeList). class_allows r f.class (s.store.slots a))
          (upd_self s.store.free_list p _)
        ∙ held (cur_key dom) p p-in a i h

    current-checks : (q : ℕ) → has q (p ∷ []) ≡ true → pool_checks r s1.store dom young q ≡ true
    current-checks q m =
        let (fs, ds, pool) =
          counted-PoolAt r dom p (decr32 (fl_of p s).alloc_count) s 1 0 (omega arith)
            (decr32-current r ok s.store p the_pool) the_pool in
        let nz =
          ring-nonzero s.store.links _ p (p ∷ []) the_ring
            (ap (λ c. c || false) (eq→== p p refl)) in
        let valid = validate_pool-IsPool r ok s1.store p fs ds nz pool held_now in
        let class : same_class (s1.store.free_list p).class young ≡ true =
          ap (λ k. same_class k young) label in
        let dom_good : ((s1.store.free_list p).domain_id == dom) ≡ true = eq→== _ _ domain in
        subst (λ y. pool_checks r s1.store dom young y ≡ true) (sym (==→eq q p (ground (arith, m))))
          (ground (arith, valid, class, dom_good))

    count-back : incr32 (decr32 (fl_of p s).alloc_count) ≡ (fl_of p s).alloc_count
    count-back =
        let one_less = decr32-current r ok s.store p the_pool in
        let small : (fl_of p s).alloc_count < 2 ^ 32 =
          (let (fs, ds, pool) = the_pool in omega (arith, pool.fl_count)) in
        omega (arith, one_less, small)

    validate_current-accepted : 1 ≤ n → validate_current_pool r n dom s ≡ some s
    unfolding validate_current_pool
    validate_current-accepted fuel =
        let h : get_place (of_domain dom current_ring) s ≡ p = the_ring.0 in
        let nz : (get_place (of_domain dom current_ring) s == 0) ≡ false =
          ne→== _ _ (λ z. the_ring.1.0 (sym z ∙ h)) in
        let accepted : validate_ring r n s1.store p dom young ≡ true =
          validate_ring-IsRing r s1.store dom n young p (p ∷ [])
            (subst (λ y. IsRing s.store.links y (p ∷ [])) h the_ring) current-checks fuel in
        let y = get_place (of_domain dom current_ring) s in
        let accepted_there : validate_ring r n (counted y (decr32 (fl_of y s).alloc_count) s).store
              y dom young
            ≡ true =
          subst
            (λ z.
              validate_ring r n (counted z (decr32 (fl_of z s).alloc_count) s).store z dom young
              ≡ true)
            (sym h) accepted in
        let back_there : incr32 (decr32 (fl_of y s).alloc_count) ≡ (fl_of y s).alloc_count =
          subst (λ z. incr32 (decr32 (fl_of z s).alloc_count) ≡ (fl_of z s).alloc_count) (sym h)
            count-back in
        rw (nz, validate_current_pool)
          (rw accepted_there (
            ap (λ (f : ℕ → FreeList). some (record s { store = record s.store { free_list = f } }))
              (fun_ext (restored s.store.free_list y back_there))))

  current-accepted : length (v (cur_key dom)) ≤ n → validate_current_pool r n dom s ≡ some s
  unfolding validate_current_pool
  current-accepted fuel = by_ring (v (cur_key dom)) refl
    where
      by_ring : (xs : List ℕ) → v (cur_key dom) ≡ xs → validate_current_pool r n dom s ≡ some s
      by_ring [] e =
          let h =
            subst (IsRing s.store.links (get_place (of_domain dom current_ring) s)) e
              (inv.rings.rings (of_domain dom current_ring) tt) in
          rw (eq→== (get_place (of_domain dom current_ring) s) 0 h, validate_current_pool) refl
      by_ring (p ∷ []) e =
          let one = ap length e in validate_current-accepted p e (omega (arith, one, fuel))
      by_ring (p ∷ q ∷ qs) e =
          let one = inv.one_current dom in
          let long = ap length e in absurd (omega (arith, one, long))

  class-old : class_of (4 + 4 * dom + 0) ≡ old
  class-old = rw (eq→== ((4 + 4 * dom + 0) % 4) 0 (omega arith)) refl

  class-young : class_of (4 + 4 * dom + 1) ≡ young
  class-young =
      rw
        (
          ne→== ((4 + 4 * dom + 1) % 4) 0 (λ k. omega (arith, k)),
          ne→== ((4 + 4 * dom + 1) % 4) 3 (λ k. omega (arith, k)),
        )
        refl

  class-free : class_of (4 + 4 * dom + 3) ≡ untracked
  class-free =
      rw
        (
          ne→== ((4 + 4 * dom + 3) % 4) 0 (λ k. omega (arith, k)),
          eq→== ((4 + 4 * dom + 3) % 4) 3 (omega arith),
        )
        refl

  -- `validate_all_pools` behind the read of the domain's rings, and behind its first checks.
  abbrev then_free : State → Option State
  then_free t =
      elim (validate_ring r n t.store (get_place (of_domain dom free_ring) t) dom untracked) [
        | false ↦ none
        | true ↦ some t
      ]

  abbrev heads_checked : Bool
  heads_checked =
      validate_ring r n s.store (get_place (of_domain dom old_ring) s) dom old
      && validate_ring r n s.store (get_place (of_domain dom young_ring) s) dom young

  abbrev checked : Bool → Option State
  checked b = elim b [ false ↦ none | true ↦ validate_current_pool r n dom s >>= then_free ]

  -- In a well-formed state in which each pool bears the class and the domain of its ring and no
  -- slot of a pool that is not young holds a young block, for a domain with rings and with fuel
  -- for as many rounds as each of its rings has pools, `validate_all_pools` ends, none of its
  -- assertions fails, and the state behind is the one before, although the count of the current
  -- pool is decremented and incremented on the way.
  pub validate_all_pools-IsTagged :
      s.pools dom ≢ none
      → length (v (key (of_domain dom old_ring))) ≤ n
      → length (v (key (of_domain dom young_ring))) ≤ n
      → length (v (cur_key dom)) ≤ n
      → length (v (key (of_domain dom free_ring))) ≤ n
      → validate_all_pools r n dom s ≡ some s
  unfolding validate_all_pools
  validate_all_pools-IsTagged some_rings fo fy fc ff =
      let o =
        ring-accepted old (of_domain dom old_ring) tt class-old (ground arith) (omega arith)
          (omega arith) fo in
      let y =
        ring-accepted young (of_domain dom young_ring) tt class-young (ground arith) (omega arith)
          (omega arith) fy in
      let f =
        ring-accepted untracked (of_domain dom free_ring) tt class-free (ground arith) (omega arith)
          (omega arith) ff in
      by_rings (s.pools dom) refl o y f
    where
      by_rings :
          (ps : Option PoolRings)
          → s.pools dom ≡ ps
          → validate_ring r n s.store (get_place (of_domain dom old_ring) s) dom old ≡ true
          → validate_ring r n s.store (get_place (of_domain dom young_ring) s) dom young ≡ true
          → validate_ring r n s.store (get_place (of_domain dom free_ring) s) dom untracked ≡ true
          → validate_all_pools r n dom s ≡ some s
      by_rings none e o y f = absurd (some_rings e)
      by_rings (some ps) e o y f =
          let both : heads_checked ≡ true = ground (arith, o, y) in
          ap (λ qs. elim qs as (λ _. Option State) [ none ↦ none | some _ ↦ checked heads_checked ])
            e
          ∙ ap checked both
          ∙ ap (λ t. t >>= then_free) (current-accepted fc)
          ∙ ap (λ b. elim b as (λ _. Option State) [ false ↦ none | true ↦ some s ]) f
