-- ===== src/Boxroot/Heap/Install.antt =====
-- `set_current_pool`: a pool that is in no ring becomes the current pool of a domain without one.
use ocaml_boxroot.Prelude.{
  some-ne-none, ℕ, ◌≤◌, ◌≡◌, refl, sym, ◌∙◌, ap, subst, ◌≢◌, ◌⊎◌, inl, inr, true, false, ◌||◌, List,
  [], ◌∷◌, none, arith, has, NotIn, NotIn-has, upd, upd_self, upd_ne, ◌==◌, if◌then◌else◌, eq_cases,
  eq→==, ne→==, ==→eq, length,
}
use mathlib.Core.Bool.{false≢true}
use ocaml_boxroot.Words.{Runtime, IsRuntime, incr32}
use ocaml_boxroot.Ring.Paths.{SameAt-refl}
use ocaml_boxroot.Pool.{FreeList, young}
use ocaml_boxroot.Pool.Invariant.{root_value, live_count}
use ocaml_boxroot.Pool.Kept.{PoolAt, KeptAt, PoolAt-KeptAt, IsPool-recount}
use ocaml_boxroot.Boxroot.State.{
  State, of_domain, current_ring, set_place, set_fl, fl_of, set_current_fl,
}
use ocaml_boxroot.Boxroot.Classes.{set_current_pool}
use ocaml_boxroot.Boxroot.Rings.{IsRings, IsRings-place}
use ocaml_boxroot.Boxroot.Reclassify.{IsRings-set_fl}
use ocaml_boxroot.Boxroot.Moves.{IsRings-set_current_fl}
use ocaml_boxroot.Boxroot.Heap.{View, extra, cur_key, current_of, InHeap, Fresh, Ready, IsHeap}
use ocaml_boxroot.Boxroot.Heap.Search.{RoomAt, IsSpare}

Fresh-add :
    (v v' : View) (e p : ℕ) (ps : List ℕ)
    → ((q : ℕ) → InHeap v' q → (q ≡ p) ⊎ InHeap v q)
    → NotIn p ps
    → Fresh v e ps
    → Fresh v' e ps
Fresh-add v v' e p [] h n f = tt
Fresh-add v v' e p (q ∷ ps) h n (inl z, f) = (inl z, Fresh-add v v' e p ps h n.1 f)
Fresh-add v v' e p (q ∷ ps) h n (inr k, f) = (
  inr (k.0, λ m. elim (h q m) [ inl same ↦ n.0 (sym same) | inr old ↦ k.1 old ], k.2, k.3),
  Fresh-add v v' e p ps h n.1 f,
)

-- `s'` is `s` with the pool `p` made current.
pub record IsInstalled (r : Runtime) (dom : ℕ) (s s' : State) (v v' : View) (p : ℕ) : Type 0 where
  pub heap : IsHeap r s' v'
  pub cur : v' (cur_key dom) ≡ p ∷ []
  pub room : RoomAt r s'.store p 1
  pub back : (q : ℕ) → InHeap v' q → (q ≡ p) ⊎ InHeap v q
  pub forth : (q : ℕ) → InHeap v q → InHeap v' q
  pub values : (q a : ℕ) → root_value s'.store q a ≡ root_value s.store q a
  pub memory : s'.memory ≡ s.memory
  pub empty_fl : s'.empty_fl ≡ s.empty_fl
  pub cached_dom_id : s'.cached_dom_id ≡ s.cached_dom_id
  pub thread_has_lock : s'.thread_has_lock ≡ s.thread_has_lock
  pub status : s'.status ≡ s.status
  pub some_rings : s'.pools dom ≢ none

module _ (r : Runtime) (ok : IsRuntime r) (dom : ℕ) (s : State) (v : View) (p : ℕ)
    (inv : IsHeap r s v) (nonzero : p ≢ 0) (spare : IsSpare r s v p)
    (empty : v (cur_key dom) ≡ []) where
  abbrev ck : ℕ
  ck = cur_key dom

  abbrev s1 : State
  s1 = set_place (of_domain dom current_ring) p s

  abbrev new_fl : FreeList
  new_fl = record (fl_of p s) {
    domain_id = dom;
    class = young;
    alloc_count = incr32 (fl_of p s).alloc_count;
  }

  abbrev s2 : State
  s2 = set_fl p new_fl s1

  abbrev s3 : State
  s3 = set_current_fl dom p s2

  abbrev v' : View
  v' = upd v ck (p ∷ [])

  s3-lem : set_current_pool dom p s ≡ s3
  unfolding set_current_pool
  s3-lem = rw (ne→== p 0 nonzero) refl

  store-lem : s3.store ≡ s2.store
  unfolding set_current_fl
  store-lem = refl

  rings3 : IsRings s3 v'
  rings3 = IsRings-set_current_fl dom p s2 v' (
      IsRings-set_fl p new_fl s1 v' (
        IsRings-place s v (of_domain dom current_ring) p s.store.links (p ∷ []) tt inv.rings
          spare.detached.single (λ i n. SameAt-refl s.store.links (v i))
          (λ i n. spare.detached.outside i)))

  others : (q : ℕ) → q ≢ p → KeptAt r s.store s2.store q
  others q n = record {
    slots = λ a i. refl;
    next = rw (ne→== q p n) refl;
    end = rw (ne→== q p n) refl;
    count = rw (ne→== q p n) refl;
    delayed = refl;
  }

  counted-room : RoomAt r s.store p 0 → RoomAt r s2.store p 1
  counted-room (y, fs, ds, k) = (
    y,
    fs,
    ds,
    IsPool-recount r s.store s2.store p (y ∷ fs) ds 0 1 k (λ a i. refl) (rw (eq→== p p refl) refl)
        (rw (eq→== p p refl) refl) refl (omega arith)
        (rw (eq→== p p refl) (omega (arith, k.fl_count, live_count r ok k))),
  )

  room2 : RoomAt r s2.store p 1
  room2 = counted-room spare.room

  v'-cur : v' ck ≡ p ∷ []
  v'-cur = upd_self v ck (p ∷ [])

  v'-other : (i : ℕ) → i ≢ ck → v' i ≡ v i
  v'-other i n = upd_ne v ck (p ∷ []) i n

  v'-back :
      (i q : ℕ) → has q (v' i) ≡ true → ((q ≡ p) × (i ≡ ck)) ⊎ ((q ≢ p) × (has q (v i) ≡ true))
  v'-back i q m = elim (eq_cases i ck) [
    | inl k ↦
        let m' : ((q == p) || false) ≡ true =
          ap (has q) (sym v'-cur) ∙ subst (λ j. has q (v' j) ≡ true) k m in
        inl (==→eq q p (ground (arith, m')), k)
    | inr n ↦
        let m' : has q (v i) ≡ true = ap (has q) (sym (v'-other i n)) ∙ m in
        inr (
          (λ same. false≢true (
              sym (NotIn-has p (v i) (spare.detached.outside i).0)
              ∙ subst (λ x. has x (v i) ≡ true) same m')),
          m',
        )
  ]

  InHeap-v' : (q : ℕ) → InHeap v' q → (q ≡ p) ⊎ InHeap v q
  InHeap-v' q (i, m) = elim (v'-back i q m) [ inl k ↦ inl k.0 | inr k ↦ inr (i, k.1) ]

  pools3 : (i q : ℕ) → has q (v' i) ≡ true → PoolAt r s2.store q (extra i)
  pools3 i q m = elim (v'-back i q m) [
    | inl k ↦
        let (y, fs, ds, u) = room2 in
        let one : extra i ≡ 1 = ap extra k.1 ∙ ground arith in
        subst (PoolAt r s2.store q) (sym one)
          (subst (λ x. PoolAt r s2.store x 1) (sym k.0) (y ∷ fs, ds, u))
    | inr k ↦ PoolAt-KeptAt r s.store s2.store q (extra i) (others q k.0) (inv.pools i q k.1)
  ]

  cur_key-inj : (d : ℕ) → d ≢ dom → cur_key d ≢ ck
  cur_key-inj d n k = n (omega (arith, k))

  one_current3 : (d : ℕ) → length (v' (cur_key d)) ≤ 1
  one_current3 d = elim (eq_cases d dom) [
    | inl e ↦
        subst (λ x. length (v' (cur_key x)) ≤ 1) (sym e)
          (subst (λ zs. length zs ≤ 1) (sym v'-cur) (omega arith))
    | inr n ↦
        subst (λ zs. length zs ≤ 1) (sym (v'-other (cur_key d) (cur_key-inj d n)))
          (inv.one_current d)
  ]

  Ready-s3 : (d : ℕ) → d ≢ dom → Ready s3 d → Ready s d
  unfolding set_current_fl
  Ready-s3 d n (inl z) = inl z
  Ready-s3 d n (inr h) = inr (λ k. h (rw (ne→== d dom n) k))

  current3 : (d : ℕ) → Ready s3 d → s3.current_fl d ≡ current_of (v' (cur_key d)) s.empty_fl
  unfolding set_current_fl
  current3 d h = elim (eq_cases d dom) [
    | inl e ↦
        ap (λ b. if b then p else s.current_fl d) (eq→== d dom e)
        ∙ sym (
            ap (λ x. current_of (v' (cur_key x)) s.empty_fl) e
            ∙ ap (λ zs. current_of zs s.empty_fl) v'-cur)
    | inr n ↦
        ap (λ b. if b then p else s.current_fl d) (ne→== d dom n)
        ∙ inv.current d (Ready-s3 d n h)
        ∙ sym (ap (λ zs. current_of zs s.empty_fl) (v'-other (cur_key d) (cur_key-inj d n)))
  ]

  trap3 : (s2.store.free_list s.empty_fl).next ≡ s.empty_fl
  trap3 = rw (ne→== s.empty_fl p (λ k. spare.not_trap (sym k))) inv.trap

  forth3 : (q : ℕ) → InHeap v q → InHeap v' q
  forth3 q (i, m) = elim (eq_cases i ck) [
    | inl k ↦ absurd (false≢true (ap (has q) (sym empty) ∙ subst (λ j. has q (v j) ≡ true) k m))
    | inr n ↦ (i, ap (has q) (v'-other i n) ∙ m)
  ]

  installed : IsInstalled r dom s s3 v v' p
  unfolding set_current_fl
  installed = record {
    heap = record {
      rings = rings3;
      pools = pools3;
      one_current = one_current3;
      current = current3;
      trap = trap3;
      trap_apart = λ m. elim (InHeap-v' s.empty_fl m) [
        | inl k ↦ spare.not_trap (sym k)
        | inr k ↦ inv.trap_apart k
      ];
      fresh = Fresh-add v v' s.empty_fl p s.memory InHeap-v' spare.unused inv.fresh;
    };
    cur = v'-cur;
    room = room2;
    back = InHeap-v';
    forth = forth3;
    values = λ q a. refl;
    memory = refl;
    empty_fl = refl;
    cached_dom_id = refl;
    thread_has_lock = refl;
    status = refl;
    some_rings = λ k. some-ne-none (sym (upd_self s.pools dom _) ∙ k);
  }

  pub set_current_pool-IsInstalled : IsInstalled r dom s (set_current_pool dom p s) v v' p
  set_current_pool-IsInstalled = subst (λ x. IsInstalled r dom s x v v' p) (sym s3-lem) installed
