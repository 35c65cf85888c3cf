-- ===== src/Boxroot/Heap/Fill.antt =====
-- `get_empty_pool`: a new pool for a well-formed state.
use ocaml_boxroot.Prelude.{
  ℕ, suc, ◌-◌, ◌%◌, ◌≡◌, refl, sym, ◌∙◌, ap, subst, ◌≢◌, ◌⊎◌, inl, inr, Bool, true, false, ◌||◌,
  List, [], ◌∷◌, none, some, arith, has, has-NotIn, NotIn, ◌==◌, if◌then◌else◌, Bool-cases, eq→==,
  ne→==, ==→ne,
}
use ocaml_boxroot.Words.{
  Runtime, IsRuntime, bxr_pool_size, pool_capacity, slot_addr, is_pool_member,
}
use ocaml_boxroot.Ring.{ring_link}
use ocaml_boxroot.Ring.Paths.{IsRing, IsRing-SameAt, SameAt-ring_link}
use ocaml_boxroot.Ring.Pop.{single-IsRing}
use ocaml_boxroot.Pool.{Store, init_pool}
use ocaml_boxroot.Pool.Count.{InPool, addrs, pool_slots}
use ocaml_boxroot.Pool.Init.{init_pool-IsPool}
use ocaml_boxroot.Pool.Invariant.{IsPool, root_value, member-eq-has, has-append}
use ocaml_boxroot.Pool.Kept.{KeptAt, PoolAt-KeptAt, root_value-KeptAt, other-pool}
use ocaml_boxroot.Boxroot.State.{State, Place, of_domain, orphaned, variable, get_place}
use ocaml_boxroot.Boxroot.Classes.{get_empty_pool}
use ocaml_boxroot.Boxroot.Rings.{key, IsRings}
use ocaml_boxroot.Boxroot.Reclassify.{get_place-store}
use ocaml_boxroot.Boxroot.Heap.{View, extra, InHeap, Fresh, IsHeap}
use ocaml_boxroot.Boxroot.Heap.Search.{RoomAt, IsFound}

-- The platform gives no memory.
abbrev pub refused : List ℕ → Bool
refused [] = true
refused (p ∷ ps) = p == 0

-- `s'` is `s`, but for the memory to come.
pub record IsRefused (r : Runtime) (s s' : State) (v : View) : Type 0 where
  pub no_memory : refused s.memory ≡ true
  pub heap : IsHeap r s' v
  pub store : s'.store ≡ s.store
  pub pools : s'.pools ≡ s.pools
  pub current_fl : s'.current_fl ≡ s.current_fl
  pub cached_dom_id : s'.cached_dom_id ≡ s.cached_dom_id
  pub thread_has_lock : s'.thread_has_lock ≡ s.thread_has_lock
  pub empty_fl : s'.empty_fl ≡ s.empty_fl
  pub status : s'.status ≡ s.status

-- What `find_available_pool` promises.
abbrev pub Got : Runtime → ℕ → State → View → ℕ × State → Type 0
Got r dom s v (p, s') = ((p ≡ 0) × IsRefused r s s' v) ⊎ ((v' : View) × IsFound r dom s s' v v' p)

not-InHeap : (v : View) (p i : ℕ) → (InHeap v p → ⊥) → NotIn p (v i)
not-InHeap v p i n = elim (Bool-cases (has p (v i))) [
  | inl h ↦ absurd (n (i, h))
  | inr h ↦ has-NotIn p (v i) h
]

get_place-memory :
    (pl : Place) (m : List ℕ) (s : State) → get_place pl (record s { memory = m }) ≡ get_place pl s
get_place-memory (of_domain d f) m s = refl
get_place-memory (orphaned f) m s = refl
get_place-memory (variable p) m s = refl

module _ (r : Runtime) (ok : IsRuntime r) (dom : ℕ) (s : State) (v : View)
    (inv : IsHeap r s v) where
  -- The state with the next answer of the platform used up.
  abbrev asked : List ℕ → State
  asked ps = record s { memory = ps }

  asked-IsHeap : (ps : List ℕ) → Fresh v s.empty_fl ps → IsHeap r (asked ps) v
  asked-IsHeap ps f = record {
    rings = record {
      rings = λ pl g.
          subst (λ h. IsRing s.store.links h (v (key pl))) (sym (get_place-memory pl ps s))
            (inv.rings.rings pl g);
      apart = inv.rings.apart;
    };
    pools = inv.pools;
    one_current = inv.one_current;
    current = inv.current;
    trap = inv.trap;
    trap_apart = inv.trap_apart;
    fresh = f;
  }

  module _ (p : ℕ) (ps : List ℕ) (al : p % bxr_pool_size ≡ 0) (out : InHeap v p → ⊥)
      (ne : p ≢ s.empty_fl) (unused : NotIn p ps) (nonzero : p ≢ 0) (f : Fresh v s.empty_fl ps)
      (given : s.memory ≡ p ∷ ps) where
    abbrev st' : Store
    st' = init_pool r p s.store

    abbrev s' : State
    s' = record s { memory = ps; store = st' }

    pool-ne : (q : ℕ) → InHeap v q → q ≢ p
    pool-ne q m e = out (subst (InHeap v) e m)

    others : (q : ℕ) → InHeap v q → KeptAt r s.store st' q
    unfolding init_pool
    others q (i, m) =
        let n = pool-ne q (i, m) in
        let outside = (init_pool-IsPool r ok s.store p al).1 in
        record {
          slots = λ a k. outside a (other-pool r ok p q a al (inv.pools i q m).2.aligned n k);
          next = rw (ne→== q p n) refl;
          end = rw (ne→== q p n) refl;
          count = rw (ne→== q p n) refl;
          delayed = rw (ne→== q p n) refl;
        }

    links-lem : st'.links ≡ ring_link p p s.store.links
    unfolding init_pool
    links-lem = refl

    new-IsRings : IsRings s' v
    new-IsRings = record {
      rings = λ pl g.
          subst (λ l. IsRing l (get_place pl s') (v (key pl))) (sym links-lem)
            (subst (λ h. IsRing (ring_link p p s.store.links) h (v (key pl)))
              (sym (get_place-store pl st' (asked ps) ∙ get_place-memory pl ps s))
              (IsRing-SameAt s.store.links (ring_link p p s.store.links) (get_place pl s)
                (v (key pl))
                (SameAt-ring_link p p s.store.links (v (key pl)) (not-InHeap v p (key pl) out)
                  (not-InHeap v p (key pl) out))
                (inv.rings.rings pl g)));
      apart = inv.rings.apart;
    }

    trap-lem : (st'.free_list s.empty_fl).next ≡ s.empty_fl
    unfolding init_pool
    trap-lem = rw (ne→== s.empty_fl p (λ e. ne (sym e))) inv.trap

    new-IsHeap : IsHeap r s' v
    new-IsHeap = record {
      rings = new-IsRings;
      pools = λ i q m. PoolAt-KeptAt r s.store st' q (extra i) (others q (i, m)) (inv.pools i q m);
      one_current = inv.one_current;
      current = inv.current;
      trap = trap-lem;
      trap_apart = inv.trap_apart;
      fresh = f;
    }

    new-room : RoomAt r st' p 0
    new-room =
        let positive : pool_capacity r ≡ suc (pool_capacity r - 1) = omega (arith, ok.room) in
        let first : pool_slots r p ≡ addrs (slot_addr r p 0) (suc (pool_capacity r - 1)) =
          ap (addrs (slot_addr r p 0)) positive in
        (
          _,
          _,
          [],
          subst (λ xs. IsPool r st' p xs [] 0) first (init_pool-IsPool r ok s.store p al).0,
        )

    all-free : (a : ℕ) → InPool r p a → root_value st' p a ≡ none
    all-free a i =
        let free : is_pool_member (st'.slots a) p ≡ true =
          member-eq-has r ok (init_pool-IsPool r ok s.store p al).0 a i
          ∙ has-append a (pool_slots r p) []
          ∙ ap (λ b. b || false) i in
        ap (λ b. if b then none else some (st'.slots a)) free

    pub new-IsFound : IsFound r dom s s' v v p
    new-IsFound = record {
      nonzero = nonzero;
      heap = new-IsHeap;
      spare = record {
        detached = record {
          single =
              subst (λ l. IsRing l p (p ∷ [])) (sym links-lem)
                (single-IsRing s.store.links p nonzero);
          outside = λ i. (not-InHeap v p i out, tt);
        };
        room = new-room;
        not_trap = ne;
        unused = unused;
      };
      back = λ q m. m;
      forth = λ q m. inr m;
      values = λ q a m i. root_value-KeptAt r ok s.store st' q a (others q m) i;
      source = inr (ap (has p) given ∙ rw (eq→== p p refl) refl, all-free);
      cur = refl;
      empty_fl = refl;
      cached_dom_id = refl;
      thread_has_lock = refl;
      status = refl;
      ready = λ h. h;
    }

  refused-Got :
      (ps : List ℕ) → refused s.memory ≡ true → Fresh v s.empty_fl ps → Got r dom s v (0, asked ps)
  refused-Got ps h f = inl (
    refl,
    record {
      no_memory = h;
      heap = asked-IsHeap ps f;
      store = refl;
      pools = refl;
      current_fl = refl;
      cached_dom_id = refl;
      thread_has_lock = refl;
      empty_fl = refl;
      status = refl;
    },
  )

-- `get_empty_pool` with the platform's answers taken out of the state.
abbrev answer : Runtime → State → List ℕ → ℕ × State
answer r s [] = (0, s)
answer r s (p ∷ rest) =
    if p == 0
    then (0, record s { memory = rest })
    else (p, record s { memory = rest; store = init_pool r p s.store })

get_empty_pool-lem : (r : Runtime) (s : State) → get_empty_pool r s ≡ answer r s s.memory
unfolding get_empty_pool
get_empty_pool-lem r s = by_memory s.memory
  where
    by_memory :
        (m : List ℕ)
        → elim m as (λ m. ℕ × State) [
          | [] ↦ (0, s)
          | p ∷ rest ↦
              if p == 0
              then (0, record s { memory = rest })
              else (p, record s { memory = rest; store = init_pool r p s.store })
        ]
          ≡ answer r s m
    by_memory [] = refl
    by_memory (p ∷ rest) = refl

-- The next answer of the platform, whatever it is.
pub get_empty_pool-Got :
    (r : Runtime) (ok : IsRuntime r) (dom : ℕ) (s : State) (v : View)
    → IsHeap r s v
    → Got r dom s v (get_empty_pool r s)
get_empty_pool-Got r ok dom s v inv =
    subst (Got r dom s v) (sym (get_empty_pool-lem r s)) (by_memory s.memory refl)
  where
    by_memory : (m : List ℕ) → s.memory ≡ m → Got r dom s v (answer r s m)
    by_memory [] e =
        let f : Fresh v s.empty_fl s.memory = inv.fresh in
        inl (
          refl,
          record {
            no_memory = ap refused e;
            heap = inv;
            store = refl;
            pools = refl;
            current_fl = refl;
            cached_dom_id = refl;
            thread_has_lock = refl;
            empty_fl = refl;
            status = refl;
          },
        )
    by_memory (p ∷ ps) e =
        let f : Fresh v s.empty_fl (p ∷ ps) = subst (Fresh v s.empty_fl) e inv.fresh in
        elim (Bool-cases (p == 0)) [
          | inl z ↦ rw z (refused-Got r ok dom s v inv ps (ap refused e ∙ z) f.1)
          | inr n ↦ rw n (elim f.0 [
            | inl z ↦ absurd (==→ne p 0 n z)
            | inr h ↦ inr (v, new-IsFound r ok dom s v inv p ps h.0 h.1 h.2 h.3 (==→ne p 0 n) f.1 e)
          ])
        ]
