-- ===== src/Boxroot/Heap/Search.antt =====
-- `find_and_set_available_pool` looks for a pool with a free slot, in the rings of the domain and
-- then in memory.
use ocaml_boxroot.Prelude.{
  ℕ, ◌+◌, ◌≤◌, ◌≡◌, refl, sym, ◌∙◌, ap, subst, ◌≢◌, ◌⊎◌, inl, inr, Bool, true, false, ◌&&◌, ◌||◌,
  List, [], ◌∷◌, none, arith, has, NotIn, upd, upd_ne, ◌==◌, if◌then◌else◌, Bool-cases, eq_cases,
  eq→==, ne→==, ==→eq, ==→ne, length,
}
use mathlib.Core.Bool.{false≢true}
use ocaml_boxroot.Words.{Runtime, IsRuntime}
use ocaml_boxroot.Ring.Paths.{IsRing}
use ocaml_boxroot.Pool.{Store, is_full_pool}
use ocaml_boxroot.Pool.Count.{InPool}
use ocaml_boxroot.Pool.Invariant.{IsPool, root_value}
use ocaml_boxroot.Pool.Kept.{PoolAt, KeptAt, PoolAt-KeptAt, IsPool-recount, root_value-KeptAt}
use ocaml_boxroot.Boxroot.State.{State, Place, get_place, pop_place}
use ocaml_boxroot.Boxroot.Classes.{pop_available}
use ocaml_boxroot.Boxroot.Rings.{key, IsGlobal, IsRings, IsDetached, pop_place-IsRings}
use ocaml_boxroot.Boxroot.Heap.{View, own, extra, cur_key, current_of, InHeap, Fresh, Ready, IsHeap}
use ocaml_boxroot.Boxroot.Heap.Local.{IsHeap-rest, Ready-back, own-cur_key, own-extra}
use ocaml_boxroot.Boxroot.Heap.Relabel.{IsMine, IsRelabel, pop_place-IsRelabel}

-- The pool has a free slot.
abbrev pub RoomAt : Runtime → Store → ℕ → ℕ → Type 0
RoomAt r st p k = (y : ℕ) × (fs : List ℕ) × (ds : List ℕ) × IsPool r st p (y ∷ fs) ds k

-- The pool `p` is in no ring, and has a free slot.
pub record IsSpare (r : Runtime) (s : State) (v : View) (p : ℕ) : Type 0 where
  pub detached : IsDetached s v p
  pub room : RoomAt r s.store p 0
  pub not_trap : p ≢ s.empty_fl
  pub unused : NotIn p s.memory

-- `p` has been taken from the rings of `s`, or from memory, with no boxroot in it.
pub record IsFound (r : Runtime) (dom : ℕ) (s s' : State) (v v' : View) (p : ℕ) : Type 0 where
  pub nonzero : p ≢ 0
  pub heap : IsHeap r s' v'
  pub spare : IsSpare r s' v' p
  pub back : (q : ℕ) → InHeap v' q → InHeap v q
  pub forth : (q : ℕ) → InHeap v q → (q ≡ p) ⊎ InHeap v' q
  pub values :
      (q a : ℕ) → InHeap v q → InPool r q a → root_value s'.store q a ≡ root_value s.store q a
  pub source :
      InHeap v p
      ⊎ ((has p s.memory ≡ true) × ((a : ℕ) → InPool r p a → root_value s'.store p a ≡ none))
  pub cur : v' (cur_key dom) ≡ v (cur_key dom)
  pub empty_fl : s'.empty_fl ≡ s.empty_fl
  pub cached_dom_id : s'.cached_dom_id ≡ s.cached_dom_id
  pub thread_has_lock : s'.thread_has_lock ≡ s.thread_has_lock
  pub status : s'.status ≡ s.status
  pub ready : Ready s dom → Ready s' dom

-- A search that finds nothing changes nothing.
abbrev pub Tried : Runtime → ℕ → State → View → ℕ × State → Type 0
Tried r dom s v (p, s') = ((p ≡ 0) × (s' ≡ s)) ⊎ ((v' : View) × IsFound r dom s s' v v' p)

Fresh-unused : (v : View) (e p : ℕ) (ps : List ℕ) → p ≢ 0 → InHeap v p → Fresh v e ps → NotIn p ps
Fresh-unused v e p [] n m f = tt
Fresh-unused v e p (q ∷ ps) n m (inl z, f) = ((λ k. n (k ∙ z)), Fresh-unused v e p ps n m f)
Fresh-unused v e p (q ∷ ps) n m (inr h, f) =
    ((λ k. h.1 (subst (InHeap v) k m)), Fresh-unused v e p ps n m f)

room_of_not_full :
    (r : Runtime) (st : Store) (p k : ℕ)
    → PoolAt r st p k
    → is_full_pool p st ≡ false
    → RoomAt r st p k
room_of_not_full r st p k ([], ds, v) h = absurd (==→ne (st.free_list p).next p h v.fl_chain)
room_of_not_full r st p k (y ∷ fs, ds, v) h = (y, fs, ds, v)

pub RoomAt-KeptAt :
    (r : Runtime) (st st' : Store) (p k : ℕ)
    → KeptAt r st st' p
    → RoomAt r st p k
    → RoomAt r st' p k
RoomAt-KeptAt r st st' p k h (y, fs, ds, v) = (
  y,
  fs,
  ds,
  IsPool-recount r st st' p (y ∷ fs) ds k k v h.slots h.next h.end h.delayed v.extra
      (ap (λ (n : ℕ). n + k) h.count),
)

module _ (r : Runtime) (ok : IsRuntime r) (dom : ℕ) (s : State) (v : View) (inv : IsHeap r s v)
    (ready : Ready s dom) (place : Place) (g : IsGlobal place) (mine : IsMine dom place)
    (o : own dom (key place) ≡ true) where
  module _ (x : ℕ) (xs : List ℕ) (e : v (key place) ≡ x ∷ xs)
      (room : is_full_pool x s.store ≡ false) where
    abbrev s1 : State
    s1 = (pop_place place s).1

    abbrev v1 : View
    v1 = upd v (key place) xs

    taken : IsRelabel r dom s s1
    taken = pop_place-IsRelabel r dom place s mine

    x-in : has x (v (key place)) ≡ true
    x-in = ap (has x) e ∙ rw (eq→== x x refl) refl

    x-ne-zero : x ≢ 0
    x-ne-zero k =
        (subst (IsRing s.store.links (get_place place s)) e (inv.rings.rings place g)).1.0 (sym k)

    v1-back : (i q : ℕ) → has q (v1 i) ≡ true → has q (v i) ≡ true
    v1-back i q m = elim (eq_cases i (key place)) [
      | inl k ↦
          let m' : has q xs ≡ true = rw (eq→== i (key place) k) at m in
          subst (λ j. has q (v j) ≡ true) (sym k) (ap (has q) e ∙ ground (arith, m'))
      | inr n ↦ rw (ne→== i (key place) n) at m
    ]

    v1-forth : (q : ℕ) → InHeap v q → (q ≡ x) ⊎ InHeap v1 q
    v1-forth q (i, m) = elim (eq_cases i (key place)) [
      | inl k ↦
          let m' : ((q == x) || has q xs) ≡ true =
            ap (has q) (sym e) ∙ subst (λ j. has q (v j) ≡ true) k m in
          elim (Bool-cases (q == x)) [
            | inl same ↦ inl (==→eq q x same)
            | inr other ↦ inr (
              key place,
              ap (λ b. has q (if b then xs else v (key place))) (eq→== (key place) (key place) refl)
                  ∙ (rw other at m'),
            )
          ]
      | inr n ↦ inr (i, ap (λ b. has q (if b then xs else v i)) (ne→== i (key place) n) ∙ m)
    ]

    v1-cur : (d : ℕ) → v1 (cur_key d) ≡ v (cur_key d)
    v1-cur d =
        upd_ne v (key place) xs (cur_key d)
          (λ k. false≢true (sym (own-cur_key dom d) ∙ ap (own dom) k ∙ o))

    popped-IsHeap : IsRings s1 v1 → IsHeap r s1 v1
    popped-IsHeap rings =
        let rest = IsHeap-rest r dom s s1 v v1 inv taken.frame (λ q m. (m.0, v1-back m.0 q m.1)) in
        record {
          rings = rings;
          pools = λ i q m.
              PoolAt-KeptAt r s.store s1.store q (extra i) (taken.kept q)
                (inv.pools i q (v1-back i q m));
          one_current = λ d. subst (λ zs. length zs ≤ 1) (sym (v1-cur d)) (inv.one_current d);
          current = λ d h.
              taken.frame.current_fl d
              ∙ inv.current d (Ready-back dom d s s1 ready taken.frame h)
              ∙ ap (λ zs. current_of zs s.empty_fl) (sym (v1-cur d))
              ∙ ap (current_of (v1 (cur_key d))) (sym taken.frame.empty_fl);
          trap = rest.0;
          trap_apart = rest.1;
          fresh = rest.2;
        }

    popped-IsFound : ((pop_place place s).0 ≡ x) × IsFound r dom s s1 v v1 x
    popped-IsFound =
        let (front, rings, detached) = pop_place-IsRings s v place x xs g inv.rings e in
        let pool : PoolAt r s.store x 0 =
          subst (PoolAt r s.store x) (own-extra dom (key place) o) (inv.pools (key place) x x-in) in
        (
          front,
          record {
            nonzero = x-ne-zero;
            heap = popped-IsHeap rings;
            spare = record {
              detached = detached;
              room =
                  RoomAt-KeptAt r s.store s1.store x 0 (taken.kept x)
                    (room_of_not_full r s.store x 0 pool room);
              not_trap = λ k.
                  inv.trap_apart (subst (InHeap v) (k ∙ taken.frame.empty_fl) (key place, x-in));
              unused =
                  subst (NotIn x) (sym taken.frame.memory)
                    (Fresh-unused v s.empty_fl x s.memory x-ne-zero (key place, x-in) inv.fresh);
            };
            back = λ q m. (m.0, v1-back m.0 q m.1);
            forth = v1-forth;
            values = λ q a m i. root_value-KeptAt r ok s.store s1.store q a (taken.kept q) i;
            source = inl (key place, x-in);
            cur = v1-cur dom;
            empty_fl = taken.frame.empty_fl;
            cached_dom_id = taken.frame.cached_dom_id;
            thread_has_lock = taken.frame.thread_has_lock;
            status = taken.frame.status;
            ready = taken.frame.ready;
          },
        )

  pop_available-test :
      (b : Bool)
      → (get_place place s == 0 || is_full_pool (get_place place s) s.store) ≡ b
      → pop_available place s ≡ (if b then (0, s) else pop_place place s)
  unfolding pop_available
  pop_available-test b h = ap (λ c. if c then (0, s) else pop_place place s) h

  pub pop_available-Tried : Tried r dom s v (pop_available place s)
  pop_available-Tried = by_ring (v (key place)) refl
    where
      nothing :
          (get_place place s == 0 || is_full_pool (get_place place s) s.store) ≡ true
          → Tried r dom s v (pop_available place s)
      nothing h = subst (Tried r dom s v) (sym (pop_available-test true h)) (inl (refl, refl))

      by_ring : (xs : List ℕ) → v (key place) ≡ xs → Tried r dom s v (pop_available place s)
      by_ring [] e =
          let h = subst (IsRing s.store.links (get_place place s)) e (inv.rings.rings place g) in
          nothing (
            ap (λ b. b || is_full_pool (get_place place s) s.store) (eq→== (get_place place s) 0 h))
      by_ring (x ∷ xs) e =
          let t = subst (IsRing s.store.links (get_place place s)) e (inv.rings.rings place g) in
          let head = ne→== (get_place place s) 0 (λ h. t.1.0 (sym h ∙ t.0)) in
          let test : (get_place place s == 0 || is_full_pool (get_place place s) s.store)
              ≡ is_full_pool x s.store =
            ap (λ b. b || is_full_pool (get_place place s) s.store) head
            ∙ ap (λ q. is_full_pool q s.store) t.0 in
          elim (Bool-cases (is_full_pool x s.store)) [
            | inl full ↦ nothing (test ∙ full)
            | inr room ↦
                let (front, found) = popped-IsFound x xs e room in
                subst (Tried r dom s v) (sym (pop_available-test false (test ∙ room))) (
                  inr (
                    upd v (key place) xs,
                    subst (IsFound r dom s (pop_place place s).1 v (upd v (key place) xs))
                        (sym front) found,
                  ))
          ]

-- The next place is tried only if the last had nothing.
pub Tried-then :
    (r : Runtime) (dom : ℕ) (s : State) (v : View) (p : ℕ) (s1 : State) (b : Bool)
    (next : State → ℕ × State)
    → Tried r dom s v (p, s1)
    → Tried r dom s v (next s)
    → Tried r dom s v (if (p == 0) && b then next s1 else (p, s1))
Tried-then r dom s v p s1 true next (inl (z, e)) t =
    rw (eq→== p 0 z) (subst (λ x. Tried r dom s v (next x)) (sym e) t)
Tried-then r dom s v p s1 false next (inl (z, e)) t = rw (eq→== p 0 z) (inl (z, e))
Tried-then r dom s v p s1 b next (inr (v', f)) t = rw (ne→== p 0 f.nonzero) (inr (v', f))
