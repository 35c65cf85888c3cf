-- ===== src/Pool/Gc.antt =====
-- `gc_pool`: the delayed deallocations are carried out.
use ocaml_boxroot.Prelude.{
  ℕ, ◌+◌, ◌≤◌, ◌≡◌, refl, sym, ◌∙◌, ap, subst, upd, ◌≢◌, ◌↔◌, true, false, List, [], ◌∷◌, ◌++◌,
  arith, ◌==◌, if◌then◌else◌, All, All-append, last, NotIn, NotIn-left, NotIn-right, Apart,
  Apart-symm, Distinct-append, NotIn-last, last-ne, has, has_in, length, length-append, Bool-cases,
  inl, inr, eq→==, ne→==, ==→eq, ==→ne,
}
use mathlib.Core.Bool.{false≢true}
use ocaml_boxroot.Words.{Runtime, IsRuntime, pool_capacity, is_empty_free_list, empty_free_list}
use ocaml_boxroot.Pool.{
  Store, gc_pool, anticipated_alloc_count, is_full_pool, write_slot, write_fl, write_delayed,
}
use ocaml_boxroot.Pool.Chain.{Chain, Chain-append, Ends, Ends-append}
use ocaml_boxroot.Pool.Count.{pool_slots, InPool}
use ocaml_boxroot.Pool.Invariant.{
  IsPool, SameElse, root_value, slot-ne-pool, member-Chain, member_of_has, live_count,
}

All-last {ℓ} : (P : ℕ → Type ℓ) (x : ℕ) (xs : List ℕ) → All P (x ∷ xs) → P (last x xs)
All-last P x [] h = h.0
All-last P x (y ∷ ys) h = All-last P y ys h.1

pub Apart-nil : (xs : List ℕ) → Apart xs []
Apart-nil [] = tt
Apart-nil (x ∷ xs) = (tt, Apart-nil xs)

-- `st'` is `st` with the delayed free list emptied; no boxroot is touched.
pub record Collected (r : Runtime) (p : ℕ) (fs : List ℕ) (k : ℕ) (st st' : Store) : Type 0 where
  pub pool : IsPool r st' p fs [] k
  pub values : (a : ℕ) → InPool r p a → root_value st' p a ≡ root_value st p a
  pub elsewhere : SameElse r p st st'

-- The store that `gc_pool` leaves where there is something to collect.
abbrev pub after_gc : ℕ → Store → Store
after_gc p st =
    let f = st.free_list p in
    let d = st.delayed_fl p in
    write_slot d.end f.next (
      write_delayed p (record d { a_next = empty_free_list p; a_alloc_count = 0 })
        (write_fl p
          (record f {
            next = d.a_next;
            end = if is_full_pool p st then d.end else f.end;
            alloc_count = anticipated_alloc_count p st;
          })
          st))

Ends-gc :
    (r : Runtime) (ok : IsRuntime r) (m : ℕ → ℕ) (p a d : ℕ) (ds : List ℕ) (g e : ℕ) (xs : List ℕ)
    → All (InPool r p) xs
    → Chain m p a xs
    → Ends xs e
    → g ≡ last d ds
    → Ends (d ∷ ds ++ xs) (if is_empty_free_list a p then g else e)
Ends-gc r ok m p a d ds g e [] h c k l = rw (eq→== a p c) (Ends-append d ds [] g tt (λ i. l))
Ends-gc r ok m p a d ds g e (x ∷ xs) h c k l =
    rw (c.0, ne→== x p (slot-ne-pool r ok p x h.0)) (Ends-append d ds (x ∷ xs) e k (λ i. cc))

has-last : (x : ℕ) (xs : List ℕ) → has (last x xs) (x ∷ xs) ≡ true
has-last x [] = rw (eq→== x x refl)
has-last x (y ∷ ys) = ground (arith, has-last y ys)

SameElse-refl : (r : Runtime) (p : ℕ) (st : Store) → SameElse r p st st
SameElse-refl r p st = record {
  slots = λ a n. refl;
  free_list = λ q n. refl;
  delayed_fl = λ q n. refl;
  links = refl;
}

module _ (r : Runtime) (ok : IsRuntime r) (st : Store) (p : ℕ) (fs : List ℕ) (k : ℕ) where
  gc_nil : IsPool r st p fs [] k → gc_pool p st ≡ (0, st)
  unfolding gc_pool
  gc_nil v = rw v.delayed_count

  module _ (d : ℕ) (ds : List ℕ) (v : IsPool r st p fs (d ∷ ds) k) where
    bound : length (d ∷ ds) + length fs ≤ pool_capacity r
    bound = omega (arith, live_count r ok v)

    nonzero : ((st.delayed_fl p).a_alloc_count == 0) ≡ false
    nonzero = ne→== _ 0 (λ e. omega (arith, v.delayed_count, bound))

    end-out : NotIn (last d ds) fs
    end-out = NotIn-last d ds fs (Apart-symm fs (d ∷ ds) v.apart)

    end-in : InPool r p (last d ds)
    end-in = All-last (InPool r p) d ds v.delayed_members

    gc_cons : gc_pool p st ≡ ((st.delayed_fl p).a_alloc_count, after_gc p st)
    unfolding gc_pool
    gc_cons = rw nonzero

    after_gc-IsPool : IsPool r (after_gc p st) p (d ∷ ds ++ fs) [] k
    after_gc-IsPool = record {
      extra = v.extra;
      aligned = v.aligned;
      fl_chain = rw (eq→== p p refl) (
          subst
            (λ e.
              Chain (upd st.slots e (st.free_list p).next) p (st.delayed_fl p).a_next
                (d ∷ ds ++ fs))
            (sym v.delayed_end)
            (Chain-append st.slots p _ _ d ds fs v.delayed_distinct end-out v.delayed_chain
              v.fl_chain));
      fl_end =
          rw (eq→== p p refl)
            (Ends-gc r ok st.slots p _ d ds _ _ fs v.fl_members v.fl_chain v.fl_end v.delayed_end);
      fl_count =
          rw (eq→== p p refl)
            (omega (arith, v.fl_count, v.extra, v.delayed_count, bound, length-append (d ∷ ds) fs));
      delayed_chain = rw (eq→== p p refl);
      delayed_end = tt;
      delayed_count = rw (eq→== p p refl);
      fl_members = All-append _ (d ∷ ds) fs v.delayed_members v.fl_members;
      delayed_members = tt;
      fl_distinct =
          Distinct-append (d ∷ ds) fs v.delayed_distinct v.fl_distinct
            (Apart-symm fs (d ∷ ds) v.apart);
      delayed_distinct = tt;
      apart = Apart-nil (d ∷ ds ++ fs);
      others = λ a i n m.
          let n' : NotIn a (d ∷ ds) = NotIn-left a (d ∷ ds) fs n in
          rw (v.delayed_end, ne→== a (last d ds) (last-ne a d ds n'))
            (v.others a i (NotIn-right a (d ∷ ds) fs n) n');
    }

    after_gc-values : (a : ℕ) → root_value (after_gc p st) p a ≡ root_value st p a
    after_gc-values a = elim (Bool-cases (a == (st.delayed_fl p).end)) [
      | inl e ↦ rw (
        e,
        member-Chain r ok st.slots p _ fs v.aligned v.fl_members v.fl_chain,
        ==→eq a _ e,
        v.delayed_end,
        member_of_has r ok st.slots p _ (last d ds) (d ∷ ds) v.aligned v.delayed_members
            v.delayed_chain (has-last d ds),
      )
      | inr e ↦ rw e
    ]

    after_gc-SameElse : SameElse r p st (after_gc p st)
    after_gc-SameElse = record {
      slots = λ a n. rw (
          ne→== a (st.delayed_fl p).end
            (λ e. false≢true (sym n ∙ ap (has_in (pool_slots r p)) (e ∙ v.delayed_end) ∙ end-in)));
      free_list = λ q n. rw (ne→== q p n);
      delayed_fl = λ q n. rw (ne→== q p n);
      links = refl;
    }

    gc_pool-cons : Collected r p (d ∷ ds ++ fs) k st (gc_pool p st).1 × ((gc_pool p st).0 ≢ 0)
    gc_pool-cons = rw gc_cons (
      record {
        pool = after_gc-IsPool;
        values = λ a i. after_gc-values a;
        elsewhere = after_gc-SameElse;
      },
      ==→ne _ 0 nonzero,
    )

-- `gc_pool` of a well-formed pool leaves it well formed, with the delayed free list in front of
-- the free list and the delayed list empty, keeps the value of every boxroot, changes nothing
-- outside the pool, and returns 0 exactly if the delayed list was empty.
pub gc_pool-Collected :
    (r : Runtime) (ok : IsRuntime r) (st : Store) (p : ℕ) (fs ds : List ℕ) (k : ℕ)
    → IsPool r st p fs ds k
    → Collected r p (ds ++ fs) k st (gc_pool p st).1 × (((gc_pool p st).0 ≡ 0) ↔ (ds ≡ []))
gc_pool-Collected r ok st p fs [] k v = rw (gc_nil r ok st p fs k v) (
  record { pool = v; values = λ a i. refl; elsewhere = SameElse-refl r p st },
  (λ e. refl, λ e. refl),
)
gc_pool-Collected r ok st p fs (d ∷ ds) k v =
    let (c, n) = gc_pool-cons r ok st p fs k d ds v in (c, (λ e. absurd (n e), λ e. cc))
