-- ===== src/Pool/Create.antt =====
-- `boxroot_create` behind its guard.
use ocaml_boxroot.Prelude.{
  ℕ, ◌≡◌, refl, sym, ◌∙◌, ap, true, false, List, [], ◌∷◌, none, some, arith, ◌==◌, if◌then◌else◌,
  NotIn, has_in, Bool-cases, inl, inr, ==→ne, eq→==, ne→==,
}
use ocaml_boxroot.Words.{Runtime, IsRuntime, is_pool_member, incr32}
use mathlib.Core.Bool.{false≢true}
use ocaml_boxroot.Pool.{Store, create_fast, write_slot, write_fl}
use ocaml_boxroot.Pool.Chain.{Chain-upd, Ends-tail}
use ocaml_boxroot.Pool.Count.{pool_slots, InPool}
use ocaml_boxroot.Pool.Invariant.{IsPool, SameElse, root_value, slot-ne-pool, member-Chain}

-- `st'` is `st` with the boxroot `x` added, which keeps `init` alive.
pub record Created (r : Runtime) (p x init : ℕ) (fs ds : List ℕ) (k : ℕ) (st st' : Store)
    : Type 0 where
  pub pool : IsPool r st' p fs ds k
  pub was_free : root_value st p x ≡ none
  pub in_pool : InPool r p x
  pub values : (a : ℕ) → root_value st' p a ≡ (if a == x then some init else root_value st p a)
  pub elsewhere : SameElse r p st st'

abbrev pub after_create : ℕ → ℕ → ℕ → Store → Store
after_create p x init st = write_slot x init (
    write_fl p
      (record (st.free_list p) {
        next = st.slots x;
        alloc_count = incr32 (st.free_list p).alloc_count;
      })
      st)

module _ (r : Runtime) (ok : IsRuntime r) (st : Store) (p init : ℕ) (x : ℕ) (fs ds : List ℕ) (k : ℕ)
    (v : IsPool r st p (x ∷ fs) ds k) (h : is_pool_member init p ≡ false) where
  x-NotIn-ds : NotIn x ds
  x-NotIn-ds = v.apart.0

  after_create-IsPool : IsPool r (after_create p x init st) p fs ds k
  after_create-IsPool = record {
    extra = v.extra;
    aligned = v.aligned;
    fl_chain =
        rw (eq→== p p refl)
          (Chain-upd st.slots p (st.slots x) x init fs v.fl_distinct.0 v.fl_chain.1);
    fl_end = rw (eq→== p p refl) (Ends-tail x fs _ v.fl_end);
    fl_count = rw (eq→== p p refl) (omega (arith, v.fl_count, v.extra));
    delayed_chain = Chain-upd st.slots p _ x init ds x-NotIn-ds v.delayed_chain;
    delayed_end = v.delayed_end;
    delayed_count = v.delayed_count;
    fl_members = v.fl_members.1;
    delayed_members = v.delayed_members;
    fl_distinct = v.fl_distinct.1;
    delayed_distinct = v.delayed_distinct;
    apart = v.apart.1;
    others = λ a i n m. elim (Bool-cases (a == x)) [
      | inl e ↦ rw e h
      | inr e ↦ rw e (v.others a i (==→ne a x e, n) m)
    ];
  }

  x-member : is_pool_member (st.slots x) p ≡ true
  x-member = member-Chain r ok st.slots p (st.slots x) fs v.aligned v.fl_members.1 v.fl_chain.1

  after_create-values :
      (a : ℕ)
      → root_value (after_create p x init st) p a
        ≡ (if a == x then some init else root_value st p a)
  after_create-values a = elim (Bool-cases (a == x)) [ inl e ↦ rw (e, h) | inr e ↦ rw e ]

  after_create-SameElse : SameElse r p st (after_create p x init st)
  after_create-SameElse = record {
    slots = λ a n.
        rw (ne→== a x (λ e. false≢true (sym n ∙ ap (has_in (pool_slots r p)) e ∙ v.fl_members.0)));
    free_list = λ q n. rw (ne→== q p n);
    delayed_fl = λ q n. refl;
    links = refl;
  }

  pub after_create-Created : Created r p x init fs ds k st (after_create p x init st)
  after_create-Created = record {
    pool = after_create-IsPool;
    was_free = rw x-member;
    in_pool = v.fl_members.0;
    values = after_create-values;
    elsewhere = after_create-SameElse;
  }

  -- In a well-formed pool with a free slot, `create_fast` takes the first free slot `x`, which
  -- held no boxroot; the pool stays well formed with `x` off its free list, a boxroot `x` with the
  -- value `init` is added, every other boxroot keeps its value, and nothing outside the pool
  -- changes; `init` must not look like a pointer into the pool.
  pub create_fast-Created :
      (st' : Store) × (create_fast p init st ≡ some (x, st')) × Created r p x init fs ds k st st'
  unfolding create_fast
  create_fast-Created = (
    after_create p x init st,
    rw (v.fl_chain.0, ne→== x p (slot-ne-pool r ok p x v.fl_members.0)),
    after_create-Created,
  )

-- On an empty free list it gives up.
pub create_fast_full :
    (r : Runtime) (st : Store) (p init : ℕ) (ds : List ℕ) (k : ℕ)
    → IsPool r st p [] ds k
    → create_fast p init st ≡ none
unfolding create_fast
create_fast_full r st p init ds k v = rw (v.fl_chain, eq→== p p refl)
