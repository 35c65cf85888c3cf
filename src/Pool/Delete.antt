-- ===== src/Pool/Delete.antt =====
-- Deallocation into a pool: `bxr_free_slot` with the domain lock, `free_slot_atomic` without.
use ocaml_boxroot.Prelude.{
  ℕ, ◌+◌, ◌≡◌, refl, sym, ◌∙◌, ap, ◌≢◌, true, false, List, [], ◌∷◌, ◌++◌, none, arith, ◌==◌,
  if◌then◌else◌, All, NotIn, NotIn-left, NotIn-right, Apart, has_in, length, Bool-cases, inl, inr,
  eq→==, ne→==,
}
use mathlib.Core.Bool.{false≢true}
use ocaml_boxroot.Words.{Runtime, IsRuntime, pool_capacity, is_pool_member, is_empty_free_list}
use ocaml_boxroot.Pool.{Store, bxr_free_slot, free_slot_atomic}
use ocaml_boxroot.Pool.Chain.{Chain, Chain-upd, Ends}
use ocaml_boxroot.Pool.Count.{pool_slots, InPool}
use ocaml_boxroot.Pool.Invariant.{
  IsPool, SameElse, root_value, slot-ne-pool, member-Chain, live-NotIn, room_of_live,
}

-- `st'` is `st` without the boxroot `s`.
pub record Deleted (r : Runtime) (p s : ℕ) (fs ds : List ℕ) (k : ℕ) (st st' : Store) : Type 0 where
  pub pool : IsPool r st' p fs ds k
  pub values : (a : ℕ) → root_value st' p a ≡ (if a == s then none else root_value st p a)
  pub elsewhere : SameElse r p st st'

Apart-cons_right : (x : ℕ) (xs ys : List ℕ) → NotIn x xs → Apart xs ys → Apart xs (x ∷ ys)
Apart-cons_right x [] ys n h = tt
Apart-cons_right x (z ∷ zs) ys n h = (((λ e. n.0 (sym e)), h.0), Apart-cons_right x zs ys n.1 h.1)

module _ (r : Runtime) (ok : IsRuntime r) where
  -- The end pointer after a push: the new slot if the list was empty, else as it was.
  Ends-push :
      (m : ℕ → ℕ) (p a s e : ℕ) (xs : List ℕ)
      → All (InPool r p) xs
      → Chain m p a xs
      → Ends xs e
      → Ends (s ∷ xs) (if is_empty_free_list a p then s else e)
  Ends-push m p a s e [] h c k = rw (eq→== a p c)
  Ends-push m p a s e (x ∷ xs) h c k = rw (c.0, ne→== x p (slot-ne-pool r ok p x h.0)) k

  module _ (st : Store) (p s : ℕ) (fs ds : List ℕ) (k : ℕ) (v : IsPool r st p fs ds k)
      (i : InPool r p s) (live : is_pool_member (st.slots s) p ≡ false) where
    out : NotIn s (fs ++ ds)
    out = live-NotIn r ok v s i live

    next_member : is_pool_member (st.free_list p).next p ≡ true
    next_member = member-Chain r ok st.slots p _ fs v.aligned v.fl_members v.fl_chain

    delayed_member : is_pool_member (st.delayed_fl p).a_next p ≡ true
    delayed_member = member-Chain r ok st.slots p _ ds v.aligned v.delayed_members v.delayed_chain

    slot-out : (a : ℕ) → has_in (pool_slots r p) a ≡ false → a ≢ s
    slot-out a n e = false≢true (sym n ∙ ap (has_in (pool_slots r p)) e ∙ i)

    abbrev freed : Store
    freed = (bxr_free_slot p s st).1

    abbrev freed_remotely : Store
    freed_remotely = free_slot_atomic p s st

    freed-IsPool : IsPool r freed p (s ∷ fs) ds k
    unfolding bxr_free_slot
    freed-IsPool = record {
      extra = v.extra;
      aligned = v.aligned;
      fl_chain = rw (eq→== p p refl) (
        refl,
        rw (eq→== s s refl) (Chain-upd st.slots p _ s _ fs (NotIn-left s fs ds out) v.fl_chain),
      );
      fl_end = rw (eq→== p p refl) (Ends-push st.slots p _ s _ fs v.fl_members v.fl_chain v.fl_end);
      fl_count =
          rw (eq→== p p refl) (omega (arith, v.fl_count, v.extra, room_of_live r ok v s i live));
      delayed_chain = Chain-upd st.slots p _ s _ ds (NotIn-right s fs ds out) v.delayed_chain;
      delayed_end = v.delayed_end;
      delayed_count = v.delayed_count;
      fl_members = (i, v.fl_members);
      delayed_members = v.delayed_members;
      fl_distinct = (NotIn-left s fs ds out, v.fl_distinct);
      delayed_distinct = v.delayed_distinct;
      apart = (NotIn-right s fs ds out, v.apart);
      others = λ a j n m. rw (ne→== a s n.0) (v.others a j n.1 m);
    }

    freed-SameElse : SameElse r p st freed
    unfolding bxr_free_slot
    freed-SameElse = record {
      slots = λ a n. rw (ne→== a s (slot-out a n));
      free_list = λ q n. rw (ne→== q p n);
      delayed_fl = λ q n. refl;
      links = refl;
    }

    freed-values : (a : ℕ) → root_value freed p a ≡ (if a == s then none else root_value st p a)
    unfolding bxr_free_slot
    freed-values a = elim (Bool-cases (a == s)) [ inl e ↦ rw (e, next_member) | inr e ↦ rw e ]

    -- For a live boxroot `s` of a well-formed pool, `bxr_free_slot` keeps the pool well formed
    -- with `s` in front of its free list, removes that boxroot and no other, changes nothing
    -- outside the pool, and reports a threshold exactly if all slots are now free and the pool is
    -- not current.
    pub bxr_free_slot-Deleted :
        Deleted r p s (s ∷ fs) ds k st (bxr_free_slot p s st).1
        × ((bxr_free_slot p s st).0 ≡ (length (s ∷ fs) == pool_capacity r + k))
    unfolding bxr_free_slot
    bxr_free_slot-Deleted = (
      record { pool = freed-IsPool; values = freed-values; elsewhere = freed-SameElse },
      ground (arith, v.fl_count, v.extra, room_of_live r ok v s i live),
    )

    remote-IsPool : IsPool r freed_remotely p fs (s ∷ ds) k
    unfolding free_slot_atomic
    remote-IsPool = record {
      extra = v.extra;
      aligned = v.aligned;
      fl_chain = Chain-upd st.slots p _ s _ fs (NotIn-left s fs ds out) v.fl_chain;
      fl_end = v.fl_end;
      fl_count = v.fl_count;
      delayed_chain = rw (eq→== p p refl) (
        refl,
        rw (eq→== s s refl)
            (Chain-upd st.slots p _ s _ ds (NotIn-right s fs ds out) v.delayed_chain),
      );
      delayed_end =
          rw (eq→== p p refl)
            (Ends-push st.slots p _ s _ ds v.delayed_members v.delayed_chain v.delayed_end);
      delayed_count =
          rw (eq→== p p refl) (omega (arith, v.delayed_count, room_of_live r ok v s i live));
      fl_members = v.fl_members;
      delayed_members = (i, v.delayed_members);
      fl_distinct = v.fl_distinct;
      delayed_distinct = (NotIn-right s fs ds out, v.delayed_distinct);
      apart = Apart-cons_right s fs ds (NotIn-left s fs ds out) v.apart;
      others = λ a j n m. rw (ne→== a s m.0) (v.others a j n m.1);
    }

    remote-SameElse : SameElse r p st freed_remotely
    unfolding free_slot_atomic
    remote-SameElse = record {
      slots = λ a n. rw (ne→== a s (slot-out a n));
      free_list = λ q n. refl;
      delayed_fl = λ q n. rw (ne→== q p n);
      links = refl;
    }

    remote-values :
        (a : ℕ) → root_value freed_remotely p a ≡ (if a == s then none else root_value st p a)
    unfolding free_slot_atomic
    remote-values a = elim (Bool-cases (a == s)) [ inl e ↦ rw (e, delayed_member) | inr e ↦ rw e ]

    -- For a live boxroot `s` of a well-formed pool, `free_slot_atomic` keeps the pool well formed
    -- with `s` in front of its delayed free list, removes that boxroot and no other, and changes
    -- nothing outside the pool.
    pub free_slot_atomic-Deleted : Deleted r p s fs (s ∷ ds) k st (free_slot_atomic p s st)
    free_slot_atomic-Deleted = record {
      pool = remote-IsPool;
      values = remote-values;
      elsewhere = remote-SameElse;
    }
