-- ===== src/Boxroot/Heap/Modify.antt =====
-- `boxroot_modify` on a well-formed state, where it writes to the slot.
use ocaml_boxroot.Prelude.{
  ℕ, ◌≡◌, refl, ◌∙◌, ap, ◌≢◌, ◌↔◌, ◌⊎◌, inl, inr, Bool, true, false, not, Option, some, ◌==◌,
  if◌then◌else◌, ◌>>=◌,
}
use ocaml_boxroot.Words.{Runtime, IsRuntime, get_pool_header, is_pool_member, is_young_block}
use ocaml_boxroot.Pool.{Store, Class, young, old, untracked, write_slot}
use ocaml_boxroot.Pool.Modify.{written-IsPool, written-values, written-SameElse}
use ocaml_boxroot.Pool.Invariant.{root_value, SameElse}
use ocaml_boxroot.Pool.Kept.{PoolAt}
use ocaml_boxroot.Boxroot.State.{State, Caller, lock_held, fl_of}
use ocaml_boxroot.Boxroot.Api.{boxroot_create, boxroot_delete, bxr_modify_slow, boxroot_modify}
use ocaml_boxroot.Boxroot.Heap.{View, extra, InHeap, IsHeap, IsRoot}
use ocaml_boxroot.Boxroot.Heap.Touch.{touched-IsHeap, new_value}
use ocaml_boxroot.Boxroot.Heap.Roots.{touched-others}
use ocaml_boxroot.Boxroot.Heap.Delete.{live_of_value}

-- The boxroot `x` has a new value, and the others have theirs.
pub record IsModified (r : Runtime) (st st' : Store) (v v' : View) (x new : ℕ) : Type 0 where
  pub now : IsRoot r st' v' x new
  pub others : (a w : ℕ) → a ≢ x → IsRoot r st v a w ↔ IsRoot r st' v' a w

module _ (r : Runtime) (ok : IsRuntime r) (k n : ℕ) (c : Caller) (s : State) (v : View)
    (root w new : ℕ) (inv : IsHeap r s v) (lock : lock_held r c s ≡ true)
    (live : IsRoot r s.store v root w)
    (outside : (q : ℕ) → InHeap v q → is_pool_member new q ≡ false)
    (safe : ((fl_of (get_pool_header root) s).class ≡ young) ⊎ (is_young_block r new ≡ false)) where
  abbrev p : ℕ
  p = live.0

  abbrev i : ℕ
  i = live.1.0

  abbrev st' : Store
  st' = write_slot root new s.store

  the_pool : PoolAt r s.store p (extra i)
  the_pool = inv.pools i p live.1.1

  was_live : is_pool_member (s.store.slots root) p ≡ false
  was_live = live_of_value (is_pool_member (s.store.slots root) p) (s.store.slots root) w live.3

  abbrev values :
      (a : ℕ) → root_value st' p a ≡ (if a == root then some new else root_value s.store p a)
  values =
      written-values r ok s.store p root new the_pool.0 the_pool.1 (extra i) the_pool.2 live.2
        was_live (outside p live.1)

  new_pool : PoolAt r st' p (extra i)
  new_pool = (
    the_pool.0,
    the_pool.1,
    written-IsPool r ok s.store p root new the_pool.0 the_pool.1 (extra i) the_pool.2 live.2
        was_live (outside p live.1),
  )

  abbrev elsewhere : SameElse r p s.store st'
  elsewhere =
      written-SameElse r ok s.store p root new the_pool.0 the_pool.1 (extra i) the_pool.2 live.2
        was_live (outside p live.1)

  -- Either way the code writes.
  boxroot_modify-lem :
      boxroot_modify r k n c root new s ≡ some (true, root, record s { store = st' })
  unfolding boxroot_modify bxr_modify_slow
  boxroot_modify-lem =
      ap
        (λ b.
          if not b then some (false, root, s) else by_class (fl_of (get_pool_header root) s).class)
        lock
      ∙ elim safe [
        | inl e ↦ ap by_class e
        | inr e ↦ by_value (fl_of (get_pool_header root) s).class e
      ]
    where
      done : Option (Bool × ℕ × State)
      done = some (true, root, record s { store = st' })

      by_class : Class → Option (Bool × ℕ × State)
      by_class cl = elim cl [
        | young ↦ done
        | old ↦ bxr_modify_slow r k n c root new s
        | untracked ↦ bxr_modify_slow r k n c root new s
      ]

      by_create : Option (Bool × ℕ × State)
      by_create = do
        (fresh, s1) ← boxroot_create r k n c new s
        some (if fresh == 0 then (false, root, s1) else (true, fresh, boxroot_delete r c root s1))

      slow : is_young_block r new ≡ false → bxr_modify_slow r k n c root new s ≡ done
      slow e = ap (λ b. if not b then done else by_create) e

      by_value : (cl : Class) → is_young_block r new ≡ false → by_class cl ≡ done
      by_value young e = refl
      by_value old e = slow e
      by_value untracked e = slow e

  -- In a well-formed state and with the lock held, for a live boxroot and a new value that looks
  -- like no slot of a pool, if the class of its pool is young or the new value is not a young
  -- block, `boxroot_modify` succeeds with the same root and a well-formed state, in which the
  -- boxroot keeps the new value alive and all others are as they were.
  pub boxroot_modify-IsModified :
      (s' : State) × (boxroot_modify r k n c root new s ≡ some (true, root, s'))
      × IsHeap r s' v
      × IsModified r s.store s'.store v v root new
  boxroot_modify-IsModified = (
    record s { store = st' },
    boxroot_modify-lem,
    touched-IsHeap r ok s v inv i p root (some new) st' live.1.1 new_pool live.2 values elsewhere,
    record {
      now = (
        p,
        live.1,
        live.2,
        new_value r ok s v inv i p root (some new) st' live.1.1 new_pool live.2 values elsewhere,
      );
      others =
          touched-others r ok s v inv i p root st' live.1.1 live.2 elsewhere (some new) new_pool
            values;
    },
  )
