-- ===== src/Boxroot/Heap/Delete.antt =====
-- `boxroot_delete` on a well-formed state.
use ocaml_boxroot.Prelude.{
  some-ne-none, ℕ, ◌≡◌, refl, sym, ◌∙◌, subst, inl, inr, Bool, true, false, not, ◌||◌, ◌∷◌, none,
  some, has, if◌then◌else◌, Bool-cases, eq→==,
}
use ocaml_boxroot.Words.{Runtime, IsRuntime, get_pool_header, is_pool_member}
use ocaml_boxroot.Pool.{bxr_free_slot, free_slot_atomic}
use ocaml_boxroot.Pool.Count.{InPool}
use ocaml_boxroot.Pool.Delete.{bxr_free_slot-Deleted, free_slot_atomic-Deleted}
use ocaml_boxroot.Pool.Invariant.{root_value}
use ocaml_boxroot.Pool.Kept.{PoolAt, header-InPool}
use ocaml_boxroot.Boxroot.State.{State, Caller, Field, of_domain, lock_held, fl_of}
use ocaml_boxroot.Boxroot.Classes.{try_demote_pool}
use ocaml_boxroot.Boxroot.Api.{remote_dom_id, bxr_delete_slow, boxroot_delete}
use ocaml_boxroot.Boxroot.Rings.{key}
use ocaml_boxroot.Boxroot.Heap.{View, extra, Ready, IsHeap, IsShuffled}
use ocaml_boxroot.Boxroot.Heap.Local.{InHeap-back, InHeap-forth}
use ocaml_boxroot.Boxroot.Heap.Touch.{touched-IsHeap}
use ocaml_boxroot.Boxroot.Heap.Roots.{SameRoots, IsRemoved, IsRemoved-then, touched-IsRemoved}
use ocaml_boxroot.Boxroot.Heap.Demote.{IsUsed, try_demote_pool-Shuffles}

SameRoots-of_IsShuffled :
    (r : Runtime) (dom : ℕ) (s s' : State) (v v' : View)
    → IsShuffled r dom s s' v v'
    → SameRoots r s.store s'.store v v'
SameRoots-of_IsShuffled r dom s s' v v' o a w = (
  (λ h. let (p, m, i, e) = h in (p, InHeap-forth dom v v' p o.local m, i, o.values p a m i ∙ e)),
  (λ h.
      let (p, m, i, e) = h in
      let m' = InHeap-back dom v v' p o.local m in (p, m', i, sym (o.values p a m' i) ∙ e)),
)

-- The state is well formed, without the boxroot.
abbrev pub Removes : Runtime → ℕ → State → View → State → Type 0
Removes r root s v s' = (v' : View) × IsHeap r s' v' × IsRemoved r s.store s'.store v v' root

pub live_of_value : (b : Bool) (x w : ℕ) → (if b then none else some x) ≡ some w → b ≡ false
live_of_value true x w e = absurd (some-ne-none (sym e))
live_of_value false x w e = refl

module _ (r : Runtime) (ok : IsRuntime r) (c : Caller) (s : State) (v : View) (root w d p : ℕ)
    (f : Field) (inv : IsHeap r s v) (ready : Ready s d) (used : IsUsed f)
    (m : has p (v (key (of_domain d f))) ≡ true) (mine : (fl_of p s).domain_id ≡ d)
    (in_pool : InPool r p root) (value : root_value s.store p root ≡ some w) where
  abbrev i : ℕ
  i = key (of_domain d f)

  live : is_pool_member (s.store.slots root) p ≡ false
  live = live_of_value (is_pool_member (s.store.slots root) p) (s.store.slots root) w value

  the_pool : PoolAt r s.store p (extra i)
  the_pool = inv.pools i p m

  header : get_pool_header root ≡ p
  header = header-InPool r ok p root the_pool.2.aligned in_pool

  remote-Removes : Removes r root s v (record s { store = free_slot_atomic p root s.store })
  remote-Removes =
      let (fs, ds, k) = the_pool in
      let del = free_slot_atomic-Deleted r ok s.store p root fs ds (extra i) k in_pool live in
      let pool : PoolAt r (free_slot_atomic p root s.store) p (extra i) =
        (fs, root ∷ ds, del.pool) in
      (
        v,
        touched-IsHeap r ok s v inv i p root none _ m pool in_pool del.values del.elsewhere,
        touched-IsRemoved r ok s v inv i p root _ m in_pool del.elsewhere pool del.values,
      )

  abbrev freed : State
  freed = record s { store = (bxr_free_slot p root s.store).1 }

  local-IsRemoved : IsHeap r freed v × IsRemoved r s.store freed.store v v root
  local-IsRemoved =
      let (fs, ds, k) = the_pool in
      let del = (bxr_free_slot-Deleted r ok s.store p root fs ds (extra i) k in_pool live).0 in
      let pool : PoolAt r (bxr_free_slot p root s.store).1 p (extra i) =
        (root ∷ fs, ds, del.pool) in
      (
        touched-IsHeap r ok s v inv i p root none _ m pool in_pool del.values del.elsewhere,
        touched-IsRemoved r ok s v inv i p root _ m in_pool del.elsewhere pool del.values,
      )

  freed-domain : (fl_of p freed).domain_id ≡ d
  unfolding bxr_free_slot
  freed-domain = rw (eq→== p p refl) mine

  demoted-Removes : Removes r root s v (try_demote_pool d p freed)
  demoted-Removes =
      let (heap, removed) = local-IsRemoved in
      let (v', sh) = try_demote_pool-Shuffles r ok d freed v heap ready p f used m in
      (
        v',
        sh.heap,
        IsRemoved-then r s.store freed.store (try_demote_pool d p freed).store v v v' root removed
            (SameRoots-of_IsShuffled r d freed (try_demote_pool d p freed) v v' sh),
      )

  -- `boxroot_delete` with the pool's address in place of the slot's header.
  abbrev delete_in : ℕ → State
  delete_in q =
      if remote_dom_id r q s || not (lock_held r c s)
      then bxr_delete_slow r q root true s
      else let (threshold, st) = bxr_free_slot q root s.store in
        let s1 = record s { store = st } in
        if threshold then bxr_delete_slow r q root false s1 else s1

  delete_in-Removes : Removes r root s v (delete_in p)
  unfolding bxr_delete_slow
  delete_in-Removes = elim (Bool-cases (remote_dom_id r p s || not (lock_held r c s))) [
    | inl e ↦ rw e remote-Removes
    | inr e ↦ rw e (elim (Bool-cases (bxr_free_slot p root s.store).0) [
      | inl h ↦ rw h (
          subst (λ x. Removes r root s v (try_demote_pool x p freed)) (sym freed-domain)
            demoted-Removes)
      | inr h ↦ rw h (v, local-IsRemoved.0, local-IsRemoved.1)
    ])
  ]

  -- In a well-formed state, for a live boxroot of a pool in the old, young or current ring of a
  -- domain with rings, or of domain 0, whose number the pool bears, `boxroot_delete`, with or
  -- without that domain's lock and whether or not the pool then changes class, leaves a well-
  -- formed state without that boxroot and with all others as they were.
  pub boxroot_delete-Removes : Removes r root s v (boxroot_delete r c root s)
  unfolding boxroot_delete
  boxroot_delete-Removes =
      subst (λ q. Removes r root s v (delete_in q)) (sym header) delete_in-Removes
