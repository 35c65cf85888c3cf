-- ===== src/Boxroot/Heap/Errors.antt =====
-- Callers that `boxroot_create` turns away, and what is read from a new boxroot.
use ocaml_boxroot.Prelude.{
  some-ne-none, ℕ, suc, ◌+◌, ◌*◌, ◌<◌, ◌≡◌, refl, sym, ◌∙◌, ap, ◌≢◌, inl, inr, ◌⊎◌, Bool, true,
  false, not, ◌&&◌, Option, none, some, length, if◌then◌else◌, Bool-cases,
}
use mathlib.Core.Bool.{false≢true}
use ocaml_boxroot.Words.{Runtime, IsRuntime, is_pool_member}
use ocaml_boxroot.Boxroot.State.{State, Caller, lock_held, running, e_perm}
use ocaml_boxroot.Boxroot.Api.{
  domain_of, create_in_rings, ensure_rings, bxr_create_slow, boxroot_create, boxroot_get,
}
use ocaml_boxroot.Boxroot.Heap.{View}
use ocaml_boxroot.Boxroot.Heap.Fill.{refused}
use ocaml_boxroot.Boxroot.Heap.Call.{CanCreate, boxroot_create-Creates}
use ocaml_boxroot.Boxroot.Heap.Hooked.{slow-running}

root_of_value : (b : Bool) (x w : ℕ) → (if b then none else some x) ≡ some w → x ≡ w
root_of_value true x w e = absurd (some-ne-none (sym e))
root_of_value false x w e = ap (λ o. elim o as (λ _. ℕ) [ none ↦ x | some y ↦ y ]) e

-- On a well-formed state and under the conditions of a call of `boxroot_create` (`CanCreate`),
-- with three levels of calls and fuel for one more round than the domain has young pools,
-- `boxroot_create` returns, and `boxroot_get` of the root then gives the value back, unless the
-- root is 0 and the platform has no memory.
pub boxroot_get-boxroot_create :
    (r : Runtime) (ok : IsRuntime r) (c : Caller) (s : State) (v : View) (init k n : ℕ)
    → CanCreate r c s v init
    → length (v (4 + 4 * domain_of r c + 1)) < n
    → (root : ℕ) × (s' : State) × (boxroot_create r (suc (suc (suc k))) n c init s
        ≡ some (root, s'))
      × (((root ≡ 0) × (refused s.memory ≡ true)) ⊎ ((root ≢ 0) × (boxroot_get root s' ≡ init)))
unfolding boxroot_get
boxroot_get-boxroot_create r ok c s v init k n can fuel =
    let (x, t, w, done, heap, result) = boxroot_create-Creates r ok c s v init k n can fuel in
    (
      x,
      t,
      done,
      elim result [
        | inl h ↦ inl (h.0, h.1)
        | inr h ↦
            let (p, m, i, k') = h.1.added in
            inr (h.0, root_of_value (is_pool_member (t.store.slots x) p) (t.store.slots x) init k')
      ],
    )

is_ocaml_4 :
    (b held : Bool) (c : Caller)
    → (if b then c.caml_state else held) ≡ false
    → c.caml_state ≡ true
    → b ≡ false
is_ocaml_4 true held c h k = absurd (false≢true (sym h ∙ k))
is_ocaml_4 false held c h k = refl

-- Once the hooks are set up, a thread that does not hold its domain's lock is refused:
-- `boxroot_create` returns 0 with `errno` EPERM, and nothing else changes.
pub boxroot_create-refused :
    (r : Runtime) (c : Caller) (s : State) (init k n : ℕ)
    → s.status ≡ running
    → lock_held r c s ≡ false
    → boxroot_create r (suc k) n c init s ≡ some (0, record s { errno = e_perm })
unfolding boxroot_create bxr_create_slow
boxroot_create-refused r c s init k n status lock = unlocked ∙ elim (Bool-cases c.caml_state) [
  | inl h ↦
      slow-running r c n init h (boxroot_create r k n c init) s status
      ∙ ap
          (λ b.
            if not b && not (lock_held r c s)
            then some (0, record s { errno = e_perm })
            else in_rings s)
          (is_ocaml_4 r.ocaml_multicore s.thread_has_lock c lock h)
      ∙ ap (λ b. if not b then some (0, record s { errno = e_perm }) else in_rings s) lock
  | inr h ↦ rw (h, bxr_create_slow) refl
]
  where
    in_rings : State → Option (ℕ × State)
    in_rings t =
        elim ((ensure_rings r (domain_of r c) t).pools (domain_of r c))
          as (λ _. Option (ℕ × State)) [
            | none ↦ some (0, ensure_rings r (domain_of r c) t)
            | some _ ↦
                create_in_rings r n (domain_of r c) (boxroot_create r k n c init)
                  (ensure_rings r (domain_of r c) t)
          ]

    unlocked :
        boxroot_create r (suc k) n c init s ≡ bxr_create_slow r n c (boxroot_create r k n c init) s
    unlocked = rw (lock, boxroot_create) refl
