-- ===== src/Pool/Scan.antt =====
-- The GC's scan of a pool.
pub mod Validate
pub mod Young
use ocaml_boxroot.Prelude.{
  ℕ, zero, suc, ◌+◌, ◌-◌, ◌*◌, ◌/◌, ◌%◌, ◌^◌, ◌<◌, ◌≤◌, ◌≡◌, refl, sym, ◌∙◌, ap, Bool, true, false,
  not, List, [], ◌∷◌, Option, none, some, arith, ◌==◌, if◌then◌else◌, filter, length, Bool-cases,
  eq_cases, inl, inr, eq→==, ne→==, ◌≢◌,
}
use ocaml_boxroot.Words.{Runtime, IsRuntime, pool_capacity, slot_addr, is_pool_member}
use ocaml_boxroot.Pool.{Store, scan_gen_loop, scan_pool_gen, scan_found, anticipated_alloc_count}
use ocaml_boxroot.Pool.Count.{addrs, pool_slots}
use ocaml_boxroot.Pool.Invariant.{IsPool, holds_value, live_slots, live_count}

-- In a well-formed pool `anticipated_alloc_count`, in 32-bit arithmetic, is the number of slots
-- that hold a value, plus 1 if the pool is current.
pub anticipated-live :
    (r : Runtime) (ok : IsRuntime r) (st : Store) (p : ℕ) (fs ds : List ℕ) (k : ℕ)
    → IsPool r st p fs ds k
    → anticipated_alloc_count p st ≡ length (live_slots r st p) + k
anticipated-live r ok st p fs ds k v =
    omega (arith, live_count r ok v, v.fl_count, v.delayed_count, v.extra)

length-eq_zero : (xs : List ℕ) → length xs ≡ 0 → xs ≡ []
length-eq_zero [] h = refl
length-eq_zero (x ∷ xs) h = absurd (omega arith)

-- The loop finds the slots that hold a value among those that are left, if it looks for as many.
abbrev Finds : Runtime → ℕ → Store → ℕ → ℕ → ℕ → Type 0
Finds r n st p current m =
    (stop : ℕ) × (scan_gen_loop r n st p current m
      ≡ some (filter (holds_value st p) (addrs current n), stop))
    × (stop ≤ current + 8 * n)

module _ (r : Runtime) (n : ℕ) (st : Store) (p current m : ℕ) where
  Finds-done :
      filter (holds_value st p) (addrs current (suc n)) ≡ []
      → m ≡ 0
      → Finds r (suc n) st p current m
  unfolding scan_gen_loop
  Finds-done e z = (current, rw (eq→== m 0 z, scan_gen_loop, e), omega arith)

  Finds-free :
      m ≢ 0
      → is_pool_member (st.slots current) p ≡ true
      → Finds r n st p (current + 8) m
      → Finds r (suc n) st p current m
  unfolding scan_gen_loop
  Finds-free z e (stop, eq, le) = (stop, rw (ne→== m 0 z, e, scan_gen_loop) eq, omega arith)

  Finds-live :
      m ≢ 0
      → is_pool_member (st.slots current) p ≡ false
      → Finds r n st p (current + 8) (m - 1)
      → Finds r (suc n) st p current m
  unfolding scan_gen_loop
  Finds-live z e (stop, eq, le) = (stop, rw (ne→== m 0 z, e, eq, scan_gen_loop), omega arith)

scan_gen_loop-filter :
    (r : Runtime) (n : ℕ) (st : Store) (p current m : ℕ)
    → length (filter (holds_value st p) (addrs current n)) ≡ m
    → Finds r n st p current m
scan_gen_loop-filter r zero st p current m h =
    unfold scan_gen_loop in (current, rw (eq→== m 0 (sym h)), omega arith)
scan_gen_loop-filter r (suc n) st p current m h = elim (eq_cases m 0) [
  | inl z ↦ Finds-done r n st p current m (length-eq_zero _ (h ∙ z)) z
  | inr z ↦ elim (Bool-cases (is_pool_member (st.slots current) p)) [
    | inl e ↦
        let h' : length (filter (holds_value st p) (addrs (current + 8) n)) ≡ m = rw e at h in
        Finds-free r n st p current m z e (scan_gen_loop-filter r n st p (current + 8) m h')
    | inr e ↦
        let h' : suc (length (filter (holds_value st p) (addrs (current + 8) n))) ≡ m = rw e at h in
        Finds-live r n st p current m z e
          (scan_gen_loop-filter r n st p (current + 8) (m - 1) (omega arith))
  ]
]

-- In a well-formed pool that is not current, `scan_pool_gen` ends without reading past the pool,
-- its work is at most the capacity, and it calls the GC's action on exactly the slots that hold a
-- value, each once, in the order of their addresses.
pub scan_pool_gen-live :
    (r : Runtime) (ok : IsRuntime r) (st : Store) (p : ℕ) (fs ds : List ℕ)
    → IsPool r st p fs ds 0
    → (work : ℕ) × (scan_pool_gen r st p ≡ some (live_slots r st p, work))
      × (work ≤ pool_capacity r)
unfolding scan_pool_gen
scan_pool_gen-live r ok st p fs ds v =
    let (stop, eq, le) =
      scan_gen_loop-filter r (pool_capacity r) st p (slot_addr r p 0) (anticipated_alloc_count p st)
        (omega (arith, anticipated-live r ok st p fs ds 0 v)) in
    ((stop - slot_addr r p 0) / 8, rw (eq, scan_pool_gen), omega arith)
