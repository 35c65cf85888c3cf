-- ===== src/Pool/Scan/Validate.antt =====
-- `validate_pool`: the run-time check of a debug build accepts every well-formed pool.
use ocaml_boxroot.Prelude.{
  ℕ, zero, suc, ◌+◌, ◌<◌, ◌≤◌, ◌≡◌, refl, sym, ◌∙◌, ap, ◌≢◌, true, false, ◌&&◌, List, [], ◌∷◌, some,
  arith, leb, ltb, filter, has, length, All, Bool-cases, inl, inr, eq→==, ne→==,
}
use ocaml_boxroot.Words.{Runtime, IsRuntime, pool_capacity, slot_addr, is_pool_member, sub32}
use ocaml_boxroot.Pool.{Store, young, class_allows, check_free_list, check_values, validate_pool}
use ocaml_boxroot.Pool.Chain.{Chain}
use ocaml_boxroot.Pool.Count.{addrs, addrs-index, InPool}
use ocaml_boxroot.Pool.Invariant.{IsPool, holds_value, slot-ne-pool}
use ocaml_boxroot.Pool.Scan.{anticipated-live}

-- A young pool may hold any value.
pub class_allows-young : (r : Runtime) (v : ℕ) → class_allows r young v ≡ true
unfolding class_allows
class_allows-young r v = refl

module _ (r : Runtime) (ok : IsRuntime r) (st : Store) (p : ℕ) where
  in_bounds :
      (a : ℕ)
      → InPool r p a
      → (leb (slot_addr r p 0) a && ltb a (slot_addr r p (pool_capacity r))) ≡ true
  in_bounds a h =
      let (i, lt, e) = addrs-index a (slot_addr r p 0) (pool_capacity r) h in
      let low : slot_addr r p 0 ≤ a = omega arith in
      let high : a < slot_addr r p (pool_capacity r) = omega arith in ground arith

  check_free_list-Chain :
      (n : ℕ) (curr pos : ℕ) (fs : List ℕ)
      → length fs ≤ n
      → All (InPool r p) fs
      → Chain st.slots p curr fs
      → check_free_list r n st p curr pos ≡ some (pos + length fs)
  unfolding check_free_list
  check_free_list-Chain zero curr pos [] h m c = rw (eq→== curr p c) (ap some (omega arith))
  check_free_list-Chain (suc n) curr pos [] h m c =
      rw (eq→== curr p c, check_free_list) (ap some (omega arith))
  check_free_list-Chain zero curr pos (x ∷ xs) h m c = absurd (omega arith)
  check_free_list-Chain (suc n) curr pos (x ∷ xs) h m c = rw c.0 (
      rw (ne→== x p (slot-ne-pool r ok p x m.0), in_bounds x m.0, check_free_list)
        (check_free_list-Chain n (st.slots x) (pos + 1) xs (omega arith) m.1 c.1
          ∙ ap some (omega arith)))

  -- The slots of the pool hold no young block, unless its class is young.
  abbrev pub ClassHolds : Type 0
  ClassHolds =
      (a : ℕ)
      → InPool r p a
      → is_pool_member (st.slots a) p ≡ false
      → class_allows r (st.free_list p).class (st.slots a) ≡ true

  -- The `n` slots from `s` on hold what the class of the pool allows.
  abbrev AllowsFrom : ℕ → ℕ → Type 0
  AllowsFrom s n =
      (a : ℕ)
      → has a (addrs s n) ≡ true
      → is_pool_member (st.slots a) p ≡ false
      → class_allows r (st.free_list p).class (st.slots a) ≡ true

  AllowsFrom-next : (s n : ℕ) → AllowsFrom s (suc n) → AllowsFrom (s + 8) n
  AllowsFrom-next s n c a h = c a (ground (arith, h))

  check_values-count :
      (n s count : ℕ)
      → AllowsFrom s n
      → check_values r n st p s count
        ≡ some (count + length (filter (holds_value st p) (addrs s n)))
  unfolding check_values
  check_values-count zero s count c = ap some (omega arith)
  check_values-count (suc n) s count c = elim (Bool-cases (is_pool_member (st.slots s) p)) [
    | inl e ↦ rw (e, check_values) (check_values-count n (s + 8) count (AllowsFrom-next s n c))
    | inr e ↦
        rw (e, c s (ground (arith, eq→== s s refl)) e, check_values)
          (check_values-count n (s + 8) (count + 1) (AllowsFrom-next s n c) ∙ ap some (omega arith))
  ]

  next_nonzero : (a : ℕ) (fs : List ℕ) → p ≢ 0 → All (InPool r p) fs → Chain st.slots p a fs → a ≢ 0
  next_nonzero a [] nz m c e = nz (sym c ∙ e)
  next_nonzero a (x ∷ xs) nz m c e =
      let (i, lt, eq) = addrs-index x (slot_addr r p 0) (pool_capacity r) m.0 in
      omega (arith, ok.sizeof_pos, c.0)

  -- `validate_pool` accepts every well-formed pool that is not current, is not at address 0 and
  -- whose slots hold no young block unless its class is young.
  pub validate_pool-IsPool :
      (fs ds : List ℕ) → p ≢ 0 → IsPool r st p fs ds 0 → ClassHolds → validate_pool r st p ≡ true
  unfolding validate_pool
  validate_pool-IsPool fs ds nz v c =
      rw
        (
          ne→== _ 0 (next_nonzero _ fs nz v.fl_members v.fl_chain),
          check_free_list-Chain (pool_capacity r) _ 0 fs (omega (arith, v.fl_count)) v.fl_members
              v.fl_chain,
          check_values-count (pool_capacity r) (slot_addr r p 0) 0 c,
          eq→== (0 + length fs) (sub32 (pool_capacity r) (st.free_list p).alloc_count)
              (omega (arith, v.fl_count)),
        )
        (eq→== _ _ (omega (arith, anticipated-live r ok st p fs ds 0 v)))
