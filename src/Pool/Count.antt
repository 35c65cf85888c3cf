-- ===== src/Pool/Count.antt =====
-- The slots of a pool as a list of addresses.
use ocaml_boxroot.Prelude.{
  ℕ, zero, suc, ◌+◌, ◌*◌, ◌<◌, ◌≡◌, refl, ap, subst, inl, inr, true, List, [], ◌∷◌, arith, ◌==◌,
  length, has, NotIn, Distinct, eq→==, ne→==, ==→eq, Bool-cases,
}
use ocaml_boxroot.Words.{Runtime, pool_capacity, slot_addr}

-- `n` slots from `a` on.
abbrev pub addrs : ℕ → ℕ → List ℕ
addrs a zero = []
addrs a (suc n) = a ∷ addrs (a + 8) n

pub length-addrs : (a n : ℕ) → length (addrs a n) ≡ n
length-addrs a zero = refl
length-addrs a (suc n) = ap suc (length-addrs (a + 8) n)

NotIn-addrs : (x a n : ℕ) → x < a → NotIn x (addrs a n)
NotIn-addrs x a zero h = tt
NotIn-addrs x a (suc n) h = (omega arith, NotIn-addrs x (a + 8) n (omega arith))

pub Distinct-addrs : (a n : ℕ) → Distinct (addrs a n)
Distinct-addrs a zero = tt
Distinct-addrs a (suc n) = (NotIn-addrs a (a + 8) n (omega arith), Distinct-addrs (a + 8) n)

pub has-addrs : (a n i : ℕ) → i < n → has (a + 8 * i) (addrs a n) ≡ true
has-addrs a zero i h = absurd (omega arith)
has-addrs a (suc n) zero h = rw (eq→== (a + 8 * 0) a (omega arith))
has-addrs a (suc n) (suc i) h =
    let e : a + 8 + 8 * i ≡ a + 8 * suc i = omega arith in
    rw (ne→== (a + 8 * suc i) a (omega arith))
      (subst (λ x. has x (addrs (a + 8) n) ≡ true) e (has-addrs (a + 8) n i (omega arith)))

pub addrs-index : (x a n : ℕ) → has x (addrs a n) ≡ true → (i : ℕ) × (i < n) × (x ≡ a + 8 * i)
addrs-index x a zero h = cc
addrs-index x a (suc n) h = elim (Bool-cases (x == a)) [
  | inl e ↦ (0, omega arith, omega (arith, ==→eq x a e))
  | inr e ↦
      let (i, lt, eq) = addrs-index x (a + 8) n (rw e at h) in (suc i, omega arith, omega arith)
]

module _ (r : Runtime) where
  abbrev pub pool_slots : ℕ → List ℕ
  pool_slots p = addrs (slot_addr r p 0) (pool_capacity r)

  -- `a` is the address of a slot of the pool `p`.
  abbrev pub InPool : ℕ → ℕ → Type 0
  InPool p a = has a (pool_slots p) ≡ true
