-- ===== src/Hooks/Minor.antt =====
-- The count of the domains that are in a minor collection.
use ocaml_boxroot.Prelude.{ℕ, suc, ◌^◌, ◌<◌, ◌≡◌, ap, not, arith, ◌==◌}
use ocaml_boxroot.Hooks.{Hooks, record_minor_begin, record_minor_end, bxr_in_minor_collection}

-- The states that the begin and end hooks of the domains reach, in any interleaving, with the
-- number of the domains that have begun and not ended a minor collection.
pub data Collecting : ℕ → Hooks → Type 0 where
  outside : (h : Hooks) → h.in_minor_collection ≡ 0 → Collecting 0 h
  begins :
      (n : ℕ) (h : Hooks)
      → Collecting n h
      → suc n < 2 ^ 32
      → Collecting (suc n) (record_minor_begin h)
  ends : (n : ℕ) (h : Hooks) → Collecting (suc n) h → Collecting n (record_minor_end h)

counted : (n : ℕ) (h : Hooks) → Collecting n h → (h.in_minor_collection ≡ n) × (n < 2 ^ 32)
unfolding record_minor_begin record_minor_end
counted _ _ (outside h e) = (e, omega arith)
counted _ _ (begins n h c b) = let prev = counted n h c in (omega (arith, prev.0, prev.1), b)
counted _ _ (ends n h c) =
    let prev = counted (suc n) h c in (omega (arith, prev.0, prev.1), omega (arith, prev.1))

-- After any interleaving of the begin and end hooks of the domains, of which fewer than 2^32 are
-- in a minor collection at a time, `bxr_in_minor_collection` tells whether at least one domain has
-- begun and not ended a minor collection.
pub bxr_in_minor_collection-Collecting :
    (n : ℕ) (h : Hooks) → Collecting n h → bxr_in_minor_collection h ≡ not (n == 0)
unfolding bxr_in_minor_collection
bxr_in_minor_collection-Collecting n h c = ap (λ (m : ℕ). not (m == 0)) (counted n h c).0
