-- ===== src/Boxroot/Release.antt =====
-- `free_pool_ring` gives back each pool of a ring.
use ocaml_boxroot.Prelude.{
  ℕ, zero, suc, ◌≤◌, ◌≡◌, refl, sym, ◌∙◌, ap, subst, ◌≢◌, List, [], ◌∷◌, some, arith, upd, upd_self,
  length, eq_cases, inl, inr, eq→==, ne→==,
}
use ocaml_boxroot.Ring.Paths.{IsRing}
use ocaml_boxroot.Boxroot.State.{
  State, Place, of_domain, orphaned, variable, get_place, set_place, pop_place,
}
use ocaml_boxroot.Boxroot.Classes.{free_pool_ring}
use ocaml_boxroot.Boxroot.Rings.{View, key, IsGlobal, IsRings, pop_place-IsRings}
use ocaml_boxroot.Boxroot.Reclassify.{IsRings-ext}

-- `xs` are given back one by one, the latest first.
abbrev pub returned : List ℕ → List ℕ → List ℕ
returned [] fs = fs
returned (x ∷ xs) fs = returned xs (x ∷ fs)

freed-set_place : (pl : Place) (h : ℕ) (s : State) → (set_place pl h s).freed ≡ s.freed
freed-set_place (of_domain d f) h s = refl
freed-set_place (orphaned f) h s = refl
freed-set_place (variable p) h s = refl

freed-pop_place : (pl : Place) (s : State) → (pop_place pl s).1.freed ≡ s.freed
unfolding pop_place
freed-pop_place pl s = freed-set_place pl _ _

get_place-freed :
    (pl : Place) (fs : List ℕ) (s : State) → get_place pl (record s { freed = fs }) ≡ get_place pl s
get_place-freed (of_domain d f) fs s = refl
get_place-freed (orphaned f) fs s = refl
get_place-freed (variable p) fs s = refl

pub IsRings-freed :
    (fs : List ℕ) (s : State) (v : View) → IsRings s v → IsRings (record s { freed = fs }) v
IsRings-freed fs s v inv = record {
  rings = λ pl g. rw (get_place-freed pl fs s) (inv.rings pl g);
  apart = inv.apart;
}

-- What the loop promises, with fuel for `n` rounds, of a ring of the pools `xs`.
abbrev pub Releases : ℕ → Place → State → View → List ℕ → Type 0
Releases n ring s v xs =
    (s' : State) × (free_pool_ring n ring s ≡ some s')
    × (s'.freed ≡ returned xs s.freed)
    × IsRings s' (upd v (key ring) [])

pub emptied : (v : View) (k : ℕ) (i : ℕ) → v k ≡ [] → v i ≡ upd v k [] i
emptied v k i e = elim (eq_cases i k) [
  | inl h ↦ rw (eq→== i k h) (ap v h ∙ e)
  | inr h ↦ rw (ne→== i k h) refl
]

upd-twice : (v : View) (k : ℕ) (xs : List ℕ) (i : ℕ) → upd (upd v k xs) k [] i ≡ upd v k [] i
upd-twice v k xs i = ground arith

releases :
    (n : ℕ) (ring : Place) (s : State) (v : View) (xs : List ℕ)
    → IsGlobal ring
    → IsRings s v
    → v (key ring) ≡ xs
    → length xs ≤ n
    → Releases n ring s v xs
unfolding free_pool_ring
releases zero ring s v [] g inv e fuel =
    let h = subst (IsRing s.store.links (get_place ring s)) e (inv.rings ring g) in
    (
      s,
      rw (eq→== (get_place ring s) 0 h) refl,
      refl,
      IsRings-ext s v _ (λ i. emptied v (key ring) i e) inv,
    )
releases (suc n) ring s v [] g inv e fuel =
    let h = subst (IsRing s.store.links (get_place ring s)) e (inv.rings ring g) in
    (
      s,
      rw (eq→== (get_place ring s) 0 h, free_pool_ring) refl,
      refl,
      IsRings-ext s v _ (λ i. emptied v (key ring) i e) inv,
    )
releases zero ring s v (x ∷ xs) g inv e fuel = absurd (omega (arith, fuel))
releases (suc n) ring s v (x ∷ xs) g inv e fuel =
    let r = subst (IsRing s.store.links (get_place ring s)) e (inv.rings ring g) in
    let head : get_place ring s ≢ 0 = λ h. r.1.0 (sym h ∙ r.0) in
    let (front, rest, d) = pop_place-IsRings s v ring x xs g inv e in
    let s1 = (pop_place ring s).1 in
    let more =
      releases n ring (record s1 { freed = x ∷ s1.freed }) (upd v (key ring) xs) xs g
        (IsRings-freed (x ∷ s1.freed) s1 _ rest) (upd_self v (key ring) xs) (omega (arith, fuel)) in
    (
      more.0,
      rw (ne→== (get_place ring s) 0 head, front, free_pool_ring) more.1,
      more.2 ∙ ap (λ fs. returned xs (x ∷ fs)) (freed-pop_place ring s),
      IsRings-ext _ _ _ (λ i. upd-twice v (key ring) xs i) more.3,
    )

-- If the ring heads of the domains and the orphans lead to rings with no common pool and the fuel
-- is at least the number of pools of the ring, `free_pool_ring` ends, leaves the ring empty and
-- the others as before, and gives back each pool of the ring once, in order, and nothing else.
pub free_pool_ring-IsRings :
    (n : ℕ) (ring : Place) (s : State) (v : View)
    → IsGlobal ring
    → IsRings s v
    → length (v (key ring)) ≤ n
    → Releases n ring s v (v (key ring))
free_pool_ring-IsRings n ring s v g inv fuel = releases n ring s v (v (key ring)) g inv refl fuel
