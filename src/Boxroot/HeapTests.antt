-- ===== src/Boxroot/HeapTests.antt =====
-- The first call of `boxroot_create`, and what it rests on.
use ocaml_boxroot.Prelude.{
  ℕ, ◌≡◌, refl, ◌≢◌, inl, inr, ◌⊎◌, true, false, [], ◌∷◌, some, arith, has, ◌==◌, ◌||◌, sym, ◌∙◌,
  ap, subst, eq_cases, ne→==, ==→eq,
}
use mathlib.Core.Bool.{false≢true}
use ocaml_boxroot.Words.{is_pool_member}
use ocaml_boxroot.Words.Samples.{runtime-IsRuntime}
use ocaml_boxroot.Boxroot.State.{State, Caller, running, e_perm}
use ocaml_boxroot.Boxroot.Tests.{runtime, start, caller}
use ocaml_boxroot.Boxroot.Api.{boxroot_create, boxroot_get}
use ocaml_boxroot.Boxroot.Heap.{Fresh}
use ocaml_boxroot.Boxroot.Heap.Initial.{no_pools, initial-IsHeap}
use ocaml_boxroot.Boxroot.Heap.Fill.{refused}
use ocaml_boxroot.Boxroot.Heap.Errors.{boxroot_get-boxroot_create, boxroot_create-refused}
use ocaml_boxroot.Boxroot.Heap.Create.{Creates}
use ocaml_boxroot.Boxroot.Heap.Call.{CanCreate, boxroot_create-Creates}

pub start-Fresh : Fresh no_pools 8 (16384 ∷ 32768 ∷ [])
start-Fresh = (
  inr (refl, (λ m. false≢true m.1), (λ e. omega (arith, e)), ((λ e. omega (arith, e)), tt)),
  (inr (refl, (λ m. false≢true m.1), (λ e. omega (arith, e)), tt), tt),
)

elsewhere : (q : ℕ) → has q (16384 ∷ 32768 ∷ []) ≡ true → is_pool_member 7 q ≡ false
unfolding is_pool_member
elsewhere q h = elim (eq_cases q 16384) [
  | inl e ↦ subst (λ x. is_pool_member 7 x ≡ false) (sym e) refl
  | inr n ↦
      let m : (false || ((q == 32768) || false)) ≡ true =
        ap (λ b. b || ((q == 32768) || false)) (sym (ne→== q 16384 n)) ∙ h in
      let e : q ≡ 32768 = ==→eq q 32768 (ground (arith, m)) in
      subst (λ x. is_pool_member 7 x ≡ false) (sym e) refl
]

start-CanCreate : CanCreate runtime caller start no_pools 7
start-CanCreate = record {
  heap = initial-IsHeap runtime start (λ d. refl) refl refl refl start-Fresh;
  caml_state = refl;
  status = inr refl;
  cached = inl refl;
  rings = inr refl;
  outside = λ q m. elim m [ inl h ↦ absurd (false≢true h.1) | inr h ↦ elsewhere q h ];
}

boxroot_create-Creates_example :
    Creates runtime 7 start no_pools (boxroot_create runtime 3 5 caller 7 start)
boxroot_create-Creates_example =
    boxroot_create-Creates runtime runtime-IsRuntime caller start no_pools 7 0 5 start-CanCreate
      (omega arith)

boxroot_get-boxroot_create_example :
    (root : ℕ) × (s' : State) × (boxroot_create runtime 3 5 caller 7 start ≡ some (root, s'))
    × (((root ≡ 0) × (refused start.memory ≡ true)) ⊎ ((root ≢ 0) × (boxroot_get root s' ≡ 7)))
boxroot_get-boxroot_create_example =
    boxroot_get-boxroot_create runtime runtime-IsRuntime caller start no_pools 7 0 5 start-CanCreate
      (omega arith)

abbrev stranger : Caller
stranger = record { caml_state = false; domain_id = 3 }

abbrev set_up : State
set_up = record start { status = running }

boxroot_create-refused_example :
    boxroot_create runtime 3 5 stranger 7 set_up ≡ some (0, record set_up { errno = e_perm })
boxroot_create-refused_example = boxroot_create-refused runtime stranger set_up 7 2 5 refl refl
