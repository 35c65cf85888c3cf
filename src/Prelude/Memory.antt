-- ===== src/Prelude/Memory.antt =====
-- A memory is a function of an address; a write changes it at one address.
use Prim.Native.Nat.{ℕ}
use mathlib.Core.Path.{◌≡◌, refl}
use mathlib.Core.Logic.{◌≢◌}
use ocaml_boxroot.Prelude.Tests.{◌==◌, if◌then◌else◌, ne→==, eq→==}

module _ {ℓ} {A : Type ℓ} where
  abbrev pub upd : (ℕ → A) → ℕ → A → ℕ → A
  upd m p v a = if a == p then v else m a

  pub upd_self : (m : ℕ → A) (p : ℕ) (v : A) → upd m p v p ≡ v
  upd_self m p v = rw (eq→== p p refl)

  pub upd_ne : (m : ℕ → A) (p : ℕ) (v : A) (a : ℕ) → a ≢ p → upd m p v a ≡ m a
  upd_ne m p v a h = rw (ne→== a p h)
