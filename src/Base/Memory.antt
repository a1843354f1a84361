-- ===== src/Base/Memory.antt =====
-- A store that is indexed by numbers: an array, or the words of memory by address.
use Prim.Native.Nat.{ℕ}
use mathlib.Core.Path.{◌≡◌}
use mathlib.Core.Logic.{◌≢◌}
use native.Mathlib.Omega.{arith}
use csse332lab.Base.Tests.{◌==◌, if◌then◌else◌}

module _ {ℓ} {A : Type ℓ} where
  -- `f[a] = v`
  abbrev pub update : (ℕ → A) → ℕ → A → ℕ → A
  update f a v b = if b == a then v else f b

  pub update_self : (f : ℕ → A) (a : ℕ) (v : A) → update f a v a ≡ v
  update_self f a v = ground arith

  pub update_ne : (f : ℕ → A) (a b : ℕ) (v : A) → b ≢ a → update f a v b ≡ f b
  update_ne f a b v h = ground arith
