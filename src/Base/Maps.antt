-- ===== src/Base/Maps.antt =====
-- Functions as memories: a write at one point.
use Prim.Native.Nat.{ℕ}
use mathlib.Core.Path.{◌≡◌}
use native.Mathlib.Omega.{arith}
use liballocator.Base.Tests.{◌==◌, if◌then◌else◌}

-- A write at one address leaves every other.
abbrev pub update {ℓ} : {A : Type ℓ} → (ℕ → A) → ℕ → A → ℕ → A
update f a v b = if b == a then v else f b

pub update_same {ℓ} : {A : Type ℓ} (f : ℕ → A) (a : ℕ) (v : A) → update f a v a ≡ v
update_same f a v = ground arith
