-- ===== src/Base/Stores.antt =====
-- Memory as functions from addresses.
use Prim.Native.Nat.{ℕ}
use mathlib.Core.Path.{◌≡◌}
use mathlib.Core.Logic.{◌≢◌, ◌⊎◌}
use mathlib.Core.Bool.{true, false}
use native.Mathlib.Omega.{arith}
use crypto_jasmine.Base.Tests.{◌==◌, if◌then◌else◌}

pub Eq-cases : (i j : ℕ) → (i ≡ j) ⊎ (i ≢ j)
Eq-cases i j = ground arith

pub ==-refl : (k : ℕ) → (k == k) ≡ true
==-refl k = ground arith

pub ==-ne : (i k : ℕ) → i ≢ k → (i == k) ≡ false
==-ne i k ne = ground arith

module _ {ℓ} {A : Type ℓ} where
  -- `a[k] = v`
  abbrev pub upd : (ℕ → A) → ℕ → A → ℕ → A
  upd a k v i = if i == k then v else a i

  pub upd-same : (a : ℕ → A) (k : ℕ) (v : A) → upd a k v k ≡ v
  upd-same a k v = rw (==-refl k)

  pub upd-other : (a : ℕ → A) {k i : ℕ} (v : A) → i ≢ k → upd a k v i ≡ a i
  upd-other a {k} {i} v ne = rw (==-ne i k ne)
