-- ===== src/Base/Partial.antt =====
-- Code that may have no defined result (`none`: a write out of bounds, a null pointer, a recursion
-- that does not end), and arrays as lists.
use mathlib.Core.Path.{◌≡◌, refl, subst}
use mathlib.Core.Option.{Option, none, some}
use mathlib.Core.List.{List, ◌++◌}
use Prim.Native.Nat.{ℕ, ◌+◌}
use crypto_jasmine.Base.Tests.{ltb, if◌then◌else◌}
use crypto_jasmine.Base.Lists.{length, set, take, drop}

infixl 5 ◌>>=◌
abbrev pub ◌>>=◌ {ℓ κ} : {A : Type ℓ} {B : Type κ} → Option A → (A → Option B) → Option B
none >>= f = none
some a >>= f = f a

-- A chain that succeeds has a first step that succeeds.
pub >>=-eq-some {ℓ κ} :
    {A : Type ℓ} {B : Type κ} (m : Option A) (f : A → Option B) {b : B}
    → (m >>= f) ≡ some b
    → (a : A) × (m ≡ some a) × (f a ≡ some b)
>>=-eq-some none f h = cc
>>=-eq-some (some a) f h = (a, refl, h)

module _ {ℓ} {A : Type ℓ} where
  -- `xs[i] = v`
  abbrev pub store : List A → ℕ → A → Option (List A)
  store xs i v = if ltb i (length xs) then some (set xs i v) else none

  -- `memcpy(&xs[i], src, sizeof(src))`
  abbrev pub overwrite : List A → ℕ → List A → List A
  overwrite xs i src = take i xs ++ (src ++ drop (i + length src) xs)

-- A computation has one result.
pub some-unique {ℓ κ} :
    {A : Type ℓ} (P : A → Type κ) {m : Option A} {a b : A} → m ≡ some a → m ≡ some b → P a → P b
some-unique P {m} {a} {b} e f p = let same : a ≡ b = cc in subst P same p
