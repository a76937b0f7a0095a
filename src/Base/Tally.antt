-- ===== src/Base/Tally.antt =====
-- Counting: how many of the numbers below a bound pass a test.
use Prim.Native.Nat.{ℕ, zero, suc, ◌+◌, ◌≤◌, ◌<◌}
use mathlib.Core.Path.{◌≡◌, refl, subst, ap, ◌∙◌}
use mathlib.Core.Logic.{◌≢◌, inl, inr}
use mathlib.Core.Bool.{Bool, true, false}
use native.Mathlib.Omega.{arith}
use crypto_jasmine.Base.Tests.{if◌then◌else◌}
use crypto_jasmine.Base.Stores.{Eq-cases}

-- The number of the `i < n` with `p i`
pub tally : ℕ → (ℕ → Bool) → ℕ
tally zero p = 0
tally (suc n) p = (if p n then 1 else 0) + tally n p

pub tally-none : (p : ℕ → Bool) → tally 0 p ≡ 0
unfolding tally
tally-none p = refl

pub tally-le : (n : ℕ) (p : ℕ → Bool) → tally n p ≤ n
unfolding tally
tally-le zero p = omega arith
tally-le (suc n) p = ground (arith, tally-le n p)

pub tally-same : (n : ℕ) {p q : ℕ → Bool} → ((i : ℕ) → i < n → p i ≡ q i) → tally n p ≡ tally n q
unfolding tally
tally-same zero e = refl
tally-same (suc n) e = rw (e n (omega arith), tally-same n (λ i h. e i (omega arith)))

-- The tests differ at one number.
pub tally-flip :
    (n : ℕ) {p q : ℕ → Bool} (a : ℕ)
    → a < n
    → p a ≡ false
    → q a ≡ true
    → ((i : ℕ) → i < n → i ≢ a → p i ≡ q i)
    → tally n q ≡ tally n p + 1
unfolding tally
tally-flip zero a h f t e = absurd (omega arith)
tally-flip (suc n) {p} {q} a h f t e = elim (Eq-cases a n) [
  | inl last ↦
      let rest : tally n p ≡ tally n q =
        tally-same n (λ i b. e i (omega arith) (λ s. absurd (omega arith))) in
      let pf : p n ≡ false = subst (λ m. p m ≡ false) last f in
      let qt : q n ≡ true = subst (λ m. q m ≡ true) last t in rw (pf, qt, rest) (omega arith)
  | inr before ↦
      let rest = tally-flip n {p = p} {q = q} a (omega arith) f t (λ i b. e i (omega arith)) in
      rw (e n (omega arith) (λ s. before (omega arith)), rest) (omega arith)
]

-- Those below a bound pass, and no others.
pub tally-below :
    (n k : ℕ) {p : ℕ → Bool}
    → k ≤ n
    → ((i : ℕ) → i < k → p i ≡ true)
    → ((i : ℕ) → i < n → k ≤ i → p i ≡ false)
    → tally n p ≡ k
unfolding tally
tally-below zero k h t f = omega arith
tally-below (suc n) k {p} h t f = elim (Eq-cases k (suc n)) [
  | inl all ↦
      let rest =
        tally-below n n {p = p} (omega arith) (λ i b. t i (omega arith))
          (λ i b c. absurd (omega arith)) in
      rw (t n (omega arith), rest) (omega arith)
  | inr less ↦
      let rest = tally-below n k {p = p} (omega arith) t (λ i b. f i (omega arith)) in
      rw (f n (omega arith) (omega arith), rest) (omega arith)
]

-- One number more.
tally-suc : (n : ℕ) (p : ℕ → Bool) → tally (n + 1) p ≡ tally (suc n) p
unfolding tally
tally-suc n p = let e : n + 1 ≡ suc n = omega arith in ap (λ m. tally m p) e

pub tally-yes : (n : ℕ) (p : ℕ → Bool) → p n ≡ true → tally (n + 1) p ≡ tally n p + 1
unfolding tally
tally-yes n p e = tally-suc n p ∙ rw e (omega arith)

pub tally-no : (n : ℕ) (p : ℕ → Bool) → p n ≡ false → tally (n + 1) p ≡ tally n p
unfolding tally
tally-no n p e = tally-suc n p ∙ rw e (omega arith)
