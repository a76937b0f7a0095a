-- ===== src/Eke/Pow.antt =====
-- `pow_mod_p` and `powmodp` of target_spw/eke.c: exponentiation by squaring modulo `P`.
use native.Mathlib.Nat.{
  add-mul-mod_self_right, mod-eq_of_lt, two-pow-succ, pow-suc, pow-zero, mod-mod, div-add-mod',
}
use crypto_jasmine.Base.{
  ℕ, zero, suc, false, ◌+◌, ◌*◌, ◌/◌, ◌%◌, ◌^◌, ◌≤◌, ◌<◌, ◌≡◌, refl, sym, ap, ◌∙◌, inl, inr, ◌≢◌,
  none, some, arith, ltb, ◌==◌, if◌then◌else◌, Bool-cases,
}
use crypto_jasmine.Eke.{prime, pow_mod_p, powmodp}
use crypto_jasmine.Eke.Mul.{mul_mod_p_lem}

pow_one : (a : ℕ) → a ^ 1 ≡ a
pow_one a = rw (pow-suc a 0, pow-zero) (omega arith)

pub pow-add : (a m n : ℕ) → a ^ (m + n) ≡ a ^ m * a ^ n
pow-add a zero n = let e : zero + n ≡ n = omega arith in rw (e, pow-zero) (omega arith)
pow-add a (suc m) n =
    let e : suc m + n ≡ suc (m + n) = omega arith in
    rw (e, pow-suc a (m + n), pow-suc a m, pow-add a m n) (omega arith)

pub pow-mul : (a m n : ℕ) → (a ^ m) ^ n ≡ a ^ (m * n)
pow-mul a m zero = let e : m * zero ≡ 0 = omega arith in rw (e, pow-zero, pow-zero)
pow-mul a m (suc n) =
    let e : m * suc n ≡ m * n + m = omega arith in
    rw (e, pow-suc (a ^ m) n, pow-add a (m * n) m, pow-mul a m n)

-- Products may be reduced first.
pub mul-mod : (a b k : ℕ) → (a % k) * (b % k) % k ≡ a * b % k
mul-mod a b k =
    let e : a * b ≡ (a % k) * (b % k) + ((a / k) * b + (a % k) * (b / k)) * k = omega (
      arith,
      ap (λ (t : ℕ). t * b) (div-add-mod' a k),
      ap (λ (t : ℕ). (a % k) * t) (div-add-mod' b k),
    ) in
    rw e (sym (add-mul-mod_self_right ((a % k) * (b % k)) ((a / k) * b + (a % k) * (b / k)) k))

pub pow-mod : (a n k : ℕ) → (a % k) ^ n % k ≡ a ^ n % k
pow-mod a zero k = rw (pow-zero, pow-zero)
pow-mod a (suc n) k = rw (
  pow-suc (a % k) n,
  pow-suc a n,
  ← mul-mod ((a % k) ^ n) (a % k) k,
  ← mul-mod (a ^ n) a k,
  pow-mod a n k,
  mod-mod a k,
)

-- A power of `b` by its half.
even_pow : (a b : ℕ) → b % 2 ≡ 0 → a ^ b ≡ a ^ (b / 2) * a ^ (b / 2)
even_pow a b even =
    let e : b ≡ b / 2 + b / 2 = omega arith in ap (λ (n : ℕ). a ^ n) e ∙ pow-add a (b / 2) (b / 2)

odd_pow : (a b : ℕ) → b % 2 ≡ 1 → a ^ b ≡ a ^ (b / 2) * a ^ (b / 2) * a
odd_pow a b odd =
    let e : b ≡ suc (b / 2 + b / 2) = omega arith in
    ap (λ (n : ℕ). a ^ n) e
    ∙ (pow-suc a (b / 2 + b / 2) ∙ ap (λ (n : ℕ). n * a) (pow-add a (b / 2) (b / 2)))

-- The squaring and the multiplication that follows it, on residues.
square_lem : (t s : ℕ) → t % prime ≡ s % prime → t * t % prime ≡ s * s % prime
square_lem t s e = rw (← mul-mod t t prime, e, mul-mod s s prime)

times_lem : (t s a : ℕ) → t % prime ≡ s % prime → (t % prime) * a % prime ≡ s * a % prime
times_lem t s a e = rw (e, ← mul-mod (s % prime) a prime, mod-mod s prime, mul-mod s a prime)

-- The recursion ends with a power of `a` modulo `P`. The number that it returns may be `P` itself,
-- in place of 0, if no multiplication was made.
abbrev PowerOf : (a b t : ℕ) → Type 0
PowerOf a b t = (t ≤ prime) × (t % prime ≡ a ^ b % prime) × ((b ≡ 1 → a ≢ prime) → t < prime)

pow_round :
    (f a b t : ℕ)
    → a ≤ prime
    → 1 < b
    → pow_mod_p f a (b / 2) ≡ some t
    → PowerOf a (b / 2) t
    → (r : ℕ) × (pow_mod_p (suc f) a b ≡ some r) × PowerOf a b r
unfolding pow_mod_p
pow_round f a b t ha hb e (ht, et, _) =
    let big : (b == 1) ≡ false = ground arith in
    let sq = mul_mod_p_lem t t ht (omega arith) in
    elim (Bool-cases (b % 2 == 0)) [
      | inl even ↦ (
        t * t % prime,
        rw (big, e, sq, even),
        (
          omega arith,
          rw (mod-mod (t * t) prime, even_pow a b (ground arith), square_lem t (a ^ (b / 2)) et),
          λ _. omega arith,
        ),
      )
      | inr odd ↦
          let sqa = mul_mod_p_lem (t * t % prime) a (omega arith) (omega arith) in
          (
            (t * t % prime) * a % prime,
            rw (big, e, sq, odd, sqa),
            (
              omega arith,
              rw (
                mod-mod ((t * t % prime) * a) prime,
                odd_pow a b (ground arith),
                times_lem (t * t) (a ^ (b / 2) * a ^ (b / 2)) a (square_lem t (a ^ (b / 2)) et),
              ),
              λ _. omega arith,
            ),
          )
    ]

pow_mod_p_lem :
    (f a b : ℕ)
    → a ≤ prime
    → 0 < b
    → b < 2 ^ f
    → (r : ℕ) × (pow_mod_p f a b ≡ some r) × PowerOf a b r
unfolding pow_mod_p
pow_mod_p_lem zero a b ha hb hf = absurd (omega arith)
pow_mod_p_lem (suc f) a b ha hb hf = elim (Bool-cases (b == 1)) [
  | inl one ↦
      let e : b ≡ 1 = ground arith in
      (a, rw one, (ha, rw (e, pow_one a), λ ne. let h = ne e in omega arith))
  | inr more ↦
      let (t, e, p) = pow_mod_p_lem f a (b / 2) ha (ground arith) (omega (arith, two-pow-succ f)) in
      pow_round f a b t ha (ground arith) e p
]

-- For every 64-bit `a` and every non-zero `b` the recursion is at most as deep as `b` has binary
-- digits, and `powmodp(a, b)` returns `a ^ b` modulo `P`; only at `a = P`, `b = 1` it does not
-- reduce.
pub powmodp-pow :
    (f a b : ℕ)
    → a < 2 ^ 64
    → 0 < b
    → b < 2 ^ f
    → (b ≡ 1 → a ≢ prime)
    → powmodp f a b ≡ some (a ^ b % prime)
unfolding powmodp
powmodp-pow f a b ha hb hf ne = elim (Bool-cases (ltb prime a)) [
  | inl over ↦
      let (r, e, (_, er, low)) = pow_mod_p_lem f (a % prime) b (omega arith) hb hf in
      let small : r < prime = low (λ _. omega arith) in
      rw (over, e, ← mod-eq_of_lt small, er, pow-mod a b prime)
  | inr under ↦
      let (r, e, (_, er, low)) = pow_mod_p_lem f a b (ground arith) hb hf in
      let small : r < prime = low ne in rw (under, e, ← mod-eq_of_lt small, er)
]

pow_mod_p-zero : (f a : ℕ) → pow_mod_p f a 0 ≡ none
unfolding pow_mod_p
pow_mod_p-zero zero a = refl
pow_mod_p-zero (suc f) a = rw (pow_mod_p-zero f a)

-- At the exponent 0 the recursion never ends: no depth is enough, whatever `a` is.
pub powmodp-zero : (f a : ℕ) → powmodp f a 0 ≡ none
unfolding powmodp
powmodp-zero f a = pow_mod_p-zero f (if ltb prime a then a % prime else a)
