-- ===== src/Eke/Mul.antt =====
-- `mul_mod_p` of target_spw/eke.c multiplies modulo `P` with no intermediate overflow.
use native.Mathlib.Nat.{add-mul-mod_self_right, mod-eq_of_lt, two-pow-succ}
use crypto_jasmine.Base.{
  ℕ, zero, suc, ◌+◌, ◌-◌, ◌*◌, ◌/◌, ◌%◌, ◌^◌, ◌≤◌, ◌<◌, ◌≡◌, sym, ap, inl, inr, some, arith, leb,
  ◌==◌, Bool-cases,
}
use crypto_jasmine.Eke.{prime, mul_add, mul_double, mul_loop, mul_mod_p}

-- Each step keeps `m + a * b` up to a multiple of `P`, here 0 or 1 times.
mul_add_lem :
    (a m : ℕ)
    → a ≤ prime
    → m < prime
    → (k : ℕ) × (m + a ≡ mul_add a m + k * prime) × (mul_add a m < prime)
unfolding mul_add
mul_add_lem a m h k = elim (Bool-cases (leb (prime - a) m)) [
  | inl over ↦ (1, ground arith, ground arith)
  | inr under ↦ (0, ground arith, ground arith)
]

mul_double_lem :
    (a : ℕ) → a ≤ prime → (k : ℕ) × (a + a ≡ mul_double a + k * prime) × (mul_double a ≤ prime)
unfolding mul_double
mul_double_lem a h = elim (Bool-cases (leb (prime - a) a)) [
  | inl over ↦ (1, ground arith, ground arith)
  | inr under ↦ (0, ground arith, ground arith)
]

-- A round of the loop on an even `b`, then on an odd one.
even_round :
    (a b m a' k : ℕ)
    → a + a ≡ a' + k * prime
    → b % 2 ≡ 0
    → (m + a' * (b / 2)) % prime ≡ (m + a * b) % prime
even_round a b m a' k e even =
    let c : b ≡ b / 2 + b / 2 = omega arith in
    let eq : m + a * b ≡ (m + a' * (b / 2)) + k * (b / 2) * prime =
      omega (arith, ap (λ (t : ℕ). a * t) c, ap (λ (t : ℕ). t * (b / 2)) e) in
    rw eq (sym (add-mul-mod_self_right (m + a' * (b / 2)) (k * (b / 2)) prime))

odd_round :
    (a b m a' m' k l : ℕ)
    → a + a ≡ a' + k * prime
    → m + a ≡ m' + l * prime
    → b % 2 ≡ 1
    → (m' + a' * (b / 2)) % prime ≡ (m + a * b) % prime
odd_round a b m a' m' k l e d odd =
    let c : b ≡ b / 2 + b / 2 + 1 = omega arith in
    let eq : m + a * b ≡ (m' + a' * (b / 2)) + (k * (b / 2) + l) * prime =
      omega (arith, ap (λ (t : ℕ). a * t) c, ap (λ (t : ℕ). t * (b / 2)) e) in
    rw eq (sym (add-mul-mod_self_right (m' + a' * (b / 2)) (k * (b / 2) + l) prime))

-- The loop ends when `b` fits the rounds, with `m + a * b` modulo `P`.
mul_loop_zero : (f a m : ℕ) → m < prime → mul_loop (suc f) a 0 m ≡ some ((m + a * 0) % prime)
unfolding mul_loop
mul_loop_zero f a m hm = let e : m + a * 0 ≡ m = omega arith in rw (e, mod-eq_of_lt hm)

mul_loop_round :
    (f a b m : ℕ)
    → a ≤ prime
    → m < prime
    → b < 2 ^ suc f
    → ((a' m' : ℕ)
        → a' ≤ prime
        → m' < prime
        → mul_loop (suc f) a' (b / 2) m' ≡ some ((m' + a' * (b / 2)) % prime))
    → mul_loop (suc (suc f)) a b m ≡ some ((m + a * b) % prime)
unfolding mul_loop
mul_loop_round f a b m ha hm hb next = elim (Bool-cases (b == 0)) [
  | inl done ↦ let e : b ≡ 0 = ground arith in rw e (mul_loop_zero (suc f) a m hm)
  | inr more ↦
      let (k, e, ha') = mul_double_lem a ha in
      let (l, d, hm') = mul_add_lem a m ha hm in
      elim (Bool-cases (b % 2 == 1)) [
        | inl odd ↦ rw (
          more,
          odd,
          next (mul_double a) (mul_add a m) ha' hm',
          odd_round a b m (mul_double a) (mul_add a m) k l e d (ground arith),
        )
        | inr even ↦ rw (
          more,
          even,
          next (mul_double a) m ha' hm,
          even_round a b m (mul_double a) k e (ground arith),
        )
      ]
]

-- The loop ends when `b` fits the rounds, with `m + a * b` modulo `P`.
mul_loop_lem :
    (f a b m : ℕ)
    → a ≤ prime
    → m < prime
    → b < 2 ^ f
    → mul_loop (suc f) a b m ≡ some ((m + a * b) % prime)
mul_loop_lem zero a b m ha hm hb = let e : b ≡ 0 = omega arith in rw e (mul_loop_zero zero a m hm)
mul_loop_lem (suc f) a b m ha hm hb =
    mul_loop_round f a b m ha hm hb
      λ a' m' p q. mul_loop_lem f a' (b / 2) m' p q (omega (arith, two-pow-succ f))

-- `mul_mod_p(a, b)` ends with the product modulo `P`, for every `a` up to `P` and 64-bit `b`, though
-- it computes with 64 bits throughout.
pub mul_mod_p_lem : (a b : ℕ) → a ≤ prime → b < 2 ^ 64 → mul_mod_p a b ≡ some (a * b % prime)
unfolding mul_mod_p
mul_mod_p_lem a b ha hb =
    let e : 0 + a * b ≡ a * b = omega arith in rw (mul_loop_lem 64 a b 0 ha (omega arith) hb, e)
