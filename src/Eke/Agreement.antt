-- ===== src/Eke/Agreement.antt =====
-- The key exchange of target_spw/eke.c: both sides of it compute the same key.
use native.Mathlib.Nat.{mul_comm}
use crypto_jasmine.Base.{ℕ, ◌%◌, ◌^◌, ◌<◌, ◌≡◌, sym, ap, ◌∙◌, some, arith}
use crypto_jasmine.Eke.{prime, generator, powmodp}
use crypto_jasmine.Eke.Pow.{pow-mul, pow-mod, powmodp-pow}

-- Powers of powers commute modulo `P`.
pow-pow_comm : (a x y : ℕ) → (a ^ x % prime) ^ y % prime ≡ (a ^ y % prime) ^ x % prime
pow-pow_comm a x y =
    pow-mod (a ^ x) y prime
    ∙ (ap (λ (n : ℕ). n % prime)
          (pow-mul a x y ∙ (ap (λ (n : ℕ). a ^ n) (mul_comm x y) ∙ sym (pow-mul a y x)))
        ∙ sym (pow-mod (a ^ y) x prime))

-- A power of the generator modulo `P`, the key that goes over the wire.
abbrev pub public_key : ℕ → ℕ
public_key x = generator ^ x % prime

-- With non-zero secrets `x` and `y` all four calls of `powmodp` return: the two public keys from the
-- generator, and on either side, from the other's public key, one and the same session key.
pub powmodp_agreement :
    (f x y : ℕ)
    → 0 < x
    → 0 < y
    → x < 2 ^ f
    → y < 2 ^ f
    → (powmodp f generator x ≡ some (public_key x))
      × (powmodp f generator y ≡ some (public_key y))
      × (powmodp f (public_key x) y ≡ powmodp f (public_key y) x)
      × (powmodp f (public_key x) y ≡ some (public_key x ^ y % prime))
powmodp_agreement f x y hx hy fx fy =
    let px : public_key x < prime = omega arith in
    let py : public_key y < prime = omega arith in
    let kx = powmodp-pow f (public_key x) y (omega arith) hy fy (λ _. omega arith) in
    let ky = powmodp-pow f (public_key y) x (omega arith) hx fx (λ _. omega arith) in
    (
      powmodp-pow f generator x (omega arith) hx fx (λ _. omega arith),
      powmodp-pow f generator y (omega arith) hy fy (λ _. omega arith),
      kx ∙ (ap some (pow-pow_comm generator x y) ∙ sym ky),
      kx,
    )
