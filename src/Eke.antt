-- ===== src/Eke.antt =====
-- target_spw/eke.c: modular multiplication and exponentiation on `uint64_t`, random integers, and
-- the hash of a password. The functions of the MD5 library and `rand` are parameters.
pub mod Mul
pub mod Pow
pub mod Agreement
pub mod Hash
mod Tests
use Prim.Native.Nat.{bit_or}
use crypto_jasmine.Base.{
  ℕ, zero, suc, ◌+◌, ◌-◌, ◌*◌, ◌/◌, ◌%◌, ◌^◌, ◌≤◌, ◌<◌, Option, none, some, ltb, leb, ◌==◌,
  if◌then◌else◌, ◌>>=◌, List, [], ◌∷◌, ◌++◌, take, drop,
}
use crypto_jasmine.Base.Words.{shl64, shl32, shr, add64, sub64, mul64}

-- `P`, the largest prime below 2 ^ 64
abbrev pub prime : ℕ
prime = 0xffff_ffff_ffff_ffc5

-- `G`
abbrev pub generator : ℕ
generator = 5

-- `m` after the `if (b & 1)` of the loop
mul_add : ℕ → ℕ → ℕ
mul_add a m = let t : ℕ = sub64 prime a in if leb t m then sub64 m t else add64 m a

-- `a` after a round of the loop
mul_double : ℕ → ℕ
mul_double a = if leb (sub64 prime a) a then sub64 (mul64 a 2) prime else mul64 a 2

-- `while (b) { ... }`, with a bound on its rounds
mul_loop : ℕ → (a b m : ℕ) → Option ℕ
mul_loop zero a b m = none
mul_loop (suc f) a b m =
    let rest = mul_loop f (mul_double a) (shr b 1) (if b % 2 == 1 then mul_add a m else m) in
    if b == 0 then some m else rest

-- A 64-bit `b` is 0 after 64 rounds.
unfoldable pub mul_mod_p : ℕ → ℕ → Option ℕ
unfolding mul_loop mul_add mul_double
mul_mod_p a b = mul_loop 65 a b 0

-- The recursion of `pow_mod_p`, with a bound on its depth; `none` is a recursion that goes on.
pow_mod_p : ℕ → (a b : ℕ) → Option ℕ
pow_mod_p zero a b = none
pow_mod_p (suc f) a b =
    let halved = pow_mod_p f a (shr b 1) in
    if b == 1
    then some a
    else do t ← halved; t ← mul_mod_p t t; if b % 2 == 0 then some t else mul_mod_p t a

-- `powmodp`, with a bound on the depth of its recursion
unfoldable pub powmodp : ℕ → (a b : ℕ) → Option ℕ
unfolding pow_mod_p
powmodp f a b = pow_mod_p f (if ltb prime a then a % prime else a) b

-- What `rand` returns at its first, second, ... call.
abbrev pub Rand : Type 0
Rand = ℕ → ℕ

-- The value, and how often `rand` was called when it is there. A negative value of `rand` does not
-- occur (section 7.22.2.1 of the standard).
unfoldable pub randomint64 : Rand → ℕ → ℕ × ℕ
randomint64 rand n = (
  bit_or (bit_or (bit_or (shl64 (rand n) 48) (shl64 (rand (n + 1)) 32)) (shl64 (rand (n + 2)) 16))
      (rand (n + 3)),
  n + 4,
)

unfoldable pub randomint32 : Rand → ℕ → ℕ × ℕ
randomint32 rand n = (bit_or (shl32 (rand n) 16) (rand (n + 1)), n + 2)

-- the digit of `%x`
pub hex_digit : ℕ → ℕ
hex_digit d = if ltb d 10 then b'0' + d else b'a' + (d - 10)

-- `%02x` of each byte of the digest
pub hex : List ℕ → List ℕ
unfolding hex_digit
hex [] = []
hex (d ∷ ds) = hex_digit (d / 16) ∷ hex_digit (d % 16) ∷ hex ds

-- The MD5 library that `md5Hash` calls: its context and three functions.
pub record Md5 : Type 1 where
  pub Ctx : Type 0
  pub init : Ctx
  pub update : Ctx → List ℕ → Ctx
  pub final : Ctx → List ℕ

module _ (md5 : Md5) where
  open md5 use {Ctx, init, update, final}

  -- `while (length > 0) { ... }`: blocks of 512 bytes, then the rest
  update_blocks : ℕ → Ctx → List ℕ → ℕ → Ctx
  update_blocks zero c str length = c
  update_blocks (suc f) c str length =
      let rest =
        update_blocks f (update c (take (if ltb 512 length then 512 else length) str))
          (drop 512 str) (length - 512) in
      if ltb 0 length then rest else c

  -- `md5Hash`: the 33 bytes of `out`, the last of them the NUL of the last `snprintf`
  unfoldable pub md5_hash : List ℕ → ℕ → List ℕ
  unfolding update_blocks hex
  md5_hash str length = hex (final (update_blocks length init str length)) ++ (0 ∷ [])
