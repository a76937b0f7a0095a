-- ===== src/Eke/Tests.antt =====
-- target_spw/eke.c on concrete numbers, and the theorems there.
use crypto_jasmine.Base.{
  ℕ, ◌+◌, ◌-◌, ◌*◌, ◌%◌, ◌^◌, ◌≡◌, refl, arith, none, some, List, [], ◌∷◌, ◌++◌,
}
use mathlib.Core.List.{append-nil, append_assoc}
use crypto_jasmine.Eke.{prime, generator, Md5, mul_mod_p, powmodp, md5_hash, hex}
use crypto_jasmine.Eke.Mul.{mul_mod_p_lem}
use crypto_jasmine.Eke.Pow.{powmodp-pow, powmodp-zero}
use crypto_jasmine.Eke.Agreement.{public_key, powmodp_agreement}
use crypto_jasmine.Eke.Hash.{md5_hash_lem}

powers : (powmodp 64 5 3 ≡ some 125) × (powmodp 64 (prime - 1) (2 ^ 63 + 1) ≡ some (prime - 1))
unfolding powmodp mul_mod_p
powers = (refl, refl)

mul_mod_p_lem_example :
    mul_mod_p (prime - 1) (2 ^ 64 - 1) ≡ some ((prime - 1) * (2 ^ 64 - 1) % prime)
mul_mod_p_lem_example = mul_mod_p_lem (prime - 1) (2 ^ 64 - 1) (omega arith) (omega arith)

powmodp-pow_example : powmodp 64 (2 ^ 64 - 1) 3 ≡ some ((2 ^ 64 - 1) ^ 3 % prime)
powmodp-pow_example =
    powmodp-pow 64 (2 ^ 64 - 1) 3 (omega arith) (omega arith) (omega arith) (λ e. omega arith)

powmodp-zero_example : powmodp 64 generator 0 ≡ none
powmodp-zero_example = powmodp-zero 64 generator

powmodp_agreement_example :
    (powmodp 64 generator 6 ≡ some (public_key 6))
    × (powmodp 64 generator 15 ≡ some (public_key 15))
    × (powmodp 64 (public_key 6) 15 ≡ powmodp 64 (public_key 15) 6)
    × (powmodp 64 (public_key 6) 15 ≡ some (public_key 6 ^ 15 % prime))
powmodp_agreement_example =
    powmodp_agreement 64 6 15 (omega arith) (omega arith) (omega arith) (omega arith)

-- A digest that is the text itself.
abbrev text_md5 : Md5
text_md5 = record { Ctx = List ℕ; init = []; update = λ c xs. c ++ xs; final = λ c. c }

md5_hash_lem_example : md5_hash text_md5 (0x1f ∷ 0xa0 ∷ []) 2 ≡ hex (0x1f ∷ 0xa0 ∷ []) ++ (0 ∷ [])
md5_hash_lem_example = md5_hash_lem text_md5 (append-nil, append_assoc) (0x1f ∷ 0xa0 ∷ [])

hashed : md5_hash text_md5 (0x1f ∷ 0xa0 ∷ []) 2 ≡ b'1' ∷ b'f' ∷ b'a' ∷ b'0' ∷ 0 ∷ []
unfolding md5_hash
hashed = refl
