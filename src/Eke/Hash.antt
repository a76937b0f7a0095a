-- ===== src/Eke/Hash.antt =====
-- `md5Hash` of target_spw/eke.c.
use crypto_jasmine.Base.{
  ℕ, zero, suc, ◌-◌, ◌≤◌, ◌≡◌, refl, sym, inl, inr, List, [], ◌∷◌, ◌++◌, arith, ltb, Bool-cases,
  length, take, drop, take-append-drop, length-drop,
}
use crypto_jasmine.Eke.{Md5, update_blocks, hex, md5_hash}

take_all {ℓ} : {A : Type ℓ} (n : ℕ) (xs : List A) → length xs ≤ n → take n xs ≡ xs
take_all zero [] h = refl
take_all zero (x ∷ xs) h = absurd (omega arith)
take_all (suc n) [] h = refl
take_all (suc n) (x ∷ xs) h = rw (take_all n xs (omega arith))

-- What the library promises of its incremental interface: two updates are one of both inputs.
abbrev pub Incremental : Md5 → Type 0
Incremental m =
    ((c : m.Ctx) → m.update c [] ≡ c)
    × ((c : m.Ctx) (xs ys : List ℕ) → m.update (m.update c xs) ys ≡ m.update c (xs ++ ys))

drop_all {ℓ} : {A : Type ℓ} (n : ℕ) (xs : List A) → length xs ≤ n → drop n xs ≡ []
drop_all zero [] h = refl
drop_all zero (x ∷ xs) h = absurd (omega arith)
drop_all (suc n) [] h = refl
drop_all (suc n) (x ∷ xs) h = drop_all n xs (omega arith)

nil_of_length {ℓ} : {A : Type ℓ} (xs : List A) → length xs ≡ 0 → xs ≡ []
nil_of_length [] h = refl
nil_of_length (x ∷ xs) h = absurd (omega arith)

module _ (m : Md5) (inc : Incremental m) where
  update_blocks_lem :
      (f n : ℕ) (c : m.Ctx) (str : List ℕ)
      → length str ≡ n
      → n ≤ f
      → update_blocks m f c str n ≡ m.update c str
  unfolding update_blocks
  update_blocks_lem zero n c str e h = rw (nil_of_length str (omega arith)) (sym (inc.0 c))
  update_blocks_lem (suc f) n c str e h = elim (Bool-cases (ltb 0 n)) [
    | inr done ↦ rw (done, nil_of_length str (ground arith)) (sym (inc.0 c))
    | inl more ↦ elim (Bool-cases (ltb 512 n)) [
      | inl long ↦ rw (
        more,
        long,
        update_blocks_lem f (n - 512) (m.update c (take 512 str)) (drop 512 str)
            (omega (arith, length-drop 512 str)) (ground arith),
        inc.1 c (take 512 str) (drop 512 str),
        take-append-drop 512 str,
      )
      | inr short ↦ rw (
        more,
        short,
        take_all n str (omega arith),
        drop_all 512 str (ground arith),
        update_blocks_lem f (n - 512) (m.update c str) [] (ground arith) (ground arith),
        inc.0 (m.update c str),
      )
    ]
  ]

  -- If two updates of a context are one of both inputs, `md5Hash` of a string is the MD5 of the
  -- whole string, in hexadecimal, with a NUL behind it, though it is fed in blocks of 512 bytes.
  pub md5_hash_lem :
      (str : List ℕ) → md5_hash m str (length str) ≡ hex (m.final (m.update m.init str)) ++ (0 ∷ [])
  unfolding md5_hash
  md5_hash_lem str = rw (update_blocks_lem (length str) (length str) m.init str refl (omega arith))
