-- ===== src/Shashtbl/Put.antt =====
-- `shashtbl_get` of target_spw/shashtbl.c after a new node has been put at the head of a chain.
use mathlib.Core.Path.{subst}
use crypto_jasmine.Base.{
  ℕ, ◌≤◌, ◌<◌, ◌≡◌, ◌≢◌, ◌⊎◌, inl, inr, refl, sym, ap, ◌∙◌, arith, Option, some, List, ◌∷◌, length,
  upd, Eq-cases, ==-ne, ==-refl,
}
use crypto_jasmine.Shashtbl.Table.{Hashnode, Shashtbl, hash_val, put_node, shashtbl_get}
use crypto_jasmine.Shashtbl.Chain.{
  Chain, Outside, first_with, find-first_with, Chain-upd, value, value-upd,
}

module _ (bucket_size node_addr nodes_per_bank : ℕ) where
  -- The table reads as the list of addresses for the chain of a key.
  abbrev pub Chained : (bank key : ℕ) → Shashtbl → List ℕ → Type 0
  Chained bank key t xs =
      Chain t.node (t.bucket bank (hash_val bucket_size node_addr nodes_per_bank key)) xs

  pub get-value :
      (n bank key : ℕ) (t : Shashtbl) (xs : List ℕ)
      → Chained bank key t xs
      → length xs ≤ n
      → shashtbl_get bucket_size node_addr nodes_per_bank n bank key t ≡ some (value t.node key xs)
  unfolding shashtbl_get
  get-value n bank key t xs c h = elim (Eq-cases (first_with t.node key xs) 0) [
    | inl missing ↦ rw (find-first_with n t.node key _ xs c h, missing)
    | inr found ↦
        rw (find-first_with n t.node key _ xs c h, ==-ne (first_with t.node key xs) 0 found)
  ]

  abbrev hash_of : ℕ → ℕ
  hash_of key = hash_val bucket_size node_addr nodes_per_bank key

  abbrev pub put : (bank key content a : ℕ) → Shashtbl → Shashtbl
  put bank key content a t = put_node bucket_size node_addr nodes_per_bank bank key content a t

  -- The chain of the bucket has the new node in front.
  put-front :
      (bank key content a : ℕ) (t : Shashtbl) (xs : List ℕ)
      → a ≢ 0
      → Outside a xs
      → Chained bank key t xs
      → Chain
          (put bank key content a t).node
          ((put bank key content a t).bucket bank (hash_of key))
          (a ∷ xs)
  unfolding put_node
  put-front bank key content a t xs pos out c =
      let v : ℕ = hash_of key in
      let new : Hashnode = record { key = key; content = content; next = t.bucket bank v } in
      (
        rw (==-refl bank, ==-refl v),
        pos,
        rw (==-refl a) (Chain-upd (t.node) a new (t.bucket bank v) xs out c),
      )

  put-bucket :
      (bank key content a b w : ℕ) (t : Shashtbl)
      → (b ≢ bank) ⊎ (w ≢ hash_of key)
      → (put bank key content a t).bucket b w ≡ t.bucket b w
  unfolding put_node
  put-bucket bank key content a b w t (inl ne) = rw (==-ne b bank ne)
  put-bucket bank key content a b w t (inr ne) = elim (Eq-cases b bank) [
    | inl same ↦ rw (same, ==-refl bank, ==-ne w (hash_of key) ne)
    | inr other ↦ rw (==-ne b bank other)
  ]

  -- All other chains are as they were.
  put-apart :
      (bank key content a b w : ℕ) (t : Shashtbl) (xs : List ℕ)
      → (b ≢ bank) ⊎ (w ≢ hash_of key)
      → Outside a xs
      → Chain t.node (t.bucket b w) xs
      → Chain (put bank key content a t).node ((put bank key content a t).bucket b w) xs
  unfolding put_node
  put-apart bank key content a b w t xs ne out c =
      subst (λ head. Chain (put bank key content a t).node head xs)
        (sym (put-bucket bank key content a b w t ne))
        (Chain-upd (t.node) a _ (t.bucket b w) xs out c)

  put-node :
      (bank key content a : ℕ) (t : Shashtbl)
      → (put bank key content a t).node
        ≡ upd
            (t.node)
            a
            (record { key = key; content = content; next = t.bucket bank (hash_of key) })
  unfolding put_node
  put-node bank key content a t = refl

  -- A search behind the new node.
  value-front :
      (bank key content a k : ℕ) (t : Shashtbl) (xs : List ℕ)
      → a ≢ 0
      → Outside a xs
      → k ≢ key
      → value (put bank key content a t).node k (a ∷ xs) ≡ value t.node k xs
  unfolding put_node
  value-front bank key content a k t xs pos out ne =
      rw (==-refl a, ==-ne key k (λ e. ne (sym e))) (value-upd (t.node) a _ k xs pos out)

  value-new :
      (bank key content a : ℕ) (t : Shashtbl) (xs : List ℕ)
      → a ≢ 0
      → value (put bank key content a t).node key (a ∷ xs) ≡ content
  unfolding put_node
  value-new bank key content a t xs pos = rw (==-refl a, ==-refl key, ==-ne a 0 pos, ==-refl a)

  abbrev pub get : (n bank key : ℕ) → Shashtbl → Option ℕ
  get n bank key t = shashtbl_get bucket_size node_addr nodes_per_bank n bank key t

  pub get-put_new :
      (n bank key content a : ℕ) (t : Shashtbl) (xs : List ℕ)
      → a ≢ 0
      → Outside a xs
      → length xs < n
      → Chained bank key t xs
      → get n bank key (put bank key content a t) ≡ some content
  get-put_new n bank key content a t xs pos out h c =
      get-value n bank key (put bank key content a t) (a ∷ xs)
        (put-front bank key content a t xs pos out c) (omega arith)
      ∙ ap some (value-new bank key content a t xs pos)

  same-slot :
      (u : Shashtbl) (b bank k key : ℕ)
      → b ≡ bank
      → hash_of k ≡ hash_of key
      → u.bucket b (hash_of k) ≡ u.bucket bank (hash_of key)
  same-slot u b bank k key e f = rw (e, f)

  -- Another key of the same chain.
  get-put_behind :
      (n bank key content a b k : ℕ) (t : Shashtbl) (xs : List ℕ)
      → a ≢ 0
      → Outside a xs
      → length xs < n
      → Chained b k t xs
      → b ≡ bank
      → hash_of k ≡ hash_of key
      → k ≢ key
      → get n b k (put bank key content a t) ≡ get n b k t
  get-put_behind n bank key content a b k t xs pos out h c e f ne =
      let t' : Shashtbl = put bank key content a t in
      let here = subst (λ head. Chain (t.node) head xs) (same-slot t b bank k key e f) c in
      let there =
        subst (λ head. Chain (t'.node) head (a ∷ xs)) (sym (same-slot t' b bank k key e f))
          (put-front bank key content a t xs pos out here) in
      get-value n b k t' (a ∷ xs) there (omega arith)
      ∙ (ap some (value-front bank key content a k t xs pos out ne)
          ∙ sym (get-value n b k t xs c (omega arith)))

  -- A key of another chain.
  get-put_apart :
      (n bank key content a b k : ℕ) (t : Shashtbl) (xs : List ℕ)
      → a ≢ 0
      → Outside a xs
      → length xs < n
      → Chained b k t xs
      → (b ≢ bank) ⊎ (hash_of k ≢ hash_of key)
      → get n b k (put bank key content a t) ≡ get n b k t
  get-put_apart n bank key content a b k t xs pos out h c apart =
      let t' : Shashtbl = put bank key content a t in
      let same : value t'.node k xs ≡ value t.node k xs =
        rw (put-node bank key content a t) (value-upd (t.node) a _ k xs pos out) in
      get-value n b k t' xs (put-apart bank key content a b (hash_of k) t xs apart out c)
        (omega arith)
      ∙ (ap some same ∙ sym (get-value n b k t xs c (omega arith)))

  pub get-put_other :
      (n bank key content a b k : ℕ) (t : Shashtbl) (xs : List ℕ)
      → a ≢ 0
      → Outside a xs
      → length xs < n
      → Chained b k t xs
      → (b ≢ bank) ⊎ (k ≢ key)
      → get n b k (put bank key content a t) ≡ get n b k t
  get-put_other n bank key content a b k t xs pos out h c ne = elim (Eq-cases b bank) [
    | inr elsewhere ↦ get-put_apart n bank key content a b k t xs pos out h c (inl elsewhere)
    | inl here ↦ elim (Eq-cases (hash_of k) (hash_of key)) [
      | inr apart ↦ get-put_apart n bank key content a b k t xs pos out h c (inr apart)
      | inl slot ↦
          get-put_behind n bank key content a b k t xs pos out h c here slot
            (elim ne [ inl elsewhere ↦ absurd (elsewhere here) | inr other ↦ other ])
    ]
  ]
