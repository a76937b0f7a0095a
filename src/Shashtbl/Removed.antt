-- ===== src/Shashtbl/Removed.antt =====
-- `shashtbl_remove` of target_spw/shashtbl.c, on both places of a node: at the head of its chain and
-- behind another one.
use mathlib.Core.Path.{subst}
use crypto_jasmine.Base.{
  ℕ, ◌≤◌, ◌≡◌, ◌≢◌, inl, inr, refl, sym, ap, ◌∙◌, arith, some, List, [], ◌∷◌, length, Eq-cases,
  ==-ne, ==-refl,
}
use crypto_jasmine.Shashtbl.Table.{Hashnode, Shashtbl, hash_val, shashtbl_remove, unlink, free_node}
use crypto_jasmine.Shashtbl.Chain.{Chain, Outside, first_with, first_with-ne, Chain-upd, value}
use crypto_jasmine.Shashtbl.Put.{Chained, get, get-value}
use crypto_jasmine.Shashtbl.Cut.{Apart, without, prev_of, find_prev-prev_of, bypass, bypass-Chain}
use crypto_jasmine.Shashtbl.Remove.{
  length-without, Outside-first_with, Alike, value-Alike, value-without, relink-Alike,
}

prev_of-pos :
    (node : ℕ → Hashnode) (key b x : ℕ) (xs : List ℕ)
    → Chain node b (x ∷ xs)
    → prev_of node key x xs ≢ 0
prev_of-pos node key b x [] (e, pos, c) z = pos z
prev_of-pos node key b x (y ∷ ys) (e, pos, c) z = elim (Eq-cases (node y).key key) [
  | inl found ↦ pos (sym (rw (found, ==-refl key)) ∙ z)
  | inr other ↦
      prev_of-pos node key (node x).next y ys c (sym (rw (==-ne (node y).key key other)) ∙ z)
]

module _ (bucket_size node_addr nodes_per_bank bank v : ℕ) (t : Shashtbl) where
  -- The table after the removal of the node at `a`, which has `p` before it.
  abbrev rest : (p a : ℕ) → Shashtbl
  rest p a =
      free_node bucket_size node_addr nodes_per_bank bank a
        (unlink bucket_size node_addr nodes_per_bank bank v p a t)

  abbrev Rest : (p a : ℕ) → List ℕ → Type 0
  Rest p a zs = Chain (rest p a).node ((rest p a).bucket bank v) zs

  to-Rest :
      {p p' a a' : ℕ} {zs zs' : List ℕ} → p ≡ p' → a ≡ a' → zs ≡ zs' → Rest p a zs → Rest p' a' zs'
  to-Rest {p} {p'} {a} {a'} {zs} {zs'} ep ea ez r =
      subst (λ q. Rest q a' zs') ep (subst (λ b. Rest p b zs') ea (subst (Rest p a) ez r))

  front :
      (x : ℕ) (xs : List ℕ) → Chain t.node (t.bucket bank v) (x ∷ xs) → Outside x xs → Rest 0 x xs
  unfolding free_node unlink
  front x xs (e, pos, c) out =
      rw (==-refl bank, ==-refl v) (Chain-upd (t.node) x _ (t.node x).next xs out c)

  abbrev unlinked : (p a : ℕ) → Shashtbl
  unlinked p a = unlink bucket_size node_addr nodes_per_bank bank v p a t

  abbrev freed : ℕ → Shashtbl → Shashtbl
  freed a u = free_node bucket_size node_addr nodes_per_bank bank a u

  unlink-behind : (p a : ℕ) → p ≢ 0 → unlinked p a ≡ record t { node = bypass (t.node) p a }
  unfolding unlink
  unlink-behind p a pos = rw (==-ne p 0 pos)

  behind :
      (p a : ℕ) (zs : List ℕ)
      → p ≢ 0
      → Chain (bypass (t.node) p a) (t.bucket bank v) zs
      → Outside a zs
      → Rest p a zs
  unfolding free_node
  behind p a zs pos c out =
      subst (λ u. Chain (freed a u).node ((freed a u).bucket bank v) zs)
        (sym (unlink-behind p a pos))
        (Chain-upd (bypass (t.node) p a) a _ (t.bucket bank v) zs out c)

  free-Alike : (a : ℕ) (u : Shashtbl) → Alike (freed a u).node u.node
  unfolding free_node
  free-Alike a u = relink-Alike (u.node) a (u.free_node_pool bank)

  unlink-Alike : (p a : ℕ) → Alike (unlinked p a).node t.node
  unfolding unlink
  unlink-Alike p a = elim (Eq-cases p 0) [
    | inl first ↦ rw first (λ y. (refl, refl))
    | inr later ↦ rw (==-ne p 0 later) (relink-Alike (t.node) p (t.node a).next)
  ]

  rest-Alike : (p a : ℕ) → Alike (rest p a).node t.node
  rest-Alike p a y =
      let (k, c) = free-Alike a (unlinked p a) y in
      let (k', c') = unlink-Alike p a y in (k ∙ k', c ∙ c')

  -- The chain after a removal, whichever place the node has.
  removed-Rest :
      (key : ℕ) (xs : List ℕ)
      → Chain t.node (t.bucket bank v) xs
      → Apart xs
      → first_with t.node key xs ≢ 0
      → Rest (prev_of t.node key 0 xs) (first_with t.node key xs) (without t.node key xs)
  removed-Rest key [] c apart found = absurd (found refl)
  removed-Rest key (x ∷ xs) c (out, apart) found = elim (Eq-cases (t.node x).key key) [
    | inl here ↦
        to-Rest {p = 0} {a = x} {zs = xs} (rw (here, ==-refl key)) (rw (here, ==-refl key))
          (rw (here, ==-refl key)) (front x xs c out)
    | inr later ↦
        let skip = ==-ne (t.node x).key key later in
        let p : ℕ = prev_of t.node key x xs in
        let a : ℕ = first_with t.node key xs in
        let found' : a ≢ 0 = λ z. found (rw skip z) in
        let (e, pos, c') = c in
        let cut =
          bypass-Chain (t.node) key (t.bucket bank v) x p a xs c (out, apart) refl refl found' in
        let gone : Outside a (x ∷ without t.node key xs) = (
          (λ z. first_with-ne (t.node) x key xs pos out (sym z)),
          Outside-first_with (t.node) key _ xs c' apart,
        ) in
        to-Rest {p = p} {a = a} {zs = x ∷ without t.node key xs} (rw skip) (rw skip) (rw skip)
          (behind p a (x ∷ without t.node key xs) (prev_of-pos (t.node) key _ x xs c) cut gone)
  ]

module _ (bucket_size node_addr nodes_per_bank : ℕ) where
  remove-found :
      (n bank key : ℕ) (t : Shashtbl) (xs : List ℕ)
      → Chained bucket_size node_addr nodes_per_bank bank key t xs
      → length xs ≤ n
      → first_with t.node key xs ≢ 0
      → shashtbl_remove bucket_size node_addr nodes_per_bank n bank key t
        ≡ some (
            rest bucket_size node_addr nodes_per_bank bank
              (hash_val bucket_size node_addr nodes_per_bank key)
              t
              (prev_of t.node key 0 xs)
              (first_with t.node key xs))
  unfolding shashtbl_remove
  remove-found n bank key t xs c h found =
      rw (find_prev-prev_of n t.node key 0 _ xs c h, ==-ne (first_with t.node key xs) 0 found)

  -- If a key is in its chain, in which no node is twice, a removal of it succeeds: a search for the
  -- key then finds what the chain has without its first node with the key, and a search for another
  -- key of the same chain finds what it found before.
  pub shashtbl_remove-get :
      (n bank key k : ℕ) (t : Shashtbl) (xs : List ℕ)
      → Chained bucket_size node_addr nodes_per_bank bank key t xs
      → Apart xs
      → length xs ≤ n
      → first_with t.node key xs ≢ 0
      → hash_val bucket_size node_addr nodes_per_bank k
        ≡ hash_val bucket_size node_addr nodes_per_bank key
      → k ≢ key
      → (t' : Shashtbl) × (shashtbl_remove bucket_size node_addr nodes_per_bank n bank key t
          ≡ some t')
        × (get bucket_size node_addr nodes_per_bank n bank key t'
            ≡ some (value t.node key (without t.node key xs)))
        × (get bucket_size node_addr nodes_per_bank n bank k t'
            ≡ get bucket_size node_addr nodes_per_bank n bank k t)
  shashtbl_remove-get n bank key k t xs c apart h found slot ne =
      let v : ℕ = hash_val bucket_size node_addr nodes_per_bank key in
      let p : ℕ = prev_of t.node key 0 xs in
      let a : ℕ = first_with t.node key xs in
      let zs : List ℕ = without t.node key xs in
      let t' : Shashtbl = rest bucket_size node_addr nodes_per_bank bank v t p a in
      let alike = rest-Alike bucket_size node_addr nodes_per_bank bank v t p a in
      let chain = removed-Rest bucket_size node_addr nodes_per_bank bank v t key xs c apart found in
      let short : length zs ≤ n = omega (arith, length-without (t.node) key xs) in
      let found_k = subst (λ w. Chain (t'.node) (t'.bucket bank w) zs) (sym slot) chain in
      let before_k = subst (λ w. Chain (t.node) (t.bucket bank w) xs) (sym slot) c in
      (
        t',
        remove-found n bank key t xs c h found,
        get-value bucket_size node_addr nodes_per_bank n bank key t' zs chain short
            ∙ ap some (value-Alike (t'.node) (t.node) key zs alike),
        get-value bucket_size node_addr nodes_per_bank n bank k t' zs found_k short
            ∙ (ap some
                  (value-Alike (t'.node) (t.node) k zs alike ∙ value-without (t.node) key k xs ne)
                ∙ sym (get-value bucket_size node_addr nodes_per_bank n bank k t xs before_k h)),
      )
