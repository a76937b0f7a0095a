-- ===== src/Shashtbl/Update.antt =====
-- `shashtbl_get` of target_spw/shashtbl.c after `shashtbl_update`.
use mathlib.Core.Path.{subst}
use crypto_jasmine.Base.{
  ℕ, ◌≤◌, ◌≡◌, ◌≢◌, inl, inr, refl, sym, ap, ◌∙◌, Option, some, List, [], ◌∷◌, length, upd,
  Eq-cases, ==-ne, ==-refl,
}
use crypto_jasmine.Shashtbl.Table.{Hashnode, Shashtbl, shashtbl_update, shashtbl_get}
use crypto_jasmine.Shashtbl.Chain.{Chain, first_with, find-first_with, value}
use crypto_jasmine.Shashtbl.Put.{Chained, get-value}

-- A node with another content.
abbrev pub recontent : (ℕ → Hashnode) → (a new_val : ℕ) → ℕ → Hashnode
recontent node a new_val = upd node a (record (node a) { content = new_val })

recontent-next :
    (node : ℕ → Hashnode) (a new_val x : ℕ) → (recontent node a new_val x).next ≡ (node x).next
recontent-next node a new_val x = elim (Eq-cases x a) [
  | inl same ↦ rw (same, ==-refl a)
  | inr other ↦ rw (==-ne x a other)
]

recontent-key :
    (node : ℕ → Hashnode) (a new_val x : ℕ) → (recontent node a new_val x).key ≡ (node x).key
recontent-key node a new_val x = elim (Eq-cases x a) [
  | inl same ↦ rw (same, ==-refl a)
  | inr other ↦ rw (==-ne x a other)
]

Chain-recontent :
    (node : ℕ → Hashnode) (a new_val b : ℕ) (xs : List ℕ)
    → Chain node b xs
    → Chain (recontent node a new_val) b xs
Chain-recontent node a new_val b [] c = c
Chain-recontent node a new_val b (x ∷ xs) (e, pos, c) = (
  e,
  pos,
  subst (λ n. Chain (recontent node a new_val) n xs) (sym (recontent-next node a new_val x))
      (Chain-recontent node a new_val (node x).next xs c),
)

first_with-recontent :
    (node : ℕ → Hashnode) (a new_val key : ℕ) (xs : List ℕ)
    → first_with (recontent node a new_val) key xs ≡ first_with node key xs
first_with-recontent node a new_val key [] = refl
first_with-recontent node a new_val key (x ∷ xs) =
    rw (recontent-key node a new_val x, first_with-recontent node a new_val key xs)

-- What is found has the key.
first_with-key :
    (node : ℕ → Hashnode) (key : ℕ) (xs : List ℕ)
    → first_with node key xs ≢ 0
    → (node (first_with node key xs)).key ≡ key
first_with-key node key [] ne = absurd (ne refl)
first_with-key node key (x ∷ xs) ne = elim (Eq-cases (node x).key key) [
  | inl found ↦ rw (found, ==-refl key) found
  | inr other ↦
      rw (==-ne (node x).key key other)
        (first_with-key node key xs (λ e. ne (rw (==-ne (node x).key key other) e)))
]

value-recontent :
    (node : ℕ → Hashnode) (a new_val key k : ℕ) (xs : List ℕ)
    → (node a).key ≡ key
    → k ≢ key
    → value (recontent node a new_val) k xs ≡ value node k xs
value-recontent node a new_val key k xs at ne = elim (Eq-cases (first_with node k xs) 0) [
  | inl missing ↦ rw (first_with-recontent node a new_val k xs, missing)
  | inr found ↦
      let apart : first_with node k xs ≢ a =
        λ e. ne (sym (first_with-key node k xs found) ∙ (ap (λ r. (node r).key) e ∙ at)) in
      rw (first_with-recontent node a new_val k xs, ==-ne (first_with node k xs) a apart)
]

value-updated :
    (node : ℕ → Hashnode) (new_val key : ℕ) (xs : List ℕ)
    → first_with node key xs ≢ 0
    → value (recontent node (first_with node key xs) new_val) key xs ≡ new_val
value-updated node new_val key xs found = rw (
  first_with-recontent node (first_with node key xs) new_val key xs,
  ==-ne (first_with node key xs) 0 found,
  ==-refl (first_with node key xs),
)

module _ (bucket_size node_addr nodes_per_bank : ℕ) where
  abbrev get : (n bank key : ℕ) → Shashtbl → Option ℕ
  get n bank key t = shashtbl_get bucket_size node_addr nodes_per_bank n bank key t

  abbrev InChain : (bank key : ℕ) → Shashtbl → List ℕ → Type 0
  InChain bank key t xs = Chained bucket_size node_addr nodes_per_bank bank key t xs

  abbrev set_content : (a new_val : ℕ) → Shashtbl → Shashtbl
  set_content a new_val t = record t { node = recontent (t.node) a new_val }

  update-found :
      (n bank key new_val : ℕ) (t : Shashtbl) (xs : List ℕ)
      → InChain bank key t xs
      → length xs ≤ n
      → first_with t.node key xs ≢ 0
      → shashtbl_update bucket_size node_addr nodes_per_bank n bank key new_val t
        ≡ some (set_content (first_with t.node key xs) new_val t)
  unfolding shashtbl_update
  update-found n bank key new_val t xs c h found =
      rw (find-first_with n t.node key _ xs c h, ==-ne (first_with t.node key xs) 0 found)

  -- If a key is in its chain, an update of it succeeds: a search for the key then finds the new
  -- value, and a search for any other key, in any bank, finds what it found before.
  pub shashtbl_update-get :
      (n bank key new_val b k : ℕ) (t : Shashtbl) (xs ys : List ℕ)
      → InChain bank key t xs
      → length xs ≤ n
      → first_with t.node key xs ≢ 0
      → InChain b k t ys
      → length ys ≤ n
      → k ≢ key
      → (t' : Shashtbl) × (shashtbl_update bucket_size node_addr nodes_per_bank n bank key new_val t
          ≡ some t')
        × (get n bank key t' ≡ some new_val)
        × (get n b k t' ≡ get n b k t)
  shashtbl_update-get n bank key new_val b k t xs ys c h found d hd ne =
      let a : ℕ = first_with t.node key xs in
      let t' : Shashtbl = set_content a new_val t in
      (
        t',
        update-found n bank key new_val t xs c h found,
        get-value bucket_size node_addr nodes_per_bank n bank key t' xs
              (Chain-recontent (t.node) a new_val _ xs c) h
            ∙ ap some (value-updated (t.node) new_val key xs found),
        get-value bucket_size node_addr nodes_per_bank n b k t' ys
              (Chain-recontent (t.node) a new_val _ ys d) hd
            ∙ (ap some (
                  value-recontent (t.node) a new_val key k ys (first_with-key (t.node) key xs found)
                    ne)
                ∙ sym (get-value bucket_size node_addr nodes_per_bank n b k t ys d hd)),
      )
