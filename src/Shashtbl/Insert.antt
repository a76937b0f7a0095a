-- ===== src/Shashtbl/Insert.antt =====
-- `shashtbl_get` of target_spw/shashtbl.c after `shashtbl_insert`.
use mathlib.Core.Path.{subst}
use crypto_jasmine.Base.{ℕ, ◌<◌, ◌≡◌, ◌≢◌, ◌⊎◌, sym, ◌∙◌, arith, some, List, length}
use crypto_jasmine.Shashtbl.Table.{Shashtbl, take_node, shashtbl_insert, shashtbl_get}
use crypto_jasmine.Shashtbl.Chain.{Outside}
use crypto_jasmine.Shashtbl.Put.{Chained, get, put, get-put_new, get-put_other}

module _ (bucket_size node_addr nodes_per_bank : ℕ) where
  abbrev insert : (bank key content : ℕ) → Shashtbl → Shashtbl
  insert bank key content t =
      shashtbl_insert bucket_size node_addr nodes_per_bank bank key content t

  -- The node that an insertion takes.
  abbrev pub taken : ℕ → Shashtbl → ℕ
  taken bank t = (take_node bucket_size node_addr nodes_per_bank bank t).0

  -- The table without the node that is taken has the same chains.
  take_node-node :
      (bank : ℕ) (t : Shashtbl)
      → (take_node bucket_size node_addr nodes_per_bank bank t).1.node ≡ t.node
  unfolding take_node
  take_node-node bank t = ground arith

  take_node-bucket :
      (bank : ℕ) (t : Shashtbl)
      → (take_node bucket_size node_addr nodes_per_bank bank t).1.bucket ≡ t.bucket
  unfolding take_node
  take_node-bucket bank t = ground arith

  taken-Chained :
      (bank b k : ℕ) (t : Shashtbl) (xs : List ℕ)
      → Chained bucket_size node_addr nodes_per_bank b k t xs
      → Chained bucket_size node_addr nodes_per_bank b k
          (take_node bucket_size node_addr nodes_per_bank bank t).1
          xs
  taken-Chained bank b k t xs c = rw (take_node-node bank t, take_node-bucket bank t) c

  taken-get :
      (n bank b k : ℕ) (t : Shashtbl)
      → get bucket_size node_addr nodes_per_bank n b k
          (take_node bucket_size node_addr nodes_per_bank bank t).1
        ≡ get bucket_size node_addr nodes_per_bank n b k t
  unfolding shashtbl_get
  taken-get n bank b k t = rw (take_node-node bank t, take_node-bucket bank t)

  -- After an insertion, a search of the same bank for the key finds what was inserted, also if an
  -- older node has that key; any other search, of a chain that does not have the new node yet, finds
  -- what it found before.
  pub shashtbl_insert-get :
      (n bank key content b k : ℕ) (t : Shashtbl) (xs : List ℕ)
      → taken bank t ≢ 0
      → Outside (taken bank t) xs
      → length xs < n
      → Chained bucket_size node_addr nodes_per_bank b k t xs
      → (b ≡ bank
          → k ≡ key
          → get bucket_size node_addr nodes_per_bank n b k (insert bank key content t)
            ≡ some content)
        × ((b ≢ bank) ⊎ (k ≢ key)
            → get bucket_size node_addr nodes_per_bank n b k (insert bank key content t)
              ≡ get bucket_size node_addr nodes_per_bank n b k t)
  unfolding shashtbl_insert
  shashtbl_insert-get n bank key content b k t xs pos out h c =
      let a : ℕ = taken bank t in
      let u : Shashtbl = (take_node bucket_size node_addr nodes_per_bank bank t).1 in
      let c' : Chained bucket_size node_addr nodes_per_bank b k u xs =
        taken-Chained bank b k t xs c in
      (
        (λ e f.
            let at_key : Chained bucket_size node_addr nodes_per_bank bank key u xs =
              subst (λ l. Chained bucket_size node_addr nodes_per_bank bank l u xs) f
                (subst (λ d. Chained bucket_size node_addr nodes_per_bank d k u xs) e c') in
            subst
              (λ d.
                get bucket_size node_addr nodes_per_bank n d k
                  (put bucket_size node_addr nodes_per_bank bank key content a u)
                ≡ some content)
              (sym e)
              (subst
                (λ l.
                  get bucket_size node_addr nodes_per_bank n bank l
                    (put bucket_size node_addr nodes_per_bank bank key content a u)
                  ≡ some content)
                (sym f)
                (get-put_new bucket_size node_addr nodes_per_bank n bank key content a u xs pos out
                  h at_key))),
        λ ne.
            get-put_other bucket_size node_addr nodes_per_bank n bank key content a b k u xs pos out
              h c' ne
            ∙ taken-get n bank b k t,
      )
