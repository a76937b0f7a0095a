-- ===== src/Shashtbl/Tests.antt =====
-- target_spw/shashtbl.c on a small table, and the theorems there.
use crypto_jasmine.Base.{ℕ, ◌≡◌, ◌≢◌, ◌⊎◌, refl, arith, some, [], ◌∷◌}
use crypto_jasmine.Shashtbl.Table.{
  Shashtbl, shashtbl_init, shashtbl_insert, shashtbl_get, shashtbl_update, shashtbl_remove,
  hashfunc_rj, hash_val, take_node, put_node, find,
}
use crypto_jasmine.Shashtbl.Chain.{first_with, value}
use crypto_jasmine.Shashtbl.Put.{Chained}
use crypto_jasmine.Shashtbl.Insert.{taken, shashtbl_insert-get}
use crypto_jasmine.Shashtbl.Update.{shashtbl_update-get}
use crypto_jasmine.Shashtbl.Cut.{without}
use crypto_jasmine.Shashtbl.Removed.{shashtbl_remove-get}

-- Eight buckets in a bank, the nodes from address 4096 on, 100 of them for a bank. Bank 1 has the
-- keys 42 and 43, at the addresses 5296 and 5308.
abbrev entries : Shashtbl
entries = shashtbl_insert 8 4096 100 1 43 701 (shashtbl_insert 8 4096 100 1 42 700 shashtbl_init)

entries-get : shashtbl_get 8 4096 100 5 1 42 entries ≡ some 700
unfolding shashtbl_get shashtbl_insert shashtbl_init take_node put_node find hash_val hashfunc_rj
entries-get = refl

entries-taken : taken 8 4096 100 1 entries ≡ 5320
unfolding shashtbl_insert shashtbl_init take_node put_node hash_val hashfunc_rj
entries-taken = refl

chain_42 : Chained 8 4096 100 1 42 entries (5296 ∷ [])
unfolding shashtbl_insert shashtbl_init take_node put_node hash_val hashfunc_rj
chain_42 = (refl, omega arith, refl)

chain_43 : Chained 8 4096 100 1 43 entries (5308 ∷ [])
unfolding shashtbl_insert shashtbl_init take_node put_node hash_val hashfunc_rj
chain_43 = (refl, omega arith, refl)

at_42 : first_with entries.node 42 (5296 ∷ []) ≡ 5296
unfolding shashtbl_insert shashtbl_init take_node put_node hash_val hashfunc_rj
at_42 = refl

abbrev new_key : ℕ
new_key = 44

abbrev old_key : ℕ
old_key = 42

abbrev bank : ℕ
bank = 1

abbrev more : Shashtbl
more = shashtbl_insert 8 4096 100 bank new_key 702 entries

shashtbl_insert-get_example :
    (bank ≡ bank → old_key ≡ new_key → shashtbl_get 8 4096 100 5 bank old_key more ≡ some 702)
    × ((bank ≢ bank) ⊎ (old_key ≢ new_key)
        → shashtbl_get 8 4096 100 5 bank old_key more
          ≡ shashtbl_get 8 4096 100 5 bank old_key entries)
shashtbl_insert-get_example =
    shashtbl_insert-get 8 4096 100 5 bank new_key 702 bank old_key entries (5296 ∷ [])
      (omega (arith, entries-taken)) (omega (arith, entries-taken), tt) (omega arith) chain_42

shashtbl_update-get_example :
    (t' : Shashtbl) × (shashtbl_update 8 4096 100 5 1 42 710 entries ≡ some t')
    × (shashtbl_get 8 4096 100 5 1 42 t' ≡ some 710)
    × (shashtbl_get 8 4096 100 5 1 43 t' ≡ shashtbl_get 8 4096 100 5 1 43 entries)
shashtbl_update-get_example =
    shashtbl_update-get 8 4096 100 5 1 42 710 1 43 entries (5296 ∷ []) (5308 ∷ []) chain_42
      (omega arith) (omega (arith, at_42)) chain_43 (omega arith) (omega arith)

-- The keys 47 and 42 are in one bucket.
abbrev crowded : Shashtbl
crowded = shashtbl_insert 8 4096 100 1 47 705 entries

crowded-chain : Chained 8 4096 100 1 42 crowded (5320 ∷ 5296 ∷ [])
unfolding shashtbl_insert shashtbl_init take_node put_node hash_val hashfunc_rj
crowded-chain = (refl, omega arith, (refl, omega arith, refl))

crowded-at : first_with crowded.node 42 (5320 ∷ 5296 ∷ []) ≡ 5296
unfolding shashtbl_insert shashtbl_init take_node put_node hash_val hashfunc_rj
crowded-at = refl

one_bucket : hash_val 8 4096 100 47 ≡ hash_val 8 4096 100 42
unfolding hash_val hashfunc_rj
one_bucket = refl

shashtbl_remove-get_example :
    (t' : Shashtbl) × (shashtbl_remove 8 4096 100 5 1 42 crowded ≡ some t')
    × (shashtbl_get 8 4096 100 5 1 42 t'
        ≡ some (value crowded.node 42 (without crowded.node 42 (5320 ∷ 5296 ∷ []))))
    × (shashtbl_get 8 4096 100 5 1 47 t' ≡ shashtbl_get 8 4096 100 5 1 47 crowded)
shashtbl_remove-get_example =
    shashtbl_remove-get 8 4096 100 5 1 42 47 crowded (5320 ∷ 5296 ∷ []) crowded-chain
      ((omega arith, tt), (tt, tt)) (omega arith) (omega (arith, crowded-at)) one_bucket
      (omega arith)
