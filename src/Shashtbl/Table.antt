-- ===== src/Shashtbl/Table.antt =====
-- The tables of target_spw/shashtbl.c in the DRAM, and the operations on them. A node pointer is an
-- address, NULL is 0. The walk over a chain has a bound on its steps; `none` is a walk that goes on.
use Prim.Native.Nat.{bit_xor}
use crypto_jasmine.Base.{
  ℕ, zero, suc, ◌+◌, ◌*◌, ◌%◌, Option, none, some, ◌==◌, if◌then◌else◌, upd, ◌>>=◌,
}
use crypto_jasmine.Base.Words.{add32, shl32, shr}

-- INVALID of include/jasmine.h
abbrev pub invalid : ℕ
invalid = 0xabab_abab

-- `hashnode`; `content` is its field `data`.
pub record Hashnode : Type 0 where
  pub key : ℕ
  pub content : ℕ
  pub next : ℕ

-- `g_shashtbl`, the nodes by address, and the heads of the chains by bank and hash value.
pub record Shashtbl : Type 0 where
  pub num_elmts : ℕ → ℕ
  pub free_node_pool : ℕ → ℕ
  pub node : ℕ → Hashnode
  pub bucket : (bank hash : ℕ) → ℕ

unfoldable pub hashfunc_rj : ℕ → ℕ
hashfunc_rj key =
    let hash : ℕ = key in
    let hash : ℕ = add32 (add32 hash 0x7ed55d16) (shl32 hash 12) in
    let hash : ℕ = bit_xor (bit_xor hash 0xc761c23c) (shr hash 19) in
    let hash : ℕ = add32 (add32 hash 0x165667b1) (shl32 hash 5) in
    let hash : ℕ = bit_xor (add32 hash 0xd3a2646c) (shl32 hash 9) in
    let hash : ℕ = add32 (add32 hash 0xfd7046c5) (shl32 hash 3) in
    bit_xor (bit_xor hash 0xb55a4f09) (shr hash 16)

-- The memory is set to zeros.
unfoldable pub shashtbl_init : Shashtbl
shashtbl_init =
    let zeros : ℕ → ℕ = λ b. 0 in
    let nodes : ℕ → Hashnode = λ a. record { key = 0; content = 0; next = 0 } in
    let heads : ℕ → ℕ → ℕ = λ b v. 0 in
    record { num_elmts = zeros; free_node_pool = zeros; node = nodes; bucket = heads }

-- The node of the chain from `a` on that has the key: its address, or 0.
unfoldable pub find : (steps : ℕ) → (ℕ → Hashnode) → (key a : ℕ) → Option ℕ
find zero node key a = if a == 0 then some 0 else none
find (suc n) node key a =
    let rest = find n node key (node a).next in
    if a == 0 then some 0 else if (node a).key == key then some a else rest

-- The same, with the node before it, or 0.
unfoldable pub find_prev : (steps : ℕ) → (ℕ → Hashnode) → (key prev a : ℕ) → Option (ℕ × ℕ)
find_prev zero node key prev a = if a == 0 then some (prev, 0) else none
find_prev (suc n) node key prev a =
    let rest = find_prev n node key a (node a).next in
    if a == 0 then some (prev, 0) else if (node a).key == key then some (prev, a) else rest

-- HASH_BUCKET_SIZE, HASH_NODE_ADDR and (LOG_BLK_PER_BANK + ISOL_BLK_PER_BANK) * PAGES_PER_BLK, which
-- ftl_faster/ftl.h computes from the geometry of the flash.
module _ (bucket_size node_addr nodes_per_bank : ℕ) where
  unfoldable pub hash_val : ℕ → ℕ
  hash_val key = hashfunc_rj key % bucket_size

  -- The address of the node that an insertion takes, and the table without it.
  unfoldable pub take_node : ℕ → Shashtbl → ℕ × Shashtbl
  take_node bank t =
      let index : ℕ = t.num_elmts bank in
      let pool : ℕ = t.free_node_pool bank in
      if pool == 0
      then (
        node_addr + (bank * nodes_per_bank + index) * 12,
        record t { num_elmts = upd (t.num_elmts) bank (add32 index 1) },
      )
      else (pool, record t { free_node_pool = upd (t.free_node_pool) bank (t.node pool).next })

  unfoldable pub put_node : (bank key content a : ℕ) → Shashtbl → Shashtbl
  put_node bank key content a t =
      let v : ℕ = hash_val key in
      let new : Hashnode = record { key = key; content = content; next = t.bucket bank v } in
      record t { node = upd (t.node) a new; bucket = upd (t.bucket) bank (upd (t.bucket bank) v a) }

  unfoldable pub shashtbl_insert : (bank key content : ℕ) → Shashtbl → Shashtbl
  shashtbl_insert bank key content t =
      let (a, t) = take_node bank t in put_node bank key content a t

  unfoldable pub shashtbl_get : (steps : ℕ) → (bank key : ℕ) → Shashtbl → Option ℕ
  shashtbl_get steps bank key t = do
    a ← find steps (t.node) key (t.bucket bank (hash_val key))
    if a == 0 then some invalid else some ((t.node a).content)

  -- Without assertions, a key that is not there changes nothing.
  unfoldable pub shashtbl_update : (steps : ℕ) → (bank key new_val : ℕ) → Shashtbl → Option Shashtbl
  shashtbl_update steps bank key new_val t = do
    a ← find steps (t.node) key (t.bucket bank (hash_val key))
    if a == 0
        then some t
        else some (record t { node = upd (t.node) a (record (t.node a) { content = new_val }) })

  -- A node is taken out of its chain, behind `prev` or at the head.
  unfoldable pub unlink : (bank v prev a : ℕ) → Shashtbl → Shashtbl
  unlink bank v prev a t =
      let behind : ℕ = (t.node a).next in
      if prev == 0
      then record t { bucket = upd (t.bucket) bank (upd (t.bucket bank) v behind) }
      else record t { node = upd (t.node) prev (record (t.node prev) { next = behind }) }

  -- The node is the first of the free ones.
  unfoldable pub free_node : (bank a : ℕ) → Shashtbl → Shashtbl
  free_node bank a t = record t {
    node = upd (t.node) a (record (t.node a) { next = t.free_node_pool bank });
    free_node_pool = upd (t.free_node_pool) bank a;
  }

  unfoldable pub shashtbl_remove : (steps : ℕ) → (bank key : ℕ) → Shashtbl → Option Shashtbl
  shashtbl_remove steps bank key t =
      let v : ℕ = hash_val key in
      do
        (prev, a) ← find_prev steps (t.node) key 0 (t.bucket bank v)
        if a == 0 then some t else some (free_node bank a (unlink bank v prev a t))
