-- ===== src/Greedy/Valid.antt =====
-- What holds of a bank of ftl_greedy/ftl.c between commands: the page map, the lists of logical
-- pages, the valid counts and the count of free blocks describe the same pages.
use crypto_jasmine.Base.{
  ℕ, zero, suc, ◌+◌, ◌-◌, ◌*◌, ◌≤◌, ◌<◌, ◌≡◌, ◌≢◌, ◌⊎◌, ◌∙◌, Bool, ◌&&◌, ◌==◌, if◌then◌else◌, arith,
  tally, tally-same,
}
use crypto_jasmine.Base.Geometry.{pages_per_blk, vblks_per_bank, get_num_bank}
use crypto_jasmine.Greedy.State.{Greedy, vc_max}
use crypto_jasmine.Greedy.Copying.{block, page_num, In}

-- The number of the `n` blocks behind `vblock` that are in use.
unfoldable pub in_use : (n : ℕ) → (ℕ → ℕ) → ℕ → ℕ
in_use zero vcount vblock = 0
in_use (suc n) vcount vblock =
    (if vcount (vblock + 1) == vc_max then 0 else 1) + in_use n vcount (vblock + 1)

-- An entry of a list is a page of the bank, or the 0 that a list starts with.
abbrev pub Mine : (bank lpn : ℕ) → Type 0
Mine bank lpn = In bank lpn ⊎ (lpn ≡ 0)

module _ {Data : Type 0} (bank : ℕ) where
  -- What the lists name at page `j` of a block: the list of the current block is in the SRAM.
  abbrev pub owner : Greedy Data → (v j : ℕ) → ℕ
  owner s v j =
      if v == block (s.misc bank).cur_write_vpn
      then (s.misc bank).lpn_list_of_cur_vblock j
      else s.lists bank v j

  -- Page `j` of block `v` is valid: the logical page that the lists name there is mapped there.
  abbrev pub holds : ((v j : ℕ) → ℕ) → Greedy Data → (v j : ℕ) → Bool
  holds o s v j = (get_num_bank (o v j) == bank) && (s.page_map (o v j) == v * pages_per_blk + j)

  -- The lists `o`, the map and the counts: no two logical pages share a physical one, each is in a
  -- block that is in use and not at its last page, the lists name it there, and the count of a block
  -- is the number of its valid pages.
  pub record Pages (o : (v j : ℕ) → ℕ) (s : Greedy Data) : Type 0 where
    pub one :
        (l m : ℕ) → In bank l → In bank m → 0 < s.page_map l → s.page_map l ≡ s.page_map m → l ≡ m
    pub low : (l : ℕ) → In bank l → 0 < s.page_map l → page_num (s.page_map l) < 127
    pub used :
        (l : ℕ) → In bank l → 0 < s.page_map l → s.vcount bank (block (s.page_map l)) ≢ vc_max
    pub named :
        (l : ℕ)
        → In bank l
        → 0 < s.page_map l
        → o (block (s.page_map l)) (page_num (s.page_map l)) ≡ l
    pub counted : (v : ℕ) → s.vcount bank v ≢ vc_max → s.vcount bank v ≡ tally 127 (holds o s v)
    pub meta_block : s.vcount bank 0 ≡ vc_max
    pub spare : s.vcount bank (s.misc bank).gc_vblock ≡ vc_max
    pub gc-pos : 0 < (s.misc bank).gc_vblock
    pub gc-lt : (s.misc bank).gc_vblock < vblks_per_bank

  -- The free blocks: 2 if every other block was written, as at the first collection and from then
  -- on; before it, 2 and the blocks behind the current one, where no page is yet.
  abbrev pub Phase : Greedy Data → Type 0
  Phase s =
      let cur : ℕ = block (s.misc bank).cur_write_vpn in
      ((s.misc bank).free_blk_cnt ≡ 2)
      ⊎ (((s.misc bank).free_blk_cnt ≡ 2 + in_use (vblks_per_bank - 1 - cur) (s.vcount bank) cur)
          × ((l : ℕ) → In bank l → block (s.page_map l) ≤ cur))

  -- A bank whose current block is written below page `n`.
  pub record Open (n : ℕ) (s : Greedy Data) : Type 0 where
    pub pages : Pages (owner s) s
    pub cur-lt : block (s.misc bank).cur_write_vpn < vblks_per_bank
    pub cur-used : s.vcount bank (block (s.misc bank).cur_write_vpn) ≢ vc_max
    pub cur-low : page_num (s.misc bank).cur_write_vpn < 127
    pub behind :
        (l : ℕ)
        → In bank l
        → block (s.page_map l) ≡ block (s.misc bank).cur_write_vpn
        → page_num (s.page_map l) < n
    pub own_list : (j : ℕ) → j < n → Mine bank ((s.misc bank).lpn_list_of_cur_vblock j)
    pub own_lists :
        (v j : ℕ)
        → v < vblks_per_bank
        → s.vcount bank v ≢ vc_max
        → (v < block (s.misc bank).cur_write_vpn)
          ⊎ ((v ≢ block (s.misc bank).cur_write_vpn) × ((s.misc bank).free_blk_cnt ≡ 2))
        → j < 127
        → Mine bank (s.lists bank v j)
    pub phase : Phase s

  -- Between commands, the current page is written.
  abbrev pub Valid : Greedy Data → Type 0
  Valid s = Open (page_num (s.misc bank).cur_write_vpn + 1) s

  pub Pages-same :
      (o o' : (v j : ℕ) → ℕ) (s s' : Greedy Data)
      → ((l : ℕ) → In bank l → s'.page_map l ≡ s.page_map l)
      → ((v : ℕ) → s'.vcount bank v ≡ s.vcount bank v)
      → (s'.misc bank).gc_vblock ≡ (s.misc bank).gc_vblock
      → ((v j : ℕ) → o' v j ≡ o v j)
      → Pages o s
      → Pages o' s'
  Pages-same o o' s s' em ev eg eo p = record {
    one = λ l m hl hm. rw (em l hl, em m hm) (p.one l m hl hm);
    low = λ l h. rw (em l h) (p.low l h);
    used = λ l h. rw (em l h, ev (block (s.page_map l))) (p.used l h);
    named = λ l h. rw (em l h, eo (block (s.page_map l)) (page_num (s.page_map l))) (p.named l h);
    counted = λ v. rw (ev v) (λ u.
        p.counted v u
        ∙ tally-same 127 {p = holds o s v} {q = holds o' s' v}
            (λ j h. rw (eo v j) (ground (arith, em (o v j)))));
    meta_block = ev 0 ∙ p.meta_block;
    spare = ev (s'.misc bank).gc_vblock ∙ rw eg (p.spare);
    gc-pos = rw eg (p.gc-pos);
    gc-lt = rw eg (p.gc-lt);
  }
