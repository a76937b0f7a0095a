-- ===== src/Greedy/Collect.antt =====
-- `get_vt_vblock` and `garbage_collection` of ftl_greedy/ftl.c.

use crypto_jasmine.Base.{ℕ, zero, suc, ◌+◌, ◌-◌, ◌*◌, ◌/◌, ◌%◌, ◌==◌, if◌then◌else◌, upd}
use crypto_jasmine.Base.Words.{add32, mul32}
use crypto_jasmine.Base.Geometry.{pages_per_blk, vblks_per_bank}
use crypto_jasmine.Greedy.State.{
  vc_max, Misc, Greedy, get_vpn, set_vpn, get_vcount, set_vcount, set_misc, set_lpn, copyback,
}

module _ {Data : Type 0} where
  unfoldable pub get_vt_vblock : ℕ → Greedy Data → ℕ
  get_vt_vblock bank s = s.search_min vblks_per_bank (s.vcount bank)

  -- One round of the copy loop: page `src` of the victim goes to `free_vpn` if it is valid.
  unfoldable pub copy_page : (bank victim src free_vpn : ℕ) → Greedy Data → ℕ × Greedy Data
  unfolding get_vpn set_vpn set_lpn set_misc copyback
  copy_page bank victim src free_vpn s =
      let src_lpn : ℕ = (s.misc bank).lpn_list_of_cur_vblock src in
      let src_vpn : ℕ = victim * pages_per_blk + src in
      if get_vpn s src_lpn == src_vpn
      then (let s : Greedy Data = copyback bank src_vpn free_vpn s in
          let s : Greedy Data = set_vpn src_lpn free_vpn s in
          (add32 free_vpn 1, set_lpn bank (free_vpn % pages_per_blk) src_lpn s))
      else (free_vpn, s)

  -- The rounds for `n` pages from `src` on
  unfoldable pub copy_pages : (n bank victim src free_vpn : ℕ) → Greedy Data → ℕ × Greedy Data
  copy_pages zero bank victim src free_vpn s = (free_vpn, s)
  copy_pages (suc n) bank victim src free_vpn s =
      let (free_vpn, s) = copy_page bank victim src free_vpn s in
      copy_pages n bank victim (src + 1) free_vpn s

  -- Erased flash reads as ones: `blank` is a sector of them.
  unfoldable pub block_erase : Data → (bank vblock : ℕ) → Greedy Data → Greedy Data
  block_erase blank bank vblock s =
      let pages = λ (vpn : ℕ).
        if vpn / pages_per_blk == vblock then (λ (i : ℕ). blank) else s.flash bank vpn in
      let ones : ℕ → ℕ = λ i. 0xffff_ffff in
      record s {
        flash = upd (s.flash) bank pages;
        lists = upd (s.lists) bank (upd (s.lists bank) vblock ones);
      }

  -- The start of a collection: the victim's list is loaded.
  unfoldable pub load_list : (bank victim : ℕ) → Greedy Data → Greedy Data
  unfolding set_misc
  load_list bank victim s =
      let m : Misc = s.misc bank in
      set_misc bank
        (record m { gc_cnt = add32 (m.gc_cnt) 2; lpn_list_of_cur_vblock = s.lists bank victim }) s

  -- The end: the victim is the free block of the next collection.
  unfoldable pub swap_blocks : (bank victim vcount free_vpn : ℕ) → Greedy Data → Greedy Data
  unfolding set_misc set_vcount
  swap_blocks bank victim vcount free_vpn s =
      let m : Misc = s.misc bank in
      let s : Greedy Data = set_vcount bank victim vc_max s in
      let s : Greedy Data = set_vcount bank (m.gc_vblock) vcount s in
      set_misc bank
        (record m {
          cur_write_vpn = free_vpn;
          gc_vblock = victim;
          free_blk_cnt = add32 (m.free_blk_cnt) 1;
        })
        s

  unfoldable pub collect_from : Data → (bank victim vcount : ℕ) → Greedy Data → Greedy Data
  collect_from blank bank victim vcount s =
      let free_vpn : ℕ = mul32 ((s.misc bank).gc_vblock) pages_per_blk in
      let (free_vpn, s) =
        copy_pages (pages_per_blk - 1) bank victim 0 free_vpn (load_list bank victim s) in
      swap_blocks bank victim vcount free_vpn (block_erase blank bank victim s)

  unfoldable pub garbage_collection : Data → ℕ → Greedy Data → Greedy Data
  garbage_collection blank bank s =
      let victim : ℕ = get_vt_vblock bank s in
      collect_from blank bank victim (get_vcount s bank victim) s
