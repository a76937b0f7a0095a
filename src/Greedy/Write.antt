-- ===== src/Greedy/Write.antt =====
-- `assign_new_write_vpn`, `write_page` and `ftl_write` of ftl_greedy/ftl.c.
use crypto_jasmine.Base.{
  ℕ, zero, suc, ◌+◌, ◌-◌, ◌/◌, ◌%◌, not, ◌&&◌, Option, none, some, ltb, leb, ◌==◌, if◌then◌else◌,
  upd, ◌>>=◌,
}
use crypto_jasmine.Base.Words.{add32, sub32, mul32}
use crypto_jasmine.Base.Geometry.{
  pages_per_blk, vblks_per_bank, sectors_per_page, num_lpages, get_num_bank,
}
use crypto_jasmine.Greedy.State.{
  vc_max, Misc, Greedy, get_vpn, set_vpn, get_vcount, set_vcount, set_misc, set_lpn, ptread,
  ptprogram_from_host,
}
use crypto_jasmine.Greedy.Collect.{garbage_collection}

-- The next block behind `vblock` that is in use, of the `n` blocks there; behind the last one the
-- loop goes on with the counts of another bank.
unfoldable pub next_vblock : (n : ℕ) → (ℕ → ℕ) → ℕ → Option ℕ
next_vblock zero vcount vblock = none
next_vblock (suc n) vcount vblock =
    let rest = next_vblock n vcount (vblock + 1) in
    if vcount (vblock + 1) == vc_max then rest else some (vblock + 1)

module _ {Data : Type 0} where
  -- The list of the block is written to its last page, and cleared.
  unfoldable pub close_vblock : (bank vblock : ℕ) → Greedy Data → Greedy Data
  unfolding set_misc
  close_vblock bank vblock s =
      let m : Misc = s.misc bank in
      let list : ℕ → ℕ = m.lpn_list_of_cur_vblock in
      let zeros : ℕ → ℕ = λ i. 0 in
      set_misc bank
        (record m { lpn_list_of_cur_vblock = zeros; free_blk_cnt = sub32 (m.free_blk_cnt) 1 })
        (record s { lists = upd (s.lists) bank (upd (s.lists bank) vblock list) })

  unfoldable pub set_new_write_vpn : (bank vpn : ℕ) → Greedy Data → Greedy Data
  unfolding set_misc
  set_new_write_vpn bank vpn s =
      let m : Misc = s.misc bank in set_misc bank (record m { cur_write_vpn = vpn }) s

  -- The page that comes next, and the state; a full block ends with its list in its last page.
  unfoldable pub assign_new_write_vpn : Data → ℕ → Greedy Data → Option (ℕ × Greedy Data)
  assign_new_write_vpn blank bank s =
      let write_vpn : ℕ = (s.misc bank).cur_write_vpn in
      let vblock : ℕ = write_vpn / pages_per_blk in
      if write_vpn % pages_per_blk == pages_per_blk - 2
      then (let s : Greedy Data = close_vblock bank vblock s in
          if (s.misc bank).free_blk_cnt == 1
          then (let s : Greedy Data = garbage_collection blank bank s in
              some ((s.misc bank).cur_write_vpn, s))
          else do
            next ← next_vblock (vblks_per_bank - 1 - vblock) (s.vcount bank) vblock
            some (mul32 next pages_per_blk, set_new_write_vpn bank (mul32 next pages_per_blk) s))
      else some (add32 write_vpn 1, set_new_write_vpn bank (add32 write_vpn 1) s)

  -- The sectors that the host does not write, from the old page into the write buffer. A short write
  -- not at the start of a page reads the page into FTL_BUF and copies both holes from there.
  unfoldable pub copy_holes : (bank old_vpn first count : ℕ) → Greedy Data → Greedy Data
  copy_holes bank old_vpn first count s =
      let id : ℕ = s.next_write_buf in
      let page = s.flash bank old_vpn in
      let left = λ (i : ℕ). if ltb i first then page i else s.write_buf id i in
      let both =
        λ (i : ℕ). if leb (first + count) i && ltb i sectors_per_page then page i else left i in
      let filled = if ltb (first + count) sectors_per_page then both else left in
      record s { write_buf = upd (s.write_buf) id filled }

  unfoldable pub read_holes : (bank old_vpn first count : ℕ) → Greedy Data → Greedy Data
  unfolding ptread
  read_holes bank old_vpn first count s =
      let id : ℕ = s.next_write_buf in
      let s : Greedy Data = if first == 0 then s else ptread bank old_vpn 0 first id s in
      if ltb (first + count) sectors_per_page
      then ptread bank old_vpn (first + count) (sectors_per_page - (first + count)) id s
      else s

  unfoldable pub fill_holes : (bank old_vpn first count : ℕ) → Greedy Data → Greedy Data
  fill_holes bank old_vpn first count s =
      if count == sectors_per_page
      then s
      else if leb count 8 && not (first == 0)
      then copy_holes bank old_vpn first count s
      else read_holes bank old_vpn first count s

  -- The old page of a logical page is no longer valid.
  unfoldable pub retire : (bank old_vpn first count : ℕ) → Greedy Data → Greedy Data
  retire bank old_vpn first count s =
      let vblock : ℕ = old_vpn / pages_per_blk in
      let s : Greedy Data = fill_holes bank old_vpn first count s in
      set_vcount bank vblock (sub32 (get_vcount s bank vblock) 1) s

  -- `page_wcount`
  unfoldable pub count_write : ℕ → Greedy Data → Greedy Data
  unfolding set_misc
  count_write bank s =
      let m : Misc = s.misc bank in
      set_misc bank (record m { page_wcount = add32 (m.page_wcount) 1 }) s

  -- The page is programmed, and the metadata name it.
  unfoldable pub program : (bank lpn new_vpn first count : ℕ) → Greedy Data → Greedy Data
  program bank lpn new_vpn first count s =
      let vblock : ℕ = new_vpn / pages_per_blk in
      let s : Greedy Data = ptprogram_from_host bank new_vpn first count s in
      let s : Greedy Data = set_lpn bank (new_vpn % pages_per_blk) lpn s in
      let s : Greedy Data = set_vpn lpn new_vpn s in
      set_vcount bank vblock (add32 (get_vcount s bank vblock) 1) s

  -- `write_page` behind the choice of the new page
  unfoldable pub write_at : (lpn new_vpn first count : ℕ) → Greedy Data → Greedy Data
  write_at lpn new_vpn first count s =
      let bank : ℕ = get_num_bank lpn in
      let old_vpn : ℕ = get_vpn s lpn in
      let s : Greedy Data = count_write bank s in
      if old_vpn == 0
      then program bank lpn new_vpn first count s
      else program bank lpn new_vpn 0 sectors_per_page (retire bank old_vpn first count s)

  -- `write_page` is for the pages of the map (CHECK_LPAGE); a number behind them is a place behind the
  -- map.
  unfoldable pub write_page : Data → (lpn first count : ℕ) → Greedy Data → Option (Greedy Data)
  write_page blank lpn first count s = if leb num_lpages lpn then none else do
    (new_vpn, s) ← assign_new_write_vpn blank (get_num_bank lpn) s
    some (write_at lpn new_vpn first count s)
