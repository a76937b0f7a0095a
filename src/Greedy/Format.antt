-- ===== src/Greedy/Format.antt =====
-- `format` and `init_metadata_sram` of ftl_greedy/ftl.c, up to the first logs.
use crypto_jasmine.Base.{
  ℕ, zero, suc, ◌+◌, ◌-◌, ◌*◌, ◌/◌, Bool, Option, none, some, ◌==◌, if◌then◌else◌, upd, ◌>>=◌,
}
use crypto_jasmine.Base.Geometry.{
  pages_per_blk, vblks_per_bank, num_banks, mapblks_per_bank, meta_blks_per_bank,
}
use crypto_jasmine.Base.Words.{sub32}
use crypto_jasmine.Greedy.State.{vc_max, Misc, Greedy, set_misc}
use crypto_jasmine.Greedy.Collect.{block_erase}

-- MISCBLK_VBN
abbrev pub miscblk_vbn : ℕ
miscblk_vbn = 1

-- What a page of the logs holds: a bank's `misc_metadata`, with the positions of the logs, and a
-- part of the counts; or a part of the page map; `all_ff` is an erased page.
pub record Saved : Type 0 where
  pub misc : Misc
  pub miscblk_vpn : ℕ
  pub mapblk_vpn : ℕ → ℕ
  pub counts : ℕ → ℕ

pub data LogPage : Type 0 where
  all_ff : LogPage
  misc_page : Saved → LogPage
  map_page : (ℕ → ℕ) → LogPage

-- The pages that the logs are at, by bank and, for the map, by map block; the pages of the logs in
-- the flash, by bank and physical page; and FTL_BUF, by bank.
pub record Logs : Type 0 where
  pub cur_miscblk_vpn : ℕ → ℕ
  pub cur_mapblk_vpn : (bank mapblk_lbn : ℕ) → ℕ
  pub pages : (bank vpn : ℕ) → LogPage
  pub ftl_buf : ℕ → LogPage

-- The device while its metadata are set up: `bad` and `bad_cnt` are the bitmap and the counts of bad
-- blocks, by bank, that `build_bad_blk_list` leaves. `sectors_of` and `list_of` are what a log page is when its
-- page is read as sectors of data, or as the list of a block.
pub record Ssd (Data : Type 0) : Type 0 where
  pub ftl : Greedy Data
  pub logs : Logs
  pub bad : (bank vblock : ℕ) → Bool
  pub bad_cnt : ℕ → ℕ
  pub sectors_of : LogPage → ℕ → Data
  pub list_of : LogPage → ℕ → ℕ

module _ {Data : Type 0} where
  -- `write_dram_16` of a count
  unfoldable pub write_vcount : (bank vblock count : ℕ) → Ssd Data → Ssd Data
  write_vcount bank vblock count d =
      let s : Greedy Data = d.ftl in
      record d {
        ftl = record s { vcount = upd (s.vcount) bank (upd (s.vcount bank) vblock count) };
      }

  -- nand_block_erase: what the block has of the data and of the logs
  unfoldable pub erase_block : Data → (bank vblock : ℕ) → Ssd Data → Ssd Data
  erase_block blank bank vblock d =
      let l : Logs = d.logs in
      let pages = λ (vpn : ℕ). if vpn / pages_per_blk == vblock then all_ff else l.pages bank vpn in
      record d {
        ftl = block_erase blank bank vblock (d.ftl);
        logs = record l { pages = upd (l.pages) bank pages };
      }

  unfoldable pub change_misc : ℕ → (Misc → Misc) → Ssd Data → Ssd Data
  unfolding set_misc
  change_misc bank f d = record d { ftl = set_misc bank (f (d.ftl.misc bank)) (d.ftl) }

  -- The start of `init_metadata_sram` for a bank
  unfoldable pub init_counts : ℕ → Ssd Data → Ssd Data
  unfolding change_misc write_vcount
  init_counts bank d =
      let free : ℕ = sub32 (vblks_per_bank - meta_blks_per_bank) (d.bad_cnt bank) in
      let d : Ssd Data = change_misc bank (λ m. record m { free_blk_cnt = free }) d in
      let d : Ssd Data = write_vcount bank 1 vc_max (write_vcount bank 0 vc_max d) in
      let l : Logs = d.logs in
      record d {
        logs = record l {
          cur_miscblk_vpn = upd (l.cur_miscblk_vpn) bank (miscblk_vbn * pages_per_blk - 1);
        };
      }

  unfoldable pub assign_map_block : (bank mapblk_lbn vblock : ℕ) → Ssd Data → Ssd Data
  unfolding write_vcount
  assign_map_block bank mapblk_lbn vblock d =
      let l : Logs = d.logs in
      let vpns = upd (l.cur_mapblk_vpn bank) mapblk_lbn (vblock * pages_per_blk) in
      write_vcount bank vblock vc_max
        (record d { logs = record l { cur_mapblk_vpn = upd (l.cur_mapblk_vpn) bank vpns } })

  -- The map blocks from `mapblk_lbn` on, out of the `n` blocks behind `vblock`; the loops read the
  -- bitmap of another bank when a bank has too few good blocks.
  unfoldable pub assign_map_blocks :
      (n bank mapblk_lbn vblock : ℕ) → Ssd Data → Option (ℕ × Ssd Data)
  unfolding assign_map_block
  assign_map_blocks zero bank mapblk_lbn vblock d =
      if mapblk_lbn == mapblks_per_bank then some (vblock, d) else none
  assign_map_blocks (suc n) bank mapblk_lbn vblock d =
      let vblock' : ℕ = vblock + 1 in
      let skip = assign_map_blocks n bank mapblk_lbn vblock' d in
      let take =
        assign_map_blocks n bank (mapblk_lbn + 1) vblock'
          (assign_map_block bank mapblk_lbn vblock' d) in
      if mapblk_lbn == mapblks_per_bank
      then some (vblock, d)
      else if d.bad bank vblock'
      then skip
      else take

  unfoldable pub assign_gc_block : (n bank vblock : ℕ) → Ssd Data → Option (ℕ × Ssd Data)
  unfolding change_misc write_vcount
  assign_gc_block zero bank vblock d = none
  assign_gc_block (suc n) bank vblock d =
      let vblock : ℕ = vblock + 1 in
      let bad : Bool = d.bad bank vblock in
      let d : Ssd Data = write_vcount bank vblock vc_max d in
      let d : Ssd Data = change_misc bank (λ m. record m { gc_vblock = vblock }) d in
      let rest = assign_gc_block n bank vblock d in if bad then rest else some (vblock, d)

  unfoldable pub assign_write_block : (n bank vblock : ℕ) → Ssd Data → Option (Ssd Data)
  unfolding change_misc
  assign_write_block zero bank vblock d = none
  assign_write_block (suc n) bank vblock d =
      let vblock : ℕ = vblock + 1 in
      let bad : Bool = d.bad bank vblock in
      let d : Ssd Data =
        change_misc bank (λ m. record m { cur_write_vpn = vblock * pages_per_blk }) d in
      let rest = assign_write_block n bank vblock d in if bad then rest else some d

  unfoldable pub init_bank : ℕ → Ssd Data → Option (Ssd Data)
  init_bank bank d = do
    (vblock, d) ←
        assign_map_blocks (vblks_per_bank - 1 - miscblk_vbn) bank 0 miscblk_vbn (init_counts bank d)
    (vblock, d) ← assign_gc_block (vblks_per_bank - 1 - vblock) bank vblock d
    assign_write_block (vblks_per_bank - 1 - vblock) bank vblock d

  -- The `n` banks from `bank` on
  unfoldable pub init_banks : (n bank : ℕ) → Ssd Data → Option (Ssd Data)
  init_banks zero bank d = some d
  init_banks (suc n) bank d = init_bank bank d >>= init_banks n (bank + 1)

  unfoldable pub init_metadata_sram : Ssd Data → Option (Ssd Data)
  init_metadata_sram d = init_banks num_banks 0 d

  -- The erasing of `format`: block `vblock` of the `n` banks from `bank` on, and all blocks
  unfoldable pub format_block : Data → (bank vblock : ℕ) → Ssd Data → Ssd Data
  unfolding write_vcount erase_block
  format_block blank bank vblock d =
      if d.bad bank vblock
      then write_vcount bank vblock vc_max d
      else write_vcount bank vblock 0 (erase_block blank bank vblock d)

  unfoldable pub format_banks : (n : ℕ) → Data → (bank vblock : ℕ) → Ssd Data → Ssd Data
  format_banks zero blank bank vblock d = d
  format_banks (suc n) blank bank vblock d =
      format_banks n blank (bank + 1) vblock (format_block blank bank vblock d)

  unfoldable pub format_blocks : (n : ℕ) → Data → (vblock : ℕ) → Ssd Data → Ssd Data
  format_blocks zero blank vblock d = d
  format_blocks (suc n) blank vblock d =
      format_blocks n blank (vblock + 1) (format_banks num_banks blank 0 vblock d)

  -- `mem_set_dram` of the map and the counts
  unfoldable pub clear_tables : Ssd Data → Ssd Data
  clear_tables d =
      let s : Greedy Data = d.ftl in
      let map : ℕ → ℕ = λ l. 0 in
      let counts : ℕ → ℕ → ℕ = λ b v. 0 in
      record d { ftl = record s { page_map = map; vcount = counts } }

  -- `format` up to the first logs and the format mark
  unfoldable pub format_metadata : Data → Ssd Data → Option (Ssd Data)
  unfolding clear_tables
  format_metadata blank d =
      init_metadata_sram
        (format_blocks (vblks_per_bank - miscblk_vbn) blank miscblk_vbn (clear_tables d))
