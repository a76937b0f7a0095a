-- ===== src/Greedy/Log.antt =====
-- The logs of the metadata of ftl_greedy/ftl.c: `logging_misc_metadata`, `logging_pmap_table`, and
-- their loading.
use crypto_jasmine.Base.{
  ℕ, zero, suc, ◌+◌, ◌-◌, ◌*◌, ◌/◌, ◌%◌, Bool, not, ltb, leb, ◌==◌, if◌then◌else◌, upd,
}
use crypto_jasmine.Base.Geometry.{
  pages_per_blk, vblks_per_bank, num_banks, mapblks_per_bank, bytes_per_page, bytes_per_sector,
  page_map_bytes,
}
use crypto_jasmine.Base.Words.{add32}
use crypto_jasmine.Greedy.State.{Greedy}
use crypto_jasmine.Greedy.Format.{
  LogPage, Logs, Saved, misc_page, map_page, Ssd, erase_block, miscblk_vbn,
}

-- Half of `vcount_bytes`, NUM_VCOUNT_SECT sectors: the counts that the log of a bank has. They are
-- more than the counts of a bank, and go on in the table where those of the bank before end.
abbrev pub logged_counts : ℕ
logged_counts =
    (vblks_per_bank * 2 + bytes_per_sector - 1) / bytes_per_sector * bytes_per_sector / 2

-- The entries of the page map in a page of the log
abbrev pub page_entries : ℕ
page_entries = bytes_per_page / 4

-- `pmap_bytes` for page `p` of a map that ends at `boundary`, in entries: the last page has the
-- sectors that are left.
abbrev pub pmap_entries : (boundary p : ℕ) → ℕ
pmap_entries boundary p =
    if leb boundary (p * bytes_per_page + bytes_per_page)
    then (boundary - p * bytes_per_page + bytes_per_sector - 1)
      / bytes_per_sector
      * bytes_per_sector
      / 4
    else page_entries

module _ {Data : Type 0} where
  -- The count at place `a` of the table of counts
  abbrev pub count_at : Greedy Data → ℕ → ℕ
  count_at s a = s.vcount (a / vblks_per_bank) (a % vblks_per_bank)

  -- The first loop of `logging_misc_metadata`: the next page of the log, and what is to be there.
  unfoldable pub log_misc_prepare : Data → ℕ → Ssd Data → Ssd Data
  log_misc_prepare blank bank d =
      let vpn : ℕ = add32 (d.logs.cur_miscblk_vpn bank) 1 in
      let full : Bool = not (vpn / pages_per_blk == miscblk_vbn) in
      let erased : Ssd Data = erase_block blank bank miscblk_vbn d in
      let d : Ssd Data = if full then erased else d in
      let vpn : ℕ = if full then miscblk_vbn * pages_per_blk else vpn in
      let saved : Saved = record {
        misc = d.ftl.misc bank;
        miscblk_vpn = vpn;
        mapblk_vpn = d.logs.cur_mapblk_vpn bank;
        counts = λ k. count_at (d.ftl) (bank * logged_counts + k);
      } in
      let l : Logs = d.logs in
      record d {
        logs = record l {
          cur_miscblk_vpn = upd (l.cur_miscblk_vpn) bank vpn;
          ftl_buf = upd (l.ftl_buf) bank (misc_page saved);
        };
      }

  -- nand_page_ptprogram of FTL_BUF: the page has the log from then on, in the sectors of the flash, too,
  -- and, where it is the last one of a block, in place of a list.
  unfoldable pub log_program : (bank vpn : ℕ) → Ssd Data → Ssd Data
  log_program bank vpn d =
      let l : Logs = d.logs in
      let s : Greedy Data = d.ftl in
      let content : LogPage = l.ftl_buf bank in
      let block_lists = upd (s.lists bank) (vpn / pages_per_blk) (d.list_of content) in
      let lists = upd (s.lists) bank block_lists in
      record d {
        ftl = record s {
          flash = upd (s.flash) bank (upd (s.flash bank) vpn (d.sectors_of content));
          lists = if vpn % pages_per_blk == pages_per_blk - 1 then lists else s.lists;
        };
        logs = record l { pages = upd (l.pages) bank (upd (l.pages bank) vpn content) };
      }

  unfoldable pub log_misc_prepares : (n : ℕ) → Data → (bank : ℕ) → Ssd Data → Ssd Data
  log_misc_prepares zero blank bank d = d
  log_misc_prepares (suc n) blank bank d =
      log_misc_prepares n blank (bank + 1) (log_misc_prepare blank bank d)

  unfoldable pub log_misc_programs : (n bank : ℕ) → Ssd Data → Ssd Data
  log_misc_programs zero bank d = d
  log_misc_programs (suc n) bank d =
      log_misc_programs n (bank + 1) (log_program bank (d.logs.cur_miscblk_vpn bank) d)

  unfoldable pub logging_misc_metadata : Data → Ssd Data → Ssd Data
  logging_misc_metadata blank d =
      log_misc_programs num_banks 0 (log_misc_prepares num_banks blank 0 d)

  -- The part `p` of the map goes to FTL_BUF, for the page `vpn` of a map block.
  abbrev pub log_map_fill : (p bank lbn vpn : ℕ) → Ssd Data → Ssd Data
  log_map_fill p bank lbn vpn d =
      let entries : ℕ = pmap_entries page_map_bytes p in
      let content =
        λ (k : ℕ). if ltb k entries then d.ftl.page_map (p * page_entries + k) else 0xffff_ffff in
      let l : Logs = d.logs in
      record d {
        logs = record l {
          cur_mapblk_vpn = upd (l.cur_mapblk_vpn) bank (upd (l.cur_mapblk_vpn bank) lbn vpn);
          ftl_buf = upd (l.ftl_buf) bank (map_page content);
        };
      }

  -- A round of `logging_pmap_table`: page `p` of the map goes to map block `p / NUM_BANKS` of bank
  -- `p % NUM_BANKS`.
  unfoldable pub log_map_page : Data → (p : ℕ) → Ssd Data → Ssd Data
  unfolding log_program
  log_map_page blank p d =
      let bank : ℕ = p % num_banks in
      let lbn : ℕ = p / num_banks in
      let vpn : ℕ = add32 (d.logs.cur_mapblk_vpn bank lbn) 1 in
      let full : Bool = vpn % pages_per_blk == 0 in
      let vblock : ℕ = (vpn - 1) / pages_per_blk in
      let erased : Ssd Data = erase_block blank bank vblock d in
      let d : Ssd Data = if full then erased else d in
      let vpn : ℕ = if full then vblock * pages_per_blk else vpn in
      log_program bank vpn (log_map_fill p bank lbn vpn d)

  -- The two loops, over the map blocks and the banks, are one over the pages of the map.
  unfoldable pub log_map_pages : (n : ℕ) → Data → (p : ℕ) → Ssd Data → Ssd Data
  log_map_pages zero blank p d = d
  log_map_pages (suc n) blank p d =
      let logged : Ssd Data = log_map_page blank p d in
      let rest = log_map_pages n blank (p + 1) logged in
      if leb page_map_bytes (p * bytes_per_page)
      then d
      else if leb page_map_bytes (p * bytes_per_page + bytes_per_page)
      then logged
      else rest

  unfoldable pub logging_pmap_table : Data → Ssd Data → Ssd Data
  logging_pmap_table blank d = log_map_pages (mapblks_per_bank * num_banks) blank 0 d

  unfoldable pub ftl_flush : Data → Ssd Data → Ssd Data
  ftl_flush blank d = logging_misc_metadata blank (logging_pmap_table blank d)
