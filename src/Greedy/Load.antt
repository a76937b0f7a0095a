-- ===== src/Greedy/Load.antt =====
-- `load_metadata` of ftl_greedy/ftl.c.
use crypto_jasmine.Base.{
  ℕ, zero, suc, ◌+◌, ◌-◌, ◌*◌, ◌/◌, ◌%◌, Bool, true, false, ◌&&◌, Option, none, some, ltb, leb,
  if◌then◌else◌, upd, ◌>>=◌,
}
use crypto_jasmine.Base.Geometry.{
  pages_per_blk, vblks_per_bank, num_banks, mapblks_per_bank, bytes_per_page, num_lpages,
}
use crypto_jasmine.Greedy.State.{Misc, Greedy, set_misc}
use crypto_jasmine.Greedy.Format.{
  Logs, Saved, LogPage, all_ff, misc_page, map_page, Ssd, miscblk_vbn,
}
use crypto_jasmine.Greedy.Log.{logged_counts, page_entries, pmap_entries}

-- FIRQ_ALL_FF is not set
abbrev pub written_to : LogPage → Bool
written_to all_ff = false
written_to (misc_page m) = true
written_to (map_page f) = true

module _ {Data : Type 0} where
  -- nand_page_ptread into FTL_BUF
  unfoldable pub log_read : (bank vpn : ℕ) → Ssd Data → Ssd Data
  log_read bank vpn d =
      let l : Logs = d.logs in
      record d { logs = record l { ftl_buf = upd (l.ftl_buf) bank (l.pages bank vpn) } }

  -- The scan of `load_misc_metadata`, with `load_flag`: page `page` of the block for a bank that was
  -- not loaded yet, for the `n` banks from `bank` on, and for the pages below `n`, the last one first
  unfoldable pub scan_bank : (bank page : ℕ) → (ℕ → Bool) × Ssd Data → (ℕ → Bool) × Ssd Data
  unfolding log_read
  scan_bank bank page (flag, d) =
      let d' : Ssd Data = log_read bank (miscblk_vbn * pages_per_blk + page) d in
      if flag bank then (flag, d) else (upd flag bank (written_to (d'.logs.ftl_buf bank)), d')

  unfoldable pub scan_banks : (n bank page : ℕ) → (ℕ → Bool) × Ssd Data → (ℕ → Bool) × Ssd Data
  scan_banks zero bank page r = r
  scan_banks (suc n) bank page r = scan_banks n (bank + 1) page (scan_bank bank page r)

  unfoldable pub scan_pages : ℕ → (ℕ → Bool) × Ssd Data → (ℕ → Bool) × Ssd Data
  scan_pages zero r = r
  scan_pages (suc n) r = scan_pages n (scan_banks num_banks 0 n r)

  -- What is restored for a bank; the statistics are not in the log.
  unfoldable pub restore_misc : (bank : ℕ) → Saved → Ssd Data → Ssd Data
  unfolding set_misc
  restore_misc bank saved d =
      let s : Greedy Data = d.ftl in
      let now : Misc = s.misc bank in
      let m : Misc = saved.misc in
      let m : Misc = record m { gc_cnt = now.gc_cnt; page_wcount = now.page_wcount } in
      let from : ℕ = bank * logged_counts in
      let counts = λ (b v : ℕ).
        let a : ℕ = b * vblks_per_bank + v in
        if leb from a && ltb a (from + logged_counts)
        then saved.counts (a - from)
        else s.vcount b v in
      let l : Logs = d.logs in
      record d {
        ftl = set_misc bank m (record s { vcount = counts });
        logs = record l {
          cur_miscblk_vpn = upd (l.cur_miscblk_vpn) bank (saved.miscblk_vpn);
          cur_mapblk_vpn = upd (l.cur_mapblk_vpn) bank (saved.mapblk_vpn);
        };
      }

  -- A page without metadata would be taken for some.
  unfoldable pub copy_misc : (bank : ℕ) → LogPage → Ssd Data → Option (Ssd Data)
  copy_misc bank all_ff d = none
  copy_misc bank (misc_page saved) d = some (restore_misc bank saved d)
  copy_misc bank (map_page f) d = none

  unfoldable pub copy_miscs : (n bank : ℕ) → Ssd Data → Option (Ssd Data)
  copy_miscs zero bank d = some d
  copy_miscs (suc n) bank d = copy_misc bank (d.logs.ftl_buf bank) d >>= copy_miscs n (bank + 1)

  unfoldable pub load_misc_metadata : Ssd Data → Option (Ssd Data)
  load_misc_metadata d =
      let none_loaded : ℕ → Bool = λ b. false in
      copy_miscs num_banks 0 (scan_pages pages_per_blk (none_loaded, d)).1

  -- A round of `load_pmap_table`: the entries of page `p` of the map
  unfoldable pub restore_map : (p : ℕ) → (ℕ → ℕ) → Ssd Data → Ssd Data
  restore_map p f d =
      let from : ℕ = p * page_entries in
      let entries : ℕ = pmap_entries (num_lpages * 4) p in
      let s : Greedy Data = d.ftl in
      let map =
        λ (l : ℕ). if leb from l && ltb l (from + entries) then f (l - from) else s.page_map l in
      record d { ftl = record s { page_map = map } }

  unfoldable pub copy_map : (p : ℕ) → LogPage → Ssd Data → Option (Ssd Data)
  copy_map p all_ff d = none
  copy_map p (misc_page saved) d = none
  copy_map p (map_page f) d = some (restore_map p f d)

  unfoldable pub load_map_page : (p : ℕ) → Ssd Data → Option (Ssd Data)
  unfolding log_read
  load_map_page p d =
      let bank : ℕ = p % num_banks in
      let d : Ssd Data = log_read bank (d.logs.cur_mapblk_vpn bank (p / num_banks)) d in
      copy_map p (d.logs.ftl_buf bank) d

  unfoldable pub load_map_pages : (n p : ℕ) → Ssd Data → Option (Ssd Data)
  load_map_pages zero p d = some d
  load_map_pages (suc n) p d =
      let last = load_map_page p d in
      let more = last >>= load_map_pages n (p + 1) in
      if leb (num_lpages * 4) (p * bytes_per_page)
      then some d
      else if leb (num_lpages * 4) (p * bytes_per_page + bytes_per_page)
      then last
      else more

  unfoldable pub load_pmap_table : Ssd Data → Option (Ssd Data)
  load_pmap_table d = load_map_pages (mapblks_per_bank * num_banks) 0 d

  unfoldable pub load_metadata : Ssd Data → Option (Ssd Data)
  load_metadata d = load_misc_metadata d >>= load_pmap_table
