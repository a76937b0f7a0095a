-- ===== src/Greedy/Power.antt =====
-- ftl_greedy/ftl.c over a loss of power: what `ftl_flush` saves, `load_metadata` finds.
use crypto_jasmine.Base.{
  ℕ, ◌+◌, ◌-◌, ◌*◌, ◌/◌, ◌%◌, ◌<◌, ◌≡◌, inl, refl, ap, sym, ◌∙◌, arith, false, some,
}
use mathlib.Core.Path.{subst}
use crypto_jasmine.Base.Geometry.{
  pages_per_blk, vblks_per_bank, num_banks, num_lpages, mapblks_per_bank,
}
use crypto_jasmine.Greedy.Format.{misc_page, map_page, Ssd}
use crypto_jasmine.Greedy.Log.{ftl_flush}
use crypto_jasmine.Greedy.Load.{scan_pages, load_misc_metadata, load_pmap_table, load_metadata}
use crypto_jasmine.Greedy.Logged.{Placed, map_pages, part}
use crypto_jasmine.Greedy.Ahead.{Tail}
use crypto_jasmine.Greedy.Flushed.{Saves, ftl_flush-Saves}
use crypto_jasmine.Greedy.Loaded.{SameLogs, scan_pages-Scanned, scan_pages-Has}
use crypto_jasmine.Greedy.Restored.{
  SameMisc, saved_at, Restored, copy_miscs-Restored, load_map_pages-Restored,
}

module _ {Data : Type 0} where
  -- `t` has the metadata of `d`, and the logs where `f` has them.
  pub record Recovered (d f t : Ssd Data) : Type 0 where
    pub map : (l : ℕ) → l < num_lpages → t.ftl.page_map l ≡ d.ftl.page_map l
    pub vcount :
        (b v : ℕ) → b < num_banks → v < vblks_per_bank → t.ftl.vcount b v ≡ d.ftl.vcount b v
    pub misc : (b : ℕ) → b < num_banks → SameMisc (t.ftl.misc b) (d.ftl.misc b)
    pub miscblk : (b : ℕ) → b < num_banks → t.logs.cur_miscblk_vpn b ≡ f.logs.cur_miscblk_vpn b
    pub mapblk :
        (b lbn : ℕ) → b < num_banks → t.logs.cur_mapblk_vpn b lbn ≡ f.logs.cur_mapblk_vpn b lbn

  -- After the scan, the buffer of each bank has its last misc. page.
  scanned-buf :
      (d f r : Ssd Data)
      → Saves d f
      → SameLogs f r
      → (b : ℕ) → b < num_banks
      → (scan_pages pages_per_blk ((λ b. false), r)).1.logs.ftl_buf b ≡ misc_page (saved_at d f b)
  scanned-buf d f r s same b h =
      let cur : ℕ = f.logs.cur_miscblk_vpn b in
      let lo = s.cur-from b h in
      let hi = s.tail.to b h in
      let at : 128 + (cur - 128) ≡ cur = omega arith in
      let has : r.logs.pages b (128 + (cur - 128)) ≡ misc_page (saved_at d f b) =
        same b (128 + (cur - 128)) ∙ ap (f.logs.pages b) at ∙ s.misc b h in
      (scan_pages-Has b (cur - 128) (misc_page (saved_at d f b)) r h has refl
        (λ p from to. same b (128 + p) ∙ s.tail.erased b (128 + p) h (omega arith) (omega arith))
        128 (λ b. false) r (omega arith)
        (record { ftl = refl; pages = refl; cur = refl; mapblk = refl })
        (inl (record { not_yet = refl; ahead = omega arith }))).buf

  load_misc-Restored :
      (d f r : Ssd Data)
      → Saves d f
      → SameLogs f r
      → (t : Ssd Data) × (load_misc_metadata r ≡ some t)
        × Restored d f (scan_pages pages_per_blk ((λ b. false), r)).1 num_banks t
  unfolding load_misc_metadata
  load_misc-Restored d f r s same =
      let q : Ssd Data = (scan_pages pages_per_blk ((λ b. false), r)).1 in
      copy_miscs-Restored d f num_banks 0 q q refl (scanned-buf d f r s same) (record {
        misc = λ b h. absurd (omega arith);
        miscblk = λ b h. absurd (omega arith);
        mapblk = λ b l h. absurd (omega arith);
        counts = λ b v h lt. absurd (omega arith);
        pages = refl;
        buf = refl;
      })

  load-Recovered :
      (d f r : Ssd Data)
      → Saves d f
      → SameLogs f r
      → (t : Ssd Data) × (load_metadata r ≡ some t) × Recovered d f t
  unfolding load_metadata load_pmap_table
  load-Recovered d f r s same =
      let (t₁, e, m) = load_misc-Restored d f r s same in
      let scanned = scan_pages-Scanned 128 (λ b. false) r in
      let has : (q : ℕ)
          → q < map_pages
          → t₁.logs.pages (q % num_banks) (t₁.logs.cur_mapblk_vpn (q % num_banks) (q / num_banks))
            ≡ map_page (part d q) =
        λ q h.
          let b : ℕ = q % num_banks in
          let hb : b < num_banks = omega arith in
          ap (t₁.logs.pages b) (m.mapblk b (q / num_banks) hb)
          ∙ ap (λ g. g b (f.logs.cur_mapblk_vpn b (q / num_banks))) (m.pages ∙ scanned.pages)
          ∙ same b (f.logs.cur_mapblk_vpn b (q / num_banks))
          ∙ s.map q h in
      let (t, e', k) =
        load_map_pages-Restored d f (mapblks_per_bank * num_banks) 0 t₁ t₁ refl (omega arith) has
          (record {
            map = λ l h lt. absurd (omega arith);
            misc = refl;
            vcount = refl;
            miscblk = refl;
            mapblk = refl;
            pages = refl;
          }) in
      (
        t,
        rw e e',
        record {
          map = λ l h. k.map l h (omega arith);
          vcount = λ b v h lt. ap (λ g. g b v) (k.vcount) ∙ m.counts b v lt (omega arith);
          misc = λ b h. subst (λ g. SameMisc (g b) (d.ftl.misc b)) (sym (k.misc)) (m.misc b h);
          miscblk = λ b h. ap (λ g. g b) (k.miscblk) ∙ m.miscblk b h;
          mapblk = λ b l h. ap (λ g. g b l) (k.mapblk) ∙ m.mapblk b l h;
        },
      )

module _ {Data : Type 0} (blank : Data) where
  -- If a device is flushed and then loses everything but the flash, loading the metadata succeeds and
  -- finds the page map, the valid counts, the metadata of every bank but its statistics, and the
  -- positions of the logs, as they were at the flush. It is assumed that the map blocks are blocks of
  -- their own and that the misc. block is erased behind its last page, as a flush itself leaves them.
  pub ftl_flush-load_metadata :
      (d r : Ssd Data)
      → Placed d
      → Tail d
      → SameLogs (ftl_flush blank d) r
      → (t : Ssd Data) × (load_metadata r ≡ some t) × Recovered d (ftl_flush blank d) t
  ftl_flush-load_metadata d r pl tl same =
      load-Recovered d (ftl_flush blank d) r (ftl_flush-Saves blank d pl tl).0 same
