-- ===== src/Greedy/Homes.antt =====
-- The logs of ftl_greedy/ftl.c, and the data: a flush erases blocks of the logs only.
use crypto_jasmine.Base.{
  ℕ, zero, suc, ◌+◌, ◌-◌, ◌*◌, ◌/◌, ◌%◌, ◌≤◌, ◌<◌, ◌≡◌, ◌≢◌, inl, inr, refl, ap, ◌∙◌, arith, not,
  leb, ◌==◌, Eq-cases, Bool-cases, ==-refl, ==-ne,
}
use crypto_jasmine.Base.Geometry.{
  num_banks, vblks_per_bank, mapblks_per_bank, pages_per_blk, bytes_per_page, page_map_bytes,
}
use crypto_jasmine.Base.Words.{add32}
use crypto_jasmine.Greedy.State.{vc_max}
use crypto_jasmine.Greedy.Collect.{block_erase}
use crypto_jasmine.Greedy.Copying.{block}
use crypto_jasmine.Greedy.Format.{Ssd, erase_block, miscblk_vbn}
use crypto_jasmine.Greedy.Log.{
  log_program, log_map_fill, log_map_page, log_map_pages, logging_pmap_table, log_misc_prepare,
  log_misc_prepares, log_misc_programs, logging_misc_metadata, ftl_flush,
}
use crypto_jasmine.Greedy.Logged.{Placed, MapLogged, log_map_page-MapLogged, next_map_vpn-block}
use crypto_jasmine.Greedy.Reserved.{Reserved, Taken-same}
use crypto_jasmine.Greedy.Spared.{
  Spared, Spared-refl, Spared-trans, block_erase-Spared, Spared-Idle,
}
use crypto_jasmine.Greedy.Disk.{Disk}
use crypto_jasmine.Greedy.Refine.{Idle}

module _ {Data : Type 0} (blank : Data) where
  -- The programming of a page in a block that is kept from the data
  log_program-Spared :
      (bank vpn : ℕ) (d : Ssd Data)
      → d.ftl.vcount bank (block vpn) ≡ vc_max
      → Spared (d.ftl) ((log_program bank vpn d).ftl)
  unfolding log_program
  log_program-Spared bank vpn d taken = record {
    map = refl;
    vcount = refl;
    misc = refl;
    turn = refl;
    lists = λ b w j u. elim (Bool-cases (vpn % pages_per_blk == 127)) [
      | inr data_page ↦ rw data_page refl
      | inl list_page ↦ rw list_page (elim (Eq-cases b bank) [
        | inr there ↦ rw (==-ne b bank there) refl
        | inl here ↦ elim (Eq-cases w (block vpn)) [
          | inl at ↦ absurd (u (rw (here, at) taken))
          | inr other ↦ rw (here, ==-refl bank, ==-ne w (block vpn) other) refl
        ]
      ])
    ];
    flash = λ b w i u. elim (Eq-cases b bank) [
      | inr there ↦ rw (==-ne b bank there) refl
      | inl here ↦ elim (Eq-cases w vpn) [
        | inl at ↦ absurd (u (rw (here, at) taken))
        | inr other ↦ rw (here, ==-refl bank, ==-ne w vpn other) refl
      ]
    ];
  }

  -- A round of the log of the map
  log_map_page-Spared :
      (p : ℕ) (d : Ssd Data)
      → block (d.logs.cur_mapblk_vpn (p % num_banks) (p / num_banks)) < vblks_per_bank
      → d.ftl.vcount (p % num_banks) (block (d.logs.cur_mapblk_vpn (p % num_banks) (p / num_banks)))
        ≡ vc_max
      → Spared (d.ftl) ((log_map_page blank p d).ftl)
  unfolding log_map_page erase_block block_erase
  log_map_page-Spared p d lt taken =
      let bank : ℕ = p % num_banks in
      let lbn : ℕ = p / num_banks in
      let c : ℕ = d.logs.cur_mapblk_vpn bank lbn in
      let next : add32 c 1 ≡ c + 1 = omega arith in
      elim (Bool-cases ((c + 1) % pages_per_blk == 0)) [
        | inl full ↦
            let same : (c + 1 - 1) / pages_per_blk ≡ block c = omega arith in
            let at : block (block c * pages_per_blk) ≡ block c = omega arith in
            rw (next, full, same)
              (Spared-trans _ _ _ (block_erase-Spared blank bank (block c) (d.ftl) taken) (
                log_program-Spared bank (block c * pages_per_blk)
                  (log_map_fill p bank lbn (block c * pages_per_blk)
                    (erase_block blank bank (block c) d))
                  (ap (d.ftl.vcount bank) at ∙ taken)))
        | inr room ↦
            let at : block (c + 1) ≡ block c = ground arith in
            rw (next, room)
              (log_program-Spared bank (c + 1) (log_map_fill p bank lbn (c + 1) d)
                (ap (d.ftl.vcount bank) at ∙ taken))
      ]

  -- The map blocks stay where they are, and reserved.
  record Homes (d : Ssd Data) : Type 0 where
    few :
        (b lbn : ℕ)
        → b < num_banks
        → lbn < mapblks_per_bank
        → block (d.logs.cur_mapblk_vpn b lbn) < vblks_per_bank
    reserved : Reserved d

  log_map_page-Homes :
      (p : ℕ) (d : Ssd Data)
      → p < mapblks_per_bank * num_banks
      → Homes d
      → Homes (log_map_page blank p d)
  log_map_page-Homes p d lt h =
      let c : ℕ = d.logs.cur_mapblk_vpn (p % num_banks) (p / num_banks) in
      let t : Ssd Data = log_map_page blank p d in
      let m : MapLogged p c d t =
        log_map_page-MapLogged blank p d (h.few _ _ (omega arith) (omega arith)) in
      let home : (b l : ℕ) → block (t.logs.cur_mapblk_vpn b l) ≡ block (d.logs.cur_mapblk_vpn b l) =
        λ b l. ap block (m.vpns b l) ∙ (elim (Eq-cases b (p % num_banks)) [
          | inl here ↦ elim (Eq-cases l (p / num_banks)) [
            | inl at ↦
                rw (here, at, ==-refl (p % num_banks), ==-refl (p / num_banks))
                  (next_map_vpn-block c)
            | inr other ↦ rw (==-ne l (p / num_banks) other) (ground arith)
          ]
          | inr there ↦ rw (==-ne b (p % num_banks) there) refl
        ]) in
      record {
        few = λ b l hb hl. rw (home b l) (h.few b l hb hl);
        reserved = λ b hb.
            let k = h.reserved b hb in
            record {
              misc = rw (m.tables.vcount) (k.misc);
              maps = λ l hl. rw (m.tables.vcount, home b l) (k.maps l hl);
            };
      }

  log_map_pages-Spared :
      (n p : ℕ) (d : Ssd Data)
      → p + n ≤ mapblks_per_bank * num_banks
      → Homes d
      → Spared (d.ftl) ((log_map_pages n blank p d).ftl) × Homes (log_map_pages n blank p d)
  unfolding log_map_pages
  log_map_pages-Spared zero p d le h = (Spared-refl (d.ftl), h)
  log_map_pages-Spared (suc n) p d le h =
      let t : Ssd Data = log_map_page blank p d in
      let b : p % num_banks < num_banks = omega arith in
      let l : p / num_banks < mapblks_per_bank = omega arith in
      let k : Spared (d.ftl) (t.ftl) =
        log_map_page-Spared p d (h.few _ _ b l) ((h.reserved _ b).maps _ l) in
      let h' : Homes t = log_map_page-Homes p d (omega arith) h in
      elim (Bool-cases (leb page_map_bytes (p * bytes_per_page))) [
        | inl out ↦ rw out (Spared-refl (d.ftl), h)
        | inr within ↦
            elim (Bool-cases (leb page_map_bytes (p * bytes_per_page + bytes_per_page))) [
              | inl last ↦ rw (within, last) (k, h')
              | inr more ↦
                  let (rest, h'') = log_map_pages-Spared n (p + 1) t (omega arith) h' in
                  rw (within, more) (Spared-trans _ _ _ k rest, h'')
            ]
      ]

  log_misc_prepare-Spared :
      (k : ℕ) (d : Ssd Data)
      → d.ftl.vcount k 1 ≡ vc_max
      → Spared (d.ftl) ((log_misc_prepare blank k d).ftl)
  unfolding log_misc_prepare erase_block
  log_misc_prepare-Spared k d taken =
      elim (Bool-cases (not (add32 (d.logs.cur_miscblk_vpn k) 1 / pages_per_blk == miscblk_vbn))) [
        | inl full ↦ rw full (block_erase-Spared blank k 1 (d.ftl) taken)
        | inr room ↦ rw room (Spared-refl (d.ftl))
      ]

  log_misc_prepares-Spared :
      (n k : ℕ) (d : Ssd Data)
      → k + n ≤ num_banks
      → ((b : ℕ) → b < num_banks → d.ftl.vcount b 1 ≡ vc_max)
      → Spared (d.ftl) ((log_misc_prepares n blank k d).ftl)
  unfolding log_misc_prepares
  log_misc_prepares-Spared zero k d le taken = Spared-refl (d.ftl)
  log_misc_prepares-Spared (suc n) k d le taken =
      let s = log_misc_prepare-Spared k d (taken k (omega arith)) in
      let rest =
        log_misc_prepares-Spared n (k + 1) (log_misc_prepare blank k d) (omega arith)
          (λ b h. rw (s.vcount) (taken b h)) in
      Spared-trans _ _ _ s rest

  -- The pages that come next are in block 1.
  log_misc_prepare-block :
      (k : ℕ) (d : Ssd Data)
      → (block ((log_misc_prepare blank k d).logs.cur_miscblk_vpn k) ≡ 1)
        × ((b : ℕ)
            → b ≢ k
            → (log_misc_prepare blank k d).logs.cur_miscblk_vpn b ≡ d.logs.cur_miscblk_vpn b)
  unfolding log_misc_prepare erase_block
  log_misc_prepare-block k d =
      elim (Bool-cases (not (add32 (d.logs.cur_miscblk_vpn k) 1 / pages_per_blk == miscblk_vbn))) [
        | inl full ↦ rw (full, ==-refl k) (omega arith, λ b ne. rw (==-ne b k ne) refl)
        | inr room ↦ rw (room, ==-refl k) (ground arith, λ b ne. rw (==-ne b k ne) refl)
      ]

  log_misc_prepares-block :
      (n k : ℕ) (d : Ssd Data)
      → k + n ≡ num_banks
      → ((b : ℕ) → b < k → block (d.logs.cur_miscblk_vpn b) ≡ 1)
      → (b : ℕ) → b < num_banks
      → block ((log_misc_prepares n blank k d).logs.cur_miscblk_vpn b) ≡ 1
  unfolding log_misc_prepares
  log_misc_prepares-block zero k d e done = λ b h. done b (omega arith)
  log_misc_prepares-block (suc n) k d e done =
      let (here, others) = log_misc_prepare-block k d in
      log_misc_prepares-block n (k + 1) (log_misc_prepare blank k d) (omega arith) (λ b lt.
        elim (Eq-cases b k) [
          | inl at ↦ rw at here
          | inr before ↦ ap block (others b before) ∙ done b (omega arith)
        ])

  log_program-cur :
      (bank vpn : ℕ) (d : Ssd Data)
      → (log_program bank vpn d).logs.cur_miscblk_vpn ≡ d.logs.cur_miscblk_vpn
  unfolding log_program
  log_program-cur bank vpn d = refl

  log_misc_programs-Spared :
      (n k : ℕ) (d : Ssd Data)
      → k + n ≡ num_banks
      → ((b : ℕ) → b < num_banks → d.ftl.vcount b 1 ≡ vc_max)
      → ((b : ℕ) → b < num_banks → block (d.logs.cur_miscblk_vpn b) ≡ 1)
      → Spared (d.ftl) ((log_misc_programs n k d).ftl)
  unfolding log_misc_programs
  log_misc_programs-Spared zero k d e taken at = Spared-refl (d.ftl)
  log_misc_programs-Spared (suc n) k d e taken at =
      let c : ℕ = d.logs.cur_miscblk_vpn k in
      let h : k < num_banks = omega arith in
      let t : Ssd Data = log_program k c d in
      let s = log_program-Spared k c d (ap (d.ftl.vcount k) (at k h) ∙ taken k h) in
      let rest =
        log_misc_programs-Spared n (k + 1) t (omega arith) (λ b lt. rw (s.vcount) (taken b lt))
          (λ b lt. ap (λ f. block (f b)) (log_program-cur k c d) ∙ at b lt) in
      Spared-trans _ _ _ s rest

  log_misc_prepare-mapblk :
      (k : ℕ) (d : Ssd Data)
      → (log_misc_prepare blank k d).logs.cur_mapblk_vpn ≡ d.logs.cur_mapblk_vpn
  unfolding log_misc_prepare erase_block
  log_misc_prepare-mapblk k d =
      elim (Bool-cases (not (add32 (d.logs.cur_miscblk_vpn k) 1 / pages_per_blk == miscblk_vbn))) [
        | inl full ↦ rw full refl
        | inr room ↦ rw room refl
      ]

  log_misc_prepares-mapblk :
      (n k : ℕ) (d : Ssd Data)
      → (log_misc_prepares n blank k d).logs.cur_mapblk_vpn ≡ d.logs.cur_mapblk_vpn
  unfolding log_misc_prepares
  log_misc_prepares-mapblk zero k d = refl
  log_misc_prepares-mapblk (suc n) k d =
      log_misc_prepares-mapblk n (k + 1) _ ∙ log_misc_prepare-mapblk k d

  log_misc_programs-mapblk :
      (n k : ℕ) (d : Ssd Data)
      → (log_misc_programs n k d).logs.cur_mapblk_vpn ≡ d.logs.cur_mapblk_vpn
  unfolding log_misc_programs log_program
  log_misc_programs-mapblk zero k d = refl
  log_misc_programs-mapblk (suc n) k d = log_misc_programs-mapblk n (k + 1) _

  pub ftl_flush-Spared :
      (d : Ssd Data)
      → Placed d
      → Reserved d
      → Spared (d.ftl) ((ftl_flush blank d).ftl) × Reserved (ftl_flush blank d)
  unfolding ftl_flush logging_misc_metadata logging_pmap_table
  ftl_flush-Spared d pl r =
      let d₁ : Ssd Data = logging_pmap_table blank d in
      let d₂ : Ssd Data = log_misc_prepares num_banks blank 0 d₁ in
      let (s, h) =
        log_map_pages-Spared (mapblks_per_bank * num_banks) 0 d (omega arith)
          (record { few = pl.few; reserved = r }) in
      let s' =
        log_misc_prepares-Spared num_banks 0 d₁ (omega arith) (λ b lt. (h.reserved b lt).misc) in
      let taken : (b : ℕ) → b < num_banks → d₁.ftl.vcount b 1 ≡ vc_max =
        λ b lt. (h.reserved b lt).misc in
      let s'' =
        log_misc_programs-Spared num_banks 0 d₂ refl (λ b lt. rw (s'.vcount) (taken b lt))
          (log_misc_prepares-block num_banks 0 d₁ refl (λ b lt. absurd (omega arith))) in
      let homes =
        log_misc_programs-mapblk num_banks 0 d₂ ∙ log_misc_prepares-mapblk num_banks 0 d₁ in
      (
        Spared-trans _ _ _ (Spared-trans _ _ _ s s') s'',
        λ b lt.
            Taken-same b mapblks_per_bank d₁ (ftl_flush blank d) (s''.vcount ∙ s'.vcount) homes
              (h.reserved b lt),
      )

  -- A flush leaves the data alone, if the counts keep the blocks of the logs from them: an idle device
  -- is idle with the same disk, and the counts keep those blocks as before.
  pub ftl_flush-Idle :
      (d : Ssd Data) (disk : Disk Data)
      → Placed d
      → Reserved d
      → Idle blank (d.ftl) disk
      → Idle blank ((ftl_flush blank d).ftl) disk × Reserved (ftl_flush blank d)
  ftl_flush-Idle d disk pl r i =
      let (s, r') = ftl_flush-Spared d pl r in
      (Spared-Idle blank (d.ftl) ((ftl_flush blank d).ftl) disk s i, r')
