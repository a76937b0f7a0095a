-- ===== src/Greedy/Logged.antt =====
-- `logging_pmap_table` of ftl_greedy/ftl.c: what the logs have after it.
use crypto_jasmine.Base.{
  ℕ, zero, suc, ◌+◌, ◌-◌, ◌*◌, ◌/◌, ◌%◌, ◌≤◌, ◌<◌, ◌≡◌, ◌≢◌, ◌⊎◌, inl, inr, refl, ap, sym, ◌∙◌,
  arith, ◌&&◌, ltb, leb, ◌==◌, if◌then◌else◌, Eq-cases, Bool-cases, ==-refl, ==-ne,
}
use crypto_jasmine.Base.Geometry.{
  pages_per_blk, vblks_per_bank, num_banks, mapblks_per_bank, bytes_per_page, page_map_bytes,
}
use mathlib.Core.Path.{subst}
use crypto_jasmine.Base.Words.{add32}
use crypto_jasmine.Greedy.Collect.{block_erase}
use crypto_jasmine.Greedy.Copying.{block}
use crypto_jasmine.Greedy.Format.{map_page, Ssd, erase_block}
use crypto_jasmine.Greedy.Log.{
  page_entries, pmap_entries, log_program, log_map_page, log_map_pages, logging_pmap_table,
}

-- The page behind page `c` of a map block; behind the last one comes the first.
abbrev pub next_map_vpn : ℕ → ℕ
next_map_vpn c = if (c + 1) % pages_per_blk == 0 then c / pages_per_blk * pages_per_blk else c + 1

pub next_map_vpn-block : (c : ℕ) → block (next_map_vpn c) ≡ block c
next_map_vpn-block c = ground arith

module _ {Data : Type 0} where
  -- Every map block of a bank is a block of its own, and none is block 0 or 1.
  pub record Placed (d : Ssd Data) : Type 0 where
    pub few :
        (b lbn : ℕ)
        → b < num_banks
        → lbn < mapblks_per_bank
        → block (d.logs.cur_mapblk_vpn b lbn) < vblks_per_bank
    pub past :
        (b lbn : ℕ)
        → b < num_banks
        → lbn < mapblks_per_bank
        → 1 < block (d.logs.cur_mapblk_vpn b lbn)
    pub apart :
        (b lbn lbn' : ℕ)
        → b < num_banks
        → lbn < mapblks_per_bank
        → lbn' < mapblks_per_bank
        → block (d.logs.cur_mapblk_vpn b lbn) ≡ block (d.logs.cur_mapblk_vpn b lbn')
        → lbn ≡ lbn'

  -- What the log of page `p` of the map has
  abbrev pub part : Ssd Data → (p k : ℕ) → ℕ
  part d p k =
      if ltb k (pmap_entries page_map_bytes p)
      then d.ftl.page_map (p * page_entries + k)
      else 0xffff_ffff

  -- The metadata themselves stay as they are.
  pub record Tables (d d' : Ssd Data) : Type 0 where
    pub map : d'.ftl.page_map ≡ d.ftl.page_map
    pub vcount : d'.ftl.vcount ≡ d.ftl.vcount
    pub misc : d'.ftl.misc ≡ d.ftl.misc
    pub miscblk : d'.logs.cur_miscblk_vpn ≡ d.logs.cur_miscblk_vpn

  -- A round of the log of the map; the page of the log was `c`.
  pub record MapLogged (p c : ℕ) (d d' : Ssd Data) : Type 0 where
    pub tables : Tables d d'
    pub vpns :
        (b lbn : ℕ)
        → d'.logs.cur_mapblk_vpn b lbn ≡ (
            if b == p % num_banks && lbn == p / num_banks
            then next_map_vpn c
            else d.logs.cur_mapblk_vpn b lbn)
    pub page : d'.logs.pages (p % num_banks) (next_map_vpn c) ≡ map_page (part d p)
    pub others :
        (b v : ℕ) → (b ≢ p % num_banks) ⊎ (block v ≢ block c) → d'.logs.pages b v ≡ d.logs.pages b v

module _ {Data : Type 0} (blank : Data) where
  pub log_map_page-MapLogged :
      (p : ℕ) (d : Ssd Data)
      → block (d.logs.cur_mapblk_vpn (p % num_banks) (p / num_banks)) < vblks_per_bank
      → MapLogged p
          (d.logs.cur_mapblk_vpn (p % num_banks) (p / num_banks))
          d
          (log_map_page blank p d)
  unfolding log_map_page log_program erase_block block_erase
  log_map_page-MapLogged p d lt =
      let bank : ℕ = p % num_banks in
      let lbn : ℕ = p / num_banks in
      let c : ℕ = d.logs.cur_mapblk_vpn bank lbn in
      let next : add32 c 1 ≡ c + 1 = omega arith in
      elim (Bool-cases ((c + 1) % pages_per_blk == 0)) [
        | inl full ↦
            let same : (c + 1 - 1) / pages_per_blk ≡ block c = omega arith in
            rw (next, full, same)
              (record {
                tables = record { map = refl; vcount = refl; misc = refl; miscblk = refl };
                vpns = λ b l. ground arith;
                page =
                    let at : next_map_vpn c ≡ block c * pages_per_blk = rw full refl in
                    rw (==-refl bank, at, ==-refl (block c * pages_per_blk)) refl;
                others = λ b v h. ground (arith, h);
              })
        | inr room ↦
            rw (next, room)
              (record {
                tables = record { map = refl; vcount = refl; misc = refl; miscblk = refl };
                vpns = λ b l. ground arith;
                page =
                    let at : next_map_vpn c ≡ c + 1 = rw room refl in
                    rw (==-refl bank, at, ==-refl (c + 1)) refl;
                others = λ b v h. ground (arith, h);
              })
      ]

-- The pages of the map
abbrev pub map_pages : ℕ
map_pages = (page_map_bytes + bytes_per_page - 1) / bytes_per_page

module _ {Data : Type 0} where
  -- The pages of the map below `p` are in the log, and the blocks of the logs are the same.
  pub record Stage (d₀ : Ssd Data) (p : ℕ) (d : Ssd Data) : Type 0 where
    pub tables : Tables d₀ d
    pub placed : Placed d
    pub saved :
        (q : ℕ)
        → q < p
        → d.logs.pages (q % num_banks) (d.logs.cur_mapblk_vpn (q % num_banks) (q / num_banks))
          ≡ map_page (part d₀ q)
    pub misc_blocks : (b v : ℕ) → block v ≤ 1 → d.logs.pages b v ≡ d₀.logs.pages b v

  part-same : (d₀ d : Ssd Data) → Tables d₀ d → (q : ℕ) → part d q ≡ part d₀ q
  part-same d₀ d t q =
      let cut : (ℕ → ℕ) → ℕ → ℕ = λ f k.
        if ltb k (pmap_entries page_map_bytes q) then f (q * page_entries + k) else 0xffff_ffff in
      ap cut (t.map)

  vpns-block :
      (p : ℕ) (d d' : Ssd Data)
      → MapLogged p (d.logs.cur_mapblk_vpn (p % num_banks) (p / num_banks)) d d'
      → (b lbn : ℕ) → block (d'.logs.cur_mapblk_vpn b lbn) ≡ block (d.logs.cur_mapblk_vpn b lbn)
  vpns-block p d d' m b lbn =
      let c : ℕ = d.logs.cur_mapblk_vpn (p % num_banks) (p / num_banks) in
      elim (Eq-cases b (p % num_banks)) [
        | inl hb ↦ elim (Eq-cases lbn (p / num_banks)) [
          | inl hl ↦
              ap block
                (m.vpns b lbn ∙ rw (hb, hl, ==-refl (p % num_banks), ==-refl (p / num_banks)) refl)
              ∙ next_map_vpn-block c
              ∙ sym (
                  ap (λ x. block (d.logs.cur_mapblk_vpn x lbn)) hb
                  ∙ ap (λ x. block (d.logs.cur_mapblk_vpn (p % num_banks) x)) hl)
          | inr nl ↦
              ap block
                (m.vpns b lbn ∙ rw (hb, ==-refl (p % num_banks), ==-ne lbn (p / num_banks) nl) refl)
        ]
        | inr nb ↦ ap block (m.vpns b lbn ∙ rw (==-ne b (p % num_banks) nb) refl)
      ]

  vpns-other :
      (p c : ℕ) (d d' : Ssd Data)
      → MapLogged p c d d'
      → (q : ℕ) → q ≢ p
      → d'.logs.cur_mapblk_vpn (q % num_banks) (q / num_banks)
        ≡ d.logs.cur_mapblk_vpn (q % num_banks) (q / num_banks)
  vpns-other p c d d' m q ne =
      m.vpns (q % num_banks) (q / num_banks) ∙ (elim (Eq-cases (q % num_banks) (p % num_banks)) [
        | inl same ↦
            let apart : q / num_banks ≢ p / num_banks = λ e. ne (omega arith) in
            rw (==-ne (q / num_banks) (p / num_banks) apart) (ground arith)
        | inr other ↦ rw (==-ne (q % num_banks) (p % num_banks) other) refl
      ])

  page-kept :
      (p q : ℕ) (d d' : Ssd Data)
      → Placed d
      → MapLogged p (d.logs.cur_mapblk_vpn (p % num_banks) (p / num_banks)) d d'
      → q ≢ p
      → q < num_banks * mapblks_per_bank
      → p < num_banks * mapblks_per_bank
      → d'.logs.pages (q % num_banks) (d'.logs.cur_mapblk_vpn (q % num_banks) (q / num_banks))
        ≡ d.logs.pages (q % num_banks) (d.logs.cur_mapblk_vpn (q % num_banks) (q / num_banks))
  page-kept p q d d' pl m ne hq hp =
      ap (d'.logs.pages (q % num_banks)) (vpns-other p _ d d' m q ne)
      ∙ m.others (q % num_banks) (d.logs.cur_mapblk_vpn (q % num_banks) (q / num_banks))
          (elim (Eq-cases (q % num_banks) (p % num_banks)) [
            | inl same ↦ inr (λ e.
                let lbn : q / num_banks ≡ p / num_banks =
                  pl.apart (p % num_banks) (q / num_banks) (p / num_banks) (omega arith)
                    (omega arith) (omega arith)
                    (ap (λ b. block (d.logs.cur_mapblk_vpn b (q / num_banks))) (sym same) ∙ e) in
                ne (omega arith))
            | inr other ↦ inl other
          ])

  Tables-trans : (d e f : Ssd Data) → Tables d e → Tables e f → Tables d f
  Tables-trans d e f t u = record {
    map = u.map ∙ t.map;
    vcount = u.vcount ∙ t.vcount;
    misc = u.misc ∙ t.misc;
    miscblk = u.miscblk ∙ t.miscblk;
  }

  next-Stage :
      (d₀ : Ssd Data) (p : ℕ) (d d' : Ssd Data)
      → p < num_banks * mapblks_per_bank
      → Stage d₀ p d
      → MapLogged p (d.logs.cur_mapblk_vpn (p % num_banks) (p / num_banks)) d d'
      → Stage d₀ (p + 1) d'
  next-Stage d₀ p d d' h s m =
      let c : ℕ = d.logs.cur_mapblk_vpn (p % num_banks) (p / num_banks) in
      let pl = s.placed in
      record {
        tables = Tables-trans d₀ d d' (s.tables) (m.tables);
        placed = record {
          few = λ b l hb hl. rw (vpns-block p d d' m b l) (pl.few b l hb hl);
          past = λ b l hb hl. rw (vpns-block p d d' m b l) (pl.past b l hb hl);
          apart = λ b l k hb hl hk e.
              pl.apart b l k hb hl hk (sym (vpns-block p d d' m b l) ∙ e ∙ vpns-block p d d' m b k);
        };
        saved = λ q lt. elim (Eq-cases q p) [
          | inl same ↦
              let at : d'.logs.cur_mapblk_vpn (p % num_banks) (p / num_banks) ≡ next_map_vpn c =
                m.vpns (p % num_banks) (p / num_banks)
                ∙ rw (==-refl (p % num_banks), ==-refl (p / num_banks)) refl in
              rw same (
                ap (d'.logs.pages (p % num_banks)) at
                ∙ m.page
                ∙ ap map_page (part-same d₀ d (s.tables) p))
          | inr before ↦ page-kept p q d d' pl m before (omega arith) h ∙ s.saved q (omega arith)
        ];
        misc_blocks = λ b v le.
            m.others b v (
              inr (λ e. absurd (
                omega
                  (arith, pl.past (p % num_banks) (p / num_banks) (omega arith) (omega arith), e))))
            ∙ s.misc_blocks b v le;
      }

module _ {Data : Type 0} (blank : Data) where
  log_map_pages-Stage :
      (n p : ℕ) (d₀ d : Ssd Data)
      → p + n ≡ mapblks_per_bank * num_banks
      → p ≤ map_pages
      → Stage d₀ p d
      → Stage d₀ map_pages (log_map_pages n blank p d)
  unfolding log_map_pages
  log_map_pages-Stage zero p d₀ d e le s = absurd (omega arith)
  log_map_pages-Stage (suc n) p d₀ d e le s =
      let logged : Ssd Data = log_map_page blank p d in
      elim (Bool-cases (leb page_map_bytes (p * bytes_per_page))) [
        | inl beyond ↦
            let last : p ≡ map_pages = ground arith in rw beyond (subst (λ k. Stage d₀ k d) last s)
        | inr more ↦
            let h : p < map_pages = ground arith in
            let m =
              log_map_page-MapLogged blank p d
                (s.placed.few (p % num_banks) (p / num_banks) (omega arith) (omega arith)) in
            let s' : Stage d₀ (p + 1) logged = next-Stage d₀ p d logged (omega arith) s m in
            elim (Bool-cases (leb page_map_bytes (p * bytes_per_page + bytes_per_page))) [
              | inl final ↦
                  let last : p + 1 ≡ map_pages = ground arith in
                  rw (more, final) (subst (λ k. Stage d₀ k logged) last s')
              | inr on ↦
                  rw (more, on)
                    (log_map_pages-Stage n (p + 1) d₀ logged (omega arith) (omega arith) s')
            ]
      ]

  -- The log of the page map has every page of it, each at the page that its map block is at, and
  -- leaves the block of the misc. metadata alone.
  pub logging_pmap_table-Stage :
      (d : Ssd Data) → Placed d → Stage d map_pages (logging_pmap_table blank d)
  unfolding logging_pmap_table
  logging_pmap_table-Stage d pl =
      log_map_pages-Stage (mapblks_per_bank * num_banks) 0 d d refl (omega arith) (record {
        tables = record { map = refl; vcount = refl; misc = refl; miscblk = refl };
        placed = pl;
        saved = λ q lt. absurd (omega arith);
        misc_blocks = λ b v le. refl;
      })
