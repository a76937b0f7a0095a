-- ===== src/Greedy/Restored.antt =====
-- `load_metadata` of ftl_greedy/ftl.c: the tables after it.
use crypto_jasmine.Base.{
  ℕ, zero, suc, ◌+◌, ◌-◌, ◌*◌, ◌/◌, ◌%◌, ◌≤◌, ◌<◌, ◌≡◌, inl, inr, refl, ap, ◌∙◌, arith, true, false,
  ◌&&◌, some, ltb, leb, Eq-cases, Bool-cases, ==-refl, ==-ne,
}
use mathlib.Core.Path.{subst}
use crypto_jasmine.Base.Geometry.{
  vblks_per_bank, num_banks, mapblks_per_bank, bytes_per_page, page_map_bytes, num_lpages,
}
use crypto_jasmine.Greedy.State.{Misc, set_misc}
use crypto_jasmine.Greedy.Format.{Saved, misc_page, map_page, Ssd}
use crypto_jasmine.Greedy.Log.{logged_counts, page_entries, pmap_entries, count_at}
use crypto_jasmine.Greedy.Load.{
  log_read, restore_misc, copy_misc, copy_miscs, copy_map, restore_map, load_map_page,
  load_map_pages,
}
use crypto_jasmine.Greedy.Logged.{part, map_pages}

-- The metadata of a bank; the statistics are not in the logs.
pub record SameMisc (m m' : Misc) : Type 0 where
  pub cur_write_vpn : m.cur_write_vpn ≡ m'.cur_write_vpn
  pub gc_vblock : m.gc_vblock ≡ m'.gc_vblock
  pub free_blk_cnt : m.free_blk_cnt ≡ m'.free_blk_cnt
  pub lpn_list : m.lpn_list_of_cur_vblock ≡ m'.lpn_list_of_cur_vblock

module _ {Data : Type 0} (d₀ : Ssd Data) (d : Ssd Data) where
  -- The page of the log for bank `b`
  abbrev pub saved_at : ℕ → Saved
  saved_at b = record {
    misc = d₀.ftl.misc b;
    miscblk_vpn = d.logs.cur_miscblk_vpn b;
    mapblk_vpn = d.logs.cur_mapblk_vpn b;
    counts = λ k. count_at (d₀.ftl) (b * logged_counts + k);
  }

  -- The banks below `k` are restored.
  pub record Restored (r : Ssd Data) (k : ℕ) (t : Ssd Data) : Type 0 where
    pub misc : (b : ℕ) → b < k → SameMisc (t.ftl.misc b) (d₀.ftl.misc b)
    pub miscblk : (b : ℕ) → b < k → t.logs.cur_miscblk_vpn b ≡ d.logs.cur_miscblk_vpn b
    pub mapblk : (b lbn : ℕ) → b < k → t.logs.cur_mapblk_vpn b lbn ≡ d.logs.cur_mapblk_vpn b lbn
    pub counts :
        (b v : ℕ)
        → v < vblks_per_bank
        → b * vblks_per_bank + v < k * logged_counts
        → t.ftl.vcount b v ≡ d₀.ftl.vcount b v
    pub pages : t.logs.pages ≡ r.logs.pages
    pub buf : t.logs.ftl_buf ≡ r.logs.ftl_buf

  count_at-row :
      (b v : ℕ)
      → v < vblks_per_bank
      → count_at (d₀.ftl) (b * vblks_per_bank + v) ≡ d₀.ftl.vcount b v
  count_at-row b v h =
      let row : (b * vblks_per_bank + v) / vblks_per_bank ≡ b = omega arith in
      let place : (b * vblks_per_bank + v) % vblks_per_bank ≡ v = omega arith in
      ap (λ x. d₀.ftl.vcount x ((b * vblks_per_bank + v) % vblks_per_bank)) row
      ∙ ap (d₀.ftl.vcount b) place

  restore_misc-Restored :
      (r : Ssd Data) (k : ℕ) (t : Ssd Data)
      → Restored r k t
      → Restored r (k + 1) (restore_misc k (saved_at k) t)
  unfolding restore_misc set_misc
  restore_misc-Restored r k t s = record {
    misc = λ b lt. elim (Eq-cases b k) [
      | inl here ↦
          rw (here, ==-refl k)
            (record {
              cur_write_vpn = refl;
              gc_vblock = refl;
              free_blk_cnt = refl;
              lpn_list = refl;
            })
      | inr before ↦ rw (==-ne b k before) (s.misc b (omega arith))
    ];
    miscblk = λ b lt. elim (Eq-cases b k) [
      | inl here ↦ rw (here, ==-refl k) refl
      | inr before ↦ rw (==-ne b k before) (s.miscblk b (omega arith))
    ];
    mapblk = λ b lbn lt. elim (Eq-cases b k) [
      | inl here ↦ rw (here, ==-refl k) refl
      | inr before ↦ rw (==-ne b k before) (s.mapblk b lbn (omega arith))
    ];
    counts = λ b v h lt.
        let a : ℕ = b * vblks_per_bank + v in
        elim (Bool-cases (leb (k * logged_counts) a && ltb a (k * logged_counts + logged_counts))) [
          | inl within ↦
              let at : k * logged_counts + (a - k * logged_counts) ≡ a = ground arith in
              rw within (ap (count_at (d₀.ftl)) at ∙ count_at-row b v h)
          | inr out ↦
              let before : a < k * logged_counts = ground arith in rw out (s.counts b v h before)
        ];
    pages = s.pages;
    buf = s.buf;
  }

  pub copy_miscs-Restored :
      (n k : ℕ) (r t : Ssd Data)
      → k + n ≡ num_banks
      → ((b : ℕ) → b < num_banks → r.logs.ftl_buf b ≡ misc_page (saved_at b))
      → Restored r k t
      → (t' : Ssd Data) × (copy_miscs n k t ≡ some t') × Restored r num_banks t'
  unfolding copy_miscs copy_misc
  copy_miscs-Restored zero k r t e has s =
      let last : k ≡ num_banks = omega arith in (t, refl, subst (λ x. Restored r x t) last s)
  copy_miscs-Restored (suc n) k r t e has s =
      let at : t.logs.ftl_buf k ≡ misc_page (saved_at k) =
        ap (λ f. f k) (s.buf) ∙ has k (omega arith) in
      let (t', eq, s') =
        copy_miscs-Restored n (k + 1) r (restore_misc k (saved_at k) t) (omega arith) has
          (restore_misc-Restored r k t s) in
      (t', rw at eq, s')

  -- The page map below page `p` is restored, and the other tables are as they were.
  pub record MapRestored (r : Ssd Data) (p : ℕ) (t : Ssd Data) : Type 0 where
    pub map : (l : ℕ) → l < num_lpages → l < p * page_entries → t.ftl.page_map l ≡ d₀.ftl.page_map l
    pub misc : t.ftl.misc ≡ r.ftl.misc
    pub vcount : t.ftl.vcount ≡ r.ftl.vcount
    pub miscblk : t.logs.cur_miscblk_vpn ≡ r.logs.cur_miscblk_vpn
    pub mapblk : t.logs.cur_mapblk_vpn ≡ r.logs.cur_mapblk_vpn
    pub pages : t.logs.pages ≡ r.logs.pages

  part-entry :
      (p l : ℕ)
      → l < num_lpages
      → p * page_entries ≤ l
      → l < p * page_entries + page_entries
      → part d₀ p (l - p * page_entries) ≡ d₀.ftl.page_map l
  part-entry p l h lo hi =
      let within : ltb (l - p * page_entries) (pmap_entries page_map_bytes p) ≡ true =
        ground arith in
      let at : p * page_entries + (l - p * page_entries) ≡ l = omega arith in rw (within, at) refl

  -- A round that finds the page `p` of the map in the log
  load_map_page-Restored :
      (r : Ssd Data) (p : ℕ) (t : Ssd Data)
      → t.logs.pages (p % num_banks) (t.logs.cur_mapblk_vpn (p % num_banks) (p / num_banks))
        ≡ map_page (part d₀ p)
      → MapRestored r p t
      → (t' : Ssd Data) × (load_map_page p t ≡ some t') × MapRestored r (p + 1) t'
  unfolding load_map_page log_read copy_map restore_map
  load_map_page-Restored r p t has s =
      let b : ℕ = p % num_banks in
      let buffered : Ssd Data = log_read b (t.logs.cur_mapblk_vpn b (p / num_banks)) t in
      (
        restore_map p (part d₀ p) buffered,
        rw (==-refl (p % num_banks), has) refl,
        record {
          map = λ l h lt.
              elim (Bool-cases (
                leb (p * page_entries) l
                && ltb l (p * page_entries + pmap_entries (num_lpages * 4) p))) [
                  | inl within ↦ rw within (part-entry p l h (ground arith) (omega arith))
                  | inr out ↦
                      let before : l < p * page_entries = ground arith in rw out (s.map l h before)
                ];
          misc = s.misc;
          vcount = s.vcount;
          miscblk = s.miscblk;
          mapblk = s.mapblk;
          pages = s.pages;
        },
      )

  load_map_pages-next :
      (n p : ℕ) (t t₁ t' : Ssd Data)
      → leb (num_lpages * 4) (p * bytes_per_page) ≡ false
      → leb (num_lpages * 4) (p * bytes_per_page + bytes_per_page) ≡ false
      → load_map_page p t ≡ some t₁
      → load_map_pages n (p + 1) t₁ ≡ some t'
      → load_map_pages (suc n) p t ≡ some t'
  unfolding load_map_pages
  load_map_pages-next n p t t₁ t' more on e e' = rw (more, on, e) e'

  pub load_map_pages-Restored :
      (n p : ℕ) (r t : Ssd Data)
      → p + n ≡ mapblks_per_bank * num_banks
      → p ≤ map_pages
      → ((q : ℕ)
          → q < map_pages
          → r.logs.pages (q % num_banks) (r.logs.cur_mapblk_vpn (q % num_banks) (q / num_banks))
            ≡ map_page (part d₀ q))
      → MapRestored r p t
      → (t' : Ssd Data) × (load_map_pages n p t ≡ some t') × MapRestored r map_pages t'
  unfolding load_map_pages
  load_map_pages-Restored zero p r t e le has s = absurd (omega arith)
  load_map_pages-Restored (suc n) p r t e le has s =
      elim (Bool-cases (leb (num_lpages * 4) (p * bytes_per_page))) [
        | inl beyond ↦
            let last : p ≡ map_pages = ground arith in
            (t, rw beyond refl, subst (λ x. MapRestored r x t) last s)
        | inr more ↦
            let h : p < map_pages = ground arith in
            let at : t.logs.pages (p % num_banks)
                  (t.logs.cur_mapblk_vpn (p % num_banks) (p / num_banks))
                ≡ map_page (part d₀ p) =
              rw (s.pages, s.mapblk) (has p h) in
            let (t₁, eq, s₁) = load_map_page-Restored r p t at s in
            elim (Bool-cases (leb (num_lpages * 4) (p * bytes_per_page + bytes_per_page))) [
              | inl final ↦
                  let last : p + 1 ≡ map_pages = ground arith in
                  (t₁, rw (more, final) eq, subst (λ x. MapRestored r x t₁) last s₁)
              | inr on ↦
                  let (t', eq', s') =
                    load_map_pages-Restored n (p + 1) r t₁ (omega arith) (omega arith) has s₁ in
                  (t', load_map_pages-next n p t t₁ t' more on eq eq', s')
            ]
      ]
