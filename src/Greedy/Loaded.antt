-- ===== src/Greedy/Loaded.antt =====
-- `load_metadata` of ftl_greedy/ftl.c finds what was flushed.
use crypto_jasmine.Base.{
  ℕ, zero, suc, ◌+◌, ◌≤◌, ◌<◌, ◌≡◌, ◌≢◌, ◌⊎◌, inl, inr, refl, ap, sym, ◌∙◌, arith, Bool, true,
  false, Eq-cases, Bool-cases, ==-refl, ==-ne,
}
use mathlib.Core.Path.{subst}
use crypto_jasmine.Base.Geometry.{num_banks}
use crypto_jasmine.Greedy.Format.{LogPage, all_ff, Ssd}
use crypto_jasmine.Greedy.Load.{written_to, log_read, scan_bank, scan_banks, scan_pages}

module _ {Data : Type 0} where
  -- The device after a loss of power: the logs are those of `d`.
  abbrev pub SameLogs : Ssd Data → Ssd Data → Type 0
  SameLogs d r = (b v : ℕ) → r.logs.pages b v ≡ d.logs.pages b v

  -- What a scan leaves alone
  pub record Scanned (r r' : Ssd Data) : Type 0 where
    pub ftl : r'.ftl ≡ r.ftl
    pub pages : r'.logs.pages ≡ r.logs.pages
    pub cur : r'.logs.cur_miscblk_vpn ≡ r.logs.cur_miscblk_vpn
    pub mapblk : r'.logs.cur_mapblk_vpn ≡ r.logs.cur_mapblk_vpn

  Scanned-trans : (a b c : Ssd Data) → Scanned a b → Scanned b c → Scanned a c
  Scanned-trans a b c s t = record {
    ftl = t.ftl ∙ s.ftl;
    pages = t.pages ∙ s.pages;
    cur = t.cur ∙ s.cur;
    mapblk = t.mapblk ∙ s.mapblk;
  }

  scan_bank-Scanned :
      (k page : ℕ) (f : ℕ → Bool) (r : Ssd Data) → Scanned r (scan_bank k page (f, r)).1
  unfolding scan_bank log_read
  scan_bank-Scanned k page f r = elim (Bool-cases (f k)) [
    | inl loaded ↦ rw loaded (record { ftl = refl; pages = refl; cur = refl; mapblk = refl })
    | inr waits ↦ rw waits (record { ftl = refl; pages = refl; cur = refl; mapblk = refl })
  ]

  scan_banks-Scanned :
      (n k page : ℕ) (f : ℕ → Bool) (r : Ssd Data) → Scanned r (scan_banks n k page (f, r)).1
  unfolding scan_banks
  scan_banks-Scanned zero k page f r = record {
    ftl = refl;
    pages = refl;
    cur = refl;
    mapblk = refl;
  }
  scan_banks-Scanned (suc n) k page f r =
      let q = scan_bank k page (f, r) in
      Scanned-trans r (q.1) (scan_banks n (k + 1) page (q.0, q.1)).1 (scan_bank-Scanned k page f r)
        (scan_banks-Scanned n (k + 1) page (q.0) (q.1))

  scan_bank-other :
      (k page b : ℕ) (f : ℕ → Bool) (r : Ssd Data)
      → b ≢ k
      → ((scan_bank k page (f, r)).0 b ≡ f b)
        × ((scan_bank k page (f, r)).1.logs.ftl_buf b ≡ r.logs.ftl_buf b)
  unfolding scan_bank log_read
  scan_bank-other k page b f r ne = elim (Bool-cases (f k)) [
    | inl loaded ↦ rw loaded (refl, refl)
    | inr waits ↦ rw waits (rw (==-ne b k ne) refl, rw (==-ne b k ne) refl)
  ]

  scan_bank-loaded :
      (k page : ℕ) (f : ℕ → Bool) (r : Ssd Data) → f k ≡ true → scan_bank k page (f, r) ≡ (f, r)
  unfolding scan_bank log_read
  scan_bank-loaded k page f r e = rw e

  scan_bank-reads :
      (k page : ℕ) (f : ℕ → Bool) (r : Ssd Data)
      → f k ≡ false
      → ((scan_bank k page (f, r)).0 k ≡ written_to (r.logs.pages k (128 + page)))
        × ((scan_bank k page (f, r)).1.logs.ftl_buf k ≡ r.logs.pages k (128 + page))
  unfolding scan_bank log_read
  scan_bank-reads k page f r e = rw (e, ==-refl k) (refl, refl)

  -- A bank whose last written page of the misc. block is `c`, which has `m`.
  module _ (b c : ℕ) (m : LogPage) (r₀ : Ssd Data) (lt : b < num_banks)
      (has : r₀.logs.pages b (128 + c) ≡ m) (is_written : written_to m ≡ true)
      (erased : (p : ℕ) → c < p → p < 128 → r₀.logs.pages b (128 + p) ≡ all_ff) where
    -- In the scan the bank waits for page `c`, or has it.
    pub record Waits (page : ℕ) (q : (ℕ → Bool) × Ssd Data) : Type 0 where
      pub not_yet : q.0 b ≡ false
      pub ahead : c < page

    pub record Has (q : (ℕ → Bool) × Ssd Data) : Type 0 where
      pub loaded : q.0 b ≡ true
      pub buf : q.1.logs.ftl_buf b ≡ m

    abbrev Seen : ℕ → (ℕ → Bool) × Ssd Data → Type 0
    Seen page q = Waits page q ⊎ Has q

    scan_bank-Seen :
        (page : ℕ) (f : ℕ → Bool) (r : Ssd Data)
        → Scanned r₀ r
        → page < 128
        → Seen (page + 1) (f, r)
        → Seen page (scan_bank b page (f, r))
    scan_bank-Seen page f r s h (inr l) =
        subst (Seen page) (sym (scan_bank-loaded b page f r (l.loaded))) (inr l)
    scan_bank-Seen page f r s h (inl w) =
        let (flag, buf) = scan_bank-reads b page f r (w.not_yet) in
        let at : r.logs.pages b (128 + page) ≡ r₀.logs.pages b (128 + page) =
          ap (λ g. g b (128 + page)) (s.pages) in
        elim (Eq-cases c page) [
          | inl here ↦
              let m' : r.logs.pages b (128 + page) ≡ m =
                at ∙ ap (λ x. r₀.logs.pages b (128 + x)) (sym here) ∙ has in
              inr (record { loaded = flag ∙ ap written_to m' ∙ is_written; buf = buf ∙ m' })
          | inr below ↦
              let lt' : c < page = let k = w.ahead in omega arith in
              let ff : r.logs.pages b (128 + page) ≡ all_ff = at ∙ erased page lt' h in
              inl (record { not_yet = flag ∙ ap written_to ff; ahead = lt' })
        ]

    scan_other-Seen :
        (k page n : ℕ) (f : ℕ → Bool) (r : Ssd Data)
        → b ≢ k
        → Seen n (f, r)
        → Seen n (scan_bank k page (f, r))
    scan_other-Seen k page n f r ne (inl w) =
        let (flag, buf) = scan_bank-other k page b f r ne in
        inl (record { not_yet = flag ∙ w.not_yet; ahead = w.ahead })
    scan_other-Seen k page n f r ne (inr l) =
        let (flag, buf) = scan_bank-other k page b f r ne in
        inr (record { loaded = flag ∙ l.loaded; buf = buf ∙ l.buf })

    -- After the rounds for the banks below `k`
    scan_banks-Seen :
        (n k page : ℕ) (f : ℕ → Bool) (r : Ssd Data)
        → k + n ≡ num_banks
        → page < 128
        → Scanned r₀ r
        → (b < k → Seen page (f, r))
        → (k ≤ b → Seen (page + 1) (f, r))
        → Seen page (scan_banks n k page (f, r))
    unfolding scan_banks
    scan_banks-Seen zero k page f r e h s past todo = past (omega arith)
    scan_banks-Seen (suc n) k page f r e h s past todo =
        let q : (ℕ → Bool) × Ssd Data = scan_bank k page (f, r) in
        let s' : Scanned r₀ (q.1) = Scanned-trans r₀ r (q.1) s (scan_bank-Scanned k page f r) in
        scan_banks-Seen n (k + 1) page (q.0) (q.1) (omega arith) h s'
          (λ lo. elim (Eq-cases b k) [
            | inl here ↦
                subst (λ x. Seen page (scan_bank x page (f, r))) here
                  (scan_bank-Seen page f r s h (todo (omega arith)))
            | inr before ↦ scan_other-Seen k page page f r before (past (omega arith))
          ])
          (λ hi.
            scan_other-Seen k page (page + 1) f r (λ z. absurd (omega arith)) (todo (omega arith)))

    pub scan_pages-Has :
        (n : ℕ) (f : ℕ → Bool) (r : Ssd Data)
        → n ≤ 128
        → Scanned r₀ r
        → Seen n (f, r)
        → Has (scan_pages n (f, r))
    unfolding scan_pages
    scan_pages-Has zero f r le s (inl w) = absurd (let k = w.ahead in omega arith)
    scan_pages-Has zero f r le s (inr l) = l
    scan_pages-Has (suc n) f r le s seen =
        let q : (ℕ → Bool) × Ssd Data = scan_banks num_banks 0 n (f, r) in
        let next : suc n ≡ n + 1 = omega arith in
        scan_pages-Has n (q.0) (q.1) (omega arith)
          (Scanned-trans r₀ r (q.1) s (scan_banks-Scanned num_banks 0 n f r))
          (scan_banks-Seen num_banks 0 n f r refl (omega arith) s (λ lo. absurd (omega arith))
            (λ hi. subst (λ x. Seen x (f, r)) next seen))

  pub scan_pages-Scanned : (n : ℕ) (f : ℕ → Bool) (r : Ssd Data) → Scanned r (scan_pages n (f, r)).1
  unfolding scan_pages
  scan_pages-Scanned zero f r = record { ftl = refl; pages = refl; cur = refl; mapblk = refl }
  scan_pages-Scanned (suc n) f r =
      let q = scan_banks num_banks 0 n (f, r) in
      Scanned-trans r (q.1) (scan_pages n (q.0, q.1)).1 (scan_banks-Scanned num_banks 0 n f r)
        (scan_pages-Scanned n (q.0) (q.1))
