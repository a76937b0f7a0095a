-- ===== src/Greedy/BadBlocks.antt =====
-- `build_bad_blk_list` of ftl_greedy/ftl.c: which blocks are bad, and how many.
use crypto_jasmine.Base.{
  ℕ, zero, suc, ◌+◌, ◌-◌, ◌≤◌, ◌<◌, ◌≡◌, ◌≢◌, inl, inr, refl, ap, ◌∙◌, arith, Bool, true, false,
  ◌&&◌, ltb, leb, if◌then◌else◌, upd, Eq-cases, Bool-cases, ==-refl, ==-ne,
}
use mathlib.Core.Path.{subst}
use crypto_jasmine.Base.Geometry.{num_banks, vblks_per_bank}
use crypto_jasmine.Base.Words.{add32, u32_mod}
use crypto_jasmine.Greedy.State.{vc_max}
use crypto_jasmine.Greedy.Format.{Ssd}
use crypto_jasmine.Greedy.Scan.{
  ScanList, read_scan_list, Search, is_listed, mark_bad_blocks, build_bank, build_banks,
  build_bad_blk_list,
}
use crypto_jasmine.Greedy.Valid.{in_use}

-- The counts of an empty bank whose list is `l`
abbrev pub listed_row : Search → (num_entries : ℕ) → ScanList → ℕ → ℕ
listed_row search num_entries l u = if is_listed search num_entries u l then vc_max else 0

module _ {Data : Type 0} (search : Search) where
  -- What the marking of a bank does
  pub record Marked (bank lo hi num_entries : ℕ) (l : ScanList) (d d' : Ssd Data) : Type 0 where
    pub bad :
        (u : ℕ)
        → d'.bad bank u ≡ (
            if leb lo u && ltb u hi && is_listed search num_entries u l then true else d.bad bank u)
    pub others : (b : ℕ) → b ≢ bank → d'.bad b ≡ d.bad b
    pub other_cnt : (b : ℕ) → b ≢ bank → d'.bad_cnt b ≡ d.bad_cnt b
    pub ftl : d'.ftl ≡ d.ftl

  mark_bad_blocks-Marked :
      (n bank v ne : ℕ) (l : ScanList) (d : Ssd Data)
      → Marked bank v (v + n) ne l d (mark_bad_blocks search n bank v ne l d)
  unfolding mark_bad_blocks
  mark_bad_blocks-Marked zero bank v ne l d = record {
    bad = λ u. ground arith;
    others = λ b h. refl;
    other_cnt = λ b h. refl;
    ftl = refl;
  }
  mark_bad_blocks-Marked (suc n) bank v ne l d = elim (Bool-cases (is_listed search ne v l)) [
    | inl is_bad ↦
        let e : Ssd Data = record d {
          bad = upd (d.bad) bank (upd (d.bad bank) v true);
          bad_cnt = upd (d.bad_cnt) bank (add32 (d.bad_cnt bank) 1);
        } in
        let m = mark_bad_blocks-Marked n bank (v + 1) ne l e in
        rw is_bad (record {
          bad = λ u. m.bad u ∙ (elim (Eq-cases u v) [
            | inl here ↦ rw (here, is_bad, ==-refl bank, ==-refl v) (ground arith)
            | inr other ↦ rw (==-refl bank, ==-ne u v other) (ground arith)
          ]);
          others = λ b h. m.others b h ∙ rw (==-ne b bank h) refl;
          other_cnt = λ b h. m.other_cnt b h ∙ rw (==-ne b bank h) refl;
          ftl = m.ftl;
        })
    | inr is_good ↦
        let m = mark_bad_blocks-Marked n bank (v + 1) ne l d in
        rw is_good (record {
          bad = λ u. m.bad u ∙ (elim (Eq-cases u v) [
            | inl here ↦ rw (here, is_good) (ground arith)
            | inr other ↦ ground arith
          ]);
          others = m.others;
          other_cnt = m.other_cnt;
          ftl = m.ftl;
        })
  ]

  -- The bad blocks and the good ones are all that were looked at.
  mark_bad_blocks-count :
      (n bank w ne : ℕ) (l : ScanList) (d : Ssd Data)
      → d.bad_cnt bank + n < u32_mod
      → (mark_bad_blocks search n bank (w + 1) ne l d).bad_cnt bank
          + in_use n (listed_row search ne l) w
        ≡ d.bad_cnt bank + n
  unfolding mark_bad_blocks in_use
  mark_bad_blocks-count zero bank w ne l d small = refl
  mark_bad_blocks-count (suc n) bank w ne l d small =
      elim (Bool-cases (is_listed search ne (w + 1) l)) [
        | inl is_bad ↦
            let e : Ssd Data = record d {
              bad = upd (d.bad) bank (upd (d.bad bank) (w + 1) true);
              bad_cnt = upd (d.bad_cnt) bank (add32 (d.bad_cnt bank) 1);
            } in
            let c : e.bad_cnt bank ≡ d.bad_cnt bank + 1 = rw (==-refl bank) (omega arith) in
            let m = mark_bad_blocks-count n bank (w + 1) ne l e (omega (arith, c)) in
            rw (mark_bad_blocks, is_bad) (omega (arith, m, c))
        | inr is_good ↦
            let m = mark_bad_blocks-count n bank (w + 1) ne l d (omega arith) in
            rw (mark_bad_blocks, is_good) (omega (arith, m))
      ]

-- The list of a bank as it is searched, and the number of its entries
abbrev pub entries_of : (corrupt : ℕ → Bool) → (lists : ℕ → ScanList) → ℕ → ℕ
entries_of corrupt lists b = (read_scan_list (corrupt b) (lists b)).0

abbrev pub list_of : (corrupt : ℕ → Bool) → (lists : ℕ → ScanList) → ℕ → ScanList
list_of corrupt lists b = (read_scan_list (corrupt b) (lists b)).1

module _ {Data : Type 0} (search : Search) (corrupt : ℕ → Bool) (lists : ℕ → ScanList) where
  -- A bank whose list was read
  pub record Built (b : ℕ) (d : Ssd Data) : Type 0 where
    pub bad :
        (u : ℕ)
        → d.bad b u ≡ (
            leb 1 u
            && ltb u vblks_per_bank
            && is_listed search (entries_of corrupt lists b) u (list_of corrupt lists b))
    pub cnt :
        d.bad_cnt b
          + in_use
              (vblks_per_bank - 1)
              (listed_row search (entries_of corrupt lists b) (list_of corrupt lists b))
              0
        ≡ vblks_per_bank - 1

  -- The banks below `k` are done.
  pub record Building (d₀ : Ssd Data) (k : ℕ) (d : Ssd Data) : Type 0 where
    pub built : (b : ℕ) → b < k → Built b d
    pub todo : (b u : ℕ) → k ≤ b → d.bad b u ≡ false
    pub ftl : d.ftl ≡ d₀.ftl

  build_bank-Building :
      (d₀ : Ssd Data) (k : ℕ) (d : Ssd Data)
      → Building d₀ k d
      → Building d₀ (k + 1) (build_bank search (corrupt k) (lists k) k d)
  unfolding build_bank
  build_bank-Building d₀ k d s =
      let ne : ℕ = entries_of corrupt lists k in
      let l : ScanList = list_of corrupt lists k in
      let c : Ssd Data = record d { bad_cnt = upd (d.bad_cnt) k 0 } in
      let d' : Ssd Data = mark_bad_blocks search 2075 k 1 ne l c in
      let m = mark_bad_blocks-Marked search 2075 k 1 ne l c in
      let zeroed : c.bad_cnt k ≡ 0 = rw (==-refl k) refl in
      let count = mark_bad_blocks-count search 2075 k 0 ne l c (omega (arith, zeroed)) in
      record {
        built = λ b lt. elim (Eq-cases b k) [
          | inl here ↦ rw here (record {
            bad = λ u. m.bad u ∙ rw (s.todo k u (omega arith)) (ground arith);
            cnt = count ∙ omega (arith, zeroed);
          })
          | inr before ↦
              let old = s.built b (omega arith) in
              record {
                bad = λ u. ap (λ f. f u) (m.others b before) ∙ old.bad u;
                cnt =
                    ap
                      (λ n.
                        n
                        + in_use (vblks_per_bank - 1)
                            (listed_row search (entries_of corrupt lists b)
                              (list_of corrupt lists b))
                            0)
                      (m.other_cnt b before ∙ rw (==-ne b k before) refl)
                    ∙ old.cnt;
              }
        ];
        todo = λ b u le.
            let ne' : b ≢ k = λ e. absurd (omega arith) in
            ap (λ f. f u) (m.others b ne') ∙ s.todo b u (omega arith);
        ftl = m.ftl ∙ s.ftl;
      }

  build_banks-Building :
      (n k : ℕ) (d₀ d : Ssd Data)
      → k + n ≡ num_banks
      → Building d₀ k d
      → Building d₀ num_banks (build_banks search n corrupt lists k d)
  unfolding build_banks
  build_banks-Building zero k d₀ d e s =
      let last : k ≡ num_banks = omega arith in subst (λ x. Building d₀ x d) last s
  build_banks-Building (suc n) k d₀ d e s =
      build_banks-Building n (k + 1) d₀ (build_bank search (corrupt k) (lists k) k d) (omega arith)
        (build_bank-Building d₀ k d s)

  pub build_bad_blk_list-Building :
      (d : Ssd Data) → Building d num_banks (build_bad_blk_list search corrupt lists d)
  unfolding build_bad_blk_list
  build_bad_blk_list-Building d =
      build_banks-Building num_banks 0 d _ refl
        (record { built = λ b h. absurd (omega arith); todo = λ b u h. refl; ftl = refl })
