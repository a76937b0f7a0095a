-- ===== src/Greedy/Initial.antt =====
-- `init_metadata_sram` of ftl_greedy/ftl.c for one bank.
use crypto_jasmine.Base.{
  ℕ, zero, suc, ◌+◌, ◌-◌, ◌*◌, ◌≤◌, ◌<◌, ◌≡◌, ◌≢◌, inl, inr, refl, ap, sym, ◌∙◌, arith, true, false,
  some, upd, Bool-cases, Eq-cases, ==-refl, ==-ne,
}
use crypto_jasmine.Base.Geometry.{
  vblks_per_bank, mapblks_per_bank, meta_blks_per_bank, pages_per_blk,
}
use crypto_jasmine.Base.Words.{sub32}
use crypto_jasmine.Greedy.State.{vc_max, set_misc}
use crypto_jasmine.Greedy.Format.{
  Ssd, write_vcount, change_misc, init_counts, assign_map_block, assign_map_blocks, assign_gc_block,
  assign_write_block, init_bank,
}
use crypto_jasmine.Greedy.Valid.{in_use}
use crypto_jasmine.Greedy.Erased.{mark}

module _ {Data : Type 0} (bank : ℕ) (e : Ssd Data) where
  -- The good blocks behind `v`
  abbrev pub good : ℕ → ℕ
  good v = in_use (vblks_per_bank - 1 - v) (mark e bank) v

  -- The blocks up to `v` are not for data; the counts of those behind say which are bad.
  pub record Init (v : ℕ) (d : Ssd Data) : Type 0 where
    pub low : (u : ℕ) → u ≤ v → d.ftl.vcount bank u ≡ vc_max
    pub high : (u : ℕ) → v < u → d.ftl.vcount bank u ≡ e.ftl.vcount bank u
    pub bad : d.bad ≡ e.bad
    pub bad_cnt : d.bad_cnt ≡ e.bad_cnt
    pub map : d.ftl.page_map ≡ e.ftl.page_map
    pub turn : d.ftl.next_write_buf ≡ e.ftl.next_write_buf
    pub lists : d.ftl.lists ≡ e.ftl.lists
    pub free :
        (d.ftl.misc bank).free_blk_cnt
        ≡ sub32 (vblks_per_bank - meta_blks_per_bank) (e.bad_cnt bank)
    pub list : (d.ftl.misc bank).lpn_list_of_cur_vblock ≡ (e.ftl.misc bank).lpn_list_of_cur_vblock
    pub other_counts : (b : ℕ) → b ≢ bank → d.ftl.vcount b ≡ e.ftl.vcount b
    pub other_misc : (b : ℕ) → b ≢ bank → d.ftl.misc b ≡ e.ftl.misc b

  init_counts-Init : Init 1 (init_counts bank e)
  unfolding init_counts change_misc write_vcount set_misc
  init_counts-Init = record {
    low = λ u h. ground arith;
    high = λ u h. ground arith;
    bad = refl;
    bad_cnt = refl;
    map = refl;
    turn = refl;
    lists = refl;
    free = rw (==-refl bank) refl;
    list = rw (==-refl bank) refl;
    other_counts = λ b h. rw (==-ne b bank h) refl;
    other_misc = λ b h. rw (==-ne b bank h) refl;
  }

  -- A block that is not for data
  mark-Init :
      (v : ℕ) (d d' : Ssd Data)
      → Init v d
      → d'.bad ≡ d.bad
      → d'.bad_cnt ≡ d.bad_cnt
      → d'.ftl.page_map ≡ d.ftl.page_map
      → d'.ftl.next_write_buf ≡ d.ftl.next_write_buf
      → d'.ftl.lists ≡ d.ftl.lists
      → (d'.ftl.misc bank).free_blk_cnt ≡ (d.ftl.misc bank).free_blk_cnt
      → (d'.ftl.misc bank).lpn_list_of_cur_vblock ≡ (d.ftl.misc bank).lpn_list_of_cur_vblock
      → ((b : ℕ) → b ≢ bank → d'.ftl.misc b ≡ d.ftl.misc b)
      → d'.ftl.vcount ≡ upd (d.ftl.vcount) bank (upd (d.ftl.vcount bank) (v + 1) vc_max)
      → Init (v + 1) d'
  mark-Init v d d' i bad bad_cnt map turn lists free list misc counts = record {
    low = λ u h. rw counts (ground (arith, i.low u));
    high = λ u h. rw counts (ground (arith, i.high u));
    bad = bad ∙ i.bad;
    bad_cnt = bad_cnt ∙ i.bad_cnt;
    map = map ∙ i.map;
    turn = turn ∙ i.turn;
    lists = lists ∙ i.lists;
    free = free ∙ i.free;
    list = list ∙ i.list;
    other_counts = λ b h. ap (λ f. f b) counts ∙ rw (==-ne b bank h) (i.other_counts b h);
    other_misc = λ b h. misc b h ∙ i.other_misc b h;
  }

  -- A bad block needs no mark.
  skip-Init :
      (v : ℕ) (d : Ssd Data) → Init v d → e.ftl.vcount bank (v + 1) ≡ vc_max → Init (v + 1) d
  skip-Init v d i bad = record {
    low = λ u h. elim (Eq-cases u (v + 1)) [
      | inl here ↦ rw here (i.high (v + 1) (omega arith) ∙ bad)
      | inr before ↦ i.low u (omega arith)
    ];
    high = λ u h. i.high u (omega arith);
    bad = i.bad;
    bad_cnt = i.bad_cnt;
    map = i.map;
    turn = i.turn;
    lists = i.lists;
    free = i.free;
    list = i.list;
    other_counts = i.other_counts;
    other_misc = i.other_misc;
  }

  assign_map_block-Init :
      (lbn v : ℕ) (d : Ssd Data) → Init v d → Init (v + 1) (assign_map_block bank lbn (v + 1) d)
  unfolding assign_map_block write_vcount
  assign_map_block-Init lbn v d i =
      mark-Init v d _ i refl refl refl refl refl refl refl (λ b h. refl) refl

  module _
      (counts : (u : ℕ) → 0 < u → u < vblks_per_bank → e.ftl.vcount bank u ≡ mark e bank u) where
    bad-mark :
        (v : ℕ) (d : Ssd Data) → Init v d → d.bad bank (v + 1) ≡ true → mark e bank (v + 1) ≡ vc_max
    bad-mark v d i b = rw (sym (ap (λ f. f bank (v + 1)) (i.bad)) ∙ b)

    good-mark :
        (v : ℕ) (d : Ssd Data) → Init v d → d.bad bank (v + 1) ≡ false → mark e bank (v + 1) ≡ 0
    good-mark v d i b = rw (sym (ap (λ f. f bank (v + 1)) (i.bad)) ∙ b)

    good-suc :
        (v : ℕ)
        → v < vblks_per_bank - 1
        → good v ≡ in_use (suc (vblks_per_bank - 1 - (v + 1))) (mark e bank) v
    good-suc v h =
        let n : vblks_per_bank - 1 - v ≡ suc (vblks_per_bank - 1 - (v + 1)) = omega arith in
        ap (λ n. in_use n (mark e bank) v) n

    good-bad :
        (v : ℕ) → v < vblks_per_bank - 1 → mark e bank (v + 1) ≡ vc_max → good v ≡ good (v + 1)
    unfolding in_use
    good-bad v h b = good-suc v h ∙ rw b (omega arith)

    good-good :
        (v : ℕ) → v < vblks_per_bank - 1 → mark e bank (v + 1) ≡ 0 → good v ≡ 1 + good (v + 1)
    unfolding in_use
    good-good v h b = good-suc v h ∙ rw b (omega arith)

    good-end : (v : ℕ) → v ≡ vblks_per_bank - 1 → good v ≡ 0
    unfolding in_use
    good-end v h =
        let n : vblks_per_bank - 1 - v ≡ 0 = omega arith in ap (λ n. in_use n (mark e bank) v) n

    -- What the loop over the map blocks returns
    abbrev Mapped : (lbn v v' : ℕ) → Ssd Data → Type 0
    Mapped lbn v v' d' =
        Init v' d'
        × (v ≤ v')
        × (v' ≤ vblks_per_bank - 1)
        × (good v + lbn ≡ good v' + mapblks_per_bank)

    assign_map_blocks-Mapped :
        (n lbn v : ℕ) (d : Ssd Data)
        → Init v d
        → 0 < v
        → v + n ≡ vblks_per_bank - 1
        → lbn ≤ mapblks_per_bank
        → mapblks_per_bank ≤ good v + lbn
        → (v' : ℕ) × (d' : Ssd Data) × (assign_map_blocks n bank lbn v d ≡ some (v', d'))
          × Mapped lbn v v' d'
    unfolding assign_map_blocks
    assign_map_blocks-Mapped zero lbn v d i pos end le enough =
        let none_left = good-end v (omega arith) in
        let done : lbn ≡ mapblks_per_bank = omega arith in
        (v, d, rw done refl, (i, omega arith, omega arith, omega arith))
    assign_map_blocks-Mapped (suc n) lbn v d i pos end le enough =
        elim (Eq-cases lbn mapblks_per_bank) [
          | inl done ↦ (v, d, rw done refl, (i, omega arith, omega arith, omega arith))
          | inr more ↦ elim (Bool-cases (d.bad bank (v + 1))) [
            | inl b ↦
                let m = bad-mark v d i b in
                let c = counts (v + 1) (omega arith) (omega arith) in
                let g = good-bad v (omega arith) m in
                let (v', d', eq, (i', lo, hi, sum)) =
                  assign_map_blocks-Mapped n lbn (v + 1) d (skip-Init v d i (c ∙ m)) (omega arith)
                    (omega arith) le (omega arith) in
                (
                  v',
                  d',
                  rw (==-ne lbn mapblks_per_bank more, b) eq,
                  (i', omega arith, hi, omega arith),
                )
            | inr ok ↦
                let m = good-mark v d i ok in
                let g = good-good v (omega arith) m in
                let d₁ : Ssd Data = assign_map_block bank lbn (v + 1) d in
                let (v', d', eq, (i', lo, hi, sum)) =
                  assign_map_blocks-Mapped n (lbn + 1) (v + 1) d₁ (assign_map_block-Init lbn v d i)
                    (omega arith) (omega arith) (omega arith) (omega arith) in
                (
                  v',
                  d',
                  rw (==-ne lbn mapblks_per_bank more, ok) eq,
                  (i', omega arith, hi, omega arith),
                )
          ]
        ]

    -- The block for the collections
    assign_gc_block-Init :
        (n v : ℕ) (d : Ssd Data)
        → Init v d
        → 0 < v
        → v + n ≡ vblks_per_bank - 1
        → 0 < good v
        → (v' : ℕ) × (d' : Ssd Data) × (assign_gc_block n bank v d ≡ some (v', d'))
          × Init v' d'
          × (v < v')
          × (v' ≤ vblks_per_bank - 1)
          × (good v ≡ 1 + good v')
          × ((d'.ftl.misc bank).gc_vblock ≡ v')
    unfolding assign_gc_block write_vcount change_misc set_misc
    assign_gc_block-Init zero v d i pos end some_good =
        let none_left = good-end v (omega arith) in absurd (omega arith)
    assign_gc_block-Init (suc n) v d i pos end some_good =
        let d₁ : Ssd Data =
          change_misc bank (λ m. record m { gc_vblock = v + 1 })
            (write_vcount bank (v + 1) vc_max d) in
        let i₁ : Init (v + 1) d₁ =
          mark-Init v d d₁ i refl refl refl refl refl (rw (==-refl bank) refl)
            (rw (==-refl bank) refl) (λ b h. rw (==-ne b bank h) refl) refl in
        elim (Bool-cases (d.bad bank (v + 1))) [
          | inl b ↦
              let g = good-bad v (omega arith) (bad-mark v d i b) in
              let (v', d', eq, i', lo, hi, sum, gc) =
                assign_gc_block-Init n (v + 1) d₁ i₁ (omega arith) (omega arith) (omega arith) in
              (v', d', rw b eq, i', omega arith, hi, omega arith, gc)
          | inr ok ↦
              let g = good-good v (omega arith) (good-mark v d i ok) in
              (
                v + 1,
                d₁,
                rw ok refl,
                i₁,
                omega arith,
                omega arith,
                omega arith,
                rw (==-refl bank) refl,
              )
        ]

    -- The first block for data: the first good one behind `v`
    pub record First (v : ℕ) (d : Ssd Data) (v' : ℕ) (d' : Ssd Data) : Type 0 where
      pub init : Init v d'
      pub later : v < v'
      pub within : v' ≤ vblks_per_bank - 1
      pub left : good v ≡ 1 + good v'
      pub is_good : mark e bank v' ≡ 0
      pub skipped : (u : ℕ) → v < u → u < v' → mark e bank u ≡ vc_max
      pub cur : (d'.ftl.misc bank).cur_write_vpn ≡ v' * pages_per_blk
      pub gc : (d'.ftl.misc bank).gc_vblock ≡ (d.ftl.misc bank).gc_vblock

    write_block-Init :
        (v w : ℕ) (d : Ssd Data)
        → Init v d
        → Init v (change_misc bank (λ m. record m { cur_write_vpn = w }) d)
    unfolding change_misc set_misc
    write_block-Init v w d i = record {
      low = i.low;
      high = i.high;
      bad = i.bad;
      bad_cnt = i.bad_cnt;
      map = i.map;
      turn = i.turn;
      lists = i.lists;
      free = rw (==-refl bank) (i.free);
      list = rw (==-refl bank) (i.list);
      other_counts = i.other_counts;
      other_misc = λ b h. rw (==-ne b bank h) (i.other_misc b h);
    }

    write_block-cur :
        (w : ℕ) (d : Ssd Data)
        → let d' : Ssd Data = change_misc bank (λ m. record m { cur_write_vpn = w }) d in
          ((d'.ftl.misc bank).cur_write_vpn ≡ w)
          × ((d'.ftl.misc bank).gc_vblock ≡ (d.ftl.misc bank).gc_vblock)
    unfolding change_misc set_misc
    write_block-cur w d = rw (==-refl bank) (refl, refl)

    First-gc :
        (v : ℕ) (d d₁ : Ssd Data) (v' : ℕ) (d' : Ssd Data)
        → (d₁.ftl.misc bank).gc_vblock ≡ (d.ftl.misc bank).gc_vblock
        → First v d₁ v' d'
        → First v d v' d'
    First-gc v d d₁ v' d' gc f = record {
      init = f.init;
      later = f.later;
      within = f.within;
      left = f.left;
      is_good = f.is_good;
      skipped = f.skipped;
      cur = f.cur;
      gc = f.gc ∙ gc;
    }

    -- `v` blocks are taken, and the `u - v` behind them were looked at and are bad.
    assign_write_block-First :
        (n v u : ℕ) (d : Ssd Data)
        → Init v d
        → v ≤ u
        → u + n ≡ vblks_per_bank - 1
        → 0 < good u
        → good v ≡ good u
        → ((w : ℕ) → v < w → w ≤ u → mark e bank w ≡ vc_max)
        → (v' : ℕ) × (d' : Ssd Data) × (assign_write_block n bank u d ≡ some d') × First v d v' d'
    unfolding assign_write_block
    assign_write_block-First zero v u d i le end some_good same bads =
        let none_left = good-end u (omega arith) in absurd (omega arith)
    assign_write_block-First (suc n) v u d i le end some_good same bads =
        let d₁ : Ssd Data =
          change_misc bank (λ m. record m { cur_write_vpn = (u + 1) * pages_per_blk }) d in
        let i₁ = write_block-Init v ((u + 1) * pages_per_blk) d i in
        let (cur, gc) = write_block-cur ((u + 1) * pages_per_blk) d in
        let row : d.bad bank (u + 1) ≡ e.bad bank (u + 1) = ap (λ f. f bank (u + 1)) (i.bad) in
        elim (Bool-cases (d.bad bank (u + 1))) [
          | inl b ↦
              let m : mark e bank (u + 1) ≡ vc_max = rw (sym row ∙ b) in
              let g = good-bad u (omega arith) m in
              let (v', d', eq, f) =
                assign_write_block-First n v (u + 1) d₁ i₁ (omega arith) (omega arith) (omega arith)
                  (omega arith)
                  (λ w lo hi. elim (Eq-cases w (u + 1)) [
                    | inl here ↦ rw here m
                    | inr before ↦ bads w lo (omega arith)
                  ]) in
              (v', d', rw b eq, First-gc v d d₁ v' d' gc f)
          | inr ok ↦
              let m : mark e bank (u + 1) ≡ 0 = rw (sym row ∙ ok) in
              let g = good-good u (omega arith) m in
              (
                u + 1,
                d₁,
                rw ok refl,
                record {
                  init = i₁;
                  later = omega arith;
                  within = omega arith;
                  left = omega arith;
                  is_good = m;
                  skipped = λ w lo hi. bads w lo (omega arith);
                  cur = cur;
                  gc = gc;
                },
              )
        ]

    -- What `init_metadata_sram` does to a bank
    pub record Started (d' : Ssd Data) : Type 0 where
      pub spare : ℕ
      pub block : ℕ
      pub init : Init spare d'
      pub spare-pos : 0 < spare
      pub later : spare < block
      pub within : block ≤ vblks_per_bank - 1
      pub is_good : mark e bank block ≡ 0
      pub skipped : (u : ℕ) → spare < u → u < block → mark e bank u ≡ vc_max
      pub cur : (d'.ftl.misc bank).cur_write_vpn ≡ block * pages_per_blk
      pub gc : (d'.ftl.misc bank).gc_vblock ≡ spare
      pub left : good 1 ≡ mapblks_per_bank + 2 + good block

    -- From the block for the collections on
    from_gc :
        (g : ℕ) (d : Ssd Data)
        → Init g d
        → 0 < g
        → g ≤ vblks_per_bank - 1
        → (d.ftl.misc bank).gc_vblock ≡ g
        → good 1 ≡ mapblks_per_bank + 1 + good g
        → 0 < good g
        → (d' : Ssd Data) × (assign_write_block (vblks_per_bank - 1 - g) bank g d ≡ some d')
          × Started d'
    from_gc g d i pos le gc sum some_good =
        let (w, d', eq, f) =
          assign_write_block-First (vblks_per_bank - 1 - g) g g d i (omega arith) (omega arith)
            some_good refl (λ u a b. absurd (omega arith)) in
        (
          d',
          eq,
          record {
            spare = g;
            block = w;
            init = f.init;
            spare-pos = pos;
            later = f.later;
            within = f.within;
            is_good = f.is_good;
            skipped = f.skipped;
            cur = f.cur;
            gc = f.gc ∙ gc;
            left = omega (arith, f.left);
          },
        )

    -- From the map blocks on
    from_maps :
        (v : ℕ) (d : Ssd Data)
        → Init v d
        → 0 < v
        → v ≤ vblks_per_bank - 1
        → good 1 ≡ mapblks_per_bank + good v
        → 2 ≤ good v
        → (g : ℕ) × (d₁ : Ssd Data) × (assign_gc_block (vblks_per_bank - 1 - v) bank v d
            ≡ some (g, d₁))
          × (d' : Ssd Data) × (assign_write_block (vblks_per_bank - 1 - g) bank g d₁ ≡ some d')
          × Started d'
    from_maps v d i pos le sum two =
        let (g, d₁, eq, i', lo, hi, sum', gc) =
          assign_gc_block-Init (vblks_per_bank - 1 - v) v d i pos (omega arith) (omega arith) in
        let (d', eq', w) = from_gc g d₁ i' (omega arith) hi gc (omega arith) (omega arith) in
        (g, d₁, eq, d', eq', w)

    pub init_bank-Started :
        mapblks_per_bank + 2 ≤ good 1 → (d' : Ssd Data) × (init_bank bank e ≡ some d') × Started d'
    unfolding init_bank
    init_bank-Started enough =
        let (v, d₁, eq, (i, lo, hi, sum)) =
          assign_map_blocks-Mapped 2074 0 1 (init_counts bank e) init_counts-Init (omega arith) refl
            (omega arith) (omega arith) in
        let (g, d₂, eq', d₃, eq'', w) =
          from_maps v d₁ i (omega arith) hi (omega arith) (omega arith) in
        (d₃, rw (eq, eq', eq'') refl, w)
