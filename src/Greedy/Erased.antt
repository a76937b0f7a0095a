-- ===== src/Greedy/Erased.antt =====
-- The loops of `format` of ftl_greedy/ftl.c over the banks and the blocks.
use crypto_jasmine.Base.{
  ℕ, zero, suc, ◌+◌, ◌-◌, ◌/◌, ◌≤◌, ◌<◌, ◌≡◌, inl, inr, refl, ap, sym, ◌∙◌, arith, false, ◌&&◌, ltb,
  leb, ◌==◌, if◌then◌else◌, Bool-cases, Eq-cases, ==-refl, ==-ne,
}
use crypto_jasmine.Base.Geometry.{num_banks, vblks_per_bank, pages_per_blk}
use crypto_jasmine.Greedy.State.{vc_max}
use crypto_jasmine.Greedy.Collect.{block_erase}
use crypto_jasmine.Greedy.Format.{
  all_ff, Ssd, write_vcount, erase_block, format_block, format_banks, format_blocks, clear_tables,
  miscblk_vbn,
}

module _ {Data : Type 0} where
  -- The count of a block of an empty device
  abbrev pub mark : Ssd Data → (b u : ℕ) → ℕ
  mark d b u = if d.bad b u then vc_max else 0

  -- What the erasing leaves alone
  pub record Outside (d d' : Ssd Data) : Type 0 where
    pub bad : d'.bad ≡ d.bad
    pub bad_cnt : d'.bad_cnt ≡ d.bad_cnt
    pub misc : d'.ftl.misc ≡ d.ftl.misc
    pub map : d'.ftl.page_map ≡ d.ftl.page_map
    pub turn : d'.ftl.next_write_buf ≡ d.ftl.next_write_buf

  Outside-trans : (d e f : Ssd Data) → Outside d e → Outside e f → Outside d f
  Outside-trans d e f o p = record {
    bad = p.bad ∙ o.bad;
    bad_cnt = p.bad_cnt ∙ o.bad_cnt;
    misc = p.misc ∙ o.misc;
    map = p.map ∙ o.map;
    turn = p.turn ∙ o.turn;
  }

  Outside-refl : (d : Ssd Data) → Outside d d
  Outside-refl d = record { bad = refl; bad_cnt = refl; misc = refl; map = refl; turn = refl }

module _ {Data : Type 0} (blank : Data) where
  format_block-Outside : (bank v : ℕ) (d : Ssd Data) → Outside d (format_block blank bank v d)
  unfolding format_block write_vcount erase_block block_erase
  format_block-Outside bank v d = elim (Bool-cases (d.bad bank v)) [
    | inl b ↦ rw b (record { bad = refl; bad_cnt = refl; misc = refl; map = refl; turn = refl })
    | inr g ↦ rw g (record { bad = refl; bad_cnt = refl; misc = refl; map = refl; turn = refl })
  ]

  format_block-vcount :
      (bank v : ℕ) (d : Ssd Data) (b u : ℕ)
      → (format_block blank bank v d).ftl.vcount b u
        ≡ (if b == bank && u == v then mark d b u else d.ftl.vcount b u)
  unfolding format_block write_vcount erase_block block_erase
  format_block-vcount bank v d b u = ground arith

  format_banks-Outside : (n bank v : ℕ) (d : Ssd Data) → Outside d (format_banks n blank bank v d)
  unfolding format_banks
  format_banks-Outside zero bank v d = Outside-refl d
  format_banks-Outside (suc n) bank v d =
      let e : Ssd Data = format_block blank bank v d in
      Outside-trans d e (format_banks n blank (bank + 1) v e) (format_block-Outside bank v d)
        (format_banks-Outside n (bank + 1) v e)

  format_banks-vcount :
      (n bank v : ℕ) (d : Ssd Data) (b u : ℕ)
      → (format_banks n blank bank v d).ftl.vcount b u
        ≡ (if u == v && leb bank b && ltb b (bank + n) then mark d b u else d.ftl.vcount b u)
  unfolding format_banks
  format_banks-vcount zero bank v d b u = ground arith
  format_banks-vcount (suc n) bank v d b u =
      let e : Ssd Data = format_block blank bank v d in
      let same : mark e b u ≡ mark d b u =
        ap (λ f. if f b u then vc_max else 0) (format_block-Outside bank v d).bad in
      format_banks-vcount n (bank + 1) v e b u
      ∙ rw (same, format_block-vcount bank v d b u) (ground arith)

  format_blocks-Outside : (n v : ℕ) (d : Ssd Data) → Outside d (format_blocks n blank v d)
  unfolding format_blocks
  format_blocks-Outside zero v d = Outside-refl d
  format_blocks-Outside (suc n) v d =
      let e : Ssd Data = format_banks num_banks blank 0 v d in
      Outside-trans d e (format_blocks n blank (v + 1) e) (format_banks-Outside num_banks 0 v d)
        (format_blocks-Outside n (v + 1) e)

  format_blocks-vcount :
      (n v : ℕ) (d : Ssd Data) (b u : ℕ)
      → b < num_banks
      → (format_blocks n blank v d).ftl.vcount b u
        ≡ (if leb v u && ltb u (v + n) then mark d b u else d.ftl.vcount b u)
  unfolding format_blocks
  format_blocks-vcount zero v d b u h = ground arith
  format_blocks-vcount (suc n) v d b u h =
      let e : Ssd Data = format_banks num_banks blank 0 v d in
      let same : mark e b u ≡ mark d b u =
        ap (λ f. if f b u then vc_max else 0) (format_banks-Outside num_banks 0 v d).bad in
      format_blocks-vcount n (v + 1) e b u h
      ∙ rw (same, format_banks-vcount num_banks 0 v d b u) (ground arith)

  -- An erased page of the logs stays so, and the pages of block 1 of a bank whose block is good are
  -- erased in the first round.
  format_block-erased :
      (bank v : ℕ) (d : Ssd Data) (b vpn : ℕ)
      → d.logs.pages b vpn ≡ all_ff
      → (format_block blank bank v d).logs.pages b vpn ≡ all_ff
  unfolding format_block write_vcount erase_block block_erase
  format_block-erased bank v d b vpn e = elim (Bool-cases (d.bad bank v)) [
    | inl b ↦ rw b e
    | inr g ↦ rw g (elim (Eq-cases b bank) [
      | inl here ↦
          rw (here, ==-refl bank)
            (elim (Bool-cases (vpn / pages_per_blk == v)) [
              | inl at ↦ rw at refl
              | inr away ↦ rw away (ap (λ c. d.logs.pages c vpn) (sym here) ∙ e)
            ])
      | inr other ↦ rw (==-ne b bank other) e
    ])
  ]

  format_block-erases :
      (bank v : ℕ) (d : Ssd Data) (vpn : ℕ)
      → d.bad bank v ≡ false
      → vpn / pages_per_blk ≡ v
      → (format_block blank bank v d).logs.pages bank vpn ≡ all_ff
  unfolding format_block write_vcount erase_block block_erase
  format_block-erases bank v d vpn g at = rw (g, ==-refl bank, at, ==-refl v) refl

  format_banks-erased :
      (n bank v : ℕ) (d : Ssd Data) (b vpn : ℕ)
      → d.logs.pages b vpn ≡ all_ff
      → (format_banks n blank bank v d).logs.pages b vpn ≡ all_ff
  unfolding format_banks
  format_banks-erased zero bank v d b vpn e = e
  format_banks-erased (suc n) bank v d b vpn e =
      format_banks-erased n (bank + 1) v (format_block blank bank v d) b vpn
        (format_block-erased bank v d b vpn e)

  format_banks-erases :
      (n bank v : ℕ) (d : Ssd Data) (b vpn : ℕ)
      → bank ≤ b
      → b < bank + n
      → d.bad b v ≡ false
      → vpn / pages_per_blk ≡ v
      → (format_banks n blank bank v d).logs.pages b vpn ≡ all_ff
  unfolding format_banks
  format_banks-erases zero bank v d b vpn lo hi g at = absurd (omega arith)
  format_banks-erases (suc n) bank v d b vpn lo hi g at =
      let e : Ssd Data = format_block blank bank v d in
      elim (Eq-cases b bank) [
        | inl here ↦ format_banks-erased n (bank + 1) v e b vpn (
            ap (λ c. e.logs.pages c vpn) here
            ∙ format_block-erases bank v d vpn (ap (λ c. d.bad c v) (sym here) ∙ g) at)
        | inr later ↦
            format_banks-erases n (bank + 1) v e b vpn (omega arith) (omega arith)
              (ap (λ f. f b v) (format_block-Outside bank v d).bad ∙ g) at
      ]

  format_blocks-erased :
      (n v : ℕ) (d : Ssd Data) (b vpn : ℕ)
      → d.logs.pages b vpn ≡ all_ff
      → (format_blocks n blank v d).logs.pages b vpn ≡ all_ff
  unfolding format_blocks
  format_blocks-erased zero v d b vpn e = e
  format_blocks-erased (suc n) v d b vpn e =
      format_blocks-erased n (v + 1) (format_banks num_banks blank 0 v d) b vpn
        (format_banks-erased num_banks 0 v d b vpn e)

  format_blocks-erases :
      (n v : ℕ) (d : Ssd Data) (b vpn : ℕ)
      → b < num_banks
      → d.bad b v ≡ false
      → vpn / pages_per_blk ≡ v
      → (format_blocks (suc n) blank v d).logs.pages b vpn ≡ all_ff
  unfolding format_blocks
  format_blocks-erases n v d b vpn h g at =
      format_blocks-erased n (v + 1) (format_banks num_banks blank 0 v d) b vpn
        (format_banks-erases num_banks 0 v d b vpn (omega arith) h g at)

  -- The device behind the erasing: nothing is mapped, and the counts say which blocks are bad.
  pub record Empty (d d' : Ssd Data) : Type 0 where
    pub map : (l : ℕ) → d'.ftl.page_map l ≡ 0
    pub zeroth : (b u : ℕ) → b < num_banks → u ≡ 0 → d'.ftl.vcount b u ≡ 0
    pub blocks :
        (b u : ℕ) → b < num_banks → 0 < u → u < vblks_per_bank → d'.ftl.vcount b u ≡ mark d b u
    pub beyond : (b u : ℕ) → b < num_banks → vblks_per_bank ≤ u → d'.ftl.vcount b u ≡ 0
    pub bad : d'.bad ≡ d.bad
    pub bad_cnt : d'.bad_cnt ≡ d.bad_cnt
    pub misc : d'.ftl.misc ≡ d.ftl.misc
    pub turn : d'.ftl.next_write_buf ≡ d.ftl.next_write_buf
    pub erased :
        (b vpn : ℕ)
        → b < num_banks
        → d.bad b 1 ≡ false
        → vpn / pages_per_blk ≡ 1
        → d'.logs.pages b vpn ≡ all_ff

  pub erased-Empty :
      (d : Ssd Data)
      → Empty d (format_blocks (vblks_per_bank - miscblk_vbn) blank miscblk_vbn (clear_tables d))
  unfolding clear_tables
  erased-Empty d =
      let c : Ssd Data = clear_tables d in
      let o = format_blocks-Outside 2075 1 c in
      let counts = format_blocks-vcount 2075 1 c in
      record {
        map = λ l. ap (λ f. f l) (o.map);
        zeroth = λ b u h e. counts b u h ∙ ground arith;
        blocks = λ b u h lo hi. counts b u h ∙ ground arith;
        beyond = λ b u h far. counts b u h ∙ ground arith;
        bad = o.bad;
        bad_cnt = o.bad_cnt;
        misc = o.misc;
        turn = o.turn;
        erased = λ b vpn h g at. format_blocks-erases 2074 1 c b vpn h g at;
      }
