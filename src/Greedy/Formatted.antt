-- ===== src/Greedy/Formatted.antt =====
-- `format` of ftl_greedy/ftl.c leaves a device whose metadata are in step.
use crypto_jasmine.Base.{
  ℕ, ◌+◌, ◌-◌, ◌*◌, ◌≤◌, ◌<◌, ◌≡◌, ◌≢◌, inl, inr, refl, ap, sym, ◌∙◌, arith, false, Eq-cases,
  Bool-cases, ==-ne, tally-below,
}
use crypto_jasmine.Base.Geometry.{vblks_per_bank, mapblks_per_bank, pages_per_blk}
use crypto_jasmine.Greedy.State.{vc_max}
use crypto_jasmine.Greedy.Copying.{block, page_num}
use crypto_jasmine.Greedy.Valid.{Pages, Valid, owner, holds, in_use}
use crypto_jasmine.Greedy.Next.{in_use-none, in_use-agree}
use crypto_jasmine.Greedy.Format.{Ssd}
use crypto_jasmine.Greedy.Erased.{mark}
use crypto_jasmine.Greedy.Initial.{good, Init, Started}

module _ {Data : Type 0} where
  -- A bank that can be set up: it has good blocks for the map, the collections and the data behind
  -- block 1, its count of bad blocks is that of the blocks behind block 1, and the list of its
  -- current block starts with 0, as the static memory does.
  pub record Usable (bank : ℕ) (e : Ssd Data) : Type 0 where
    pub enough : mapblks_per_bank + 2 ≤ good bank e 1
    pub number : e.bad_cnt bank + good bank e 1 ≡ vblks_per_bank - 2
    pub list : (e.ftl.misc bank).lpn_list_of_cur_vblock 0 ≡ 0
    pub misc_block : e.bad bank 1 ≡ false

  -- Nothing is mapped, and the counts say which blocks are bad.
  pub record Blank (bank : ℕ) (e : Ssd Data) : Type 0 where
    pub map : (l : ℕ) → e.ftl.page_map l ≡ 0
    pub counts : (u : ℕ) → 0 < u → u < vblks_per_bank → e.ftl.vcount bank u ≡ mark e bank u
    pub beyond : (u : ℕ) → vblks_per_bank ≤ u → e.ftl.vcount bank u ≡ 0

ne-lt : (a b : ℕ) → a ≤ b → a ≢ b → a < b
ne-lt a b le ne = ground arith

module _ {Data : Type 0} (bank : ℕ) (e d : Ssd Data) (u : Usable bank e) (k : Blank bank e)
    (w : Started bank e (k.counts) d) where
  abbrev row : ℕ → ℕ
  row = d.ftl.vcount bank

  i : Init bank e (w.spare) d
  i = w.init

  no_page : (l : ℕ) → d.ftl.page_map l ≡ 0
  no_page l = ap (λ f. f l) (i.map) ∙ k.map l

  cur-block : block (d.ftl.misc bank).cur_write_vpn ≡ w.block
  cur-block = let e = w.cur in omega arith

  cur-page : page_num (d.ftl.misc bank).cur_write_vpn ≡ 0
  cur-page = let e = w.cur in omega arith

  -- Blocks behind the current one
  row-behind : (v : ℕ) → w.spare < v → v < vblks_per_bank → row v ≡ mark e bank v
  row-behind v lo hi = i.high v lo ∙ k.counts v (omega arith) hi

  row-current : row (w.block) ≡ 0
  row-current = row-behind (w.block) (w.later) (omega (arith, w.within)) ∙ w.is_good

  -- The blocks before the current one are not for data.
  row-before : (v : ℕ) → v < w.block → row v ≡ vc_max
  row-before v lt = elim (Eq-cases (w.spare - v) 0) [
    | inr before ↦ i.low v (omega arith)
    | inl from ↦ elim (Eq-cases v (w.spare)) [
      | inl here ↦ i.low v (omega arith)
      | inr behind ↦
          row-behind v (omega arith) (omega (arith, w.within)) ∙ w.skipped v (omega arith) lt
    ]
  ]

  mark-count : (v : ℕ) → mark e bank v ≢ vc_max → mark e bank v ≡ 0
  mark-count v ne = elim (Bool-cases (e.bad bank v)) [
    | inl bad ↦ absurd (ne (rw bad refl))
    | inr ok ↦ rw ok refl
  ]

  row-zero : (v : ℕ) → row v ≢ vc_max → (w.block ≤ v) × (row v ≡ 0)
  row-zero v used = elim (Eq-cases (w.block - v) 0) [
    | inr before ↦ absurd (used (row-before v (omega arith)))
    | inl from ↦ elim (Eq-cases (v - (vblks_per_bank - 1)) 0) [
      | inl within ↦
          let e = row-behind v (omega (arith, w.later)) (omega arith) in
          (omega arith, e ∙ mark-count v (λ z. used (e ∙ z)))
      | inr far ↦
          (omega arith, i.high v (omega (arith, w.later, w.within)) ∙ k.beyond v (omega arith))
    ]
  ]

  -- Nothing is mapped, so no page is valid.
  nothing_holds : (v j : ℕ) → 0 < v → holds bank (owner bank d.ftl) (d.ftl) v j ≡ false
  nothing_holds v j pos =
      let l : ℕ = owner bank (d.ftl) v j in
      let ne : d.ftl.page_map l ≢ v * pages_per_blk + j = λ e. absurd (omega (arith, no_page l)) in
      rw (==-ne (d.ftl.page_map l) (v * pages_per_blk + j) ne) (ground arith)

  started-Pages : Pages bank (owner bank d.ftl) (d.ftl)
  started-Pages = record {
    one = λ l m hl hm pos. absurd (omega (arith, no_page l));
    low = λ l h pos. absurd (omega (arith, no_page l));
    used = λ l h pos. absurd (omega (arith, no_page l));
    named = λ l h pos. absurd (omega (arith, no_page l));
    counted = λ v used.
        let (from, none_there) = row-zero v used in
        none_there
        ∙ sym (
            tally-below 127 0 {p = holds bank (owner bank d.ftl) (d.ftl) v} (omega arith)
              (λ j h. absurd (omega arith)) (λ j h lo. nothing_holds v j (omega (arith, w.later))));
    meta_block = i.low 0 (omega arith);
    spare = ap row (w.gc) ∙ i.low (w.spare) (omega arith);
    gc-pos = rw (w.gc) (w.spare-pos);
    gc-lt = rw (w.gc) (omega (arith, w.later, w.within));
  }

  -- The free blocks are the one for collections, the current one, and the good ones behind it.
  free-blocks :
      (d.ftl.misc bank).free_blk_cnt ≡ 2 + in_use (vblks_per_bank - 1 - w.block) row (w.block)
  free-blocks =
      let same =
        in_use-agree (vblks_per_bank - 1 - w.block) row (mark e bank) (w.block)
          (λ v lo hi. row-behind v (omega (arith, w.later)) (omega (arith, w.within))) in
      i.free ∙ omega (arith, same, u.number, w.left)

  pub started-Valid : Valid bank (d.ftl)
  started-Valid = record {
    pages = started-Pages;
    cur-lt = rw cur-block (omega (arith, w.within));
    cur-used = rw cur-block (λ z. absurd (omega (arith, z, row-current)));
    cur-low = rw cur-page (omega arith);
    behind = λ l h b. absurd (omega (arith, ap block (no_page l), cur-block, b, w.later));
    own_list = λ j h.
        let first : j ≡ 0 = omega (arith, cur-page) in
        inr (ap ((d.ftl.misc bank).lpn_list_of_cur_vblock) first ∙ ap (λ f. f 0) (i.list) ∙ u.list);
    own_lists = λ v j lt used old h. absurd (elim old [
      | inl before ↦ used (row-before v (omega (arith, cur-block, before)))
      | inr two ↦
          let (from, z) = row-zero v used in
          let behind : w.block < v = ne-lt (w.block) v from (λ e. two.0 (sym e ∙ sym cur-block)) in
          used (
            in_use-none (vblks_per_bank - 1 - w.block) row (w.block)
              (omega (arith, free-blocks, two.1)) v behind (omega (arith, w.within)))
    ]);
    phase = inr (rw cur-block (free-blocks, λ l h. omega (arith, ap block (no_page l))));
  }
