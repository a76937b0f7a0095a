-- ===== src/Greedy/Swapped.antt =====
-- `garbage_collection` of ftl_greedy/ftl.c: the metadata behind the copy loop.
use crypto_jasmine.Base.{
  ℕ, ◌+◌, ◌*◌, ◌≤◌, ◌<◌, ◌≡◌, ◌≢◌, inl, inr, refl, ap, sym, ◌∙◌, arith, true, false, Eq-cases,
  ==-refl, ==-ne, tally, tally-same, tally-below,
}
use crypto_jasmine.Base.Geometry.{pages_per_blk, vblks_per_bank, get_num_bank}
use crypto_jasmine.Greedy.State.{Greedy, vc_max, set_vcount, set_misc}
use crypto_jasmine.Greedy.Collect.{block_erase, swap_blocks}
use crypto_jasmine.Greedy.Copying.{block, page_num, In, Ready, Copied}
use crypto_jasmine.Greedy.Valid.{Pages, Open, Mine, owner, holds}

module _ {Data : Type 0} (blank : Data) (bank victim count k vpn : ℕ) (s₀ s : Greedy Data) where
  abbrev gc : ℕ
  gc = (s₀.misc bank).gc_vblock

  -- The state at the end of a collection that copied `k` pages.
  abbrev pub swapped : Greedy Data
  swapped = swap_blocks bank victim count vpn (block_erase blank bank victim s)

  -- What is known there.
  pub record Swap : Type 0 where
    pub pages : Pages bank (s₀.lists bank) s₀
    pub ready : Ready bank victim gc s₀
    pub copied : Copied bank victim gc s₀ 127 k s
    pub at : vpn ≡ gc * pages_per_blk + k
    pub few : k ≤ 126
    pub number : count ≡ k
    pub victim-lt : victim < vblks_per_bank
    pub last : (s₀.misc bank).free_blk_cnt ≡ 1
    pub own :
        (v j : ℕ)
        → v < vblks_per_bank
        → s₀.vcount bank v ≢ vc_max
        → j < 127
        → Mine bank (s₀.lists bank v j)

  swapped-map : swapped.page_map ≡ s.page_map
  unfolding swap_blocks block_erase set_misc set_vcount
  swapped-map = refl

  swapped-cur : (swapped.misc bank).cur_write_vpn ≡ vpn
  unfolding swap_blocks block_erase set_misc set_vcount
  swapped-cur = rw (==-refl bank)

  swapped-gc : (swapped.misc bank).gc_vblock ≡ victim
  unfolding swap_blocks block_erase set_misc set_vcount
  swapped-gc = rw (==-refl bank)

  swapped-free :
      Copied bank victim gc s₀ 127 k s
      → (s₀.misc bank).free_blk_cnt ≡ 1
      → (swapped.misc bank).free_blk_cnt ≡ 2
  unfolding swap_blocks block_erase set_misc set_vcount
  swapped-free c e = rw (==-refl bank, c.free_blk_cnt, e)

  swapped-list :
      (j : ℕ)
      → (swapped.misc bank).lpn_list_of_cur_vblock j ≡ (s.misc bank).lpn_list_of_cur_vblock j
  unfolding swap_blocks block_erase set_misc set_vcount
  swapped-list j = rw (==-refl bank)

  swapped-count-gc :
      Copied bank victim gc s₀ 127 k s → count < 65536 → swapped.vcount bank gc ≡ count
  unfolding swap_blocks block_erase set_misc set_vcount
  swapped-count-gc c lt = ground (arith, c.gc_vblock)

  swapped-count-victim :
      Copied bank victim gc s₀ 127 k s → victim ≢ gc → swapped.vcount bank victim ≡ vc_max
  unfolding swap_blocks block_erase set_misc set_vcount
  swapped-count-victim c ne = ground (arith, c.gc_vblock)

  swapped-count :
      Copied bank victim gc s₀ 127 k s
      → (v : ℕ) → v ≢ gc
      → v ≢ victim
      → swapped.vcount bank v ≡ s₀.vcount bank v
  unfolding swap_blocks block_erase set_misc set_vcount
  swapped-count c v ne ne' = ground (arith, c.gc_vblock, ap (λ f. f bank v) (c.counts))

  swapped-lists :
      Copied bank victim gc s₀ 127 k s
      → (v j : ℕ) → v ≢ victim
      → swapped.lists bank v j ≡ s₀.lists bank v j
  unfolding swap_blocks block_erase set_misc set_vcount
  swapped-lists c v j ne = ground (arith, ap (λ f. f bank v j) (c.logs))

  module _ (w : Swap) where
    c : Copied bank victim gc s₀ 127 k s
    c = w.copied

    cur-block : block (swapped.misc bank).cur_write_vpn ≡ gc
    cur-block = let e = swapped-cur in omega (arith, e, w.at, w.few)

    pub swapped-page : page_num (swapped.misc bank).cur_write_vpn ≡ k
    swapped-page = let e = swapped-cur in omega (arith, e, w.at, w.few)

    -- A page is where it was, in a block that is neither the victim nor the free one, or it is among
    -- the copied pages.
    data Place (l : ℕ) : Type 0 where
      stays :
          s.page_map l ≡ s₀.page_map l
          → block (s₀.page_map l) ≢ victim
          → block (s₀.page_map l) ≢ gc
          → Place l
      moves_on : block (s.page_map l) ≡ gc → page_num (s.page_map l) < k → Place l

    place : (l : ℕ) → In bank l → Place l
    place l h = elim (c.still l h) [
      | inl same ↦
          Place.stays same
            (λ e.
              let (from, below, named) = c.rest l h (omega (arith, same)) in absurd (omega arith))
            (w.ready.free l h)
      | inr gone ↦ let (from, below, to) = gone in Place.moves_on to (c.fresh l h to)
    ]

    new-owner : (j : ℕ) → owner bank swapped gc j ≡ (s.misc bank).lpn_list_of_cur_vblock j
    new-owner j = rw (cur-block, ==-refl gc) (swapped-list j)

    old-owner : (v j : ℕ) → v ≢ gc → v ≢ victim → owner bank swapped v j ≡ s₀.lists bank v j
    old-owner v j ne ne' = rw (cur-block, ==-ne v gc ne) (swapped-lists c v j ne')

    -- The free block holds the copied pages.
    gc-holds : (j : ℕ) → j < k → holds bank (owner bank swapped) swapped gc j ≡ true
    gc-holds j h = let (own, there) = c.there j h in rw (new-owner j, swapped-map) (ground arith)

    gc-lacks : (j : ℕ) → j < 127 → k ≤ j → holds bank (owner bank swapped) swapped gc j ≡ false
    gc-lacks j h from =
        let l : ℕ = (s.misc bank).lpn_list_of_cur_vblock j in
        rw (new-owner j, swapped-map)
          (elim (Eq-cases (get_num_bank l) bank) [
            | inl own ↦
                let ne : s.page_map l ≢ gc * pages_per_blk + j =
                  λ e. let below = c.fresh l own (omega arith) in absurd (omega arith) in
                rw (own, ==-ne (s.page_map l) (gc * pages_per_blk + j) ne, ==-refl bank) refl
            | inr other ↦ rw (==-ne (get_num_bank l) bank other) refl
          ])

    gc-counted : swapped.vcount bank gc ≡ tally 127 (holds bank (owner bank swapped) swapped gc)
    gc-counted =
        swapped-count-gc c (omega (arith, w.number, w.few))
        ∙ w.number
        ∙ sym (
            tally-below 127 k {p = holds bank (owner bank swapped) swapped gc}
              (omega (arith, w.few)) gc-holds gc-lacks)

    moved-elsewhere :
        (l : ℕ)
        → In bank l
        → block (s.page_map l) ≡ gc
        → (v j : ℕ) → v ≢ gc
        → v ≢ victim
        → j < 127
        → (s₀.page_map l ≢ v * pages_per_blk + j) × (s.page_map l ≢ v * pages_per_blk + j)
    moved-elsewhere l own to v j ne ne' h = elim (c.still l own) [
      | inl same ↦ (λ e. ne (omega arith), λ e. ne (omega arith))
      | inr gone ↦ let (from, below, at) = gone in (λ e. ne' (omega arith), λ e. ne (omega arith))
    ]

    -- The other blocks hold what they held.
    same-holds :
        (v j : ℕ)
        → v ≢ gc
        → v ≢ victim
        → j < 127
        → holds bank (s₀.lists bank) s₀ v j ≡ holds bank (owner bank swapped) swapped v j
    same-holds v j ne ne' h =
        let l : ℕ = s₀.lists bank v j in
        rw (old-owner v j ne ne', swapped-map)
          (elim (Eq-cases (get_num_bank l) bank) [
            | inl own ↦ elim (place l own) [
              | stays same nv ng ↦ rw same refl
              | moves_on to few ↦
                  let (before, after) = moved-elsewhere l own to v j ne ne' h in
                  rw
                    (
                      ==-ne (s₀.page_map l) (v * pages_per_blk + j) before,
                      ==-ne (s.page_map l) (v * pages_per_blk + j) after,
                    )
                    refl
            ]
            | inr other ↦ rw (==-ne (get_num_bank l) bank other) refl
          ])

    new-counted :
        (v : ℕ)
        → swapped.vcount bank v ≢ vc_max
        → swapped.vcount bank v ≡ tally 127 (holds bank (owner bank swapped) swapped v)
    new-counted v used = elim (Eq-cases v gc) [
      | inl free ↦ rw free gc-counted
      | inr ne ↦ elim (Eq-cases v victim) [
        | inl same ↦ absurd (used (rw same (swapped-count-victim c (w.ready.apart))))
        | inr ne' ↦
            let e = swapped-count c v ne ne' in
            e
            ∙ w.pages.counted v (λ z. used (e ∙ z))
            ∙ tally-same 127 {p = holds bank (s₀.lists bank) s₀ v} (λ j h. same-holds v j ne ne' h)
      ]
    ]

    new-named :
        (l : ℕ)
        → In bank l
        → 0 < s.page_map l
        → owner bank swapped (block (s.page_map l)) (page_num (s.page_map l)) ≡ l
    new-named l h pos = elim (place l h) [
      | stays same nv ng ↦ rw same (
          old-owner (block (s₀.page_map l)) (page_num (s₀.page_map l)) ng nv
          ∙ w.pages.named l h (rw (sym same) pos))
      | moves_on to few ↦
          let (own, there) = c.there (page_num (s.page_map l)) few in
          rw to
            (new-owner (page_num (s.page_map l)) ∙ sym (c.one l _ h own pos (omega (arith, there))))
    ]

    new-used :
        (l : ℕ) → In bank l → 0 < s.page_map l → swapped.vcount bank (block (s.page_map l)) ≢ vc_max
    new-used l h pos = elim (place l h) [
      | stays same nv ng ↦
          rw (same, swapped-count c (block (s₀.page_map l)) ng nv)
            (w.pages.used l h (rw (sym same) pos))
      | moves_on to few ↦
          rw (to, swapped-count-gc c (omega (arith, w.number, w.few)))
            (λ e. absurd (omega (arith, w.number, w.few)))
    ]

    new-low : (l : ℕ) → In bank l → 0 < s.page_map l → page_num (s.page_map l) < 127
    new-low l h pos = elim (place l h) [
      | stays same nv ng ↦ rw same (w.pages.low l h (rw (sym same) pos))
      | moves_on to few ↦ omega (arith, w.few)
    ]

    new-own :
        (v j : ℕ)
        → v < vblks_per_bank
        → swapped.vcount bank v ≢ vc_max
        → v ≢ gc
        → j < 127
        → Mine bank (swapped.lists bank v j)
    new-own v j lt used ne h = elim (Eq-cases v victim) [
      | inl same ↦ absurd (used (rw same (swapped-count-victim c (w.ready.apart))))
      | inr ne' ↦
          let e = swapped-count c v ne ne' in
          rw (swapped-lists c v j ne') (w.own v j lt (λ z. used (e ∙ z)) h)
    ]

    -- A collection leaves the free block as the current one, with the pages that it copied.
    pub swapped-Open : Open bank k swapped
    swapped-Open = record {
      pages = record {
        one = rw swapped-map (c.one);
        low = rw swapped-map new-low;
        used = rw swapped-map new-used;
        named = rw swapped-map new-named;
        counted = new-counted;
        meta_block =
            swapped-count c 0 (λ e. absurd (omega (arith, w.ready.gc-pos)))
              (λ e. absurd (omega (arith, w.ready.victim-pos)))
            ∙ w.pages.meta_block;
        spare = rw swapped-gc (swapped-count-victim c (w.ready.apart));
        gc-pos = rw swapped-gc (w.ready.victim-pos);
        gc-lt = rw swapped-gc (w.victim-lt);
      };
      cur-lt = rw cur-block (w.ready.gc-lt);
      cur-used = rw cur-block (
          rw (swapped-count-gc c (omega (arith, w.number, w.few)))
            (λ e. absurd (omega (arith, w.number, w.few))));
      cur-low = rw swapped-page (omega (arith, w.few));
      behind = λ l h b. rw swapped-map (c.fresh l h (rw (swapped-map, cur-block) at b));
      own_list = λ j h. rw (swapped-list j) (inl (c.there j h).0);
      own_lists = λ v j lt used old h.
          new-own v j lt used
            (elim old [
              | inl before ↦ λ e. absurd (omega (arith, before, cur-block))
              | inr other ↦ λ e. other.0 (e ∙ sym cur-block)
            ])
            h;
      phase = inl (swapped-free c (w.last));
    }
