-- ===== src/Greedy/Erasure.antt =====
-- `assign_new_write_vpn` and the collections of ftl_greedy/ftl.c: which pages of the flash they erase
-- and program.
use crypto_jasmine.Base.{
  ℕ, zero, suc, ◌+◌, ◌*◌, ◌≤◌, ◌<◌, ◌≡◌, ◌≢◌, ◌⊎◌, inl, inr, refl, ap, sym, ◌∙◌, arith, ltb, ◌&&◌,
  ◌==◌, Eq-cases, Bool-cases, ==-refl, ==-ne,
}
use mathlib.Core.Path.{subst}
use crypto_jasmine.Base.Geometry.{vblks_per_bank, pages_per_blk}
use crypto_jasmine.Base.Words.{add32, mul32, u32_mod}
use crypto_jasmine.Greedy.State.{
  Greedy, vc_max, get_vpn, set_vpn, set_lpn, set_misc, get_vcount, set_vcount, copyback,
}
use crypto_jasmine.Greedy.Collect.{
  copy_page, copy_pages, load_list, block_erase, swap_blocks, collect_from, garbage_collection,
  get_vt_vblock,
}
use crypto_jasmine.Greedy.Write.{close_vblock, set_new_write_vpn}
use crypto_jasmine.Greedy.Copying.{block, page_num, Ready}
use crypto_jasmine.Greedy.Collected.{loop-Done, loop_end}
use crypto_jasmine.Greedy.Valid.{Valid}
use crypto_jasmine.Greedy.Opened.{step, jump}

module _ {Data : Type 0} (bank victim : ℕ) where
  -- A round programs the page `free_vpn`, or none.
  copy_page-flash :
      (src f : ℕ) (s : Greedy Data)
      → f + 1 < u32_mod
      → (f ≤ (copy_page bank victim src f s).0)
        × ((copy_page bank victim src f s).0 ≤ f + 1)
        × ((b w : ℕ)
            → (b ≢ bank) ⊎ (w < f) ⊎ ((copy_page bank victim src f s).0 ≤ w)
            → (i : ℕ) → (copy_page bank victim src f s).1.flash b w i ≡ s.flash b w i)
  unfolding copy_page copyback set_vpn set_lpn set_misc get_vpn
  copy_page-flash src f s small =
      elim (Bool-cases
        (s.page_map ((s.misc bank).lpn_list_of_cur_vblock src) == victim * pages_per_blk + src)) [
          | inr invalid ↦ rw invalid (omega arith, omega arith, λ b w h i. refl)
          | inl valid ↦
              let next : add32 f 1 ≡ f + 1 = omega arith in
              rw (valid, next)
                (
                  omega arith,
                  omega arith,
                  λ b w h i. elim (Eq-cases b bank) [
                    | inr other ↦ rw (==-ne b bank other) refl
                    | inl here ↦ elim (Eq-cases w f) [
                      | inr apart ↦ rw (here, ==-refl bank, ==-ne w f apart) refl
                      | inl at ↦ absurd (ground (arith, h, here, at))
                    ]
                  ],
                )
        ]

  copy_pages-flash :
      (n src f : ℕ) (s : Greedy Data)
      → f + n < u32_mod
      → (f ≤ (copy_pages n bank victim src f s).0)
        × ((copy_pages n bank victim src f s).0 ≤ f + n)
        × ((b w : ℕ)
            → (b ≢ bank) ⊎ (w < f) ⊎ ((copy_pages n bank victim src f s).0 ≤ w)
            → (i : ℕ) → (copy_pages n bank victim src f s).1.flash b w i ≡ s.flash b w i)
  unfolding copy_pages
  copy_pages-flash zero src f s small = (omega arith, omega arith, λ b w h i. refl)
  copy_pages-flash (suc n) src f s small =
      let (lo, hi, same) = copy_page-flash src f s (omega arith) in
      let r : ℕ × Greedy Data = copy_page bank victim src f s in
      let (lo', hi', same') = copy_pages-flash n (src + 1) (r.0) (r.1) (omega arith) in
      (
        omega arith,
        omega arith,
        λ b w h i.
            let later : (b ≢ bank)
                ⊎ (w < r.0)
                ⊎ ((copy_pages n bank victim (src + 1) (r.0) (r.1)).0 ≤ w) =
              ground (arith, h, lo) in
            let here : (b ≢ bank) ⊎ (w < f) ⊎ (r.0 ≤ w) = ground (arith, h, lo') in
            same' b w later i ∙ same b w here i,
      )

module _ {Data : Type 0} (blank : Data) where
  -- A page that nothing was programmed to since its block was erased
  abbrev pub Erased : (bank vpn : ℕ) → Greedy Data → Type 0
  Erased bank w s = (i : ℕ) → s.flash bank w i ≡ blank

  -- Erased are the pages of the current block behind the current one, the block for the next
  -- collection and, as long as blocks are taken in turn, those to come.
  pub record Clean (bank : ℕ) (s : Greedy Data) : Type 0 where
    pub ahead :
        (w : ℕ)
        → block w ≡ block (s.misc bank).cur_write_vpn
        → (s.misc bank).cur_write_vpn < w
        → page_num w < 127
        → Erased bank w s
    pub spare : (w : ℕ) → block w ≡ (s.misc bank).gc_vblock → page_num w < 127 → Erased bank w s
    pub to_come :
        (s.misc bank).free_blk_cnt ≢ 2
        → (w : ℕ) → block (s.misc bank).cur_write_vpn < block w
        → block w < vblks_per_bank
        → s.vcount bank (block w) ≢ vc_max
        → page_num w < 127
        → Erased bank w s

  -- A page that has changed was erased before, or is erased now.
  abbrev pub Once : Greedy Data → Greedy Data → Type 0
  Once s s' =
      (b w : ℕ) → ((i : ℕ) → s'.flash b w i ≡ s.flash b w i) ⊎ (Erased b w s ⊎ Erased b w s')

  -- The page `v` was chosen for data.
  pub record Chosen (bank v : ℕ) (s s' : Greedy Data) : Type 0 where
    pub once : Once s s'
    pub target : Erased bank v s
    pub clean : Clean bank s'
    pub elsewhere : (b : ℕ) → b ≢ bank → (w i : ℕ) → s'.flash b w i ≡ s.flash b w i

module _ {Data : Type 0} (blank : Data) (bank : ℕ) where
  -- The next page of the block
  pub step-Chosen :
      (s : Greedy Data)
      → Valid bank s
      → Clean blank bank s
      → page_num (s.misc bank).cur_write_vpn ≢ 126
      → Chosen blank bank (add32 (s.misc bank).cur_write_vpn 1) s (step bank s)
  unfolding step set_new_write_vpn set_misc
  step-Chosen s i k ne =
      let c : ℕ = (s.misc bank).cur_write_vpn in
      let next : add32 c 1 ≡ c + 1 = let lt = i.cur-lt in omega arith in
      let low = i.cur-low in
      let same : block (c + 1) ≡ block c = ground (arith, low, ne) in
      let page : page_num (c + 1) < 127 = ground (arith, low, ne) in
      rw next (record {
        once = λ b w. inl (λ i. refl);
        target = k.ahead (c + 1) same (omega arith) page;
        clean = record {
          ahead = rw (==-refl bank, same) (λ w at lo p j. k.ahead w at (omega arith) p j);
          spare = rw (==-refl bank) (k.spare);
          to_come = rw (==-refl bank, same) (k.to_come);
        };
        elsewhere = λ b h w i. refl;
      })

  -- The next block
  pub jump-Chosen :
      (n : ℕ) (s : Greedy Data)
      → Clean blank bank s
      → (s.misc bank).free_blk_cnt ≢ 2
      → block (s.misc bank).cur_write_vpn < n
      → n < vblks_per_bank
      → s.vcount bank n ≢ vc_max
      → Chosen blank bank (mul32 n pages_per_blk) s (jump bank n s)
  unfolding jump set_new_write_vpn set_misc close_vblock
  jump-Chosen n s k more later within used =
      let at : mul32 n pages_per_blk ≡ n * pages_per_blk = omega arith in
      let here : block (n * pages_per_blk) ≡ n = omega arith in
      let in_block : (w : ℕ) → block w ≡ n → page_num w < 127 → Erased blank bank w s =
        λ w e p. k.to_come more w (omega arith) (omega arith) (rw e used) p in
      rw at (record {
        once = λ b w. inl (λ i. refl);
        target = in_block (n * pages_per_blk) here (omega arith);
        clean = record {
          ahead = rw (==-refl bank, here) (λ w e lo p. in_block w e p);
          spare = rw (==-refl bank) (k.spare);
          to_come =
              rw (==-refl bank, here) (λ more' w lo hi u p. k.to_come more w (omega arith) hi u p);
        };
        elsewhere = λ b h w i. refl;
      })

  loop_end-cur :
      (v count : ℕ) (r : ℕ × Greedy Data)
      → ((loop_end blank bank v count r).misc bank).cur_write_vpn ≡ r.0
  unfolding swap_blocks block_erase set_misc set_vcount
  loop_end-cur v count r = rw (==-refl bank) refl

  loop_end-gc :
      (v count : ℕ) (r : ℕ × Greedy Data)
      → ((loop_end blank bank v count r).misc bank).gc_vblock ≡ v
  unfolding swap_blocks block_erase set_misc set_vcount
  loop_end-gc v count r = rw (==-refl bank) refl

  loop_end-free :
      (v count : ℕ) (r : ℕ × Greedy Data)
      → (r.1.misc bank).free_blk_cnt ≡ 1
      → ((loop_end blank bank v count r).misc bank).free_blk_cnt ≡ 2
  unfolding swap_blocks block_erase set_misc set_vcount
  loop_end-free v count r one = rw (==-refl bank, one) refl

  loop_end-elsewhere :
      (v count : ℕ) (r : ℕ × Greedy Data) (b w i : ℕ)
      → b ≢ bank
      → (loop_end blank bank v count r).flash b w i ≡ r.1.flash b w i
  unfolding swap_blocks block_erase set_misc set_vcount
  loop_end-elsewhere v count r b w i ne = rw (==-ne b bank ne) refl

  loop_end-kept :
      (v count : ℕ) (r : ℕ × Greedy Data) (w i : ℕ)
      → block w ≢ v
      → (loop_end blank bank v count r).flash bank w i ≡ r.1.flash bank w i
  unfolding swap_blocks block_erase set_misc set_vcount
  loop_end-kept v count r w i ne = rw (==-refl bank, ==-ne (block w) v ne) refl

  -- The victim is erased.
  loop_end-Erased :
      (v count : ℕ) (r : ℕ × Greedy Data) (w : ℕ)
      → block w ≡ v
      → Erased blank bank w (loop_end blank bank v count r)
  unfolding swap_blocks block_erase set_misc set_vcount
  loop_end-Erased v count r w e i = rw (==-refl bank, e, ==-refl v) refl

  collected-free :
      (s : Greedy Data)
      → Ready bank (get_vt_vblock bank s) (s.misc bank).gc_vblock s
      → (s.misc bank).free_blk_cnt ≡ 1
      → ((garbage_collection blank bank s).misc bank).free_blk_cnt ≡ 2
  unfolding garbage_collection get_vcount
  collected-free s ready one =
      let victim : ℕ = get_vt_vblock bank s in
      let count : ℕ = s.vcount bank victim in
      loop-Done blank bank victim count s ready (λ g. (g.misc bank).free_blk_cnt ≡ 2)
        (λ r (k, e, c). loop_end-free victim count r (c.free_blk_cnt ∙ one))

  load_list-flash :
      (v : ℕ) (s : Greedy Data) (b w i : ℕ) → (load_list bank v s).flash b w i ≡ s.flash b w i
  unfolding load_list set_misc
  load_list-flash v s b w i = refl

  -- A collection copies to erased pages of its free block, and erases the victim.
  pub garbage_collection-Chosen :
      (s : Greedy Data)
      → Ready bank (get_vt_vblock bank s) (s.misc bank).gc_vblock s
      → (s.misc bank).free_blk_cnt ≡ 1
      → ((w : ℕ) → block w ≡ (s.misc bank).gc_vblock → page_num w < 127 → Erased blank bank w s)
      → page_num ((garbage_collection blank bank s).misc bank).cur_write_vpn < 127
      → Chosen blank bank
          ((garbage_collection blank bank s).misc bank).cur_write_vpn
          s
          (garbage_collection blank bank s)
  unfolding garbage_collection collect_from get_vcount
  garbage_collection-Chosen s ready one spare low =
      let victim : ℕ = get_vt_vblock bank s in
      let count : ℕ = s.vcount bank victim in
      let gc : ℕ = (s.misc bank).gc_vblock in
      let f : ℕ = mul32 gc pages_per_blk in
      let r : ℕ × Greedy Data = copy_pages 127 bank victim 0 f (load_list bank victim s) in
      let g : Greedy Data = loop_end blank bank victim count r in
      let gc-lt = ready.gc-lt in
      let start : f ≡ gc * pages_per_blk = omega arith in
      let (lo, hi, copied) =
        copy_pages-flash bank victim 127 0 f (load_list bank victim s) (omega arith) in
      let cur = loop_end-cur victim count r in
      let low' : page_num (r.0) < 127 = subst (λ v. page_num v < 127) cur low in
      let at : block (r.0) ≡ gc = ground arith in
      let free = collected-free s ready one in
      let same : (b w : ℕ)
          → (b ≢ bank) ⊎ (w < f) ⊎ (r.0 ≤ w)
          → (i : ℕ) → r.1.flash b w i ≡ s.flash b w i =
        λ b w h i. copied b w h i ∙ load_list-flash victim s b w i in
      subst (λ v. Chosen blank bank v s g) (sym cur)
        (record {
          once = λ b w. elim (Eq-cases b bank) [
            | inr there ↦
                inl (λ i. loop_end-elsewhere victim count r b w i there ∙ same b w (inl there) i)
            | inl here ↦ rw here (elim (Eq-cases (block w) victim) [
              | inl gone ↦ inr (inr (loop_end-Erased victim count r w gone))
              | inr apart ↦ elim (Bool-cases ((block w == gc) && ltb w (r.0))) [
                | inl filled ↦
                    inr (inl (spare w (ground (arith, filled)) (ground (arith, filled, low', at))))
                | inr untouched ↦ inl (λ i.
                    loop_end-kept victim count r w i apart
                    ∙ same bank w (ground (arith, untouched, lo, hi, start)) i)
              ]
            ])
          ];
          target = spare (r.0) at low';
          clean = record {
            ahead = λ w e behind p j.
                let e' : block w ≡ gc = e ∙ ap block cur ∙ at in
                let behind' : r.0 < w = subst (λ v. v < w) cur behind in
                loop_end-kept victim count r w j (λ z. ready.apart (sym z ∙ e'))
                ∙ same bank w (inr (inr (omega arith))) j
                ∙ spare w e' p j;
            spare = λ w e p. loop_end-Erased victim count r w (e ∙ loop_end-gc victim count r);
            to_come = λ more. absurd (more free);
          };
          elsewhere = λ b h w i. loop_end-elsewhere victim count r b w i h ∙ same b w (inl h) i;
        })
