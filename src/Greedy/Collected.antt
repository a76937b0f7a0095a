-- ===== src/Greedy/Collected.antt =====
-- `garbage_collection` of ftl_greedy/ftl.c keeps the data of every logical page.
use mathlib.Core.Path.{subst}
use crypto_jasmine.Base.{ℕ, ◌+◌, ◌*◌, ◌<◌, ◌≡◌, ◌≢◌, ◌↔◌, refl, arith}
use crypto_jasmine.Base.Geometry.{pages_per_blk, get_num_bank}
use crypto_jasmine.Base.Words.{mul32}
use crypto_jasmine.Greedy.State.{Greedy, set_vcount, set_misc}
use crypto_jasmine.Greedy.Collect.{
  copy_pages, load_list, block_erase, swap_blocks, collect_from, garbage_collection, get_vt_vblock,
}
use crypto_jasmine.Greedy.Copying.{block, In, Ready, Copied, Done, start-Copied, copy_pages-Copied}

module _ {Data : Type 0} (bank : ℕ) where
  -- What a collection does to a bank: every logical page has its data, none is in the block that is
  -- free now or at the page that is written next, and the other banks are as they were.
  pub record Collected (s s' : Greedy Data) : Type 0 where
    pub kept :
        (l : ℕ)
        → In bank l
        → (i : ℕ) → s'.flash bank (s'.page_map l) i ≡ s.flash bank (s.page_map l) i
    pub free : (l : ℕ) → In bank l → block (s'.page_map l) ≢ (s'.misc bank).gc_vblock
    pub next : (l : ℕ) → In bank l → s'.page_map l ≢ (s'.misc bank).cur_write_vpn
    pub others : (l : ℕ) → get_num_bank l ≢ bank → s'.page_map l ≡ s.page_map l
    pub elsewhere : (b : ℕ) → b ≢ bank → (v i : ℕ) → s'.flash b v i ≡ s.flash b v i
    pub mapped : (l : ℕ) → In bank l → (s'.page_map l ≡ 0) ↔ (s.page_map l ≡ 0)
    pub open_page : 0 < (s'.misc bank).cur_write_vpn
    pub buffer : (i : ℕ) → s'.write_buf s'.next_write_buf i ≡ s.write_buf s.next_write_buf i

module _ {Data : Type 0} (blank : Data) (bank : ℕ) where
  -- After the loop, no logical page is in the victim.
  left :
      (victim gc : ℕ) {s₀ : Greedy Data} {k : ℕ} {s : Greedy Data}
      → Copied bank victim gc s₀ 127 k s
      → (l : ℕ) → In bank l
      → block (s.page_map l) ≢ victim
  left victim gc c l h b = let (from, below, named) = c.rest l h b in absurd (omega arith)

  end-Collected :
      (victim gc count : ℕ) (s₀ : Greedy Data) (p : ℕ × Greedy Data)
      → victim ≢ gc
      → 0 < gc
      → Done bank victim gc s₀ p
      → Collected bank s₀ (swap_blocks bank victim count p.0 (block_erase blank bank victim p.1))
  unfolding swap_blocks block_erase set_misc set_vcount
  end-Collected victim gc count s₀ (v, s) apart pos (k, e, c) = record {
    kept = λ l h i. ground (arith, c.kept l h i, left victim gc c l h);
    free = λ l h. ground (arith, left victim gc c l h);
    next = λ l h. ground (arith, e, c.few, c.fresh l h);
    others = c.others;
    elsewhere = λ b h v i. ground (arith, c.elsewhere b h v i);
    mapped = c.mapped;
    open_page = ground (arith, e);
    buffer = c.buffer;
  }

  -- What comes behind the copy loop.
  abbrev pub loop_end : (victim count : ℕ) → ℕ × Greedy Data → Greedy Data
  loop_end victim count r = swap_blocks bank victim count r.0 (block_erase blank bank victim r.1)

  -- What holds of the end of every copy loop that did its work holds of the collection.
  pub loop-Done :
      (victim count : ℕ) (s : Greedy Data)
      → Ready bank victim (s.misc bank).gc_vblock s
      → (P : Greedy Data → Type 0)
      → ((r : ℕ × Greedy Data)
          → Done bank victim (s.misc bank).gc_vblock s r
          → P (loop_end victim count r))
      → P (collect_from blank bank victim count s)
  unfolding collect_from load_list set_misc
  loop-Done victim count s r P after =
      let gc : ℕ = (s.misc bank).gc_vblock in
      let s₁ : Greedy Data = load_list bank victim s in
      let from : gc * pages_per_blk + 0 ≡ mul32 gc pages_per_blk = omega (arith, r.gc-lt) in
      let c =
        start-Copied bank victim gc s s₁ r refl refl (λ i. refl) (λ j. ground arith)
          (λ b h. ground arith) refl refl (ground arith) (ground arith) in
      let done = copy_pages-Copied bank victim gc 127 0 0 r refl c in
      after (copy_pages 127 bank victim 0 (mul32 gc pages_per_blk) s₁)
        (subst (λ v. Done bank victim gc s (copy_pages 127 bank victim 0 v s₁)) from done)

  collect_from-Collected :
      (victim count : ℕ) (s : Greedy Data)
      → Ready bank victim (s.misc bank).gc_vblock s
      → Collected bank s (collect_from blank bank victim count s)
  collect_from-Collected victim count s r =
      loop-Done victim count s r (Collected bank s)
        (λ p done. end-Collected victim (s.misc bank).gc_vblock count s p (r.apart) (r.gc-pos) done)

  -- A collection of a bank whose victim the lists describe moves every valid page of it to the free
  -- block: every logical page of the bank reads as before, the victim is free of them, the page that
  -- is written next holds none, and the other banks are as they were.
  pub garbage_collection-Collected :
      (s : Greedy Data)
      → Ready bank (get_vt_vblock bank s) (s.misc bank).gc_vblock s
      → Collected bank s (garbage_collection blank bank s)
  unfolding garbage_collection
  garbage_collection-Collected s r = collect_from-Collected (get_vt_vblock bank s) _ s r
