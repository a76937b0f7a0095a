-- ===== src/Greedy/Clean.antt =====
-- `write_page` of ftl_greedy/ftl.c programs erased pages only, and erases what it will program later.
use crypto_jasmine.Base.{
  ℕ, ◌-◌, ◌≤◌, ◌<◌, ◌≡◌, ◌≢◌, ◌⊎◌, inl, inr, refl, ap, sym, ◌∙◌, arith, some, Eq-cases, ==-refl,
  ==-ne, some-unique,
}
use mathlib.Core.Path.{subst}
use crypto_jasmine.Base.Geometry.{vblks_per_bank, num_banks, get_num_bank}
use crypto_jasmine.Base.Words.{sub32}
use crypto_jasmine.Greedy.State.{
  Greedy, vc_max, set_vpn, set_lpn, set_misc, set_vcount, get_vcount, get_vpn, ptprogram_from_host,
  ptread,
}
use crypto_jasmine.Greedy.Collect.{garbage_collection}
use crypto_jasmine.Greedy.Write.{
  assign_new_write_vpn, close_vblock, set_new_write_vpn, write_at, program, retire, count_write,
  fill_holes, copy_holes, read_holes,
}
use crypto_jasmine.Greedy.Copying.{block, page_num}
use crypto_jasmine.Greedy.Rooms.{
  closed, closed-gc_vblock, assign-within, assign-collects, assign-behind,
}
use crypto_jasmine.Greedy.Valid.{Valid}
use crypto_jasmine.Greedy.Next.{next_vblock-NextBlock, in_use-le}
use crypto_jasmine.Greedy.Closing.{Closed-Ready}
use crypto_jasmine.Greedy.Opened.{closed-Closed, closed-Collectable, step, jump}
use crypto_jasmine.Greedy.Assign.{Ripe, Opened}
use crypto_jasmine.Greedy.Marks.{Marks}
use crypto_jasmine.Greedy.Others.{Kept}
use crypto_jasmine.Greedy.Erasure.{
  Erased, Clean, Once, Chosen, step-Chosen, jump-Chosen, garbage_collection-Chosen,
}

module _ {Data : Type 0} (blank : Data) (bank : ℕ) where
  -- Closing a block leaves the pages for data alone.
  closed-Chosen :
      (v : ℕ) (s s' : Greedy Data)
      → Chosen blank bank v (closed bank s) s'
      → Chosen blank bank v s s'
  unfolding close_vblock set_misc
  closed-Chosen v s s' c = record {
    once = c.once;
    target = c.target;
    clean = c.clean;
    elsewhere = c.elsewhere;
  }

  closed-Erased :
      (s : Greedy Data) (w : ℕ) → Erased blank bank w s → Erased blank bank w (closed bank s)
  unfolding close_vblock set_misc
  closed-Erased s w e = e

  pub assign-Chosen :
      (s : Greedy Data)
      → Valid bank s
      → Ripe bank s
      → Clean blank bank s
      → (v : ℕ) (s' : Greedy Data) → assign_new_write_vpn blank bank s ≡ some (v, s')
      → Opened bank v s'
      → Chosen blank bank v s s'
  unfolding jump step set_new_write_vpn
  assign-Chosen s i ripe k v s' e o =
      let c : ℕ = (s.misc bank).cur_write_vpn in
      elim (Eq-cases (page_num c) 126) [
        | inr room ↦
            some-unique (λ (r : ℕ × Greedy Data). Chosen blank bank r.0 s r.1)
              (assign-within blank bank s room) e (step-Chosen blank bank s i k room)
        | inl full ↦ elim (Eq-cases (s.misc bank).free_blk_cnt 2) [
          | inl two ↦
              let t : Greedy Data = closed bank s in
              let g : Greedy Data = garbage_collection blank bank t in
              let cl = closed-Closed bank s i full two in
              let l = closed-Collectable bank s (ripe full two) in
              let found = assign-collects blank bank s full (rw two) in
              let low : page_num (g.misc bank).cur_write_vpn < 127 =
                some-unique (λ (r : ℕ × Greedy Data). page_num (r.1.misc bank).cur_write_vpn < 127)
                  e found (o.metas.cur-low) in
              some-unique (λ (r : ℕ × Greedy Data). Chosen blank bank r.0 s r.1) found e
                (closed-Chosen (g.misc bank).cur_write_vpn s g (
                  garbage_collection-Chosen blank bank t (Closed-Ready bank t cl l) (cl.last)
                    (λ w at p. closed-Erased s w (k.spare w (at ∙ closed-gc_vblock blank bank s) p))
                    low))
          | inr more ↦ elim (i.phase) [
            | inl two ↦ absurd (more two)
            | inr (free, below) ↦
                let cur : ℕ = block c in
                let few = in_use-le (vblks_per_bank - 1 - cur) (s.vcount bank) cur in
                let (n, next) =
                  next_vblock-NextBlock (vblks_per_bank - 1 - cur) (s.vcount bank) cur
                    (omega arith) in
                let last : sub32 (s.misc bank).free_blk_cnt 1 ≢ 1 = λ z. more (omega arith) in
                some-unique (λ (r : ℕ × Greedy Data). Chosen blank bank r.0 s r.1)
                  (assign-behind blank bank s n full last (next.found)) e
                  (jump-Chosen blank bank n s k more (next.later)
                    (omega (arith, next.within, i.cur-lt)) (next.used))
          ]
        ]
      ]

module _ {Data : Type 0} where
  fill_holes-flash :
      (bank old first count : ℕ) (s : Greedy Data)
      → (fill_holes bank old first count s).flash ≡ s.flash
  unfolding fill_holes copy_holes read_holes ptread
  fill_holes-flash bank old first count s = ground arith

  program-flash :
      (bank lpn v first count : ℕ) (s : Greedy Data) (b w i : ℕ)
      → (b ≢ bank) ⊎ (w ≢ v)
      → (program bank lpn v first count s).flash b w i ≡ s.flash b w i
  unfolding program ptprogram_from_host set_lpn set_misc set_vpn set_vcount get_vcount
  program-flash bank lpn v first count s b w i h = elim (Eq-cases b bank) [
    | inr there ↦ rw (==-ne b bank there) refl
    | inl here ↦ elim h [
      | inl there ↦ absurd (there here)
      | inr apart ↦ rw (here, ==-refl bank, ==-ne w v apart) refl
    ]
  ]

  -- The page that was chosen is the one that is programmed.
  write_at-flash :
      (lpn v first count : ℕ) (s : Greedy Data) (b w i : ℕ)
      → (b ≢ get_num_bank lpn) ⊎ (w ≢ v)
      → (write_at lpn v first count s).flash b w i ≡ s.flash b w i
  unfolding write_at retire count_write set_misc set_vcount get_vcount get_vpn
  write_at-flash lpn v first count s b w i h = elim (Eq-cases (s.page_map lpn) 0) [
    | inl none_yet ↦ rw none_yet (program-flash (get_num_bank lpn) lpn v first count _ b w i h)
    | inr some_page ↦ rw (==-ne (s.page_map lpn) 0 some_page) (
        program-flash (get_num_bank lpn) lpn v 0 64 _ b w i h
        ∙ ap (λ f. f b w i) (fill_holes-flash (get_num_bank lpn) (s.page_map lpn) first count _))
  ]

module _ {Data : Type 0} (blank : Data) where
  Kept-Clean :
      (b : ℕ) (s t : Greedy Data)
      → Kept b s t
      → ((w i : ℕ) → t.flash b w i ≡ s.flash b w i)
      → Clean blank b s
      → Clean blank b t
  Kept-Clean b s t k same c = record {
    ahead = rw (k.misc) (λ w e lo p i. same w i ∙ c.ahead w e lo p i);
    spare = rw (k.misc) (λ w e p i. same w i ∙ c.spare w e p i);
    to_come = rw (k.misc) (λ more w lo hi u p i.
        same w i ∙ c.to_come more w lo hi (λ e. u (k.counts (block w) ∙ e)) p i);
  }

  -- The bank that was written to
  written-Clean :
      (lpn v : ℕ) (s t : Greedy Data)
      → Opened (get_num_bank lpn) v s
      → Marks lpn v s t
      → ((w i : ℕ) → w ≢ v → t.flash (get_num_bank lpn) w i ≡ s.flash (get_num_bank lpn) w i)
      → Clean blank (get_num_bank lpn) s
      → Clean blank (get_num_bank lpn) t
  written-Clean lpn v s t o m same c =
      let bank : ℕ = get_num_bank lpn in
      let cur = o.cur in
      let used : s.vcount bank (block v) ≢ vc_max =
        subst (λ x. s.vcount bank (block x) ≢ vc_max) cur (o.metas.cur-used) in
      record {
        ahead =
            rw (m.cur)
              (λ w e lo p i. same w i (λ z. absurd (omega (arith, z, cur))) ∙ c.ahead w e lo p i);
        spare = rw (m.gc) (λ w e p i.
            same w i (λ z. used (
              ap (λ x. s.vcount bank (block x)) (sym z)
              ∙ ap (s.vcount bank) e
              ∙ o.metas.pages.spare))
            ∙ c.spare w e p i);
        to_come =
            rw (m.free, m.cur)
              (λ more w lo hi u p i.
                let below : block (s.page_map lpn) ≤ block (s.misc bank).cur_write_vpn =
                  elim (o.metas.phase) [
                    | inl two ↦ absurd (more two)
                    | inr (free, low) ↦ low lpn refl
                  ] in
                let here : block w ≢ block v = λ z. absurd (omega (arith, z, cur)) in
                let there : block w ≢ block (s.page_map lpn) = λ z. absurd (omega (arith, z)) in
                let count : t.vcount bank (block w) ≡ s.vcount bank (block w) =
                  m.count (block w)
                  ∙ rw
                      (
                        ==-ne (block w) (block v) here,
                        ==-ne (block w) (block (s.page_map lpn)) there,
                      )
                      (ground arith) in
                same w i (λ z. here (ap block z))
                ∙ c.to_come more w lo hi (λ e. u (count ∙ e)) p i);
      }

  -- A write of a page changes pages that were erased, or erases them.
  pub written-Once :
      (lpn v first count : ℕ) (s s₁ : Greedy Data)
      → Chosen blank (get_num_bank lpn) v s s₁
      → Once blank s (write_at lpn v first count s₁)
  written-Once lpn v first count s s₁ c b w =
      let bank : ℕ = get_num_bank lpn in
      let t : Greedy Data = write_at lpn v first count s₁ in
      let rest : (b ≢ bank) ⊎ (w ≢ v)
          → ((i : ℕ) → t.flash b w i ≡ s.flash b w i) ⊎ (Erased blank b w s ⊎ Erased blank b w t) =
        λ h. elim (c.once b w) [
          | inl same ↦ inl (λ i. write_at-flash lpn v first count s₁ b w i h ∙ same i)
          | inr (inl before) ↦ inr (inl before)
          | inr (inr now) ↦ inr (inr (λ i. write_at-flash lpn v first count s₁ b w i h ∙ now i))
        ] in
      elim (Eq-cases b bank) [
        | inr there ↦ rest (inl there)
        | inl here ↦ elim (Eq-cases w v) [
          | inr apart ↦ rest (inr apart)
          | inl at ↦ inr (inl (rw (here, at) (c.target)))
        ]
      ]

  -- Every bank has erased what it will program.
  abbrev pub AllClean : Greedy Data → Type 0
  AllClean s = (b : ℕ) → b < num_banks → Clean blank b s

  pub written-AllClean :
      (lpn v first count : ℕ) (s s₁ : Greedy Data)
      → AllClean s
      → Chosen blank (get_num_bank lpn) v s s₁
      → Opened (get_num_bank lpn) v s₁
      → Marks lpn v s₁ (write_at lpn v first count s₁)
      → ((b : ℕ) → b ≢ get_num_bank lpn → Kept b s (write_at lpn v first count s₁))
      → AllClean (write_at lpn v first count s₁)
  written-AllClean lpn v first count s s₁ all c o m kept b h =
      let bank : ℕ = get_num_bank lpn in
      let t : Greedy Data = write_at lpn v first count s₁ in
      elim (Eq-cases b bank) [
        | inl here ↦
            subst (λ x. Clean blank x t) (sym here)
              (written-Clean lpn v s₁ t o m
                (λ w i ne. write_at-flash lpn v first count s₁ bank w i (inr ne)) (c.clean))
        | inr there ↦
            Kept-Clean b s t (kept b there)
              (λ w i.
                write_at-flash lpn v first count s₁ b w i (inl there) ∙ c.elsewhere b there w i)
              (all b h)
      ]
