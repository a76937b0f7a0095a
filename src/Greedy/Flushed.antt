-- ===== src/Greedy/Flushed.antt =====
-- `logging_misc_metadata` and `ftl_flush` of ftl_greedy/ftl.c: what the logs have after them.
use crypto_jasmine.Base.{
  ℕ, zero, suc, ◌+◌, ◌*◌, ◌/◌, ◌%◌, ◌≤◌, ◌<◌, ◌≡◌, ◌≢◌, inl, inr, refl, ap, sym, ◌∙◌, arith,
  Eq-cases, ==-refl, ==-ne,
}
use mathlib.Core.Path.{subst}
use crypto_jasmine.Base.Geometry.{num_banks}
use crypto_jasmine.Greedy.Format.{misc_page, map_page, Ssd}
use crypto_jasmine.Greedy.Log.{
  count_at, logged_counts, log_program, log_misc_prepares, log_misc_programs, logging_misc_metadata,
  logging_pmap_table, ftl_flush,
}
use crypto_jasmine.Greedy.Logged.{Placed, Stage, part, map_pages, logging_pmap_table-Stage}
use crypto_jasmine.Greedy.Ahead.{
  next_misc_vpn, next_misc_vpn-range, Ahead, log_misc_prepares-Ahead, Tail,
}

module _ {Data : Type 0} where
  -- The second loop before bank `k`: the pages of the banks below it are programmed.
  record Burnt (d₁ : Ssd Data) (k : ℕ) (d : Ssd Data) : Type 0 where
    pub map : d.ftl.page_map ≡ d₁.ftl.page_map
    pub vcount : d.ftl.vcount ≡ d₁.ftl.vcount
    pub misc : d.ftl.misc ≡ d₁.ftl.misc
    pub cur : d.logs.cur_miscblk_vpn ≡ d₁.logs.cur_miscblk_vpn
    pub mapblk : d.logs.cur_mapblk_vpn ≡ d₁.logs.cur_mapblk_vpn
    pub buf : d.logs.ftl_buf ≡ d₁.logs.ftl_buf
    pub page : (b : ℕ) → b < k → d.logs.pages b (d₁.logs.cur_miscblk_vpn b) ≡ d₁.logs.ftl_buf b
    pub others : (b v : ℕ) → v ≢ d₁.logs.cur_miscblk_vpn b → d.logs.pages b v ≡ d₁.logs.pages b v

  next-Burnt :
      (d₁ : Ssd Data) (k : ℕ) (d : Ssd Data)
      → Burnt d₁ k d
      → Burnt d₁ (k + 1) (log_program k (d.logs.cur_miscblk_vpn k) d)
  unfolding log_program
  next-Burnt d₁ k d r = record {
    map = r.map;
    vcount = r.vcount;
    misc = r.misc;
    cur = r.cur;
    mapblk = r.mapblk;
    buf = r.buf;
    page = λ b lt. elim (Eq-cases b k) [
      | inl here ↦
          rw (here, r.cur, ==-refl k, ==-refl (d₁.logs.cur_miscblk_vpn k)) (ap (λ f. f k) (r.buf))
      | inr before ↦ rw (==-ne b k before) (r.page b (omega arith))
    ];
    others = λ b v ne. elim (Eq-cases b k) [
      | inl here ↦
          let ne' : v ≢ d₁.logs.cur_miscblk_vpn k =
            λ e. ne (e ∙ ap (d₁.logs.cur_miscblk_vpn) (sym here)) in
          rw (here, r.cur, ==-refl k, ==-ne v (d₁.logs.cur_miscblk_vpn k) ne') (r.others k v ne')
      | inr other ↦ rw (==-ne b k other) (r.others b v ne)
    ];
  }

  log_misc_programs-Burnt :
      (n k : ℕ) (d₁ d : Ssd Data)
      → k + n ≡ num_banks
      → Burnt d₁ k d
      → Burnt d₁ num_banks (log_misc_programs n k d)
  unfolding log_misc_programs
  log_misc_programs-Burnt zero k d₁ d e r =
      let last : k ≡ num_banks = omega arith in subst (λ x. Burnt d₁ x d) last r
  log_misc_programs-Burnt (suc n) k d₁ d e r =
      log_misc_programs-Burnt n (k + 1) d₁ (log_program k (d.logs.cur_miscblk_vpn k) d)
        (omega arith) (next-Burnt d₁ k d r)

  -- The logs have the metadata `d₀`: every page of the map, and for every bank the last written page
  -- of its misc. block.
  pub record Saves (d₀ d : Ssd Data) : Type 0 where
    pub placed : Placed d
    pub tail : Tail d
    pub cur-from : (b : ℕ) → b < num_banks → 128 ≤ d.logs.cur_miscblk_vpn b
    pub map :
        (q : ℕ)
        → q < map_pages
        → d.logs.pages (q % num_banks) (d.logs.cur_mapblk_vpn (q % num_banks) (q / num_banks))
          ≡ map_page (part d₀ q)
    pub misc :
        (b : ℕ)
        → b < num_banks
        → d.logs.pages b (d.logs.cur_miscblk_vpn b)
          ≡ misc_page (record {
            misc = d₀.ftl.misc b;
            miscblk_vpn = d.logs.cur_miscblk_vpn b;
            mapblk_vpn = d.logs.cur_mapblk_vpn b;
            counts = λ k. count_at (d₀.ftl) (b * logged_counts + k);
          })

  -- The tables in the memory are as they were.
  pub record Unchanged (d₀ d : Ssd Data) : Type 0 where
    pub map : d.ftl.page_map ≡ d₀.ftl.page_map
    pub vcount : d.ftl.vcount ≡ d₀.ftl.vcount
    pub misc : d.ftl.misc ≡ d₀.ftl.misc

  Saves-from :
      (d₀ d₁ d₂ d : Ssd Data)
      → Stage d₀ map_pages d₁
      → Tail d₁
      → Ahead d₁ num_banks d₂
      → Burnt d₂ num_banks d
      → Saves d₀ d
  Saves-from d₀ d₁ d₂ d s tl a r =
      let curs : d.logs.cur_mapblk_vpn ≡ d₁.logs.cur_mapblk_vpn = r.mapblk ∙ a.tables.mapblk in
      let cur : (b : ℕ)
          → b < num_banks
          → d.logs.cur_miscblk_vpn b ≡ next_misc_vpn (d₁.logs.cur_miscblk_vpn b) =
        λ b h. ap (λ f. f b) (r.cur) ∙ a.cur b h in
      let range : (b : ℕ)
          → (h : b < num_banks)
          → (128 ≤ d.logs.cur_miscblk_vpn b) × (d.logs.cur_miscblk_vpn b < 256) =
        λ b h.
          rw (cur b h)
            (next_misc_vpn-range (d₁.logs.cur_miscblk_vpn b) (tl.from b h) (tl.to b h)) in
      record {
        placed = record {
          few = λ b l hb hl. rw curs (s.placed.few b l hb hl);
          past = λ b l hb hl. rw curs (s.placed.past b l hb hl);
          apart = λ b l k hb hl hk. rw curs (s.placed.apart b l k hb hl hk);
        };
        tail = record {
          from = λ b h. omega (arith, range b h);
          to = λ b h. (range b h).1;
          erased = λ b v h lo hi.
              let at = ap (λ f. f b) (r.cur) in
              r.others b v (λ e. absurd (omega (arith, at, e)))
              ∙ a.erased b v h (omega (arith, cur b h)) hi;
        };
        cur-from = λ b h. (range b h).0;
        map = λ q h.
            let b : ℕ = q % num_banks in
            let v : ℕ = d₁.logs.cur_mapblk_vpn b (q / num_banks) in
            let hb : b < num_banks = omega arith in
            let past = s.placed.past b (q / num_banks) hb (omega arith) in
            ap (λ f. d.logs.pages b (f b (q / num_banks))) curs
            ∙ r.others b v (λ e. absurd (omega (arith, e, past, range b hb, ap (λ f. f b) (r.cur))))
            ∙ a.maps b v (λ e. absurd (omega (arith, past)))
            ∙ s.saved q h;
        misc = λ b h.
            ap (λ f. d.logs.pages b (f b)) (r.cur)
            ∙ r.page b h
            ∙ a.buf b h
            ∙ ap misc_page (rw (cur b h, curs, s.tables.misc, s.tables.vcount) refl);
      }

  Tail-after : (d₀ d₁ : Ssd Data) → Stage d₀ map_pages d₁ → Tail d₀ → Tail d₁
  Tail-after d₀ d₁ s tl = record {
    from = λ b h. rw (s.tables.miscblk) (tl.from b h);
    to = λ b h. rw (s.tables.miscblk) (tl.to b h);
    erased = λ b v h lo hi.
        s.misc_blocks b v (omega arith)
        ∙ tl.erased b v h (omega (arith, ap (λ f. f b) (s.tables.miscblk))) hi;
  }

module _ {Data : Type 0} (blank : Data) where
  pub ftl_flush-Saves :
      (d : Ssd Data)
      → Placed d
      → Tail d
      → Saves d (ftl_flush blank d) × Unchanged d (ftl_flush blank d)
  unfolding ftl_flush logging_misc_metadata
  ftl_flush-Saves d pl tl =
      let d₁ : Ssd Data = logging_pmap_table blank d in
      let s : Stage d map_pages d₁ = logging_pmap_table-Stage blank d pl in
      let tl₁ : Tail d₁ = Tail-after d d₁ s tl in
      let d₂ : Ssd Data = log_misc_prepares num_banks blank 0 d₁ in
      let a : Ahead d₁ num_banks d₂ =
        log_misc_prepares-Ahead blank num_banks 0 d₁ d₁ tl₁ refl (record {
          tables = record { map = refl; vcount = refl; misc = refl; mapblk = refl };
          cur = λ b h. absurd (omega arith);
          buf = λ b h. absurd (omega arith);
          erased = λ b v h. absurd (omega arith);
          maps = λ b v h. refl;
          todo_cur = λ b h. refl;
          todo_pages = λ b v h. refl;
        }) in
      let d₃ : Ssd Data = log_misc_programs num_banks 0 d₂ in
      let r : Burnt d₂ num_banks d₃ = log_misc_programs-Burnt num_banks 0 d₂ d₂ refl (record {
        map = refl;
        vcount = refl;
        misc = refl;
        cur = refl;
        mapblk = refl;
        buf = refl;
        page = λ b h. absurd (omega arith);
        others = λ b v ne. refl;
      }) in
      (
        Saves-from d d₁ d₂ d₃ s tl₁ a r,
        record {
          map = r.map ∙ a.tables.map ∙ s.tables.map;
          vcount = r.vcount ∙ a.tables.vcount ∙ s.tables.vcount;
          misc = r.misc ∙ a.tables.misc ∙ s.tables.misc;
        },
      )
