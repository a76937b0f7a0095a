-- ===== src/Greedy/Opening.antt =====
-- `format` of ftl_greedy/ftl.c on all banks.
use crypto_jasmine.Base.{
  ℕ, zero, suc, ◌+◌, ◌-◌, ◌/◌, ◌≤◌, ◌<◌, ◌≡◌, ◌≢◌, inl, inr, refl, ap, sym, ◌∙◌, arith, Bool, some,
  if◌then◌else◌, Eq-cases, >>=-eq-some,
}
use mathlib.Core.Path.{subst}
use crypto_jasmine.Base.Geometry.{num_banks, vblks_per_bank}
use crypto_jasmine.Greedy.State.{vc_max}
use crypto_jasmine.Greedy.Copying.{page_num}
use crypto_jasmine.Greedy.Valid.{Open, Valid, in_use}
use crypto_jasmine.Greedy.Others.{Kept, Kept-Open}
use crypto_jasmine.Greedy.Device.{AllValid}
use crypto_jasmine.Greedy.Format.{
  Ssd, init_bank, init_banks, format_metadata, init_metadata_sram, format_blocks, clear_tables,
  miscblk_vbn, all_ff,
}
use crypto_jasmine.Greedy.Erased.{Empty, erased-Empty}
use crypto_jasmine.Greedy.Initial.{good, Init, Started, init_bank-Started}
use crypto_jasmine.Greedy.Formatted.{Usable, Blank, started-Valid}
use crypto_jasmine.Greedy.Placing.{
  init_bank-Laid, LogsAt, Laid-LogsAt, Laid-other, LogsAt-apart, some-injective,
}
use crypto_jasmine.Greedy.Reserved.{Reserved, init_banks-Reserved}
use crypto_jasmine.Greedy.Logged.{Placed}
use crypto_jasmine.Greedy.Ahead.{Tail}

module _ {Data : Type 0} where
  Usable-same :
      (b : ℕ) (d e : Ssd Data)
      → e.bad ≡ d.bad
      → e.bad_cnt ≡ d.bad_cnt
      → e.ftl.misc b ≡ d.ftl.misc b
      → Usable b d
      → Usable b e
  Usable-same b d e bad cnt misc u =
      let same : good b e 1 ≡ good b d 1 =
        ap (λ (f : (b u : ℕ) → Bool). in_use 2074 (λ v. if f b v then vc_max else 0) 1) bad in
      record {
        enough = rw same (u.enough);
        number = rw (same, cnt) (u.number);
        list = rw misc (u.list);
        misc_block = ap (λ f. f b 1) bad ∙ u.misc_block;
      }

  Started-Kept : (b k : ℕ) (e d : Ssd Data) (s : ℕ) → b ≢ k → Init k e s d → Kept b (e.ftl) (d.ftl)
  Started-Kept b k e d s ne i = record {
    map = λ l h. ap (λ f. f l) (i.map);
    counts = λ u. ap (λ f. f u) (i.other_counts b ne);
    misc = i.other_misc b ne;
    lists = λ v j. ap (λ f. f b v j) (i.lists);
  }

  Blank-same : (b k : ℕ) (e d : Ssd Data) (s : ℕ) → b ≢ k → Init k e s d → Blank b e → Blank b d
  Blank-same b k e d s ne i k' = record {
    map = λ l. ap (λ f. f l) (i.map) ∙ k'.map l;
    counts = λ u lo hi.
        ap (λ f. f u) (i.other_counts b ne)
        ∙ k'.counts u lo hi
        ∙ ap (λ f. if f b u then vc_max else 0) (sym (i.bad));
    beyond = λ u far. ap (λ f. f u) (i.other_counts b ne) ∙ k'.beyond u far;
  }

  -- The banks below `k` are set up, the others are to be.
  pub record Between (k : ℕ) (d : Ssd Data) : Type 0 where
    pub valid : (b : ℕ) → b < k → Valid b (d.ftl)
    pub usable : (b : ℕ) → k ≤ b → b < num_banks → Usable b d
    pub blank : (b : ℕ) → k ≤ b → b < num_banks → Blank b d
    pub empty : (l : ℕ) → d.ftl.page_map l ≡ 0

  next-Between :
      (k : ℕ) (e d : Ssd Data)
      → Between k e
      → Usable k e
      → (bl : Blank k e) → Started k e (bl.counts) d
      → Between (k + 1) d
  next-Between k e d m us bl w =
      let i = w.init in
      record {
        valid = λ b lt. elim (Eq-cases b k) [
          | inl here ↦ subst (λ c. Valid c (d.ftl)) (sym here) (started-Valid k e d us bl w)
          | inr before ↦
              let kept = Started-Kept b k e d (w.spare) before i in
              subst (λ c. Open b (page_num c.cur_write_vpn + 1) (d.ftl)) (sym (kept.misc))
                (Kept-Open b _ (e.ftl) (d.ftl) kept (m.valid b (omega arith)))
        ];
        usable = λ b lo hi.
            let ne : b ≢ k = λ z. absurd (omega arith) in
            Usable-same b e d (i.bad) (i.bad_cnt) (i.other_misc b ne) (m.usable b (omega arith) hi);
        blank = λ b lo hi.
            let ne : b ≢ k = λ z. absurd (omega arith) in
            Blank-same b k e d (w.spare) ne i (m.blank b (omega arith) hi);
        empty = λ l. ap (λ f. f l) (i.map) ∙ m.empty l;
      }

  init_banks-Between :
      (n k : ℕ) (d : Ssd Data)
      → k + n ≡ num_banks
      → Between k d
      → (d' : Ssd Data) × (init_banks n k d ≡ some d') × Between num_banks d'
  unfolding init_banks
  init_banks-Between zero k d e m =
      let last : k ≡ num_banks = omega arith in (d, refl, subst (λ c. Between c d) last m)
  init_banks-Between (suc n) k d e m =
      let h : k < num_banks = omega arith in
      let bl = m.blank k (omega arith) h in
      let us = m.usable k (omega arith) h in
      let (d₁, eq, w) = init_bank-Started k d (bl.counts) (us.enough) in
      let (d', eq', m') =
        init_banks-Between n (k + 1) d₁ (omega arith) (next-Between k d d₁ m us bl w) in
      (d', rw eq eq', m')

module _ {Data : Type 0} where
  -- The logs of the banks below `k` are placed.
  record Settled (e : Ssd Data) (k : ℕ) (d : Ssd Data) : Type 0 where
    pub laid : (b : ℕ) → b < k → LogsAt b d
    pub pages : d.logs.pages ≡ e.logs.pages

  start-Settled : (e : Ssd Data) → Settled e 0 e
  start-Settled e = record { laid = λ b h. absurd (omega arith); pages = refl }

  next-Settled :
      (e : Ssd Data) (k : ℕ) (d t : Ssd Data)
      → Settled e k d
      → init_bank k d ≡ some t
      → Settled e (k + 1) t
  next-Settled e k d t s eq =
      let i = init_bank-Laid k d t eq in
      record {
        laid = λ b lt. elim (Eq-cases b k) [
          | inl here ↦ subst (λ c. LogsAt c t) (sym here) (Laid-LogsAt k d t i)
          | inr before ↦ Laid-other k d t i b before (s.laid b (omega arith))
        ];
        pages = i.pages ∙ s.pages;
      }

  init_banks-Settled :
      (n k : ℕ) (e d t : Ssd Data)
      → k + n ≡ num_banks
      → Settled e k d
      → init_banks n k d ≡ some t
      → Settled e num_banks t
  unfolding init_banks
  init_banks-Settled zero k e d t h s eq =
      let last : k ≡ num_banks = omega arith in
      let same : d ≡ t = some-injective eq in
      subst (λ x. Settled e num_banks x) same (subst (λ c. Settled e c d) last s)
  init_banks-Settled (suc n) k e d t h s eq =
      let (d₁, e₁, e₂) = >>=-eq-some (init_bank k d) (init_banks n (k + 1)) eq in
      init_banks-Settled n (k + 1) e d₁ t (omega arith) (next-Settled e k d d₁ s e₁) e₂

  Settled-Placed : (e d : Ssd Data) → Settled e num_banks d → Placed d
  Settled-Placed e d s = record {
    few = λ b l hb hl. let k = (s.laid b hb).to l hl in omega arith;
    past = λ b l hb hl. (s.laid b hb).from l hl;
    apart = λ b l k hb hl hk same. LogsAt-apart b d (s.laid b hb) l k hl hk same;
  }

  Settled-Tail :
      (e d : Ssd Data)
      → Settled e num_banks d
      → ((b : ℕ) → b < num_banks → (v : ℕ) → v / 128 ≡ 1 → e.logs.pages b v ≡ all_ff)
      → Tail d
  Settled-Tail e d s ff = record {
    from = λ b h. omega (arith, (s.laid b h).miscblk);
    to = λ b h. omega (arith, (s.laid b h).miscblk);
    erased =
        λ b v h lo hi. ap (λ f. f b v) (s.pages) ∙ ff b h v (omega (arith, (s.laid b h).miscblk));
  }

module _ {Data : Type 0} (blank : Data) where
  erased-Between :
      (d e : Ssd Data) → Empty blank d e → ((b : ℕ) → b < num_banks → Usable b d) → Between 0 e
  erased-Between d e m usable = record {
    valid = λ b lt. absurd (omega arith);
    usable =
        λ b lo hi. Usable-same b d e (m.bad) (m.bad_cnt) (ap (λ f. f b) (m.misc)) (usable b hi);
    blank = λ b lo hi. record {
      map = m.map;
      counts = λ u lo' hi'.
          m.blocks b u hi lo' hi' ∙ ap (λ f. if f b u then vc_max else 0) (sym (m.bad));
      beyond = λ u far. m.beyond b u hi far;
    };
    empty = m.map;
  }

  pub format_metadata-Valid :
      (d : Ssd Data)
      → ((b : ℕ) → b < num_banks → Usable b d)
      → (d' : Ssd Data) × (format_metadata blank d ≡ some d')
        × AllValid (d'.ftl)
        × ((l : ℕ) → d'.ftl.page_map l ≡ 0)
        × Placed d'
        × Tail d'
        × Reserved d'
  unfolding format_metadata init_metadata_sram
  format_metadata-Valid d usable =
      let e : Ssd Data =
        format_blocks (vblks_per_bank - miscblk_vbn) blank miscblk_vbn (clear_tables d) in
      let m = erased-Empty blank d in
      let (d', eq, all) = init_banks-Between num_banks 0 e refl (erased-Between d e m usable) in
      let l : Settled e num_banks d' =
        init_banks-Settled num_banks 0 e e d' refl (start-Settled e) eq in
      (
        d',
        eq,
        all.valid,
        all.empty,
        Settled-Placed e d' l,
        Settled-Tail e d' l (λ b h v at. m.erased b v h (usable b h).misc_block at),
        init_banks-Reserved num_banks 0 e d' refl (λ b h. absurd (omega arith)) eq,
      )
