-- ===== src/Greedy/Reserved.antt =====
-- `init_metadata_sram` of ftl_greedy/ftl.c: the blocks of the logs are not for data.
use crypto_jasmine.Base.{
  ℕ, zero, suc, ◌+◌, ◌-◌, ◌*◌, ◌/◌, ◌<◌, ◌≡◌, ◌≢◌, inl, inr, refl, ap, sym, ◌∙◌, arith, some, none,
  Eq-cases, Bool-cases, ==-refl, ==-ne, ◌>>=◌, >>=-eq-some, upd,
}
use mathlib.Core.Path.{subst}
use crypto_jasmine.Base.Geometry.{num_banks, vblks_per_bank, mapblks_per_bank, pages_per_blk}
use crypto_jasmine.Greedy.State.{set_misc, vc_max}
use crypto_jasmine.Greedy.Copying.{block}
use crypto_jasmine.Greedy.Format.{
  Ssd, write_vcount, change_misc, init_counts, assign_map_block, assign_map_blocks, assign_gc_block,
  assign_write_block, init_bank, init_banks,
}
use crypto_jasmine.Greedy.Placing.{
  some-injective, none-some, init_bank-Laid, assign_gc_block-logs, assign_write_block-logs,
}

module _ {Data : Type 0} where
  -- The counts of a bank keep the misc. block and the first `lbn` map blocks from the data.
  pub record Taken (b lbn : ℕ) (d : Ssd Data) : Type 0 where
    pub misc : d.ftl.vcount b 1 ≡ vc_max
    pub maps : (l : ℕ) → l < lbn → d.ftl.vcount b (block (d.logs.cur_mapblk_vpn b l)) ≡ vc_max

  pub Taken-same :
      (b lbn : ℕ) (d t : Ssd Data)
      → t.ftl.vcount ≡ d.ftl.vcount
      → t.logs.cur_mapblk_vpn ≡ d.logs.cur_mapblk_vpn
      → Taken b lbn d
      → Taken b lbn t
  Taken-same b lbn d t counts homes k = record {
    misc = rw counts (k.misc);
    maps = rw (counts, homes) (k.maps);
  }

  -- No count that is VC_MAX is changed, and none of another bank.
  record Grown (bank : ℕ) (d t : Ssd Data) : Type 0 where
    pub kept : (u : ℕ) → d.ftl.vcount bank u ≡ vc_max → t.ftl.vcount bank u ≡ vc_max
    pub others : (b : ℕ) → b ≢ bank → t.ftl.vcount b ≡ d.ftl.vcount b

  Grown-trans : (bank : ℕ) (d t r : Ssd Data) → Grown bank d t → Grown bank t r → Grown bank d r
  Grown-trans bank d t r g h = record {
    kept = λ u e. h.kept u (g.kept u e);
    others = λ b ne. h.others b ne ∙ g.others b ne;
  }

  Grown-upd :
      (bank u : ℕ) (d t : Ssd Data)
      → t.ftl.vcount ≡ upd (d.ftl.vcount) bank (upd (d.ftl.vcount bank) u vc_max)
      → Grown bank d t
  Grown-upd bank u d t e = record {
    kept = λ w k. rw (e, ==-refl bank) (ground (arith, k));
    others = λ b ne. rw (e, ==-ne b bank ne) refl;
  }

  assign_gc_block-Grown :
      (n bank v : ℕ) (d : Ssd Data) (r : ℕ × Ssd Data)
      → assign_gc_block n bank v d ≡ some r
      → Grown bank d (r.1)
  unfolding assign_gc_block write_vcount change_misc set_misc
  assign_gc_block-Grown zero bank v d r eq = none-some none refl eq
  assign_gc_block-Grown (suc n) bank v d r eq = elim (Bool-cases (d.bad bank (v + 1))) [
    | inl b ↦
        let t : Ssd Data =
          change_misc bank (λ m. record m { gc_vblock = v + 1 })
            (write_vcount bank (v + 1) vc_max d) in
        Grown-trans bank d t (r.1) (Grown-upd bank (v + 1) d t refl)
          (assign_gc_block-Grown n bank (v + 1) t r (rw b at eq))
    | inr ok ↦
        let same = ap (λ (q : ℕ × Ssd Data). q.1.ftl.vcount) (some-injective (rw ok at eq)) in
        Grown-upd bank (v + 1) d (r.1) (sym same)
  ]

  assign_write_block-Grown :
      (n bank v : ℕ) (d t : Ssd Data) → assign_write_block n bank v d ≡ some t → Grown bank d t
  unfolding assign_write_block change_misc set_misc
  assign_write_block-Grown zero bank v d t eq = none-some none refl eq
  assign_write_block-Grown (suc n) bank v d t eq = elim (Bool-cases (d.bad bank (v + 1))) [
    | inl b ↦
        let d₁ : Ssd Data =
          change_misc bank (λ m. record m { cur_write_vpn = (v + 1) * pages_per_blk }) d in
        let g = assign_write_block-Grown n bank (v + 1) d₁ t (rw b at eq) in
        record { kept = g.kept; others = g.others }
    | inr ok ↦
        let same = ap (λ (q : Ssd Data). q.ftl.vcount) (some-injective (rw ok at eq)) in
        record { kept = λ u k. rw (sym same) k; others = λ b ne. rw (sym same) refl }
  ]

  Taken-Grown :
      (bank lbn : ℕ) (d t : Ssd Data)
      → Grown bank d t
      → t.logs ≡ d.logs
      → Taken bank lbn d
      → Taken bank lbn t
  Taken-Grown bank lbn d t g e k = record {
    misc = g.kept 1 (k.misc);
    maps = λ l h. rw e (g.kept _ (k.maps l h));
  }

module _ {Data : Type 0} (bank : ℕ) where
  init_counts-Taken : (d : Ssd Data) → Taken bank 0 (init_counts bank d)
  unfolding init_counts change_misc write_vcount set_misc
  init_counts-Taken d = record { misc = rw (==-refl bank) refl; maps = λ l h. absurd (omega arith) }

  assign_map_block-Taken :
      (lbn v : ℕ) (d : Ssd Data)
      → Taken bank lbn d
      → Taken bank (lbn + 1) (assign_map_block bank lbn v d)
  unfolding assign_map_block write_vcount
  assign_map_block-Taken lbn v d k =
      let t : Ssd Data = assign_map_block bank lbn v d in
      let g : Grown bank d t = Grown-upd bank v d t refl in
      let at : v * pages_per_blk / pages_per_blk ≡ v = omega arith in
      record {
        misc = g.kept 1 (k.misc);
        maps = λ l h. elim (Eq-cases l lbn) [
          | inl here ↦ rw (here, ==-refl bank, ==-refl lbn, at, ==-refl v) refl
          | inr other ↦
              let same : t.logs.cur_mapblk_vpn bank l ≡ d.logs.cur_mapblk_vpn bank l =
                rw (==-refl bank, ==-ne l lbn other) refl in
              subst (λ c. t.ftl.vcount bank (block c) ≡ vc_max) (sym same)
                (g.kept _ (k.maps l (omega arith)))
        ];
      }

  assign_map_blocks-Taken :
      (n lbn v : ℕ) (d : Ssd Data) (r : ℕ × Ssd Data)
      → Taken bank lbn d
      → assign_map_blocks n bank lbn v d ≡ some r
      → Taken bank mapblks_per_bank (r.1)
  unfolding assign_map_blocks
  assign_map_blocks-Taken zero lbn v d r k eq = elim (Eq-cases lbn mapblks_per_bank) [
    | inl done ↦
        let same : (v, d) ≡ r = some-injective (rw done at eq) in
        subst (λ (q : ℕ × Ssd Data). Taken bank mapblks_per_bank (q.1)) same
          (subst (λ c. Taken bank c d) done k)
    | inr more ↦ none-some none refl (rw (==-ne lbn mapblks_per_bank more) at eq)
  ]
  assign_map_blocks-Taken (suc n) lbn v d r k eq = elim (Eq-cases lbn mapblks_per_bank) [
    | inl done ↦
        let same : (v, d) ≡ r = some-injective (rw done at eq) in
        subst (λ (q : ℕ × Ssd Data). Taken bank mapblks_per_bank (q.1)) same
          (subst (λ c. Taken bank c d) done k)
    | inr more ↦ elim (Bool-cases (d.bad bank (v + 1))) [
      | inl b ↦
          assign_map_blocks-Taken n lbn (v + 1) d r k
            (rw (==-ne lbn mapblks_per_bank more, b) at eq)
      | inr ok ↦
          assign_map_blocks-Taken n (lbn + 1) (v + 1) (assign_map_block bank lbn (v + 1) d) r
            (assign_map_block-Taken lbn (v + 1) d k)
            (rw (==-ne lbn mapblks_per_bank more, ok) at eq)
    ]
  ]

  init_counts-others :
      (d : Ssd Data) (b : ℕ) → b ≢ bank → (init_counts bank d).ftl.vcount b ≡ d.ftl.vcount b
  unfolding init_counts change_misc write_vcount set_misc
  init_counts-others d b ne = rw (==-ne b bank ne) refl

  assign_map_blocks-others :
      (n lbn v : ℕ) (d : Ssd Data) (r : ℕ × Ssd Data)
      → assign_map_blocks n bank lbn v d ≡ some r
      → (b : ℕ) → b ≢ bank
      → r.1.ftl.vcount b ≡ d.ftl.vcount b
  unfolding assign_map_blocks assign_map_block write_vcount
  assign_map_blocks-others zero lbn v d r eq b ne = elim (Eq-cases lbn mapblks_per_bank) [
    | inl done ↦
        let same : (v, d) ≡ r = some-injective (rw done at eq) in
        sym (ap (λ (q : ℕ × Ssd Data). q.1.ftl.vcount b) same)
    | inr more ↦ none-some none refl (rw (==-ne lbn mapblks_per_bank more) at eq)
  ]
  assign_map_blocks-others (suc n) lbn v d r eq b ne = elim (Eq-cases lbn mapblks_per_bank) [
    | inl done ↦
        let same : (v, d) ≡ r = some-injective (rw done at eq) in
        sym (ap (λ (q : ℕ × Ssd Data). q.1.ftl.vcount b) same)
    | inr more ↦ elim (Bool-cases (d.bad bank (v + 1))) [
      | inl is_bad ↦
          assign_map_blocks-others n lbn (v + 1) d r
            (rw (==-ne lbn mapblks_per_bank more, is_bad) at eq) b ne
      | inr ok ↦
          assign_map_blocks-others n (lbn + 1) (v + 1) (assign_map_block bank lbn (v + 1) d) r
            (rw (==-ne lbn mapblks_per_bank more, ok) at eq) b ne
          ∙ rw (==-ne b bank ne) refl
    ]
  ]

  pub init_bank-Taken :
      (d t : Ssd Data)
      → init_bank bank d ≡ some t
      → Taken bank mapblks_per_bank t × ((b : ℕ) → b ≢ bank → t.ftl.vcount b ≡ d.ftl.vcount b)
  unfolding init_bank
  init_bank-Taken d t eq =
      let (r, e₁, rest) =
        >>=-eq-some (assign_map_blocks 2074 bank 0 1 (init_counts bank d))
          (λ (r : ℕ × Ssd Data).
            assign_gc_block (vblks_per_bank - 1 - r.0) bank (r.0) (r.1) >>= (λ (q : ℕ × Ssd Data).
              assign_write_block (vblks_per_bank - 1 - q.0) bank (q.0) (q.1)))
          eq in
      let (q, e₂, e₃) =
        >>=-eq-some (assign_gc_block (vblks_per_bank - 1 - r.0) bank (r.0) (r.1))
          (λ (q : ℕ × Ssd Data). assign_write_block (vblks_per_bank - 1 - q.0) bank (q.0) (q.1))
          rest in
      let g : Grown bank (r.1) t =
        Grown-trans bank (r.1) (q.1) t (assign_gc_block-Grown _ bank (r.0) (r.1) q e₂)
          (assign_write_block-Grown _ bank (q.0) (q.1) t e₃) in
      let logs =
        assign_write_block-logs bank d _ (q.0) (q.1) t e₃
        ∙ assign_gc_block-logs bank d _ (r.0) (r.1) q e₂ in
      (
        Taken-Grown bank mapblks_per_bank (r.1) t g logs
            (assign_map_blocks-Taken 2074 0 1 (init_counts bank d) r (init_counts-Taken d) e₁),
        λ b ne.
            g.others b ne
            ∙ assign_map_blocks-others 2074 0 1 (init_counts bank d) r e₁ b ne
            ∙ init_counts-others d b ne,
      )

module _ {Data : Type 0} where
  -- The counts keep the blocks of the logs from the data.
  abbrev pub Reserved : Ssd Data → Type 0
  Reserved d = (b : ℕ) → b < num_banks → Taken b mapblks_per_bank d

  pub init_banks-Reserved :
      (n k : ℕ) (d t : Ssd Data)
      → k + n ≡ num_banks
      → ((b : ℕ) → b < k → Taken b mapblks_per_bank d)
      → init_banks n k d ≡ some t
      → Reserved t
  unfolding init_banks
  init_banks-Reserved zero k d t h s eq =
      subst Reserved (some-injective eq) (λ b lt. s b (omega arith))
  init_banks-Reserved (suc n) k d t h s eq =
      let (d₁, e₁, e₂) = >>=-eq-some (init_bank k d) (init_banks n (k + 1)) eq in
      let (mine, others) = init_bank-Taken k d d₁ e₁ in
      let laid = init_bank-Laid k d d₁ e₁ in
      init_banks-Reserved n (k + 1) d₁ t (omega arith)
        (λ b lt. elim (Eq-cases b k) [
          | inl here ↦ rw here mine
          | inr before ↦
              let old = s b (omega arith) in
              record {
                misc = ap (λ f. f 1) (others b before) ∙ old.misc;
                maps = λ l hl. rw (others b before, laid.other_maps b before) (old.maps l hl);
              }
        ])
        e₂
