-- ===== src/Greedy/Placing.antt =====
-- `init_metadata_sram` of ftl_greedy/ftl.c: where it puts the logs.
use crypto_jasmine.Base.{
  ℕ, zero, suc, ◌+◌, ◌-◌, ◌*◌, ◌≤◌, ◌<◌, ◌≡◌, ◌≢◌, ◌⊎◌, inl, inr, refl, ap, sym, ◌∙◌, arith, Option,
  some, none, ◌==◌, if◌then◌else◌, Eq-cases, Bool-cases, ==-refl, ==-ne, ◌>>=◌, >>=-eq-some,
}
use mathlib.Core.Path.{subst}
use crypto_jasmine.Base.Geometry.{vblks_per_bank, mapblks_per_bank, pages_per_blk}
use crypto_jasmine.Greedy.State.{set_misc}
use crypto_jasmine.Greedy.Copying.{block}
use crypto_jasmine.Greedy.Format.{
  Ssd, write_vcount, change_misc, init_counts, assign_map_block, assign_map_blocks, assign_gc_block,
  assign_write_block, init_bank,
}

pub some-injective {ℓ} : {A : Type ℓ} {a b : A} → some a ≡ some b → a ≡ b
some-injective e = cc

pub none-some {ℓ κ} : {A : Type ℓ} {B : Type κ} (n : Option A) {a : A} → n ≡ none → n ≡ some a → B
none-some n e f = cc

Order-cases : (l k : ℕ) → (l < k) ⊎ ((k < l) ⊎ (l ≡ k))
Order-cases l k = ground arith

module _ {Data : Type 0} (bank : ℕ) (e : Ssd Data) where
  -- The map blocks below `lbn` are behind block 1 and not behind `v`, each behind the one before; the
  -- misc. log starts, and the logs of the other banks are as in `e`.
  pub record Laid (lbn v : ℕ) (d : Ssd Data) : Type 0 where
    pub from : (l : ℕ) → l < lbn → 1 < block (d.logs.cur_mapblk_vpn bank l)
    pub to : (l : ℕ) → l < lbn → block (d.logs.cur_mapblk_vpn bank l) ≤ v
    pub order :
        (l k : ℕ)
        → l < k
        → k < lbn
        → block (d.logs.cur_mapblk_vpn bank l) < block (d.logs.cur_mapblk_vpn bank k)
    pub miscblk : d.logs.cur_miscblk_vpn bank ≡ 127
    pub pages : d.logs.pages ≡ e.logs.pages
    pub other_maps : (b : ℕ) → b ≢ bank → d.logs.cur_mapblk_vpn b ≡ e.logs.cur_mapblk_vpn b
    pub other_miscs : (b : ℕ) → b ≢ bank → d.logs.cur_miscblk_vpn b ≡ e.logs.cur_miscblk_vpn b

  init_counts-Laid : Laid 0 1 (init_counts bank e)
  unfolding init_counts change_misc write_vcount
  init_counts-Laid = record {
    from = λ l h. absurd (omega arith);
    to = λ l h. absurd (omega arith);
    order = λ l k h h'. absurd (omega arith);
    miscblk = rw (==-refl bank) refl;
    pages = refl;
    other_maps = λ b h. refl;
    other_miscs = λ b h. rw (==-ne b bank h) refl;
  }

  later-Laid : (lbn v : ℕ) (d : Ssd Data) → Laid lbn v d → Laid lbn (v + 1) d
  later-Laid lbn v d i = record {
    from = i.from;
    to = λ l h. let k = i.to l h in omega arith;
    order = i.order;
    miscblk = i.miscblk;
    pages = i.pages;
    other_maps = i.other_maps;
    other_miscs = i.other_miscs;
  }

  assign_map_block-vpns :
      (lbn v : ℕ) (d : Ssd Data) (l : ℕ)
      → (assign_map_block bank lbn v d).logs.cur_mapblk_vpn bank l
        ≡ (if l == lbn then v * pages_per_blk else d.logs.cur_mapblk_vpn bank l)
  unfolding assign_map_block write_vcount
  assign_map_block-vpns lbn v d l = rw (==-refl bank) refl

  assign_map_block-Laid :
      (lbn v : ℕ) (d : Ssd Data)
      → 0 < v
      → Laid lbn v d
      → Laid (lbn + 1) (v + 1) (assign_map_block bank lbn (v + 1) d)
  unfolding assign_map_block write_vcount
  assign_map_block-Laid lbn v d pos i =
      let d' : Ssd Data = assign_map_block bank lbn (v + 1) d in
      let here : block (d'.logs.cur_mapblk_vpn bank lbn) ≡ v + 1 =
        let at : d'.logs.cur_mapblk_vpn bank lbn ≡ (v + 1) * pages_per_blk =
          assign_map_block-vpns lbn (v + 1) d lbn ∙ rw (==-refl lbn) refl in
        omega arith in
      let old : (l : ℕ) → l ≢ lbn → d'.logs.cur_mapblk_vpn bank l ≡ d.logs.cur_mapblk_vpn bank l =
        λ l ne. assign_map_block-vpns lbn (v + 1) d l ∙ rw (==-ne l lbn ne) refl in
      record {
        from = λ l h. elim (Eq-cases l lbn) [
          | inl same ↦ rw (same, here) (omega arith)
          | inr other ↦ rw (old l other) (i.from l (omega arith))
        ];
        to = λ l h. elim (Eq-cases l lbn) [
          | inl same ↦ rw (same, here) (omega arith)
          | inr other ↦ rw (old l other) (let k = i.to l (omega arith) in omega arith)
        ];
        order = λ l k h h'.
            let ne : l ≢ lbn = λ z. absurd (omega arith) in
            elim (Eq-cases k lbn) [
              | inl same ↦ rw (same, here, old l ne) (let k = i.to l (omega arith) in omega arith)
              | inr other ↦ rw (old l ne, old k other) (i.order l k h (omega arith))
            ];
        miscblk = i.miscblk;
        pages = i.pages;
        other_maps = λ b h. rw (==-ne b bank h) (i.other_maps b h);
        other_miscs = i.other_miscs;
      }

  end-Laid :
      (lbn v : ℕ) (d : Ssd Data)
      → v ≤ 2075
      → lbn ≡ mapblks_per_bank
      → Laid lbn v d
      → Laid mapblks_per_bank (vblks_per_bank - 1) d
  end-Laid lbn v d h done i = record {
    from = λ l lt. i.from l (omega arith);
    to = λ l lt. let k = i.to l (omega arith) in omega arith;
    order = λ l k lt lt'. i.order l k lt (omega arith);
    miscblk = i.miscblk;
    pages = i.pages;
    other_maps = i.other_maps;
    other_miscs = i.other_miscs;
  }

  assign_map_blocks-Laid :
      (n lbn v : ℕ) (d : Ssd Data) (r : ℕ × Ssd Data)
      → 0 < v
      → v + n ≡ vblks_per_bank - 1
      → Laid lbn v d
      → assign_map_blocks n bank lbn v d ≡ some r
      → Laid mapblks_per_bank (vblks_per_bank - 1) (r.1)
  unfolding assign_map_blocks
  assign_map_blocks-Laid zero lbn v d r pos end i eq = elim (Eq-cases lbn mapblks_per_bank) [
    | inl done ↦
        let e' = rw done at eq in
        let same : (v, d) ≡ r = some-injective e' in
        subst (λ (q : ℕ × Ssd Data). Laid mapblks_per_bank (vblks_per_bank - 1) (q.1)) same
          (end-Laid lbn v d (omega arith) done i)
    | inr more ↦ let e' = rw (==-ne lbn mapblks_per_bank more) at eq in none-some none refl e'
  ]
  assign_map_blocks-Laid (suc n) lbn v d r pos end i eq = elim (Eq-cases lbn mapblks_per_bank) [
    | inl done ↦
        let e' = rw done at eq in
        let same : (v, d) ≡ r = some-injective e' in
        subst (λ (q : ℕ × Ssd Data). Laid mapblks_per_bank (vblks_per_bank - 1) (q.1)) same
          (end-Laid lbn v d (omega arith) done i)
    | inr more ↦ elim (Bool-cases (d.bad bank (v + 1))) [
      | inl b ↦
          assign_map_blocks-Laid n lbn (v + 1) d r (omega arith) (omega arith)
            (later-Laid lbn v d i) (rw (==-ne lbn mapblks_per_bank more, b) at eq)
      | inr ok ↦
          assign_map_blocks-Laid n (lbn + 1) (v + 1) (assign_map_block bank lbn (v + 1) d) r
            (omega arith) (omega arith) (assign_map_block-Laid lbn v d pos i)
            (rw (==-ne lbn mapblks_per_bank more, ok) at eq)
    ]
  ]

  -- The loops behind the map blocks leave the logs where they are.
  pub assign_gc_block-logs :
      (n v : ℕ) (d : Ssd Data) (r : ℕ × Ssd Data)
      → assign_gc_block n bank v d ≡ some r
      → r.1.logs ≡ d.logs
  unfolding assign_gc_block write_vcount change_misc set_misc
  assign_gc_block-logs zero v d r eq = none-some none refl eq
  assign_gc_block-logs (suc n) v d r eq = elim (Bool-cases (d.bad bank (v + 1))) [
    | inl b ↦ assign_gc_block-logs n (v + 1) _ r (rw b at eq)
    | inr ok ↦ sym (ap (λ (q : ℕ × Ssd Data). q.1.logs) (some-injective (rw ok at eq)))
  ]

  pub assign_write_block-logs :
      (n v : ℕ) (d t : Ssd Data) → assign_write_block n bank v d ≡ some t → t.logs ≡ d.logs
  unfolding assign_write_block change_misc set_misc
  assign_write_block-logs zero v d t eq = none-some none refl eq
  assign_write_block-logs (suc n) v d t eq = elim (Bool-cases (d.bad bank (v + 1))) [
    | inl b ↦ assign_write_block-logs n (v + 1) _ t (rw b at eq)
    | inr ok ↦ sym (ap (λ (q : Ssd Data). q.logs) (some-injective (rw ok at eq)))
  ]

  Laid-logs :
      (d t : Ssd Data)
      → t.logs ≡ d.logs
      → Laid mapblks_per_bank (vblks_per_bank - 1) d
      → Laid mapblks_per_bank (vblks_per_bank - 1) t
  Laid-logs d t e i = record {
    from = rw e (i.from);
    to = rw e (i.to);
    order = rw e (i.order);
    miscblk = rw e (i.miscblk);
    pages = rw e (i.pages);
    other_maps = rw e (i.other_maps);
    other_miscs = rw e (i.other_miscs);
  }

  pub init_bank-Laid :
      (t : Ssd Data) → init_bank bank e ≡ some t → Laid mapblks_per_bank (vblks_per_bank - 1) t
  unfolding init_bank
  init_bank-Laid t eq =
      let (r, e₁, rest) =
        >>=-eq-some (assign_map_blocks 2074 bank 0 1 (init_counts bank e))
          (λ (r : ℕ × Ssd Data).
            assign_gc_block (vblks_per_bank - 1 - r.0) bank (r.0) (r.1) >>= (λ (q : ℕ × Ssd Data).
              assign_write_block (vblks_per_bank - 1 - q.0) bank (q.0) (q.1)))
          eq in
      let (q, e₂, e₃) =
        >>=-eq-some (assign_gc_block (vblks_per_bank - 1 - r.0) bank (r.0) (r.1))
          (λ (q : ℕ × Ssd Data). assign_write_block (vblks_per_bank - 1 - q.0) bank (q.0) (q.1))
          rest in
      Laid-logs (r.1) t
        (assign_write_block-logs _ (q.0) (q.1) t e₃ ∙ assign_gc_block-logs _ (r.0) (r.1) q e₂)
        (assign_map_blocks-Laid 2074 0 1 (init_counts bank e) r (omega arith) refl init_counts-Laid
          e₁)

module _ {Data : Type 0} where
  -- Where the logs of a bank are
  pub record LogsAt (b : ℕ) (d : Ssd Data) : Type 0 where
    pub from : (l : ℕ) → l < mapblks_per_bank → 1 < block (d.logs.cur_mapblk_vpn b l)
    pub to : (l : ℕ) → l < mapblks_per_bank → block (d.logs.cur_mapblk_vpn b l) ≤ vblks_per_bank - 1
    pub order :
        (l k : ℕ)
        → l < k
        → k < mapblks_per_bank
        → block (d.logs.cur_mapblk_vpn b l) < block (d.logs.cur_mapblk_vpn b k)
    pub miscblk : d.logs.cur_miscblk_vpn b ≡ 127

  pub Laid-LogsAt :
      (b : ℕ) (e d : Ssd Data) → Laid b e mapblks_per_bank (vblks_per_bank - 1) d → LogsAt b d
  Laid-LogsAt b e d i = record { from = i.from; to = i.to; order = i.order; miscblk = i.miscblk }

  pub Laid-other :
      (k : ℕ) (e d : Ssd Data)
      → Laid k e mapblks_per_bank (vblks_per_bank - 1) d
      → (b : ℕ) → b ≢ k
      → LogsAt b e
      → LogsAt b d
  Laid-other k e d i b ne a = record {
    from = rw (i.other_maps b ne) (a.from);
    to = rw (i.other_maps b ne) (a.to);
    order = rw (i.other_maps b ne) (a.order);
    miscblk = i.other_miscs b ne ∙ a.miscblk;
  }

  pub LogsAt-apart :
      (b : ℕ) (d : Ssd Data)
      → LogsAt b d
      → (l k : ℕ) → l < mapblks_per_bank
      → k < mapblks_per_bank
      → block (d.logs.cur_mapblk_vpn b l) ≡ block (d.logs.cur_mapblk_vpn b k)
      → l ≡ k
  LogsAt-apart b d a l k hl hk e = elim (Order-cases l k) [
    | inl less ↦ let o = a.order l k less hk in absurd (omega arith)
    | inr rest ↦ elim rest [
      | inl more ↦ let o = a.order k l more hl in absurd (omega arith)
      | inr same ↦ same
    ]
  ]
