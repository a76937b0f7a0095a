-- ===== src/Greedy/Assign.antt =====
-- `assign_new_write_vpn` of ftl_greedy/ftl.c on a bank whose metadata are in step.
use crypto_jasmine.Base.{
  ℕ, ◌+◌, ◌-◌, ◌*◌, ◌≤◌, ◌<◌, ◌≡◌, ◌≢◌, inl, inr, refl, sym, ◌∙◌, arith, some, Eq-cases,
}
use mathlib.Core.Path.{subst}
use crypto_jasmine.Base.Geometry.{pages_per_blk, vblks_per_bank}
use crypto_jasmine.Base.Words.{add32, mul32, sub32}
use crypto_jasmine.Greedy.State.{Greedy}
use crypto_jasmine.Greedy.Collect.{garbage_collection, get_vt_vblock}
use crypto_jasmine.Greedy.Write.{assign_new_write_vpn}
use crypto_jasmine.Greedy.Copying.{block, page_num, In, Ready}
use crypto_jasmine.Greedy.Rooms.{
  closed, closed-gc_vblock, Full, Room, assign-within, assign-collects, assign-behind,
}
use crypto_jasmine.Greedy.Valid.{Open, Valid, in_use}
use crypto_jasmine.Greedy.Next.{next_vblock-NextBlock, in_use-le}
use crypto_jasmine.Greedy.Closing.{Collectable, Closed-Ready, garbage_collection-Open}
use crypto_jasmine.Greedy.Opened.{
  closed-Closed, closed-Collectable, closed-few, step, step-cur, within-Open, within-Room, jump,
  jump-cur, jump-Open,
}
use crypto_jasmine.Greedy.Turns.{Buffers, step-Buffers, jump-Buffers, collected-Buffers}
use crypto_jasmine.Greedy.Others.{
  Kept, Kept-trans, step-Kept, closed-Kept, jump-Kept, garbage_collection-Kept,
}

module _ {Data : Type 0} (bank : ℕ) where
  -- A bank can take a page, unless the page makes it collect a block that it should not.
  abbrev pub Ripe : Greedy Data → Type 0
  Ripe s = Full bank s → (s.misc bank).free_blk_cnt ≡ 2 → Collectable bank s

  -- A page was chosen: it is the current one, and what is in the block is before it.
  pub record Opened (v : ℕ) (s : Greedy Data) : Type 0 where
    pub metas : Open bank (page_num v) s
    pub cur : (s.misc bank).cur_write_vpn ≡ v

module _ {Data : Type 0} (blank : Data) (bank : ℕ) where
  -- The outcome: there is room, and the metadata are in step up to the page that is chosen.
  abbrev pub Outcome : Greedy Data → Type 0
  Outcome s =
      Room bank s
      × (v : ℕ) × (s' : Greedy Data) × (assign_new_write_vpn blank bank s ≡ some (v, s'))
      × Opened bank v s'
      × ((b : ℕ) → b ≢ bank → Kept b s s')
      × Buffers s s'

  within-Outcome :
      (s : Greedy Data) → Valid bank s → page_num (s.misc bank).cur_write_vpn ≢ 126 → Outcome s
  unfolding step
  within-Outcome s i ne = (
    within-Room bank s i ne,
    add32 (s.misc bank).cur_write_vpn 1,
    step bank s,
    assign-within blank bank s ne,
    record { metas = within-Open bank s i ne; cur = step-cur bank s },
    λ b apart. step-Kept blank bank b apart s,
    step-Buffers bank s,
  )

  collects-Outcome :
      (s : Greedy Data)
      → Valid bank s
      → Ripe bank s
      → Full bank s
      → (s.misc bank).free_blk_cnt ≡ 2
      → Outcome s
  collects-Outcome s i ripe full two =
      let t : Greedy Data = closed bank s in
      let c = closed-Closed bank s i full two in
      let l = closed-Collectable bank s (ripe full two) in
      let g : Greedy Data = garbage_collection blank bank t in
      (
        Room.collects full two (closed-few bank s (ripe full two)) (
            subst (λ v. Ready bank (get_vt_vblock bank t) v t) (closed-gc_vblock blank bank s)
              (Closed-Ready bank t c l)),
        (g.misc bank).cur_write_vpn,
        g,
        assign-collects blank bank s full (rw two),
        record { metas = garbage_collection-Open blank bank t c l; cur = refl },
        λ b apart.
            Kept-trans b s t g (closed-Kept blank bank b apart s)
              (garbage_collection-Kept blank bank b apart t (Closed-Ready bank t c l)),
        collected-Buffers blank bank s,
      )

  behind-Outcome :
      (s : Greedy Data)
      → Valid bank s
      → Full bank s
      → (s.misc bank).free_blk_cnt ≢ 2
      → ((l : ℕ) → In bank l → block (s.page_map l) ≤ block (s.misc bank).cur_write_vpn)
      → (s.misc bank).free_blk_cnt
        ≡ 2
          + in_use
              (vblks_per_bank - 1 - block (s.misc bank).cur_write_vpn)
              (s.vcount bank)
              (block (s.misc bank).cur_write_vpn)
      → Outcome s
  unfolding jump
  behind-Outcome s i full more low free =
      let cur : ℕ = block (s.misc bank).cur_write_vpn in
      let few = in_use-le (vblks_per_bank - 1 - cur) (s.vcount bank) cur in
      let (n, next) =
        next_vblock-NextBlock (vblks_per_bank - 1 - cur) (s.vcount bank) cur (omega arith) in
      let v : ℕ = mul32 n pages_per_blk in
      let lt : n < vblks_per_bank = omega (arith, next.within, i.cur-lt) in
      let at : v ≡ n * pages_per_blk = omega arith in
      let last : sub32 (s.misc bank).free_blk_cnt 1 ≢ 1 = λ e. more (omega arith) in
      let first : 0 ≡ page_num v = omega arith in
      (
        Room.behind full last n (next.found) (omega (arith, next.later))
            (λ l h e. let below = low l h in absurd (omega (arith, next.later))),
        v,
        jump bank n s,
        assign-behind blank bank s n full last (next.found),
        record {
          metas =
              subst (λ p. Open bank p (jump bank n s)) first
                (jump-Open bank s i full low free n next);
          cur = jump-cur bank n s lt ∙ sym at;
        },
        λ b apart. jump-Kept blank bank b apart n s,
        jump-Buffers bank n s,
      )

  -- Where the metadata of a bank are in step and the bank is ripe, there is room for a page, and the
  -- choice of it keeps them in step.
  pub assign-Opened : (s : Greedy Data) → Valid bank s → Ripe bank s → Outcome s
  assign-Opened s i ripe = elim (Eq-cases (page_num (s.misc bank).cur_write_vpn) 126) [
    | inr ne ↦ within-Outcome s i ne
    | inl full ↦ elim (Eq-cases (s.misc bank).free_blk_cnt 2) [
      | inl two ↦ collects-Outcome s i ripe full two
      | inr more ↦ elim (i.phase) [
        | inl two ↦ absurd (more two)
        | inr filling ↦ behind-Outcome s i full more (filling.1) (filling.0)
      ]
    ]
  ]
