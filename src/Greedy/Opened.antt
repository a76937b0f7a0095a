-- ===== src/Greedy/Opened.antt =====
-- `assign_new_write_vpn` of ftl_greedy/ftl.c keeps what holds of the bank, up to the page that it
-- chooses, which `write_page` programs next.
use crypto_jasmine.Base.{
  ℕ, ◌+◌, ◌-◌, ◌*◌, ◌≤◌, ◌<◌, ◌≡◌, ◌≢◌, ◌⊎◌, inl, inr, refl, ap, sym, ◌∙◌, arith, Eq-cases, ==-refl,
  ==-ne, tally-same, false,
}
use crypto_jasmine.Base.Geometry.{pages_per_blk, vblks_per_bank, get_num_bank}
use crypto_jasmine.Base.Words.{add32, mul32, sub32}
use crypto_jasmine.Greedy.State.{Greedy, vc_max, set_misc}
use crypto_jasmine.Greedy.Collect.{get_vt_vblock}
use crypto_jasmine.Greedy.Write.{close_vblock, set_new_write_vpn}
use crypto_jasmine.Greedy.Copying.{block, page_num, In}
use crypto_jasmine.Greedy.Rooms.{closed, Full, Room}
use crypto_jasmine.Greedy.Valid.{Pages, Pages-same, Open, Valid, Mine, owner, holds, in_use}
use crypto_jasmine.Greedy.Next.{NextBlock, in_use-none, in_use-le}
use crypto_jasmine.Greedy.Closing.{Closed, Collectable}

Lt-cases : (i j : ℕ) → (i < j) ⊎ (j ≤ i)
Lt-cases i j = ground arith

module _ {Data : Type 0} (bank : ℕ) where
  closed-Pages :
      (s : Greedy Data) → Valid bank s → Pages bank ((closed bank s).lists bank) (closed bank s)
  unfolding close_vblock set_misc
  closed-Pages s v =
      Pages-same bank (owner bank s) ((closed bank s).lists bank) s (closed bank s) (λ l h. refl)
        (λ b. refl) (rw (==-refl bank)) (λ b j. rw (==-refl bank) (ground arith)) (v.pages)

  closed-own :
      (s : Greedy Data)
      → Valid bank s
      → Full bank s
      → (v j : ℕ) → v < vblks_per_bank
      → s.vcount bank v ≢ vc_max
      → (v ≤ block (s.misc bank).cur_write_vpn) ⊎ ((s.misc bank).free_blk_cnt ≡ 2)
      → j < 127
      → Mine bank ((closed bank s).lists bank v j)
  unfolding close_vblock set_misc
  closed-own s i full v j lt used old h =
      let cur : ℕ = block (s.misc bank).cur_write_vpn in
      rw (==-refl bank) (elim (Eq-cases v cur) [
        | inl here ↦ rw (here, ==-refl cur) (i.own_list j (omega arith))
        | inr other ↦ rw (==-ne v cur other) (
            i.own_lists v j lt used
              (elim old [ inl before ↦ inl (omega arith) | inr two ↦ inr (other, two) ]) h)
      ])

  pub closed-Closed :
      (s : Greedy Data)
      → Valid bank s
      → Full bank s
      → (s.misc bank).free_blk_cnt ≡ 2
      → Closed bank (closed bank s)
  unfolding close_vblock set_misc
  closed-Closed s i full two = record {
    pages = closed-Pages s i;
    last = rw (==-refl bank, two) refl;
    some_used = (block (s.misc bank).cur_write_vpn, i.cur-lt, i.cur-used);
    own = λ v j lt used h. closed-own s i full v j lt used (inr two) h;
  }

  pub closed-Collectable : (s : Greedy Data) → Collectable bank s → Collectable bank (closed bank s)
  unfolding close_vblock set_misc get_vt_vblock
  closed-Collectable s c = record { found = c.found; few = c.few; apart = c.apart }

  pub closed-few :
      (s : Greedy Data)
      → Collectable bank s
      → s.vcount bank (get_vt_vblock bank (closed bank s)) < 126
  unfolding close_vblock set_misc get_vt_vblock
  closed-few s c = c.few

  closed-map : (s : Greedy Data) → (closed bank s).page_map ≡ s.page_map
  unfolding close_vblock set_misc
  closed-map s = refl

  -- The lists of a block without pages may be any.
  Pages-renamed :
      (o o' : (v j : ℕ) → ℕ) (s : Greedy Data) (n : ℕ)
      → 0 < n
      → ((l : ℕ) → In bank l → block (s.page_map l) ≢ n)
      → ((v j : ℕ) → v ≢ n → o' v j ≡ o v j)
      → Pages bank o s
      → Pages bank o' s
  Pages-renamed o o' s n pos empty same p =
      let none : (o : (v j : ℕ) → ℕ) (j : ℕ) → j < 127 → holds bank o s n j ≡ false = λ o j h.
        elim (Eq-cases (get_num_bank (o n j)) bank) [
          | inl own ↦
              let ne : s.page_map (o n j) ≢ n * pages_per_blk + j =
                λ e. empty (o n j) own (omega arith) in
              rw (own, ==-refl bank, ==-ne (s.page_map (o n j)) (n * pages_per_blk + j) ne) refl
          | inr other ↦ rw (==-ne (get_num_bank (o n j)) bank other) refl
        ] in
      record {
        one = p.one;
        low = p.low;
        used = p.used;
        named = λ l h pos'.
            same (block (s.page_map l)) (page_num (s.page_map l)) (empty l h) ∙ p.named l h pos';
        counted = λ v used.
            p.counted v used
            ∙ tally-same 127 {p = holds bank o s v} {q = holds bank o' s v} (λ j h.
              elim (Eq-cases v n) [
                | inl here ↦ rw here (none o j h ∙ sym (none o' j h))
                | inr other ↦ rw (same v j other) refl
              ]);
        meta_block = p.meta_block;
        spare = p.spare;
        gc-pos = p.gc-pos;
        gc-lt = p.gc-lt;
      }

  -- The next page of the block.
  unfoldable pub step : Greedy Data → Greedy Data
  unfolding set_new_write_vpn set_misc
  step s = set_new_write_vpn bank (add32 (s.misc bank).cur_write_vpn 1) s

  pub step-cur :
      (s : Greedy Data) → ((step s).misc bank).cur_write_vpn ≡ add32 (s.misc bank).cur_write_vpn 1
  unfolding step set_new_write_vpn set_misc
  step-cur s = rw (==-refl bank) refl

  pub within-Open :
      (s : Greedy Data)
      → Valid bank s
      → page_num (s.misc bank).cur_write_vpn ≢ 126
      → Open bank (page_num (add32 (s.misc bank).cur_write_vpn 1)) (step s)
  unfolding step set_new_write_vpn set_misc
  within-Open s i ne =
      let cur : ℕ = (s.misc bank).cur_write_vpn in
      let at : ((step s).misc bank).cur_write_vpn ≡ cur + 1 =
        rw (==-refl bank) (omega (arith, i.cur-lt)) in
      let same : block ((step s).misc bank).cur_write_vpn ≡ block cur =
        omega (arith, at, i.cur-low) in
      let page : page_num (add32 cur 1) ≡ page_num cur + 1 = omega (arith, i.cur-low, i.cur-lt) in
      record {
        pages =
            Pages-same bank (owner bank s) (owner bank (step s)) s (step s) (λ l h. refl)
              (λ b. refl) (rw (==-refl bank)) (λ b j. rw (same, ==-refl bank)) (i.pages);
        cur-lt = rw same (i.cur-lt);
        cur-used = rw same (i.cur-used);
        cur-low = omega (arith, at, i.cur-low);
        behind = λ l h. rw (same, page) (i.behind l h);
        own_list = λ j h. rw (==-refl bank) (i.own_list j (omega arith));
        own_lists = λ v j lt used old h. i.own_lists v j lt used (rw (same, ==-refl bank) at old) h;
        phase = rw (same, ==-refl bank) (i.phase);
      }

  pub within-Room :
      (s : Greedy Data) → Valid bank s → page_num (s.misc bank).cur_write_vpn ≢ 126 → Room bank s
  within-Room s i ne =
      let cur : ℕ = (s.misc bank).cur_write_vpn in
      let next : add32 cur 1 ≡ cur + 1 = omega (arith, i.cur-lt) in
      Room.within ne (omega arith) (λ l h e.
        let b = i.behind l h (omega (arith, i.cur-low)) in absurd (omega (arith, i.cur-low)))

  -- The next block in use, where the bank has one.
  unfoldable pub jump : ℕ → Greedy Data → Greedy Data
  unfolding set_new_write_vpn set_misc close_vblock
  jump n s = set_new_write_vpn bank (mul32 n pages_per_blk) (closed bank s)

  pub jump-cur :
      (n : ℕ) (s : Greedy Data)
      → n < vblks_per_bank
      → ((jump n s).misc bank).cur_write_vpn ≡ n * pages_per_blk
  unfolding jump set_new_write_vpn set_misc close_vblock
  jump-cur n s h = rw (==-refl bank) (omega arith)

  jump-free :
      (n : ℕ) (s : Greedy Data)
      → ((jump n s).misc bank).free_blk_cnt ≡ sub32 (s.misc bank).free_blk_cnt 1
  unfolding jump set_new_write_vpn set_misc close_vblock
  jump-free n s = rw (==-refl bank) refl

  jump-gc :
      (n : ℕ) (s : Greedy Data)
      → ((jump n s).misc bank).gc_vblock ≡ ((closed bank s).misc bank).gc_vblock
  unfolding jump set_new_write_vpn set_misc close_vblock
  jump-gc n s = rw (==-refl bank) refl

  -- What the bank keeps, told for any state with the same map, counts and lists.
  jump-kept :
      (n : ℕ) (s : Greedy Data)
      → ((jump n s).page_map ≡ s.page_map)
        × ((jump n s).vcount ≡ s.vcount)
        × ((jump n s).lists ≡ (closed bank s).lists)
        × ((closed bank s).page_map ≡ s.page_map)
        × ((closed bank s).vcount ≡ s.vcount)
  unfolding jump set_new_write_vpn set_misc close_vblock
  jump-kept n s = (refl, refl, refl, refl, refl)

  -- The blocks in use that are closed then are those up to the old current one.
  jump-old :
      (s : Greedy Data) (n : ℕ)
      → NextBlock
          (vblks_per_bank - 1 - block (s.misc bank).cur_write_vpn)
          (s.vcount bank)
          (block (s.misc bank).cur_write_vpn)
          n
      → Valid bank s
      → block ((jump n s).misc bank).cur_write_vpn ≡ n
      → ((jump n s).misc bank).free_blk_cnt ≡ 2 + in_use (vblks_per_bank - 1 - n) (s.vcount bank) n
      → (v : ℕ) → s.vcount bank v ≢ vc_max
      → (v < block ((jump n s).misc bank).cur_write_vpn)
        ⊎ ((v ≢ block ((jump n s).misc bank).cur_write_vpn)
            × (((jump n s).misc bank).free_blk_cnt ≡ 2))
      → v < vblks_per_bank
      → v ≤ block (s.misc bank).cur_write_vpn
  jump-old s n next i here free v used old lt =
      let cur : ℕ = block (s.misc bank).cur_write_vpn in
      elim (Lt-cases cur v) [
        | inl later ↦ absurd (elim (Lt-cases v n) [
          | inl between ↦ used (next.skipped v later between)
          | inr from ↦ elim old [
            | inl before ↦ absurd (omega (arith, before))
            | inr two ↦
                let none : in_use (vblks_per_bank - 1 - n) (s.vcount bank) n ≡ 0 =
                  omega (arith, two.1) in
                let apart : v ≢ n = λ e. two.0 (e ∙ sym here) in
                used (
                  in_use-none (vblks_per_bank - 1 - n) (s.vcount bank) n none v (omega arith)
                    (omega arith))
          ]
        ])
        | inr up_to ↦ omega arith
      ]

  pub jump-Open :
      (s : Greedy Data)
      → Valid bank s
      → Full bank s
      → ((l : ℕ) → In bank l → block (s.page_map l) ≤ block (s.misc bank).cur_write_vpn)
      → (s.misc bank).free_blk_cnt
        ≡ 2
          + in_use
              (vblks_per_bank - 1 - block (s.misc bank).cur_write_vpn)
              (s.vcount bank)
              (block (s.misc bank).cur_write_vpn)
      → (n : ℕ)
      → NextBlock
          (vblks_per_bank - 1 - block (s.misc bank).cur_write_vpn)
          (s.vcount bank)
          (block (s.misc bank).cur_write_vpn)
          n
      → Open bank 0 (jump n s)
  jump-Open s i full low free n next =
      let cur : ℕ = block (s.misc bank).cur_write_vpn in
      let lt : n < vblks_per_bank = omega (arith, next.within, i.cur-lt) in
      let (em, ev, el, em', ev') = jump-kept n s in
      let at = jump-cur n s lt in
      let here : block ((jump n s).misc bank).cur_write_vpn ≡ n = omega arith in
      let left : vblks_per_bank - 1 - n ≡ cur + (vblks_per_bank - 1 - cur) - n =
        omega (arith, i.cur-lt) in
      let few = in_use-le (vblks_per_bank - 1 - cur) (s.vcount bank) cur in
      let free' : ((jump n s).misc bank).free_blk_cnt
          ≡ 2 + in_use (vblks_per_bank - 1 - n) (s.vcount bank) n =
        rw left (omega (arith, jump-free n s, next.left)) in
      record {
        pages =
            Pages-same bank (owner bank (jump n s)) (owner bank (jump n s)) (closed bank s)
              (jump n s) (λ l h. rw (em, em')) (λ b. rw (ev, ev')) (jump-gc n s) (λ b j. refl)
              (Pages-renamed ((closed bank s).lists bank) (owner bank (jump n s)) (closed bank s) n
                (omega (arith, next.later))
                (λ l h e.
                  let below = low l h in
                  absurd (omega (arith, next.later, ap block (ap (λ f. f l) em'))))
                (λ b j ne. rw (here, ==-ne b n ne, el)) (closed-Pages s i));
        cur-lt = rw here lt;
        cur-used = rw (here, ev) (next.used);
        cur-low = omega (arith, at);
        behind = λ l h b.
            let below = low l h in
            absurd (omega (arith, here, next.later, ap block (ap (λ f. f l) em)));
        own_list = λ j h. absurd (omega arith);
        own_lists = λ v j lt' used old h. rw el (
            closed-own s i full v j lt' (rw ev at used)
              (elim (Eq-cases (s.vcount bank v) vc_max) [
                | inl unused ↦ absurd (used (rw ev unused))
                | inr used' ↦ inl (jump-old s n next i here free' v used' old lt')
              ])
              h);
        phase = inr (rw (here, ev) (free', λ l h. rw em (omega (arith, low l h, next.later))));
      }
