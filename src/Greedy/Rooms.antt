-- ===== src/Greedy/Rooms.antt =====
-- `assign_new_write_vpn` of ftl_greedy/ftl.c, on all ways to a new page.
use mathlib.Core.Path.{subst}
use crypto_jasmine.Base.{
  ℕ, ◌-◌, ◌<◌, ◌≡◌, ◌≢◌, inl, inr, ◌↔◌, refl, sym, some, Eq-cases, ==-ne, ==-refl,
}
use crypto_jasmine.Base.Geometry.{pages_per_blk, vblks_per_bank, get_num_bank}
use crypto_jasmine.Base.Words.{mul32, sub32, add32}
use crypto_jasmine.Greedy.State.{Greedy, set_misc}
use crypto_jasmine.Greedy.Write.{assign_new_write_vpn, close_vblock, set_new_write_vpn, next_vblock}
use crypto_jasmine.Greedy.Collect.{garbage_collection, get_vt_vblock}
use crypto_jasmine.Greedy.Copying.{block, page_num, Ready}
use crypto_jasmine.Greedy.Collected.{Collected, garbage_collection-Collected}
use crypto_jasmine.Greedy.Written.{reads, Fresh}

module _ {Data : Type 0} (bank : ℕ) where
  -- The state behind the closing of the current block.
  abbrev pub closed : Greedy Data → Greedy Data
  closed s = close_vblock bank (block (s.misc bank).cur_write_vpn) s

  abbrev pub Full : Greedy Data → Type 0
  Full s = page_num (s.misc bank).cur_write_vpn ≡ 126

  -- The three ways to a page for new data: the next page of the block, the free block of a
  -- collection whose victim has two pages that are not valid, and the next block that is in use.
  pub data Room (s : Greedy Data) : Type 0 where
    within :
        page_num (s.misc bank).cur_write_vpn ≢ 126
        → 0 < add32 (s.misc bank).cur_write_vpn 1
        → Fresh bank (add32 (s.misc bank).cur_write_vpn 1) s
        → Room s
    collects :
        page_num (s.misc bank).cur_write_vpn ≡ 126
        → (s.misc bank).free_blk_cnt ≡ 2
        → s.vcount bank (get_vt_vblock bank (closed s)) < 126
        → Ready bank (get_vt_vblock bank (closed s)) (s.misc bank).gc_vblock (closed s)
        → Room s
    behind :
        page_num (s.misc bank).cur_write_vpn ≡ 126
        → sub32 (s.misc bank).free_blk_cnt 1 ≢ 1
        → (n : ℕ)
        → next_vblock
            (vblks_per_bank - 1 - block (s.misc bank).cur_write_vpn)
            (s.vcount bank)
            (block (s.misc bank).cur_write_vpn)
          ≡ some n
        → 0 < mul32 n pages_per_blk
        → Fresh bank (mul32 n pages_per_blk) s
        → Room s

  -- What the choice of a page does: no logical page is there, and all of them read as before.
  pub record Assigned (s : Greedy Data) (new_vpn : ℕ) (s' : Greedy Data) : Type 0 where
    pub pos : 0 < new_vpn
    pub fresh : Fresh bank new_vpn s'
    pub same : (l i : ℕ) → reads s' l i ≡ reads s l i
    pub mapped : (l : ℕ) → (s'.page_map l ≡ 0) ↔ (s.page_map l ≡ 0)
    pub buffer : (i : ℕ) → s'.write_buf s'.next_write_buf i ≡ s.write_buf s.next_write_buf i

module _ {Data : Type 0} (blank : Data) (bank : ℕ) where
  Collected-Assigned :
      (s s' : Greedy Data) → Collected bank s s' → Assigned bank s (s'.misc bank).cur_write_vpn s'
  Collected-Assigned s s' c = record {
    pos = c.open_page;
    fresh = c.next;
    same = λ l i. elim (Eq-cases (get_num_bank l) bank) [
      | inl here ↦ rw (here, reads) (c.kept l here i)
      | inr there ↦
          rw (c.others l there, reads) (c.elsewhere (get_num_bank l) there (s.page_map l) i)
    ];
    mapped = λ l. elim (Eq-cases (get_num_bank l) bank) [
      | inl here ↦ c.mapped l here
      | inr there ↦ rw (c.others l there) (λ z. z, λ z. z)
    ];
    buffer = c.buffer;
  }

  -- Closing a block changes no data.
  closed-Assigned :
      (s : Greedy Data) (v : ℕ) (s' : Greedy Data)
      → Assigned bank (closed bank s) v s'
      → Assigned bank s v s'
  unfolding close_vblock set_misc
  closed-Assigned s v s' a = record {
    pos = a.pos;
    fresh = a.fresh;
    same = a.same;
    mapped = a.mapped;
    buffer = a.buffer;
  }

  closed-free_blk_cnt :
      (s : Greedy Data)
      → ((closed bank s).misc bank).free_blk_cnt ≡ sub32 (s.misc bank).free_blk_cnt 1
  unfolding close_vblock set_misc
  closed-free_blk_cnt s = rw (==-refl bank)

  pub closed-gc_vblock :
      (s : Greedy Data) → ((closed bank s).misc bank).gc_vblock ≡ (s.misc bank).gc_vblock
  unfolding close_vblock set_misc
  closed-gc_vblock s = rw (==-refl bank)

  closed-vcount : (s : Greedy Data) → (closed bank s).vcount bank ≡ s.vcount bank
  unfolding close_vblock set_misc
  closed-vcount s = refl

  pub assign-within :
      (s : Greedy Data)
      → page_num (s.misc bank).cur_write_vpn ≢ 126
      → assign_new_write_vpn blank bank s
        ≡ some (
          add32 (s.misc bank).cur_write_vpn 1,
          set_new_write_vpn bank (add32 (s.misc bank).cur_write_vpn 1) s,
        )
  unfolding assign_new_write_vpn
  assign-within s ne = rw (==-ne (page_num (s.misc bank).cur_write_vpn) 126 ne)

  pub assign-collects :
      (s : Greedy Data)
      → Full bank s
      → sub32 (s.misc bank).free_blk_cnt 1 ≡ 1
      → assign_new_write_vpn blank bank s
        ≡ some (
          ((garbage_collection blank bank (closed bank s)).misc bank).cur_write_vpn,
          garbage_collection blank bank (closed bank s),
        )
  unfolding assign_new_write_vpn
  assign-collects s e one = rw (e, closed-free_blk_cnt s, one)

  pub assign-behind :
      (s : Greedy Data) (n : ℕ)
      → Full bank s
      → sub32 (s.misc bank).free_blk_cnt 1 ≢ 1
      → next_vblock
          (vblks_per_bank - 1 - block (s.misc bank).cur_write_vpn)
          (s.vcount bank)
          (block (s.misc bank).cur_write_vpn)
        ≡ some n
      → assign_new_write_vpn blank bank s
        ≡ some
            (mul32 n pages_per_blk, set_new_write_vpn bank (mul32 n pages_per_blk) (closed bank s))
  unfolding assign_new_write_vpn
  assign-behind s n e more found =
      let same : (closed bank s).vcount bank ≡ s.vcount bank = closed-vcount s in
      rw (e, closed-free_blk_cnt s, ==-ne (sub32 (s.misc bank).free_blk_cnt 1) 1 more, same, found)

  -- A page in the current or in the next block: the data are where they were.
  moved_on :
      (s : Greedy Data) (v : ℕ)
      → 0 < v
      → Fresh bank v s
      → Assigned bank s v (set_new_write_vpn bank v s)
  unfolding set_new_write_vpn set_misc
  moved_on s v pos fresh = record {
    pos = pos;
    fresh = fresh;
    same = λ l i. refl;
    mapped = λ l. (λ z. z, λ z. z);
    buffer = λ i. refl;
  }

  closed-Fresh : (s : Greedy Data) (v : ℕ) → Fresh bank v s → Fresh bank v (closed bank s)
  unfolding close_vblock set_misc
  closed-Fresh s v fresh = fresh

  pub assign-Assigned :
      (s : Greedy Data)
      → Room bank s
      → (v : ℕ) × (s' : Greedy Data) × (assign_new_write_vpn blank bank s ≡ some (v, s'))
        × Assigned bank s v s'
  assign-Assigned s (within ne pos fresh) =
      let v : ℕ = add32 (s.misc bank).cur_write_vpn 1 in
      (v, set_new_write_vpn bank v s, assign-within s ne, moved_on s v pos fresh)
  assign-Assigned s (collects e two few r) =
      let g : Greedy Data = garbage_collection blank bank (closed bank s) in
      let r' : Ready bank (get_vt_vblock bank (closed bank s)) ((closed bank s).misc bank).gc_vblock
          (closed bank s) =
        subst (λ v. Ready bank (get_vt_vblock bank (closed bank s)) v (closed bank s))
          (sym (closed-gc_vblock s)) r in
      let kept =
        Collected-Assigned (closed bank s) g
          (garbage_collection-Collected blank bank (closed bank s) r') in
      (
        (g.misc bank).cur_write_vpn,
        g,
        assign-collects s e (rw two),
        closed-Assigned s (g.misc bank).cur_write_vpn g kept,
      )
  assign-Assigned s (behind e more n found pos fresh) =
      let v : ℕ = mul32 n pages_per_blk in
      (
        v,
        set_new_write_vpn bank v (closed bank s),
        assign-behind s n e more found,
        closed-Assigned s v (set_new_write_vpn bank v (closed bank s))
            (moved_on (closed bank s) v pos (closed-Fresh s v fresh)),
      )
