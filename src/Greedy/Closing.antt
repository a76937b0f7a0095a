-- ===== src/Greedy/Closing.antt =====
-- A collection of ftl_greedy/ftl.c, from the closing of the current block on.
use mathlib.Core.Path.{subst}
use crypto_jasmine.Base.{
  ℕ, ◌+◌, ◌*◌, ◌≤◌, ◌<◌, ◌≡◌, ◌≢◌, ◌⊎◌, inl, inr, refl, ap, sym, ◌∙◌, arith, Eq-cases, tally-le,
}
use crypto_jasmine.Base.Geometry.{pages_per_blk, vblks_per_bank}
use crypto_jasmine.Greedy.State.{Greedy, vc_max, get_vcount}
use crypto_jasmine.Greedy.Collect.{garbage_collection, get_vt_vblock}
use crypto_jasmine.Greedy.Copying.{block, page_num, Ready, Done}
use crypto_jasmine.Greedy.Collected.{loop-Done, loop_end}
use crypto_jasmine.Greedy.Victim.{Minimum, get_vt_vblock-least}
use crypto_jasmine.Greedy.Valid.{Pages, Open, Mine, holds}
use crypto_jasmine.Greedy.Swapped.{Swap, swapped-Open, swapped-page}

module _ {Data : Type 0} (bank : ℕ) where
  -- The memory utility finds a victim with the fewest valid pages; it has two pages that are not
  -- valid, and is not the block of logical page 0 in bank 0 when
  -- it is of another bank: then no list of the bank misleads the copy loop.
  pub record Collectable (s : Greedy Data) : Type 0 where
    pub found : Minimum (s.search_min)
    pub few : s.vcount bank (get_vt_vblock bank s) < 126
    pub apart : (bank ≡ 0) ⊎ (block (s.page_map 0) ≢ get_vt_vblock bank s)

  -- A bank all of whose blocks in use are closed.
  pub record Closed (s : Greedy Data) : Type 0 where
    pub pages : Pages bank (s.lists bank) s
    pub last : (s.misc bank).free_blk_cnt ≡ 1
    pub some_used : (v : ℕ) × (v < vblks_per_bank) × (s.vcount bank v ≢ vc_max)
    pub own :
        (v j : ℕ)
        → v < vblks_per_bank
        → s.vcount bank v ≢ vc_max
        → j < 127
        → Mine bank (s.lists bank v j)

  count-le :
      (o : (v j : ℕ) → ℕ) (s : Greedy Data)
      → Pages bank o s
      → (v : ℕ) → s.vcount bank v ≢ vc_max
      → s.vcount bank v ≤ 127
  count-le o s p v u = omega (arith, p.counted v u, tally-le 127 (holds bank o s v))

  victim-used :
      (s : Greedy Data) → Closed s → Collectable s → s.vcount bank (get_vt_vblock bank s) ≢ vc_max
  victim-used s c l e =
      let (v, lt, used) = c.some_used in
      absurd (
        omega (
          arith,
          e,
          (get_vt_vblock-least bank s (l.found)).1 v lt,
          count-le (s.lists bank) s (c.pages) v used,
        ))

  pub Closed-Ready :
      (s : Greedy Data)
      → Closed s
      → Collectable s
      → Ready bank (get_vt_vblock bank s) (s.misc bank).gc_vblock s
  Closed-Ready s c l =
      let victim : ℕ = get_vt_vblock bank s in
      let used : s.vcount bank victim ≢ vc_max = victim-used s c l in
      let lt : victim < vblks_per_bank = (get_vt_vblock-least bank s (l.found)).0 in
      let p = c.pages in
      let pos : 0 < victim = elim (Eq-cases victim 0) [
        | inl none ↦ absurd (used (ap (s.vcount bank) none ∙ p.meta_block))
        | inr some ↦ omega arith
      ] in
      record {
        apart = λ e. used (ap (s.vcount bank) e ∙ p.spare);
        victim-pos = pos;
        gc-pos = p.gc-pos;
        gc-lt = p.gc-lt;
        one = p.one;
        free = λ m h b.
            let mapped : 0 < s.page_map m = omega (arith, p.gc-pos) in
            p.used m h mapped (ap (s.vcount bank) b ∙ p.spare);
        listed = λ m h b.
            let mapped : 0 < s.page_map m = omega arith in
            (
              p.low m h mapped,
              sym (ap (λ v. s.lists bank v (page_num (s.page_map m))) b) ∙ p.named m h mapped,
            );
        own = λ j h e. elim (c.own victim j lt used h) [
          | inl mine ↦ mine
          | inr zeroth ↦ elim (l.apart) [
            | inl b ↦ rw (zeroth, b) refl
            | inr other ↦
                let at : s.page_map 0 ≡ victim * pages_per_blk + j =
                  sym (ap (s.page_map) zeroth) ∙ e in
                absurd (other (omega arith))
          ]
        ];
      }

module _ {Data : Type 0} (blank : Data) (bank : ℕ) where
  collect-Open :
      (s : Greedy Data)
      → Closed bank s
      → Collectable bank s
      → (r : ℕ × Greedy Data) → Done bank (get_vt_vblock bank s) (s.misc bank).gc_vblock s r
      → Open bank
          (page_num
            ((loop_end blank bank
                (get_vt_vblock bank s)
                (s.vcount bank (get_vt_vblock bank s))
                r).misc
              bank).cur_write_vpn)
          (loop_end blank bank (get_vt_vblock bank s) (s.vcount bank (get_vt_vblock bank s)) r)
  collect-Open s c l r (k, e, copied) =
      let victim : ℕ = get_vt_vblock bank s in
      let n : ℕ = s.vcount bank victim in
      let same : n ≡ k = c.pages.counted victim (victim-used bank s c l) ∙ sym (copied.count) in
      let w : Swap blank bank victim n k (r.0) s (r.1) = record {
        pages = c.pages;
        ready = Closed-Ready bank s c l;
        copied = copied;
        at = e;
        few = omega (arith, same, l.few);
        number = same;
        victim-lt = (get_vt_vblock-least bank s (l.found)).0;
        last = c.last;
        own = c.own;
      } in
      subst (λ m. Open bank m (loop_end blank bank victim n r))
        (sym (swapped-page blank bank victim n k (r.0) s (r.1) w))
        (swapped-Open blank bank victim n k (r.0) s (r.1) w)

  -- A collection of a bank all of whose blocks are closed keeps the map, the lists and the counts in
  -- step: the current block is the one that was free, and holds the copied pages.
  pub garbage_collection-Open :
      (s : Greedy Data)
      → Closed bank s
      → Collectable bank s
      → Open bank
          (page_num ((garbage_collection blank bank s).misc bank).cur_write_vpn)
          (garbage_collection blank bank s)
  unfolding garbage_collection get_vcount
  garbage_collection-Open s c l =
      loop-Done blank bank (get_vt_vblock bank s) (s.vcount bank (get_vt_vblock bank s)) s
        (Closed-Ready bank s c l) (λ t. Open bank (page_num (t.misc bank).cur_write_vpn) t)
        (collect-Open s c l)
