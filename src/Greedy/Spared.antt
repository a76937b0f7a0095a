-- ===== src/Greedy/Spared.antt =====
-- The data of ftl_greedy/ftl.c when blocks are erased that are not for data.
use crypto_jasmine.Base.{
  ℕ, ◌+◌, ◌≡◌, ◌≢◌, inl, inr, refl, ap, sym, ◌∙◌, arith, Eq-cases, ==-refl, ==-ne, tally-same,
}
use mathlib.Core.Path.{subst}
use crypto_jasmine.Base.Geometry.{get_num_bank}
use crypto_jasmine.Greedy.State.{Misc, Greedy, vc_max}
use crypto_jasmine.Greedy.Collect.{block_erase}
use crypto_jasmine.Greedy.Copying.{block, page_num}
use crypto_jasmine.Greedy.Valid.{Pages, Open, owner, holds}
use crypto_jasmine.Greedy.Device.{AllValid}
use crypto_jasmine.Greedy.Disk.{Disk}
use crypto_jasmine.Greedy.Refine.{Idle}

module _ {Data : Type 0} where
  -- The metadata are as they were, and so are the blocks that are not kept from the data.
  pub record Spared (s s' : Greedy Data) : Type 0 where
    pub map : s'.page_map ≡ s.page_map
    pub vcount : s'.vcount ≡ s.vcount
    pub misc : s'.misc ≡ s.misc
    pub turn : s'.next_write_buf ≡ s.next_write_buf
    pub lists : (b v j : ℕ) → s.vcount b v ≢ vc_max → s'.lists b v j ≡ s.lists b v j
    pub flash : (b v i : ℕ) → s.vcount b (block v) ≢ vc_max → s'.flash b v i ≡ s.flash b v i

  pub Spared-refl : (s : Greedy Data) → Spared s s
  Spared-refl s = record {
    map = refl;
    vcount = refl;
    misc = refl;
    turn = refl;
    lists = λ b v j u. refl;
    flash = λ b v i u. refl;
  }

  pub Spared-trans : (s t r : Greedy Data) → Spared s t → Spared t r → Spared s r
  Spared-trans s t r k k' = record {
    map = k'.map ∙ k.map;
    vcount = k'.vcount ∙ k.vcount;
    misc = k'.misc ∙ k.misc;
    turn = k'.turn ∙ k.turn;
    lists = λ b v j u. k'.lists b v j (rw (k.vcount) u) ∙ k.lists b v j u;
    flash = λ b v i u. k'.flash b v i (rw (k.vcount) u) ∙ k.flash b v i u;
  }

  pub block_erase-Spared :
      (blank : Data) (bank v : ℕ) (s : Greedy Data)
      → s.vcount bank v ≡ vc_max
      → Spared s (block_erase blank bank v s)
  unfolding block_erase
  block_erase-Spared blank bank v s taken = record {
    map = refl;
    vcount = refl;
    misc = refl;
    turn = refl;
    lists = λ b w j u. elim (Eq-cases b bank) [
      | inl here ↦ elim (Eq-cases w v) [
        | inl at ↦ absurd (u (rw (here, at) taken))
        | inr other ↦ rw (here, ==-refl bank, ==-ne w v other) refl
      ]
      | inr there ↦ rw (==-ne b bank there) refl
    ];
    flash = λ b w i u. elim (Eq-cases b bank) [
      | inl here ↦ elim (Eq-cases (block w) v) [
        | inl at ↦ absurd (u (rw (here, at) taken))
        | inr other ↦ rw (here, ==-refl bank, ==-ne (block w) v other) refl
      ]
      | inr there ↦ rw (==-ne b bank there) refl
    ];
  }

  owner-Spared :
      (b : ℕ) (s s' : Greedy Data)
      → Spared s s'
      → (v j : ℕ) → s.vcount b v ≢ vc_max
      → owner b s' v j ≡ owner b s v j
  owner-Spared b s s' k v j u = rw (k.misc, k.lists b v j u) refl

  Spared-Pages :
      (b : ℕ) (s s' : Greedy Data) → Spared s s' → Pages b (owner b s) s → Pages b (owner b s') s'
  Spared-Pages b s s' k p = record {
    one = rw (k.map) (p.one);
    low = rw (k.map) (p.low);
    used = rw (k.map, k.vcount) (p.used);
    named = λ l h pos.
        let pos' = rw (k.map) at pos in
        rw (k.map) (
          owner-Spared b s s' k (block (s.page_map l)) (page_num (s.page_map l)) (p.used l h pos')
          ∙ p.named l h pos');
    counted = λ v u.
        let u' = rw (k.vcount) at u in
        ap (λ f. f b v) (k.vcount)
        ∙ p.counted v u'
        ∙ tally-same 127 {p = holds b (owner b s) s v} {q = holds b (owner b s') s' v}
            (λ j h. rw (owner-Spared b s s' k v j u', k.map) refl);
    meta_block = rw (k.vcount) (p.meta_block);
    spare = rw (k.vcount, k.misc) (p.spare);
    gc-pos = rw (k.misc) (p.gc-pos);
    gc-lt = rw (k.misc) (p.gc-lt);
  }

  Spared-Open : (b n : ℕ) (s s' : Greedy Data) → Spared s s' → Open b n s → Open b n s'
  Spared-Open b n s s' k o = record {
    pages = Spared-Pages b s s' k (o.pages);
    cur-lt = rw (k.misc) (o.cur-lt);
    cur-used = rw (k.misc, k.vcount) (o.cur-used);
    cur-low = rw (k.misc) (o.cur-low);
    behind = rw (k.misc, k.map) (o.behind);
    own_list = rw (k.misc) (o.own_list);
    own_lists = λ v j lt used old h.
        let used' = rw (k.vcount) at used in
        rw (k.lists b v j used') (o.own_lists v j lt used' (rw (k.misc) at old) h);
    phase = rw (k.misc, k.map, k.vcount) (o.phase);
  }

  pub Spared-AllValid : (s s' : Greedy Data) → Spared s s' → AllValid s → AllValid s'
  Spared-AllValid s s' k all b h =
      subst (λ (m : ℕ → Misc). Open b (page_num (m b).cur_write_vpn + 1) s') (sym (k.misc))
        (Spared-Open b _ s s' k (all b h))

module _ {Data : Type 0} (blank : Data) where
  -- An idle device stays idle, with the same disk.
  pub Spared-Idle :
      (s s' : Greedy Data) (d : Disk Data) → Spared s s' → Idle blank s d → Idle blank s' d
  Spared-Idle s s' d k i = record {
    valid = Spared-AllValid s s' k (i.valid);
    turn = rw (k.turn) (i.turn);
    in_map = rw (k.map) (i.in_map);
    shows = λ m j h x e.
        let (pos, holds_it) = i.shows m j h x e in
        let b : ℕ = get_num_bank m in
        let used = ((i.valid b (omega arith)).pages).used m refl pos in
        (rw (k.map) pos, rw (k.map) (k.flash b (s.page_map m) j used ∙ holds_it));
  }
