-- ===== src/Greedy/Others.antt =====
-- What `assign_new_write_vpn` and `write_page` of ftl_greedy/ftl.c leave alone: the other banks.
use crypto_jasmine.Base.{ℕ, ◌+◌, ◌-◌, ◌≡◌, ◌≢◌, inl, inr, refl, ap, sym, ◌∙◌, ==-ne}
use crypto_jasmine.Base.Geometry.{get_num_bank, vblks_per_bank}
use crypto_jasmine.Greedy.State.{Greedy, set_misc, set_vcount, get_vcount}
use crypto_jasmine.Greedy.Collect.{garbage_collection, get_vt_vblock, swap_blocks, block_erase}
use crypto_jasmine.Greedy.Write.{set_new_write_vpn, close_vblock}
use crypto_jasmine.Greedy.Copying.{In, Ready, Done, block}
use crypto_jasmine.Greedy.Collected.{loop-Done, loop_end}
use crypto_jasmine.Greedy.Rooms.{closed}
use crypto_jasmine.Greedy.Valid.{Pages-same, Phase, Open, owner}
use crypto_jasmine.Greedy.Next.{in_use-same}
use crypto_jasmine.Greedy.Opened.{step, jump}
use crypto_jasmine.Greedy.Marks.{Marks}

module _ {Data : Type 0} where
  -- A bank is as it was.
  pub record Kept (b : ℕ) (s s' : Greedy Data) : Type 0 where
    pub map : (l : ℕ) → In b l → s'.page_map l ≡ s.page_map l
    pub counts : (u : ℕ) → s'.vcount b u ≡ s.vcount b u
    pub misc : s'.misc b ≡ s.misc b
    pub lists : (v j : ℕ) → s'.lists b v j ≡ s.lists b v j

  pub Kept-trans : (b : ℕ) (s t r : Greedy Data) → Kept b s t → Kept b t r → Kept b s r
  Kept-trans b s t r k k' = record {
    map = λ l h. k'.map l h ∙ k.map l h;
    counts = λ u. k'.counts u ∙ k.counts u;
    misc = k'.misc ∙ k.misc;
    lists = λ v j. k'.lists v j ∙ k.lists v j;
  }

  Kept-Phase : (b : ℕ) (s t : Greedy Data) → Kept b s t → Phase b s → Phase b t
  Kept-Phase b s t k p =
      let cur : ℕ = block (s.misc b).cur_write_vpn in
      let same =
        in_use-same (vblks_per_bank - 1 - cur) (s.vcount b) (t.vcount b) cur (λ u e. k.counts u ∙ e)
          (λ u e. sym (k.counts u) ∙ e) in
      rw (k.misc) (elim p [
        | inl two ↦ inl two
        | inr filling ↦
            inr (filling.0 ∙ ap (λ n. 2 + n) same, λ l h. rw (k.map l h) (filling.1 l h))
      ])

  pub Kept-Open : (b n : ℕ) (s t : Greedy Data) → Kept b s t → Open b n s → Open b n t
  Kept-Open b n s t k i = record {
    pages =
        Pages-same b (owner b s) (owner b t) s t (k.map) (k.counts) (rw (k.misc))
          (λ v j. rw (k.misc, k.lists v j) refl) (i.pages);
    cur-lt = rw (k.misc) (i.cur-lt);
    cur-used = rw (k.misc, k.counts _) (i.cur-used);
    cur-low = rw (k.misc) (i.cur-low);
    behind = λ l h. rw (k.misc, k.map l h) (i.behind l h);
    own_list = λ j h. rw (k.misc) (i.own_list j h);
    own_lists = λ v j lt used old h.
        rw (k.lists v j) (i.own_lists v j lt (rw (k.counts v) at used) (rw (k.misc) at old) h);
    phase = Kept-Phase b s t k (i.phase);
  }

module _ {Data : Type 0} (blank : Data) (bank b : ℕ) (apart : b ≢ bank) where
  pub step-Kept : (s : Greedy Data) → Kept b s (step bank s)
  unfolding step set_new_write_vpn set_misc
  step-Kept s = record {
    map = λ l h. refl;
    counts = λ u. refl;
    misc = rw (==-ne b bank apart) refl;
    lists = λ v j. refl;
  }

  pub closed-Kept : (s : Greedy Data) → Kept b s (closed bank s)
  unfolding close_vblock set_misc
  closed-Kept s = record {
    map = λ l h. refl;
    counts = λ u. refl;
    misc = rw (==-ne b bank apart) refl;
    lists = λ v j. rw (==-ne b bank apart) refl;
  }

  pub jump-Kept : (n : ℕ) (s : Greedy Data) → Kept b s (jump bank n s)
  unfolding jump set_new_write_vpn close_vblock set_misc
  jump-Kept n s = record {
    map = λ l h. refl;
    counts = λ u. refl;
    misc = rw (==-ne b bank apart) refl;
    lists = λ v j. rw (==-ne b bank apart) refl;
  }

  loop_end-Kept :
      (victim count : ℕ) (s : Greedy Data) (r : ℕ × Greedy Data)
      → Done bank victim (s.misc bank).gc_vblock s r
      → Kept b s (loop_end blank bank victim count r)
  unfolding swap_blocks block_erase set_misc set_vcount
  loop_end-Kept victim count s (v, t) (k, e, c) = record {
    map = λ l h. c.others l (λ z. apart (sym h ∙ z));
    counts = λ u. rw (==-ne b bank apart) (ap (λ f. f b u) (c.counts));
    misc = rw (==-ne b bank apart) (c.metas b apart);
    lists = λ v j. rw (==-ne b bank apart) (ap (λ f. f b v j) (c.logs));
  }

  pub garbage_collection-Kept :
      (s : Greedy Data)
      → Ready bank (get_vt_vblock bank s) (s.misc bank).gc_vblock s
      → Kept b s (garbage_collection blank bank s)
  unfolding garbage_collection get_vcount
  garbage_collection-Kept s r =
      loop-Done blank bank (get_vt_vblock bank s) (s.vcount bank (get_vt_vblock bank s)) s r
        (Kept b s) (loop_end-Kept (get_vt_vblock bank s) (s.vcount bank (get_vt_vblock bank s)) s)

module _ {Data : Type 0} (lpn new b : ℕ) (apart : b ≢ get_num_bank lpn) where
  pub Marks-Kept : (s t : Greedy Data) → Marks lpn new s t → Kept b s t
  Marks-Kept s t m = record {
    map = λ l h. m.map l ∙ rw (==-ne l lpn (λ e. apart (sym h ∙ ap get_num_bank e))) refl;
    counts = λ u. m.other_count b u apart;
    misc = m.other_misc b apart;
    lists = λ v j. m.lists b v j;
  }
