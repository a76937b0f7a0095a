-- ===== src/Greedy/Marks.antt =====
-- What `write_page` of ftl_greedy/ftl.c does to the metadata, once it has a page for the data.
use crypto_jasmine.Base.{
  ℕ, ◌%◌, ◌≡◌, ◌≢◌, inl, inr, refl, arith, ◌==◌, if◌then◌else◌, upd, Eq-cases, ==-refl, ==-ne,
}
use crypto_jasmine.Base.Geometry.{get_num_bank, sectors_per_page}
use crypto_jasmine.Base.Words.{add32, sub32, u16_mod}
use crypto_jasmine.Greedy.State.{
  Greedy, get_vpn, set_vpn, get_vcount, set_vcount, set_misc, set_lpn, ptread, ptprogram_from_host,
}
use crypto_jasmine.Greedy.Write.{
  write_at, count_write, retire, program, fill_holes, copy_holes, read_holes,
}
use crypto_jasmine.Greedy.Copying.{block, page_num}

-- The count of block `u` when the page `old` is no longer valid.
abbrev pub retired : (old u count : ℕ) → ℕ
retired old u count =
    if old == 0 then count else if u == block old then sub32 count 1 % u16_mod else count

-- And when the page `new` is valid.
abbrev pub gained : (new u count : ℕ) → ℕ
gained new u count = if u == block new then add32 count 1 % u16_mod else count

module _ {Data : Type 0} where
  -- The metadata after the write of logical page `lpn` to the page `new`.
  pub record Marks (lpn new : ℕ) (s s' : Greedy Data) : Type 0 where
    pub map : (l : ℕ) → s'.page_map l ≡ upd (s.page_map) lpn new l
    pub lists : (b v j : ℕ) → s'.lists b v j ≡ s.lists b v j
    pub cur : (s'.misc (get_num_bank lpn)).cur_write_vpn ≡ (s.misc (get_num_bank lpn)).cur_write_vpn
    pub gc : (s'.misc (get_num_bank lpn)).gc_vblock ≡ (s.misc (get_num_bank lpn)).gc_vblock
    pub free : (s'.misc (get_num_bank lpn)).free_blk_cnt ≡ (s.misc (get_num_bank lpn)).free_blk_cnt
    pub list :
        (j : ℕ)
        → (s'.misc (get_num_bank lpn)).lpn_list_of_cur_vblock j
          ≡ upd ((s.misc (get_num_bank lpn)).lpn_list_of_cur_vblock) (page_num new) lpn j
    pub count :
        (u : ℕ)
        → s'.vcount (get_num_bank lpn) u
          ≡ gained new u (retired (s.page_map lpn) u (s.vcount (get_num_bank lpn) u))
    pub other_misc : (b : ℕ) → b ≢ get_num_bank lpn → s'.misc b ≡ s.misc b
    pub other_count : (b u : ℕ) → b ≢ get_num_bank lpn → s'.vcount b u ≡ s.vcount b u

  -- Filling the holes changes the write buffer only.
  pub record Same (s s' : Greedy Data) : Type 0 where
    pub map : s'.page_map ≡ s.page_map
    pub misc : s'.misc ≡ s.misc
    pub vcount : s'.vcount ≡ s.vcount
    pub lists : s'.lists ≡ s.lists

  fill_holes-Same :
      (bank old_vpn first count : ℕ) (s : Greedy Data)
      → Same s (fill_holes bank old_vpn first count s)
  unfolding fill_holes copy_holes read_holes ptread
  fill_holes-Same bank old_vpn first count s = record {
    map = ground arith;
    misc = ground arith;
    vcount = ground arith;
    lists = ground arith;
  }

  program-Marks :
      (lpn new first count : ℕ) (s : Greedy Data)
      → s.page_map lpn ≡ 0
      → Marks lpn new s
          (program (get_num_bank lpn) lpn new first count (count_write (get_num_bank lpn) s))
  unfolding program count_write ptprogram_from_host set_lpn set_misc set_vpn set_vcount get_vcount
  program-Marks lpn new first count s none = record {
    map = λ l. refl;
    lists = λ b v j. refl;
    cur = ground arith;
    gc = ground arith;
    free = ground arith;
    list = λ j. rw (==-refl (get_num_bank lpn)) refl;
    count = λ u. rw (none, ==-refl (get_num_bank lpn)) (ground arith);
    other_misc = λ b h. rw (==-ne b (get_num_bank lpn) h) refl;
    other_count = λ b u h. rw (==-ne b (get_num_bank lpn) h) refl;
  }

  retire-Marks :
      (lpn new first count : ℕ) (s r : Greedy Data)
      → Same (count_write (get_num_bank lpn) s) r
      → s.page_map lpn ≢ 0
      → Marks lpn new s (
          program (get_num_bank lpn) lpn new 0 sectors_per_page (
            set_vcount
              (get_num_bank lpn)
              (block (s.page_map lpn))
              (sub32 (get_vcount r (get_num_bank lpn) (block (s.page_map lpn))) 1)
              r))
  unfolding program count_write ptprogram_from_host set_lpn set_misc set_vpn set_vcount get_vcount
  retire-Marks lpn new first count s r e some = record {
    map = λ l. rw (e.map) refl;
    lists = λ b v j. rw (e.lists) refl;
    cur = rw (e.misc) (ground arith);
    gc = rw (e.misc) (ground arith);
    free = rw (e.misc) (ground arith);
    list = λ j. rw (e.misc, ==-refl (get_num_bank lpn)) refl;
    count = λ u.
        rw (e.vcount, ==-refl (get_num_bank lpn), ==-ne (s.page_map lpn) 0 some) (ground arith);
    other_misc = λ b h. rw (e.misc, ==-ne b (get_num_bank lpn) h) refl;
    other_count = λ b u h. rw (e.vcount, ==-ne b (get_num_bank lpn) h) refl;
  }

  -- `write_page` behind the choice of the page marks the page in the map, in the list of the block
  -- and in the counts of the two blocks.
  pub write_at-Marks :
      (lpn new first count : ℕ) (s : Greedy Data) → Marks lpn new s (write_at lpn new first count s)
  unfolding write_at retire get_vpn
  write_at-Marks lpn new first count s = elim (Eq-cases (s.page_map lpn) 0) [
    | inl none ↦ rw none (program-Marks lpn new first count s none)
    | inr some ↦
        let b : ℕ = get_num_bank lpn in
        rw (==-ne (s.page_map lpn) 0 some) (
          retire-Marks lpn new first count s
            (fill_holes b (s.page_map lpn) first count (count_write b s))
            (fill_holes-Same b (s.page_map lpn) first count (count_write b s)) some)
  ]
