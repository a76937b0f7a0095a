-- ===== src/Greedy/Turns.antt =====
-- The write buffers of ftl_greedy/ftl.c: `write_page` uses up the one whose turn it is, and leaves
-- the others to the pages that follow.
use crypto_jasmine.Base.{
  ℕ, zero, suc, ◌+◌, ◌*◌, ◌%◌, ◌≡◌, ◌≢◌, inl, inr, refl, ◌∙◌, arith, Eq-cases, ==-ne, Bool-cases,
  ◌==◌,
}
use crypto_jasmine.Base.Geometry.{get_num_bank, num_wr_buffers, sectors_per_page, pages_per_blk}
use crypto_jasmine.Base.Words.{mul32}
use crypto_jasmine.Greedy.State.{
  Greedy, get_vpn, set_vpn, get_vcount, set_vcount, set_misc, set_lpn, copyback, ptread,
  ptprogram_from_host,
}
use crypto_jasmine.Greedy.Collect.{
  copy_page, copy_pages, load_list, block_erase, swap_blocks, collect_from, garbage_collection,
  get_vt_vblock,
}
use crypto_jasmine.Greedy.Write.{
  close_vblock, set_new_write_vpn, count_write, program, retire, fill_holes, copy_holes, read_holes,
  write_at,
}
use crypto_jasmine.Greedy.Rooms.{closed}
use crypto_jasmine.Greedy.Opened.{step, jump}

module _ {Data : Type 0} where
  -- The write buffers are as they were.
  pub record Buffers (s s' : Greedy Data) : Type 0 where
    pub same : s'.write_buf ≡ s.write_buf
    pub turn : s'.next_write_buf ≡ s.next_write_buf

  Buffers-trans : (s t r : Greedy Data) → Buffers s t → Buffers t r → Buffers s r
  Buffers-trans s t r a b = record { same = b.same ∙ a.same; turn = b.turn ∙ a.turn }

  copy_page-Buffers :
      (bank victim src free_vpn : ℕ) (s : Greedy Data)
      → Buffers s (copy_page bank victim src free_vpn s).1
  unfolding copy_page get_vpn set_vpn set_lpn set_misc copyback
  copy_page-Buffers bank victim src free_vpn s =
      elim (Bool-cases
        (s.page_map ((s.misc bank).lpn_list_of_cur_vblock src) == victim * pages_per_blk + src)) [
          | inl valid ↦ rw valid (record { same = refl; turn = refl })
          | inr not_valid ↦ rw not_valid (record { same = refl; turn = refl })
        ]

  copy_pages-Buffers :
      (n bank victim src free_vpn : ℕ) (s : Greedy Data)
      → Buffers s (copy_pages n bank victim src free_vpn s).1
  unfolding copy_pages
  copy_pages-Buffers zero bank victim src free_vpn s = record { same = refl; turn = refl }
  copy_pages-Buffers (suc n) bank victim src free_vpn s =
      let r : ℕ × Greedy Data = copy_page bank victim src free_vpn s in
      Buffers-trans s (r.1) (copy_pages n bank victim (src + 1) (r.0) (r.1)).1
        (copy_page-Buffers bank victim src free_vpn s)
        (copy_pages-Buffers n bank victim (src + 1) (r.0) (r.1))

  garbage_collection-Buffers :
      (blank : Data) (bank : ℕ) (s : Greedy Data) → Buffers s (garbage_collection blank bank s)
  unfolding garbage_collection collect_from load_list swap_blocks block_erase set_misc set_vcount
  garbage_collection-Buffers blank bank s =
      let b =
        copy_pages-Buffers 127 bank (get_vt_vblock bank s) 0
          (mul32 (s.misc bank).gc_vblock pages_per_blk) (load_list bank (get_vt_vblock bank s) s) in
      record { same = b.same; turn = b.turn }

  pub step-Buffers : (bank : ℕ) (s : Greedy Data) → Buffers s (step bank s)
  unfolding step set_new_write_vpn set_misc
  step-Buffers bank s = record { same = refl; turn = refl }

  pub jump-Buffers : (bank n : ℕ) (s : Greedy Data) → Buffers s (jump bank n s)
  unfolding jump set_new_write_vpn close_vblock set_misc
  jump-Buffers bank n s = record { same = refl; turn = refl }

  pub collected-Buffers :
      (blank : Data) (bank : ℕ) (s : Greedy Data)
      → Buffers s (garbage_collection blank bank (closed bank s))
  unfolding close_vblock set_misc
  collected-Buffers blank bank s =
      let b = garbage_collection-Buffers blank bank (closed bank s) in
      record { same = b.same; turn = b.turn }

  -- A page of the host was used up.
  pub record Used (s s' : Greedy Data) : Type 0 where
    pub others : (id : ℕ) → id ≢ s.next_write_buf → (i : ℕ) → s'.write_buf id i ≡ s.write_buf id i
    pub turn : s'.next_write_buf ≡ (s.next_write_buf + 1) % num_wr_buffers

  fill_holes-others :
      (bank old_vpn first count : ℕ) (s : Greedy Data)
      → (id : ℕ) → id ≢ s.next_write_buf
      → (i : ℕ) → (fill_holes bank old_vpn first count s).write_buf id i ≡ s.write_buf id i
  unfolding fill_holes copy_holes read_holes ptread
  fill_holes-others bank old_vpn first count s id ne i = ground arith

  fill_holes-turn :
      (bank old_vpn first count : ℕ) (s : Greedy Data)
      → (fill_holes bank old_vpn first count s).next_write_buf ≡ s.next_write_buf
  unfolding fill_holes copy_holes read_holes ptread
  fill_holes-turn bank old_vpn first count s = ground arith

  program-Used :
      (bank lpn new first count : ℕ) (s r : Greedy Data)
      → ((id : ℕ) → id ≢ s.next_write_buf → (i : ℕ) → r.write_buf id i ≡ s.write_buf id i)
      → r.next_write_buf ≡ s.next_write_buf
      → Used s (program bank lpn new first count r)
  unfolding program ptprogram_from_host set_lpn set_misc set_vpn set_vcount get_vcount
  program-Used bank lpn new first count s r same turn = record {
    others = same;
    turn = rw turn refl;
  }

  pub write_at-Used :
      (lpn new first count : ℕ) (s : Greedy Data) → Used s (write_at lpn new first count s)
  unfolding write_at retire get_vpn count_write set_misc get_vcount set_vcount
  write_at-Used lpn new first count s =
      let b : ℕ = get_num_bank lpn in
      elim (Eq-cases (s.page_map lpn) 0) [
        | inl unmapped ↦
            rw unmapped
              (program-Used b lpn new first count s (count_write b s) (λ id ne i. refl) refl)
        | inr mapped ↦
            let t : Greedy Data = count_write b s in
            let old : ℕ = s.page_map lpn in
            rw (==-ne old 0 mapped) (
              program-Used b lpn new 0 sectors_per_page s (retire b old first count t)
                (fill_holes-others b old first count t) (fill_holes-turn b old first count t))
      ]

  pub Used-after : (s t r : Greedy Data) → Buffers s t → Used t r → Used s r
  Used-after s t r b u = record {
    others = λ id ne i. u.others id (rw (b.turn) ne) i ∙ rw (b.same) refl;
    turn = u.turn ∙ rw (b.turn) refl;
  }
