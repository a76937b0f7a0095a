-- ===== src/Greedy/Written.antt =====
-- `write_page` of ftl_greedy/ftl.c: what the logical pages read as after it.
use mathlib.Core.Path.{subst}
use crypto_jasmine.Base.{
  ℕ, ◌+◌, ◌≤◌, ◌<◌, ◌≡◌, ◌≢◌, inl, inr, sym, ap, ◌∙◌, arith, true, false, if◌then◌else◌, Eq-cases,
  ==-ne,
}
use crypto_jasmine.Base.Geometry.{get_num_bank, sectors_per_page}
use crypto_jasmine.Greedy.State.{
  Greedy, among, set_vcount, set_misc, set_lpn, set_vpn, get_vpn, get_vcount, ptprogram_from_host,
  ptread,
}
use crypto_jasmine.Greedy.Write.{
  write_at, count_write, retire, program, fill_holes, copy_holes, read_holes,
}
use crypto_jasmine.Greedy.Holes.{fill_holes-Merged}
use crypto_jasmine.Greedy.Copying.{In}

module _ {Data : Type 0} where
  -- What a logical page reads as; if it was never written, what its bank has at page 0.
  abbrev pub reads : Greedy Data → (lpn sector : ℕ) → Data
  reads s lpn i = s.flash (get_num_bank lpn) (s.page_map lpn) i

  -- The host's sectors are in the page, the others of it are as before, and so are all other pages.
  pub record Written (lpn first count : ℕ) (s s' : Greedy Data) : Type 0 where
    pub new :
        (i : ℕ)
        → i < sectors_per_page
        → among first count i ≡ true
        → reads s' lpn i ≡ s.write_buf s.next_write_buf i
    pub old :
        (i : ℕ)
        → i < sectors_per_page
        → among first count i ≡ false
        → 0 < s.page_map lpn
        → reads s' lpn i ≡ reads s lpn i
    pub others : (l : ℕ) → l ≢ lpn → (i : ℕ) → reads s' l i ≡ reads s l i
    pub mapped : 0 < s'.page_map lpn
    pub stays : (l : ℕ) → 0 < s.page_map l → 0 < s'.page_map l

  -- No logical page of the bank is there.
  abbrev pub Fresh : (bank vpn : ℕ) → Greedy Data → Type 0
  Fresh bank vpn s = (l : ℕ) → In bank l → s.page_map l ≢ vpn

  -- What filling the holes leaves alone.
  fill_holes-map :
      (bank old_vpn first count : ℕ) (s : Greedy Data)
      → (fill_holes bank old_vpn first count s).page_map ≡ s.page_map
  unfolding fill_holes copy_holes read_holes ptread
  fill_holes-map bank old_vpn first count s = ground arith

  fill_holes-flash :
      (bank old_vpn first count : ℕ) (s : Greedy Data)
      → (fill_holes bank old_vpn first count s).flash ≡ s.flash
  unfolding fill_holes copy_holes read_holes ptread
  fill_holes-flash bank old_vpn first count s = ground arith

  fill_holes-turn :
      (bank old_vpn first count : ℕ) (s : Greedy Data)
      → (fill_holes bank old_vpn first count s).next_write_buf ≡ s.next_write_buf
  unfolding fill_holes copy_holes read_holes ptread
  fill_holes-turn bank old_vpn first count s = ground arith

  program-new :
      (lpn new_vpn first count : ℕ) (s : Greedy Data) (i : ℕ)
      → reads (program (get_num_bank lpn) lpn new_vpn first count s) lpn i ≡ (
          if among first count i
          then s.write_buf s.next_write_buf i
          else s.flash (get_num_bank lpn) new_vpn i)
  unfolding program ptprogram_from_host set_lpn set_misc set_vpn set_vcount get_vcount
  program-new lpn new_vpn first count s i = ground arith

  program-others :
      (lpn new_vpn first count : ℕ) (s : Greedy Data)
      → Fresh (get_num_bank lpn) new_vpn s
      → (l : ℕ) → l ≢ lpn
      → (i : ℕ) → reads (program (get_num_bank lpn) lpn new_vpn first count s) l i ≡ reads s l i
  unfolding program ptprogram_from_host set_lpn set_misc set_vpn set_vcount get_vcount
  program-others lpn new_vpn first count s fresh l ne i = ground (arith, fresh l)

  program-mapped :
      (lpn new_vpn first count : ℕ) (s : Greedy Data)
      → (program (get_num_bank lpn) lpn new_vpn first count s).page_map lpn ≡ new_vpn
  unfolding program ptprogram_from_host set_lpn set_misc set_vpn set_vcount get_vcount
  program-mapped lpn new_vpn first count s = ground arith

  program-stays :
      (lpn new_vpn first count : ℕ) (s : Greedy Data)
      → 0 < new_vpn
      → (l : ℕ) → 0 < s.page_map l
      → 0 < (program (get_num_bank lpn) lpn new_vpn first count s).page_map l
  unfolding program ptprogram_from_host set_lpn set_misc set_vpn set_vcount get_vcount
  program-stays lpn new_vpn first count s pos l h = ground arith

  -- The first write of a logical page.
  first-Written :
      (lpn new_vpn first count : ℕ) (s : Greedy Data)
      → 0 < new_vpn
      → Fresh (get_num_bank lpn) new_vpn s
      → s.page_map lpn ≡ 0
      → Written lpn first count s
          (program (get_num_bank lpn) lpn new_vpn first count (count_write (get_num_bank lpn) s))
  unfolding count_write set_misc
  first-Written lpn new_vpn first count s pos fresh none_yet =
      let t : Greedy Data = count_write (get_num_bank lpn) s in
      record {
        new = λ i h a. program-new lpn new_vpn first count t i ∙ rw a;
        old = λ i h a m. absurd (omega arith);
        others = program-others lpn new_vpn first count t fresh;
        mapped = omega (arith, program-mapped lpn new_vpn first count t);
        stays = program-stays lpn new_vpn first count t pos;
      }

  -- The page that is programmed in a later write.
  retire-Merged :
      (bank old_vpn first count : ℕ) (s : Greedy Data)
      → first + count ≤ sectors_per_page
      → (i : ℕ) → i < sectors_per_page
      → (retire bank old_vpn first count s).write_buf
          (retire bank old_vpn first count s).next_write_buf
          i
        ≡ (if among first count i then s.write_buf s.next_write_buf i else s.flash bank old_vpn i)
  unfolding retire get_vcount set_vcount
  retire-Merged bank old_vpn first count s fits i h =
      ap (λ n. (fill_holes bank old_vpn first count s).write_buf n i)
        (fill_holes-turn bank old_vpn first count s)
      ∙ fill_holes-Merged bank old_vpn first count s fits i h

  retire-map :
      (bank old_vpn first count : ℕ) (s : Greedy Data)
      → (retire bank old_vpn first count s).page_map ≡ s.page_map
  unfolding retire get_vcount set_vcount
  retire-map bank old_vpn first count s = fill_holes-map bank old_vpn first count s

  retire-flash :
      (bank old_vpn first count : ℕ) (s : Greedy Data)
      → (retire bank old_vpn first count s).flash ≡ s.flash
  unfolding retire get_vcount set_vcount
  retire-flash bank old_vpn first count s = fill_holes-flash bank old_vpn first count s

  -- A later write of a page: the whole page `r` has in the write buffer is programmed.
  again-Written :
      (lpn new_vpn first count : ℕ) (s r : Greedy Data)
      → 0 < new_vpn
      → Fresh (get_num_bank lpn) new_vpn s
      → r.page_map ≡ s.page_map
      → r.flash ≡ s.flash
      → ((i : ℕ)
          → i < sectors_per_page
          → r.write_buf r.next_write_buf i
            ≡ (if among first count i then s.write_buf s.next_write_buf i else reads s lpn i))
      → Written lpn first count s (program (get_num_bank lpn) lpn new_vpn 0 sectors_per_page r)
  again-Written lpn new_vpn first count s r pos fresh em ef merged =
      let whole : (i : ℕ) → i < sectors_per_page → among 0 sectors_per_page i ≡ true =
        λ i h. ground arith in
      let now = program-new lpn new_vpn 0 sectors_per_page r in
      record {
        new = λ i h a. now i ∙ rw (whole i h) (merged i h ∙ rw a);
        old = λ i h a m. now i ∙ rw (whole i h) (merged i h ∙ rw a);
        others = λ l ne i.
            program-others lpn new_vpn 0 sectors_per_page r (λ m hm. rw em (fresh m hm)) l ne i
            ∙ rw (em, ef);
        mapped = omega (arith, program-mapped lpn new_vpn 0 sectors_per_page r);
        stays = λ l h. program-stays lpn new_vpn 0 sectors_per_page r pos l (rw em h);
      }

  write_at-first :
      (lpn new_vpn first count : ℕ) (s : Greedy Data)
      → s.page_map lpn ≡ 0
      → write_at lpn new_vpn first count s
        ≡ program (get_num_bank lpn) lpn new_vpn first count (count_write (get_num_bank lpn) s)
  unfolding write_at get_vpn
  write_at-first lpn new_vpn first count s e = rw e

  write_at-again :
      (lpn new_vpn first count : ℕ) (s : Greedy Data)
      → s.page_map lpn ≢ 0
      → write_at lpn new_vpn first count s
        ≡ program (get_num_bank lpn) lpn new_vpn 0 sectors_per_page (
            retire
              (get_num_bank lpn)
              (s.page_map lpn)
              first
              count
              (count_write (get_num_bank lpn) s))
  unfolding write_at get_vpn
  write_at-again lpn new_vpn first count s ne = rw (==-ne (s.page_map lpn) 0 ne)

  -- `write_page`, from the choice of a page that no logical page of the bank has.
  pub write_at-Written :
      (lpn new_vpn first count : ℕ) (s : Greedy Data)
      → 0 < new_vpn
      → first + count ≤ sectors_per_page
      → Fresh (get_num_bank lpn) new_vpn s
      → Written lpn first count s (write_at lpn new_vpn first count s)
  unfolding count_write set_misc
  write_at-Written lpn new_vpn first count s pos fits fresh =
      let b : ℕ = get_num_bank lpn in
      let t : Greedy Data = count_write b s in
      elim (Eq-cases (s.page_map lpn) 0) [
        | inl unmapped ↦
            subst (Written lpn first count s)
              (sym (write_at-first lpn new_vpn first count s unmapped))
              (first-Written lpn new_vpn first count s pos fresh unmapped)
        | inr mapped ↦
            let old : ℕ = s.page_map lpn in
            subst (Written lpn first count s)
              (sym (write_at-again lpn new_vpn first count s mapped))
              (again-Written lpn new_vpn first count s (retire b old first count t) pos fresh
                (retire-map b old first count t) (retire-flash b old first count t)
                (retire-Merged b old first count t fits))
      ]
