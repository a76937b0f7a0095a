-- ===== src/Greedy/Tests.antt =====
-- ftl_greedy/ftl.c on a device with one bank in use, and the theorems there.
use mathlib.Core.Path.{subst}
use crypto_jasmine.Base.{ℕ, zero, suc, ◌+◌, ◌-◌, ◌≡◌, refl, sym, arith, ltb, ◌==◌, if◌then◌else◌}
use crypto_jasmine.Greedy.State.{Misc, Greedy, vc_max}
use crypto_jasmine.Greedy.Collect.{get_vt_vblock, garbage_collection, copy_page}
use crypto_jasmine.Greedy.Write.{fill_holes}
use crypto_jasmine.Greedy.Copying.{Ready}
use crypto_jasmine.Greedy.Collected.{Collected, garbage_collection-Collected}
use crypto_jasmine.Greedy.Written.{reads}
use crypto_jasmine.Greedy.Holes.{Merged, fill_holes-Merged}
use crypto_jasmine.Greedy.Victim.{copy_page-foreign}

-- A memory utility that looks at one word after the other
unfoldable first_min_from : (n i best : ℕ) → (ℕ → ℕ) → ℕ
first_min_from zero i best f = best
first_min_from (suc n) i best f =
    let best : ℕ = if ltb (f i) (f best) then i else best in first_min_from n (i + 1) best f

unfoldable pub first_min : (num_items : ℕ) → (ℕ → ℕ) → ℕ
unfolding first_min_from
first_min n f = first_min_from (n - 1) 1 0 f

-- Bank 0 writes to block 41, which is full, and has block 50 for the next collection.
abbrev busy : Misc
busy = record {
  cur_write_vpn = 5374;
  gc_vblock = 50;
  free_blk_cnt = 2;
  lpn_list_of_cur_vblock = λ j. 24;
  gc_cnt = 0;
  page_wcount = 7;
}

-- Two logical pages, 0 and 8, are in block 40, which the list in its last page says.
abbrev device : Greedy ℕ
device = record {
  misc = λ b. busy;
  page_map = λ l. if l == 0 then 5120 else if l == 8 then 5122 else 0;
  vcount = λ b v. if v == 40 then 2 else if v == 41 then 100 else vc_max;
  flash = λ b v i. b + v + i;
  lists = λ b v j. if j == 0 then 0 else if j == 2 then 8 else 16;
  write_buf = λ n i. 1000 + i;
  read_buf = λ n i. 0;
  next_read_buf = 215;
  next_write_buf = 3;
  search_min = first_min;
}

least : get_vt_vblock 0 device ≡ 40
unfolding get_vt_vblock first_min first_min_from
least = refl

device-Ready : Ready 0 40 50 device
device-Ready = record {
  apart = omega arith;
  victim-pos = omega arith;
  gc-pos = omega arith;
  gc-lt = omega arith;
  one = λ l m hl hm p e. ground arith;
  free = λ l h. ground arith;
  listed = λ l h b. ground arith;
  own = λ j h e. ground arith;
}

garbage_collection-Collected_example : Collected 0 device (garbage_collection 255 0 device)
garbage_collection-Collected_example =
    garbage_collection-Collected 255 0 device
      (subst (λ v. Ready 0 v 50 device) (sym least) device-Ready)

fill_holes-Merged_example : Merged 0 5122 3 2 device (fill_holes 0 5122 3 2 device)
fill_holes-Merged_example = fill_holes-Merged 0 5122 3 2 device (omega arith)

-- Bank 1 collects block 40, whose list names logical page 0 at its page 0, as it does in the first
-- block of a bank: that page is of bank 0.
abbrev foreign : Greedy ℕ
foreign =
    let m : Misc = record busy { lpn_list_of_cur_vblock = λ j. 0 } in
    record device { misc = λ b. m }

copy_page-foreign_example :
    ((copy_page 1 40 0 6400 foreign).1.page_map 0 ≡ 6400)
    × ((i : ℕ) → reads (copy_page 1 40 0 6400 foreign).1 0 i ≡ foreign.flash 0 6400 i)
copy_page-foreign_example = copy_page-foreign 1 40 0 6400 0 foreign (omega arith) refl refl
