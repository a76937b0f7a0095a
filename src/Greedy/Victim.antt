-- ===== src/Greedy/Victim.antt =====
-- `get_vt_vblock` of ftl_greedy/ftl.c, and what a collection does to a page of another bank.
use crypto_jasmine.Base.{ℕ, ◌+◌, ◌*◌, ◌≤◌, ◌<◌, ◌≡◌, ◌≢◌, arith, ==-refl}
use crypto_jasmine.Base.Geometry.{pages_per_blk, vblks_per_bank, get_num_bank}
use crypto_jasmine.Greedy.State.{Greedy, get_vpn, set_vpn, set_lpn, set_misc, copyback}
use crypto_jasmine.Greedy.Collect.{get_vt_vblock, copy_page}
use crypto_jasmine.Greedy.Written.{reads}

-- What the memory utility promises: the place of a least word among those that it looks at
pub record Minimum (search_min : (num_items : ℕ) → (ℕ → ℕ) → ℕ) : Type 0 where
  pub within : (n : ℕ) (words : ℕ → ℕ) → 0 < n → search_min n words < n
  pub least : (n : ℕ) (words : ℕ → ℕ) (k : ℕ) → k < n → words (search_min n words) ≤ words k

module _ {Data : Type 0} where
  pub get_vt_vblock-least :
      (bank : ℕ) (s : Greedy Data)
      → Minimum (s.search_min)
      → (get_vt_vblock bank s < vblks_per_bank)
        × ((b : ℕ) → b < vblks_per_bank → s.vcount bank (get_vt_vblock bank s) ≤ s.vcount bank b)
  unfolding get_vt_vblock
  get_vt_vblock-least bank s m = (
    m.within vblks_per_bank (s.vcount bank) (omega arith),
    m.least vblks_per_bank (s.vcount bank),
  )

  -- If the list of a victim has a logical page of another bank, and that page has the number of the
  -- listed one in its own bank, then the copy loop takes it for a page of the victim: it is mapped to
  -- the free page and reads as what its own bank has there, to which nothing was copied.
  pub copy_page-foreign :
      (bank victim src free_vpn lpn : ℕ) (s : Greedy Data)
      → get_num_bank lpn ≢ bank
      → (s.misc bank).lpn_list_of_cur_vblock src ≡ lpn
      → s.page_map lpn ≡ victim * pages_per_blk + src
      → ((copy_page bank victim src free_vpn s).1.page_map lpn ≡ free_vpn)
        × ((i : ℕ)
            → reads (copy_page bank victim src free_vpn s).1 lpn i
              ≡ s.flash (get_num_bank lpn) free_vpn i)
  unfolding copy_page get_vpn set_vpn set_lpn set_misc copyback
  copy_page-foreign bank victim src free_vpn lpn s other at here =
      rw (at, here, ==-refl (victim * pages_per_blk + src)) (ground arith, λ i. ground arith)
