-- ===== src/Greedy/Holes.antt =====
-- The two ways in which `write_page` of ftl_greedy/ftl.c fills the sectors that the host leaves out.
use crypto_jasmine.Base.{ℕ, ◌+◌, ◌≤◌, ◌<◌, ◌≡◌, arith, if◌then◌else◌}
use crypto_jasmine.Base.Geometry.{sectors_per_page}
use crypto_jasmine.Greedy.State.{Greedy, among, ptread}
use crypto_jasmine.Greedy.Write.{copy_holes, read_holes, fill_holes}

module _ {Data : Type 0} where
  -- The page that a partial write programs: the host's sectors among those of the old page.
  abbrev pub Merged : (bank old_vpn first count : ℕ) → (s s' : Greedy Data) → Type 0
  Merged bank old_vpn first count s s' =
      (i : ℕ)
      → i < sectors_per_page
      → s'.write_buf s.next_write_buf i
        ≡ (if among first count i then s.write_buf s.next_write_buf i else s.flash bank old_vpn i)

  copy_holes-Merged :
      (bank old_vpn first count : ℕ) (s : Greedy Data)
      → Merged bank old_vpn first count s (copy_holes bank old_vpn first count s)
  unfolding copy_holes
  copy_holes-Merged bank old_vpn first count s i h = ground arith

  read_holes-Merged :
      (bank old_vpn first count : ℕ) (s : Greedy Data)
      → Merged bank old_vpn first count s (read_holes bank old_vpn first count s)
  unfolding read_holes ptread
  read_holes-Merged bank old_vpn first count s i h = ground arith

  -- On both ways, the write buffer ends up with the host's sectors where the write has them and with
  -- those of the old page everywhere else.
  pub fill_holes-Merged :
      (bank old_vpn first count : ℕ) (s : Greedy Data)
      → first + count ≤ sectors_per_page
      → Merged bank old_vpn first count s (fill_holes bank old_vpn first count s)
  unfolding fill_holes
  fill_holes-Merged bank old_vpn first count s fits i h = ground (
    arith,
    copy_holes-Merged bank old_vpn first count s i h,
    read_holes-Merged bank old_vpn first count s i h,
  )
