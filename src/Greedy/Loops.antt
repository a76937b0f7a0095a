-- ===== src/Greedy/Loops.antt =====
-- `ftl_read` of ftl_greedy/ftl.c, and reading what was written.
use crypto_jasmine.Base.{
  ℕ, suc, ◌+◌, ◌-◌, ◌/◌, ◌%◌, ◌≤◌, ◌<◌, ◌≡◌, ◌≢◌, refl, ◌∙◌, arith, true, some, ◌==◌, if◌then◌else◌,
}
use crypto_jasmine.Base.Geometry.{get_num_bank, sectors_per_page, num_rd_buffers, num_lpages}
use crypto_jasmine.Greedy.State.{Greedy, get_vpn, among, ptread_to_host}
use crypto_jasmine.Greedy.Read.{read_page, send_blank, sectors_here}
use crypto_jasmine.Greedy.Write.{write_page}
use crypto_jasmine.Greedy.Written.{reads}
use crypto_jasmine.Greedy.Assign.{Ripe}
use crypto_jasmine.Greedy.Clean.{AllClean}
use crypto_jasmine.Greedy.Device.{AllValid, InMap, write_page-Valid}

-- The pages of `remain` sectors that start at sector `first` of a page
abbrev pub pages_of : (first remain : ℕ) → ℕ
pages_of first remain = if remain == 0 then 0 else (first + remain + 63) / sectors_per_page

module _ {Data : Type 0} where
  -- What a read leaves as it is, and the number of buffers that it hands over.
  pub record Handed (pages : ℕ) (s s' : Greedy Data) : Type 0 where
    pub page_map : s'.page_map ≡ s.page_map
    pub flash : s'.flash ≡ s.flash
    pub vcount : s'.vcount ≡ s.vcount
    pub misc : s'.misc ≡ s.misc
    pub turn : s'.next_read_buf ≡ (s.next_read_buf + pages) % num_rd_buffers

module _ {Data : Type 0} (blank : Data) where
  read_page-reads :
      (lpn first count : ℕ) (s : Greedy Data)
      → 0 < s.page_map lpn
      → (i : ℕ) → among first count i ≡ true
      → (read_page blank lpn first count s).read_buf s.next_read_buf i ≡ reads s lpn i
  unfolding read_page send_blank ptread_to_host get_vpn
  read_page-reads lpn first count s pos i a = ground arith

  nothing :
      (first remain : ℕ) (s : Greedy Data)
      → remain ≡ 0
      → s.next_read_buf < num_rd_buffers
      → Handed (pages_of first remain) s s
  nothing first remain s e turn = record {
    page_map = refl;
    flash = refl;
    vcount = refl;
    misc = refl;
    turn = ground arith;
  }

  pub pages_of-sectors_here :
      (first remain : ℕ)
      → first < sectors_per_page
      → remain ≢ 0
      → 1 + pages_of 0 (remain - sectors_here first remain) ≡ pages_of first remain
  pages_of-sectors_here first remain h ne = ground arith

  pub sectors_here-enough :
      (f first remain : ℕ)
      → first < sectors_per_page
      → remain ≢ 0
      → remain ≤ suc f
      → remain - sectors_here first remain ≤ f
  sectors_here-enough f first remain h ne enough = ground arith

  -- On a device whose banks are in step and have erased the pages that come next, where only pages
  -- of the map are mapped, and where the bank of the page is ripe if it must collect a block, the
  -- sectors of a page of the map that were written are those that a read of them hands to the host,
  -- and what was asked of the device holds again.
  pub write_page-read_page :
      (lpn first count : ℕ) (s : Greedy Data)
      → lpn < num_lpages
      → first + count ≤ sectors_per_page
      → AllValid s
      → AllClean blank s
      → InMap s
      → Ripe (get_num_bank lpn) s
      → (s' : Greedy Data) × (write_page blank lpn first count s ≡ some s')
        × ((i : ℕ)
            → i < sectors_per_page
            → among first count i ≡ true
            → (read_page blank lpn first count s').read_buf s'.next_read_buf i
              ≡ s.write_buf s.next_write_buf i)
        × AllValid s'
        × AllClean blank s'
        × InMap s'
  write_page-read_page lpn first count s low fits all clean known ripe =
      let (s', e, w, all', used, clean', known', once) =
        write_page-Valid blank lpn first count s low fits all clean known ripe in
      (
        s',
        e,
        λ i h a. read_page-reads lpn first count s' (w.mapped) i a ∙ w.new i h a,
        all',
        clean',
        known',
      )
