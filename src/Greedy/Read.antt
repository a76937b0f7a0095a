-- ===== src/Greedy/Read.antt =====
-- The reading of a page, and the loops of `ftl_read` and `ftl_write` of ftl_greedy/ftl.c.
use crypto_jasmine.Base.{
  ℕ, zero, suc, ◌+◌, ◌-◌, ◌/◌, ◌%◌, Option, none, some, ltb, ◌==◌, if◌then◌else◌, upd, ◌>>=◌,
}
use crypto_jasmine.Base.Geometry.{sectors_per_page, num_rd_buffers, get_num_bank}
use crypto_jasmine.Greedy.State.{Greedy, get_vpn, among, ptread_to_host}
use crypto_jasmine.Greedy.Write.{write_page}

-- How many sectors of a page the command has: the rest of them, or the rest of the page.
abbrev pub sectors_here : (first remain : ℕ) → ℕ
sectors_here first remain =
    if ltb (first + remain) sectors_per_page then remain else sectors_per_page - first

module _ {Data : Type 0} where
  -- A page that was never written reads as ones.
  unfoldable pub send_blank : Data → (first count : ℕ) → Greedy Data → Greedy Data
  send_blank blank first count s =
      let id : ℕ = s.next_read_buf in
      let page = λ (i : ℕ). if among first count i then blank else s.read_buf id i in
      record s { read_buf = upd (s.read_buf) id page; next_read_buf = (id + 1) % num_rd_buffers }

  unfoldable pub read_page : Data → (lpn first count : ℕ) → Greedy Data → Greedy Data
  unfolding get_vpn ptread_to_host send_blank
  read_page blank lpn first count s =
      let vpn : ℕ = get_vpn s lpn in
      if vpn == 0
      then send_blank blank first count s
      else ptread_to_host (get_num_bank lpn) vpn first count s

  -- The loops, with a bound on their rounds: each of them has a sector at least.
  unfoldable pub read_loop :
      (fuel : ℕ) → Data → (lpn first remain : ℕ) → Greedy Data → Option (Greedy Data)
  unfolding read_page
  read_loop zero blank lpn first remain s = if remain == 0 then some s else none
  read_loop (suc f) blank lpn first remain s =
      let here : ℕ = sectors_here first remain in
      let rest = read_loop f blank (lpn + 1) 0 (remain - here) (read_page blank lpn first here s) in
      if remain == 0 then some s else rest

  unfoldable pub ftl_read : Data → (lba num_sectors : ℕ) → Greedy Data → Option (Greedy Data)
  ftl_read blank lba num_sectors s =
      read_loop num_sectors blank (lba / sectors_per_page) (lba % sectors_per_page) num_sectors s

  unfoldable pub write_loop :
      (fuel : ℕ) → Data → (lpn first remain : ℕ) → Greedy Data → Option (Greedy Data)
  write_loop zero blank lpn first remain s = if remain == 0 then some s else none
  write_loop (suc f) blank lpn first remain s =
      let here : ℕ = sectors_here first remain in
      let rest =
        write_page blank lpn first here s >>= write_loop f blank (lpn + 1) 0 (remain - here) in
      if remain == 0 then some s else rest

  unfoldable pub ftl_write : Data → (lba num_sectors : ℕ) → Greedy Data → Option (Greedy Data)
  ftl_write blank lba num_sectors s =
      write_loop num_sectors blank (lba / sectors_per_page) (lba % sectors_per_page) num_sectors s
