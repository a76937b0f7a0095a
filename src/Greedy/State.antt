-- ===== src/Greedy/State.antt =====
-- The metadata of ftl_greedy/ftl.c, and the flash and the buffers that it works on.
use crypto_jasmine.Base.{ℕ, ◌+◌, ◌%◌, Bool, ◌&&◌, ltb, leb, if◌then◌else◌, upd}
use crypto_jasmine.Base.Words.{u16_mod}
use crypto_jasmine.Base.Geometry.{num_rd_buffers, num_wr_buffers}

-- VC_MAX
abbrev pub vc_max : ℕ
vc_max = 0xcdcd

-- `misc_metadata`, less the positions of the logs, and `ftl_statistics`, of one bank.
pub record Misc : Type 0 where
  pub cur_write_vpn : ℕ
  pub gc_vblock : ℕ
  pub free_blk_cnt : ℕ
  pub lpn_list_of_cur_vblock : ℕ → ℕ
  pub gc_cnt : ℕ
  pub page_wcount : ℕ

-- `data` is what a sector holds. The flash has it by bank, physical page and sector. The last page
-- of a block holds a list of 128 logical page numbers, which `lists` has by bank and block; between
-- it and the list in `misc` the list passes through FTL_BUF, which nothing else is kept in.
-- `next_read_buf` and `next_write_buf` are g_ftl_read_buf_id and g_ftl_write_buf_id. `search_min` is
-- mem_search_min_max for a minimum among `num_items` words, which the memory utility of the controller
-- does: the model does not say how.
pub record Greedy (Data : Type 0) : Type 0 where
  pub misc : ℕ → Misc
  pub page_map : ℕ → ℕ
  pub vcount : ℕ → ℕ → ℕ
  pub flash : (bank vpn sector : ℕ) → Data
  pub lists : (bank vblock page : ℕ) → ℕ
  pub write_buf : (id sector : ℕ) → Data
  pub read_buf : (id sector : ℕ) → Data
  pub next_read_buf : ℕ
  pub next_write_buf : ℕ
  pub search_min : (num_items : ℕ) → (ℕ → ℕ) → ℕ

-- A sector of those that a command of `count` sectors from `first` on names.
abbrev pub among : (first count sector : ℕ) → Bool
among first count sector = leb first sector && ltb sector (first + count)

module _ {Data : Type 0} where
  unfoldable pub get_vpn : Greedy Data → ℕ → ℕ
  get_vpn s lpn = s.page_map lpn

  -- Its callers name a page of the map: `write_page` sees to it, and a collection moves pages that the
  -- map has.
  unfoldable pub set_vpn : ℕ → ℕ → Greedy Data → Greedy Data
  set_vpn lpn vpn s = record s { page_map = upd (s.page_map) lpn vpn }

  unfoldable pub get_vcount : Greedy Data → ℕ → ℕ → ℕ
  get_vcount s bank vblock = s.vcount bank vblock

  -- The counts have 16 bits.
  unfoldable pub set_vcount : (bank vblock count : ℕ) → Greedy Data → Greedy Data
  set_vcount bank vblock count s = record s {
    vcount = upd (s.vcount) bank (upd (s.vcount bank) vblock (count % u16_mod));
  }

  -- A change of the metadata of one bank.
  unfoldable pub set_misc : ℕ → Misc → Greedy Data → Greedy Data
  set_misc bank m s = record s { misc = upd (s.misc) bank m }

  unfoldable pub set_lpn : (bank page lpn : ℕ) → Greedy Data → Greedy Data
  unfolding set_misc
  set_lpn bank page lpn s =
      let m : Misc = s.misc bank in
      set_misc bank (record m { lpn_list_of_cur_vblock = upd (m.lpn_list_of_cur_vblock) page lpn })
        s

  -- nand_page_ptprogram_from_host: sectors of a page are programmed from the write buffer.
  unfoldable pub ptprogram_from_host : (bank vpn first count : ℕ) → Greedy Data → Greedy Data
  ptprogram_from_host bank vpn first count s =
      let page = λ (i : ℕ).
        if among first count i then s.write_buf (s.next_write_buf) i else s.flash bank vpn i in
      record s {
        flash = upd (s.flash) bank (upd (s.flash bank) vpn page);
        next_write_buf = (s.next_write_buf + 1) % num_wr_buffers;
      }

  -- nand_page_ptread into a page of the write buffer: its sectors from `first` on
  unfoldable pub ptread : (bank vpn first count id : ℕ) → Greedy Data → Greedy Data
  ptread bank vpn first count id s =
      let page = λ (i : ℕ). if among first count i then s.flash bank vpn i else s.write_buf id i in
      record s { write_buf = upd (s.write_buf) id page }

  -- nand_page_ptread_to_host, after its wait for a free read buffer
  unfoldable pub ptread_to_host : (bank vpn first count : ℕ) → Greedy Data → Greedy Data
  ptread_to_host bank vpn first count s =
      let id : ℕ = s.next_read_buf in
      let page = λ (i : ℕ). if among first count i then s.flash bank vpn i else s.read_buf id i in
      record s { read_buf = upd (s.read_buf) id page; next_read_buf = (id + 1) % num_rd_buffers }

  -- nand_page_copyback: on the configured flash, one die and both planes at once, `do_copyback` is
  -- TRUE for every two pages, and the flash copies the page itself.
  unfoldable pub copyback : (bank src dst : ℕ) → Greedy Data → Greedy Data
  copyback bank src dst s = record s {
    flash = upd (s.flash) bank (upd (s.flash bank) dst (s.flash bank src));
  }
