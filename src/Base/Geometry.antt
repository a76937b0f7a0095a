-- ===== src/Base/Geometry.antt =====
-- The constants of include/jasmine.h, include/nand.h, include/bank.h and ftl_greedy/ftl.h as the
-- build sets them: K9LCG08U1M flash, two planes, the bank map 0x00330033, 65075200 bytes of DRAM.
use Prim.Native.Nat.{ℕ, ◌+◌, ◌-◌, ◌*◌, ◌/◌, ◌%◌}

abbrev pub bytes_per_sector : ℕ
bytes_per_sector = 512

abbrev pub num_banks : ℕ
num_banks = 8

abbrev pub num_banks_max : ℕ
num_banks_max = 32

-- SECTORS_PER_PHYPAGE * (CHN_WIDTH * NUM_PLANES)
abbrev pub sectors_per_page : ℕ
sectors_per_page = 16 * (2 * 2)

abbrev pub bytes_per_page : ℕ
bytes_per_page = bytes_per_sector * sectors_per_page

abbrev pub pages_per_blk : ℕ
pages_per_blk = 128

-- PBLKS_PER_BANK / NUM_PLANES
abbrev pub vblks_per_bank : ℕ
vblks_per_bank = (4096 + 56) / 2

abbrev pub spare_vblks_per_bank : ℕ
spare_vblks_per_bank = 56 / 2

abbrev pub num_vblks : ℕ
num_vblks = vblks_per_bank * num_banks

abbrev pub num_psectors : ℕ
num_psectors =
    sectors_per_page * pages_per_blk * ((vblks_per_bank - spare_vblks_per_bank) * num_banks)

abbrev pub num_lsectors : ℕ
num_lsectors = num_psectors / 100 * 93

abbrev pub num_lpages : ℕ
num_lpages = (num_lsectors + sectors_per_page - 1) / sectors_per_page

abbrev pub dram_base : ℕ
dram_base = 0x4000_0000

abbrev pub dram_size : ℕ
dram_size = 65075200

abbrev pub dram_ecc_unit : ℕ
dram_ecc_unit = 128

abbrev pub bad_blk_bmp_bytes : ℕ
bad_blk_bmp_bytes = (num_vblks / 8 + dram_ecc_unit - 1) / dram_ecc_unit * dram_ecc_unit

abbrev pub page_map_bytes : ℕ
page_map_bytes = (num_lpages * 4 + bytes_per_sector - 1) / bytes_per_sector * bytes_per_sector

abbrev pub vcount_bytes : ℕ
vcount_bytes =
    (num_banks * vblks_per_bank * 2 + bytes_per_sector - 1) / bytes_per_sector * bytes_per_sector

abbrev pub dram_bytes_other : ℕ
dram_bytes_other =
    (num_banks_max + num_banks + 1 + 1) * bytes_per_page
    + bad_blk_bmp_bytes
    + page_map_bytes
    + vcount_bytes

abbrev pub num_rw_buffers : ℕ
num_rw_buffers = (dram_size - dram_bytes_other) / bytes_per_page - 1

abbrev pub num_rd_buffers : ℕ
num_rd_buffers = (num_rw_buffers / 8 + num_banks - 1) / num_banks * num_banks

abbrev pub num_wr_buffers : ℕ
num_wr_buffers = num_rw_buffers - num_rd_buffers

abbrev pub rd_buf_addr : ℕ
rd_buf_addr = dram_base

abbrev pub wr_buf_addr : ℕ
wr_buf_addr = rd_buf_addr + num_rd_buffers * bytes_per_page

-- RD_BUF_PTR and WR_BUF_PTR
abbrev pub rd_buf_ptr : ℕ → ℕ
rd_buf_ptr id = rd_buf_addr + id * bytes_per_page

abbrev pub wr_buf_ptr : ℕ → ℕ
wr_buf_ptr id = wr_buf_addr + id * bytes_per_page

-- get_num_bank
abbrev pub get_num_bank : ℕ → ℕ
get_num_bank lpn = lpn % num_banks

-- MAPBLKS_PER_BANK and META_BLKS_PER_BANK of ftl_greedy/ftl.c
abbrev pub mapblks_per_bank : ℕ
mapblks_per_bank = (page_map_bytes / num_banks + bytes_per_page - 1) / bytes_per_page

abbrev pub meta_blks_per_bank : ℕ
meta_blks_per_bank = 1 + 1 + mapblks_per_bank
