-- ===== src/Greedy/Scan.antt =====
-- `build_bad_blk_list` of ftl_greedy/ftl.c, from the scan lists on.
use crypto_jasmine.Base.{
  ℕ, zero, suc, ◌+◌, ◌-◌, ◌*◌, ◌/◌, ◌%◌, Bool, true, false, ◌||◌, ltb, leb, ◌==◌, if◌then◌else◌,
  upd,
}
use crypto_jasmine.Base.Geometry.{num_banks, vblks_per_bank}
use crypto_jasmine.Base.Words.{add32}
use crypto_jasmine.Greedy.Format.{Ssd}

-- PBLKS_PER_BANK
abbrev pub pblks_per_bank : ℕ
pblks_per_bank = 4096 + 56

-- SCAN_LIST_ITEMS
abbrev pub scan_list_items : ℕ
scan_list_items = 16384 / 2 - 1

-- `scan_list_t`, words of 16 bits
pub record ScanList : Type 0 where
  pub num_entries : ℕ
  pub list : ℕ → ℕ

-- The check of the `n` entries from `i` on: whether all are blocks of the bank, and the list, where
-- the good ones have lost their top bit.
unfoldable pub check_entries : (n i : ℕ) → Bool → ScanList → Bool × ScanList
check_entries zero i ok l = (ok, l)
check_entries (suc n) i ok l =
    let pblk_offset : ℕ = l.list i % 0x8000 in
    if pblk_offset == 0 || leb pblks_per_bank pblk_offset
    then check_entries n (i + 1) false l
    else check_entries n (i + 1) ok (record l { list = upd (l.list) i pblk_offset })

-- The list of a bank as it is searched, and the number of its entries: none if the page is corrupt
-- or the list is wrong, and then the word before the entries stays what it was.
unfoldable pub read_scan_list : (corrupt : Bool) → ScanList → ℕ × ScanList
unfolding check_entries
read_scan_list corrupt l =
    let (ok, checked) = check_entries (l.num_entries) 0 true l in
    if corrupt || ltb scan_list_items (l.num_entries)
    then (0, l)
    else if ok
    then (l.num_entries, record checked { num_entries = 0 })
    else (0, checked)

-- mem_search_equ_dram on words of 16 bits: the place of a value among the first `num_items` words.
-- The search is done by the memory utility of the controller.
abbrev pub Search : Type 0
Search = (num_items val : ℕ) → (ℕ → ℕ) → ℕ

-- The list as words, the number of its entries first
abbrev pub words_of : ScanList → ℕ → ℕ
words_of l zero = l.num_entries
words_of l (suc i) = l.list i

-- A block is bad if one of its two planes is in the list.
unfoldable pub is_listed : Search → (num_entries vblk_offset : ℕ) → ScanList → Bool
is_listed search num_entries vblk_offset l =
    let n : ℕ = num_entries + 1 in
    ltb (search n (vblk_offset * 2) (words_of l)) n
    || ltb (search n (vblk_offset * 2 + 1) (words_of l)) n

module _ {Data : Type 0} (search : Search) where
  -- The bits and the count of a bank, for the `n` blocks from `vblk_offset` on
  unfoldable pub mark_bad_blocks :
      (n bank vblk_offset num_entries : ℕ) → ScanList → Ssd Data → Ssd Data
  mark_bad_blocks zero bank vblk_offset num_entries l d = d
  mark_bad_blocks (suc n) bank vblk_offset num_entries l d =
      let marked : Ssd Data = record d {
        bad = upd (d.bad) bank (upd (d.bad bank) vblk_offset true);
        bad_cnt = upd (d.bad_cnt) bank (add32 (d.bad_cnt bank) 1);
      } in
      let d : Ssd Data = if is_listed search num_entries vblk_offset l then marked else d in
      mark_bad_blocks n bank (vblk_offset + 1) num_entries l d

  unfoldable pub build_bank : (corrupt : Bool) → ScanList → (bank : ℕ) → Ssd Data → Ssd Data
  build_bank corrupt l bank d =
      let (num_entries, l) = read_scan_list corrupt l in
      mark_bad_blocks (vblks_per_bank - 1) bank 1 num_entries l
        (record d { bad_cnt = upd (d.bad_cnt) bank 0 })

  -- The `n` banks from `bank` on
  unfoldable pub build_banks :
      (n : ℕ) → (corrupt : ℕ → Bool) → (lists : ℕ → ScanList) → (bank : ℕ) → Ssd Data → Ssd Data
  build_banks zero corrupt lists bank d = d
  build_banks (suc n) corrupt lists bank d =
      build_banks n corrupt lists (bank + 1) (build_bank (corrupt bank) (lists bank) bank d)

  -- What is read from the flash are the scan lists, and whether their pages are corrupt.
  unfoldable pub build_bad_blk_list :
      (corrupt : ℕ → Bool) → (lists : ℕ → ScanList) → Ssd Data → Ssd Data
  build_bad_blk_list corrupt lists d =
      let none_bad : ℕ → ℕ → Bool = λ b v. false in
      build_banks num_banks corrupt lists 0 (record d { bad = none_bad })
