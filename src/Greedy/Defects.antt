-- ===== src/Greedy/Defects.antt =====
-- `build_bad_blk_list` and then `format` of ftl_greedy/ftl.c: the bad blocks are those of the scan
-- lists, and the metadata are set up on the good ones.
use crypto_jasmine.Base.{
  ℕ, suc, ◌+◌, ◌-◌, ◌/◌, ◌≤◌, ◌<◌, ◌≡◌, ◌↔◌, refl, ap, sym, ◌∙◌, arith, Bool, true, false, ltb, leb,
  if◌then◌else◌, some,
}
use crypto_jasmine.Base.Geometry.{num_banks, vblks_per_bank, mapblks_per_bank}
use crypto_jasmine.Greedy.State.{vc_max}
use crypto_jasmine.Greedy.Format.{Ssd, format_metadata}
use crypto_jasmine.Greedy.Scan.{ScanList, Search, is_listed, build_bad_blk_list}
use crypto_jasmine.Greedy.Valid.{in_use}
use crypto_jasmine.Greedy.Next.{in_use-agree}
use crypto_jasmine.Greedy.Erased.{mark}
use crypto_jasmine.Greedy.Device.{AllValid}
use crypto_jasmine.Greedy.Formatted.{Usable}
use crypto_jasmine.Greedy.Reserved.{Reserved}
use crypto_jasmine.Greedy.Logged.{Placed}
use crypto_jasmine.Greedy.Ahead.{Tail}
use crypto_jasmine.Greedy.Opening.{format_metadata-Valid}
use crypto_jasmine.Greedy.BadBlocks.{
  Building, build_bad_blk_list-Building, listed_row, entries_of, list_of,
}
use crypto_jasmine.Greedy.Listed.{
  Searches, Trusted, Refused, entry, is_listed-Trusted, is_listed-Refused,
}

in_use-good :
    (n : ℕ) (f : ℕ → ℕ) (v : ℕ) → f (v + 1) ≡ 0 → in_use (suc n) f v ≡ 1 + in_use n f (v + 1)
unfolding in_use
in_use-good n f v e = rw e refl

module _ {Data : Type 0} (search : Search) (corrupt : ℕ → Bool) (lists : ℕ → ScanList)
    (d : Ssd Data) where
  abbrev built : Ssd Data
  built = build_bad_blk_list search corrupt lists d

  building : Building search corrupt lists d num_banks built
  building = build_bad_blk_list-Building search corrupt lists d

  abbrev row : ℕ → ℕ → ℕ
  row b = listed_row search (entries_of corrupt lists b) (list_of corrupt lists b)

  bad-listed :
      (b u : ℕ)
      → b < num_banks
      → 0 < u
      → u < vblks_per_bank
      → built.bad b u ≡ is_listed search (entries_of corrupt lists b) u (list_of corrupt lists b)
  bad-listed b u hb lo hi =
      let e = ((building).built b hb).bad u in
      let at : leb 1 u ≡ true = ground arith in
      let within : ltb u vblks_per_bank ≡ true = ground arith in e ∙ rw (at, within) refl

  mark-row : (b u : ℕ) → b < num_banks → 0 < u → u < vblks_per_bank → mark built b u ≡ row b u
  mark-row b u hb lo hi = ap (λ x. if x then vc_max else 0) (bad-listed b u hb lo hi)

  -- The count of a bank is the number of its bad blocks behind block 0: with the good ones they are
  -- all blocks.
  pub count-all :
      (b : ℕ)
      → b < num_banks
      → built.bad_cnt b + in_use (vblks_per_bank - 1) (mark built b) 0 ≡ vblks_per_bank - 1
  count-all b hb =
      let same =
        in_use-agree (vblks_per_bank - 1) (mark built b) (row b) 0
          (λ u lo hi. mark-row b u hb lo (omega arith)) in
      let c = ((building).built b hb).cnt in ap (λ n. built.bad_cnt b + n) same ∙ c

  -- If the scan list of a bank is trusted, its bad blocks are those that an entry names one of the two
  -- planes of, and they are counted.
  pub build_bad_blk_list-Trusted :
      Searches search
      → (b u : ℕ) → b < num_banks
      → 0 < u
      → u < vblks_per_bank
      → Trusted (corrupt b) (lists b)
      → ((built.bad b u ≡ true)
          ↔ ((i : ℕ) × (i < (lists b).num_entries) × (entry (lists b) i / 2 ≡ u)))
        × (built.bad_cnt b + in_use (vblks_per_bank - 1) (mark built b) 0 ≡ vblks_per_bank - 1)
  build_bad_blk_list-Trusted s b u hb lo hi t =
      let (to, from) = is_listed-Trusted search s (corrupt b) (lists b) u t lo in
      let e = bad-listed b u hb lo hi in ((λ h. to (sym e ∙ h), λ x. e ∙ from x), count-all b hb)

  -- If it is not, because its page is corrupt, it is too long or an entry is no block of the bank, the
  -- one block is taken for bad that the count of the list happens to name a plane of.
  pub build_bad_blk_list-Refused :
      Searches search
      → (b u : ℕ) → b < num_banks
      → 0 < u
      → u < vblks_per_bank
      → Refused (corrupt b) (lists b)
      → (built.bad b u ≡ true) ↔ ((lists b).num_entries / 2 ≡ u)
  build_bad_blk_list-Refused s b u hb lo hi t =
      let (to, from) = is_listed-Refused search s (corrupt b) (lists b) u t in
      let e = bad-listed b u hb lo hi in (λ h. to (sym e ∙ h), λ x. e ∙ from x)

  -- A bank whose block 1 is good and that has not too many bad blocks can be set up.
  built-Usable :
      (b : ℕ)
      → b < num_banks
      → built.bad b 1 ≡ false
      → built.bad_cnt b + mapblks_per_bank + 4 ≤ vblks_per_bank
      → (d.ftl.misc b).lpn_list_of_cur_vblock 0 ≡ 0
      → Usable b built
  built-Usable b hb first few list =
      let all = count-all b hb in
      let good_first : mark built b 1 ≡ 0 = ap (λ x. if x then vc_max else 0) first in
      let two = in_use-good 2074 (mark built b) 0 good_first in
      record {
        enough = omega (arith, all, two, few);
        number = omega (arith, all, two);
        list = ap (λ s. (s.misc b).lpn_list_of_cur_vblock 0) ((building).ftl) ∙ list;
        misc_block = first;
      }

  -- When the scan lists were read, a format sets the device up, whatever the lists say, if in each
  -- bank block 1 is not marked bad, the count of bad blocks leaves blocks for the map, the
  -- collections and the data, and the list of the current block starts with 0: the metadata are in
  -- step, the map blocks are blocks of their own, and the misc. block is erased.
  pub build_bad_blk_list-format_metadata :
      (blank : Data)
      → ((b : ℕ) → b < num_banks → built.bad b 1 ≡ false)
      → ((b : ℕ) → b < num_banks → built.bad_cnt b + mapblks_per_bank + 4 ≤ vblks_per_bank)
      → ((b : ℕ) → b < num_banks → (d.ftl.misc b).lpn_list_of_cur_vblock 0 ≡ 0)
      → (d' : Ssd Data) × (format_metadata blank built ≡ some d')
        × AllValid d'.ftl
        × ((l : ℕ) → d'.ftl.page_map l ≡ 0)
        × Placed d'
        × Tail d'
        × Reserved d'
  build_bad_blk_list-format_metadata blank first few list =
      format_metadata-Valid blank built (λ b h. built-Usable b h (first b h) (few b h) (list b h))
