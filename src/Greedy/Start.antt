-- ===== src/Greedy/Start.antt =====
-- `ftl_open` of ftl_greedy/ftl.c: the device that the host finds.
use crypto_jasmine.Base.{ℕ, ◌+◌, ◌≤◌, ◌<◌, ◌≡◌, refl, ap, ◌∙◌, arith, Bool, false, none, some}
use crypto_jasmine.Base.Geometry.{num_banks, vblks_per_bank, mapblks_per_bank}
use crypto_jasmine.Greedy.Valid.{Open}
use crypto_jasmine.Greedy.Others.{Kept-Open}
use crypto_jasmine.Greedy.Device.{AllValid}
use crypto_jasmine.Greedy.Placing.{none-some}
use crypto_jasmine.Greedy.Format.{Ssd, format_metadata}
use crypto_jasmine.Greedy.Log.{ftl_flush}
use crypto_jasmine.Greedy.Scan.{ScanList, Search, build_bad_blk_list}
use crypto_jasmine.Greedy.Open.{format, reset_buffers, ftl_open}
use crypto_jasmine.Greedy.Disk.{Disk}
use crypto_jasmine.Greedy.Refine.{Idle}
use crypto_jasmine.Greedy.Flushed.{Saves, Unchanged, ftl_flush-Saves}
use crypto_jasmine.Greedy.Reserved.{Reserved}
use crypto_jasmine.Greedy.Spared.{Spared-AllValid}
use crypto_jasmine.Greedy.Homes.{ftl_flush-Spared}
use crypto_jasmine.Greedy.Defects.{build_bad_blk_list-format_metadata}

module _ {Data : Type 0} where
  -- A disk that nothing was written to
  abbrev pub empty : Disk Data
  empty m i = none

  reset-Valid : (b n : ℕ) (d : Ssd Data) → Open b n (d.ftl) → Open b n ((reset_buffers d).ftl)
  unfolding reset_buffers
  reset-Valid b n d o =
      Kept-Open b n (d.ftl) ((reset_buffers d).ftl)
        (record { map = λ l h. refl; counts = λ u. refl; misc = refl; lists = λ v j. refl }) o

  reset-Idle :
      (blank : Data) (d : Ssd Data)
      → AllValid (d.ftl)
      → ((l : ℕ) → d.ftl.page_map l ≡ 0)
      → Idle blank ((reset_buffers d).ftl) empty
  unfolding reset_buffers
  reset-Idle blank d all unmapped = record {
    valid = λ b h. reset-Valid b _ d (all b h);
    turn = omega arith;
    shows = λ m i h x e. none-some none refl e;
    in_map = λ l pos. let z = unmapped l in absurd (omega arith);
  }

  -- What was saved is what the device still has.
  reset-Saves :
      (e f : Ssd Data) → Saves e f → Unchanged e f → Saves (reset_buffers f) (reset_buffers f)
  unfolding reset_buffers
  reset-Saves e f s u = record {
    placed = record { few = s.placed.few; past = s.placed.past; apart = s.placed.apart };
    tail = record { from = s.tail.from; to = s.tail.to; erased = s.tail.erased };
    cur-from = s.cur-from;
    map = λ q h. rw (u.map) (s.map q h);
    misc = λ b h. rw (u.misc, u.vcount) (s.misc b h);
  }

module _ {Data : Type 0} (search : Search) (corrupt : ℕ → Bool) (lists : ℕ → ScanList)
    (d : Ssd Data) (blank : Data) where
  -- The start of the device, if in each bank block 1 is not marked bad, the count of bad blocks leaves
  -- blocks for the map, the collections and the data, and the list of the current block starts with 0:
  -- `ftl_open` comes to an end, the device is idle with the empty disk, no logical page is mapped,
  -- the logs have the metadata, and the counts keep the blocks of the logs from the data.
  pub ftl_open-Idle :
      ((b : ℕ) → b < num_banks → (build_bad_blk_list search corrupt lists d).bad b 1 ≡ false)
      → ((b : ℕ)
          → b < num_banks
          → (build_bad_blk_list search corrupt lists d).bad_cnt b + mapblks_per_bank + 4
            ≤ vblks_per_bank)
      → ((b : ℕ) → b < num_banks → (d.ftl.misc b).lpn_list_of_cur_vblock 0 ≡ 0)
      → (d' : Ssd Data) × (ftl_open search corrupt lists blank d ≡ some d')
        × Idle blank (d'.ftl) empty
        × ((l : ℕ) → d'.ftl.page_map l ≡ 0)
        × Saves d' d'
        × Reserved d'
  unfolding ftl_open format ftl_flush reset_buffers
  ftl_open-Idle first few list =
      let (e, eq, valid, unmapped, placed, tail, reserved) =
        build_bad_blk_list-format_metadata search corrupt lists d blank first few list in
      let f : Ssd Data = ftl_flush blank e in
      let (saves, same) = ftl_flush-Saves blank e placed tail in
      let (kept, reserved') = ftl_flush-Spared blank e placed reserved in
      (
        reset_buffers f,
        opened e eq,
        reset-Idle blank f (Spared-AllValid (e.ftl) (f.ftl) kept valid)
            (λ l. ap (λ g. g l) (same.map) ∙ unmapped l),
        λ l. ap (λ g. g l) (same.map) ∙ unmapped l,
        reset-Saves e f saves same,
        λ b h. let k = reserved' b h in record { misc = k.misc; maps = k.maps },
      )
    where
      opened :
          (e : Ssd Data)
          → format_metadata blank (build_bad_blk_list search corrupt lists d) ≡ some e
          → ftl_open search corrupt lists blank d ≡ some (reset_buffers (ftl_flush blank e))
      opened e eq = rw eq refl
