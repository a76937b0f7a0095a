-- ===== src/Greedy/Open.antt =====
-- `format` and `ftl_open` of ftl_greedy/ftl.c, which formats on every start.
use crypto_jasmine.Base.{ℕ, Bool, Option, some, ◌>>=◌}
use crypto_jasmine.Greedy.State.{Greedy}
use crypto_jasmine.Greedy.Format.{Ssd, format_metadata}
use crypto_jasmine.Greedy.Log.{logging_pmap_table, logging_misc_metadata}
use crypto_jasmine.Greedy.Scan.{ScanList, Search, build_bad_blk_list}

module _ {Data : Type 0} where
  -- `format` up to the format mark
  unfoldable pub format : Data → Ssd Data → Option (Ssd Data)
  format blank d = do
    d ← format_metadata blank d
    some (logging_misc_metadata blank (logging_pmap_table blank d))

  -- The end of `ftl_open`
  unfoldable pub reset_buffers : Ssd Data → Ssd Data
  reset_buffers d =
      let s : Greedy Data = d.ftl in
      record d { ftl = record s { next_read_buf = 0; next_write_buf = 0 } }

  unfoldable pub ftl_open :
      Search → (corrupt : ℕ → Bool) → (lists : ℕ → ScanList) → Data → Ssd Data → Option (Ssd Data)
  ftl_open search corrupt lists blank d = do
    d ← format blank (build_bad_blk_list search corrupt lists d)
    some (reset_buffers d)
