-- ===== src/Greedy/Examples.antt =====
-- ftl_greedy/ftl.c on a device without bad blocks, and the theorems on its metadata and logs there.
use crypto_jasmine.Base.{
  ℕ, ◌+◌, ◌*◌, ◌<◌, ◌≡◌, inl, inr, refl, sym, ◌∙◌, arith, true, false, none, some, ltb,
  if◌then◌else◌, ==-ne, tally-below, some-unique,
}
use crypto_jasmine.Base.Geometry.{pages_per_blk, sectors_per_page}
use crypto_jasmine.Greedy.State.{
  Misc, Greedy, vc_max, set_misc, set_lpn, set_vpn, get_vpn, get_vcount, set_vcount,
  ptprogram_from_host, among,
}
use crypto_jasmine.Greedy.Write.{
  write_page, assign_new_write_vpn, set_new_write_vpn, write_at, count_write, program,
}
use crypto_jasmine.Greedy.Tests.{first_min}
use crypto_jasmine.Greedy.Read.{ftl_write, read_page}
use crypto_jasmine.Greedy.Loops.{write_page-read_page}
use crypto_jasmine.Greedy.Written.{Written}
use crypto_jasmine.Greedy.Valid.{Pages, owner, holds, in_use}
use crypto_jasmine.Greedy.Next.{in_use-all}
use crypto_jasmine.Greedy.Assign.{Ripe}
use crypto_jasmine.Greedy.Erasure.{Once}
use crypto_jasmine.Greedy.Clean.{AllClean}
use crypto_jasmine.Greedy.Turns.{Used}
use crypto_jasmine.Greedy.Device.{AllValid, InMap, write_page-Valid}
use crypto_jasmine.Greedy.Disk.{Disk, put, Calm}
use crypto_jasmine.Greedy.Refine.{Idle, ftl_write-Idle}
use crypto_jasmine.Greedy.Format.{Ssd, Logs, all_ff}
use crypto_jasmine.Greedy.Log.{ftl_flush}
use crypto_jasmine.Greedy.Load.{load_metadata}
use crypto_jasmine.Greedy.Reserved.{Reserved}
use crypto_jasmine.Greedy.Homes.{ftl_flush-Idle}
use crypto_jasmine.Greedy.Logged.{Placed}
use crypto_jasmine.Greedy.Ahead.{Tail}
use crypto_jasmine.Greedy.Loaded.{SameLogs}
use crypto_jasmine.Greedy.Power.{Recovered, ftl_flush-load_metadata}

-- Blocks 0 to 31 are for the firmware and the logs, block 32 for the collections; 33 is the first
-- for data.
abbrev start : Misc
start = record {
  cur_write_vpn = 4224;
  gc_vblock = 32;
  free_blk_cnt = 2044;
  lpn_list_of_cur_vblock = λ j. 0;
  gc_cnt = 0;
  page_wcount = 0;
}

abbrev fresh : Greedy ℕ
fresh = record {
  misc = λ b. start;
  page_map = λ l. 0;
  vcount = λ b v. if ltb v 33 then vc_max else 0;
  flash = λ b v i. 255;
  lists = λ b v j. 0xffff_ffff;
  write_buf = λ n i. 1000 + i;
  read_buf = λ n i. 0;
  next_read_buf = 0;
  next_write_buf = 0;
  search_min = first_min;
}

fresh-free : in_use 2042 (fresh.vcount 0) 33 ≡ 2042
fresh-free = in_use-all 2042 (fresh.vcount 0) 33 (λ u h k e. absurd (ground arith))

nothing_holds : (b v j : ℕ) → 0 < v → holds b (owner b fresh) fresh v j ≡ false
nothing_holds b v j pos =
    rw (==-ne 0 (v * pages_per_blk + j) (λ e. absurd (omega arith))) (ground arith)

fresh-Pages : (b : ℕ) → Pages b (owner b fresh) fresh
fresh-Pages b = record {
  one = λ l m hl hm pos. absurd (omega arith);
  low = λ l h pos. absurd (omega arith);
  used = λ l h pos. absurd (omega arith);
  named = λ l h pos. absurd (omega arith);
  counted = λ v used.
      let pos : 0 < v = ground arith in
      let zeroth : fresh.vcount b v ≡ 0 = ground arith in
      zeroth
      ∙ sym (
          tally-below 127 0 {p = holds b (owner b fresh) fresh v} (omega arith)
            (λ j h. absurd (omega arith)) (λ j h lo. nothing_holds b v j pos));
  meta_block = refl;
  spare = refl;
  gc-pos = omega arith;
  gc-lt = omega arith;
}

fresh-AllValid : AllValid fresh
fresh-AllValid b h = record {
  pages = fresh-Pages b;
  cur-lt = omega arith;
  cur-used = λ e. absurd (omega arith);
  cur-low = omega arith;
  behind = λ l h b. absurd (omega arith);
  own_list = λ j h. inr refl;
  own_lists = λ v j lt used old h. absurd (elim old [
    | inl before ↦ used (ground arith)
    | inr two ↦ let no = two.1 in absurd (omega arith)
  ]);
  phase = inr (omega (arith, fresh-free), λ l h. omega arith);
}

fresh-InMap : InMap fresh
fresh-InMap l pos = absurd (omega arith)

fresh-AllClean : AllClean 255 fresh
fresh-AllClean b h = record {
  ahead = λ w e lo p i. refl;
  spare = λ w e p i. refl;
  to_come = λ more w lo hi u p i. refl;
}

fresh-Ripe : (b : ℕ) → Ripe b fresh
fresh-Ripe b full two = absurd (omega arith)

write_page-Valid_example :
    (s' : Greedy ℕ) × (write_page 255 8 3 2 fresh ≡ some s')
    × Written 8 3 2 fresh s'
    × AllValid s'
    × Used fresh s'
    × AllClean 255 s'
    × InMap s'
    × Once 255 fresh s'
write_page-Valid_example =
    write_page-Valid 255 8 3 2 fresh (omega arith) (omega arith) fresh-AllValid fresh-AllClean
      fresh-InMap (fresh-Ripe 0)

write_page-read_page_example :
    (s' : Greedy ℕ) × (write_page 255 8 3 2 fresh ≡ some s')
    × ((i : ℕ)
        → i < sectors_per_page
        → among 3 2 i ≡ true
        → (read_page 255 8 3 2 s').read_buf s'.next_read_buf i ≡ 1000 + i)
    × AllValid s'
    × AllClean 255 s'
    × InMap s'
write_page-read_page_example =
    write_page-read_page 255 8 3 2 fresh (omega arith) (omega arith) fresh-AllValid fresh-AllClean
      fresh-InMap (fresh-Ripe 0)

-- The first page of a command of two
one_page : Greedy ℕ
unfolding write_at set_new_write_vpn
one_page = write_at 0 4225 60 4 (set_new_write_vpn 0 4225 fresh)

one_page-written : write_page 255 0 60 4 fresh ≡ some one_page
unfolding write_page assign_new_write_vpn one_page
one_page-written = refl

one_page-other : (one_page.misc 1).cur_write_vpn ≡ 4224
unfolding one_page write_at set_new_write_vpn set_misc get_vpn count_write program
    ptprogram_from_host set_lpn set_vpn set_vcount get_vcount
one_page-other = refl

fresh-Calm : Calm 255 10 0 60 10 fresh
unfolding Calm
fresh-Calm more = (
  fresh-Ripe 0,
  λ s e more'. (
    λ full two.
        let cur : (s.misc 1).cur_write_vpn ≡ 4224 =
          some-unique (λ (t : Greedy ℕ). (t.misc 1).cur_write_vpn ≡ 4224) one_page-written e
            one_page-other in
        absurd (omega arith),
    λ s' e' more''. absurd (more'' refl),
  ),
)

nothing : Disk ℕ
nothing m i = none

fresh-Idle : Idle 255 fresh nothing
unfolding nothing
fresh-Idle = record {
  valid = fresh-AllValid;
  turn = omega arith;
  shows = λ m i h x e. cc;
  in_map = fresh-InMap;
}

ftl_write-Idle_example :
    (s' : Greedy ℕ) × (ftl_write 255 60 10 fresh ≡ some s')
    × Idle 255 s' (put 0 60 10 0 fresh.write_buf nothing)
    × AllClean 255 s'
ftl_write-Idle_example =
    ftl_write-Idle 255 60 10 fresh nothing (omega arith) (omega arith) fresh-Idle fresh-AllClean
      fresh-Calm

abbrev logs : Logs
logs = record {
  cur_miscblk_vpn = λ b. 127;
  cur_mapblk_vpn = λ b l. (2 + l) * 128;
  pages = λ b v. all_ff;
  ftl_buf = λ b. all_ff;
}

abbrev pub ssd : Ssd ℕ
ssd = record {
  ftl = fresh;
  logs = logs;
  bad = λ b v. false;
  bad_cnt = λ b. 0;
  sectors_of = λ p i. 77;
  list_of = λ p j. 0;
}

ssd-Placed : Placed ssd
ssd-Placed = record {
  few = λ b l hb hl. omega arith;
  past = λ b l hb hl. omega arith;
  apart = λ b l k hb hl hk e. omega arith;
}

ssd-Tail : Tail ssd
ssd-Tail = record {
  from = λ b h. omega arith;
  to = λ b h. omega arith;
  erased = λ b v h lo hi. refl;
}

-- What is left of the device are the logs.
blank_but_logs : Ssd ℕ
blank_but_logs =
    let l : Logs = logs in record ssd { logs = record l { pages = (ftl_flush 255 ssd).logs.pages } }

blank_but_logs-SameLogs : SameLogs (ftl_flush 255 ssd) blank_but_logs
unfolding blank_but_logs
blank_but_logs-SameLogs b v = refl

ftl_flush-load_metadata_example :
    (t : Ssd ℕ) × (load_metadata blank_but_logs ≡ some t) × Recovered ssd (ftl_flush 255 ssd) t
ftl_flush-load_metadata_example =
    ftl_flush-load_metadata 255 ssd blank_but_logs ssd-Placed ssd-Tail blank_but_logs-SameLogs

ssd-Reserved : Reserved ssd
ssd-Reserved b h = record { misc = refl; maps = λ l hl. ground arith }

ftl_flush-Idle_example : Idle 255 ((ftl_flush 255 ssd).ftl) nothing × Reserved (ftl_flush 255 ssd)
ftl_flush-Idle_example = ftl_flush-Idle 255 ssd nothing ssd-Placed ssd-Reserved fresh-Idle
