-- ===== src/Lib.antt =====
-- CryptoJasmine: an OpenSSD Jasmine firmware with an encrypted key exchange in front of it.
--
-- The program. A host sends SATA commands. `Main` of sata/sata_main.c takes them from the event
-- queue, one in a round of its loop. Before a host is authenticated it hands them to
-- `authentication`, an encrypted key exchange whose messages travel as the data of a WRITE to
-- sector 102 and of a READ of sector 96; the arithmetic of the exchange is in target_spw/eke.c. An
-- authenticated host's commands go through `authorization` to the translation layer, until a timer
-- ends the session.
--
-- The files.
--   Base           the names that the others share: the libraries', Boolean tests (Base/Tests), lists
--                  over the native numbers (Base/Lists), code without a defined result (Base/Partial),
--                  memory as functions (Base/Stores), machine words (Base/Words), and
--                  the constants of the configured device from include/jasmine.h, nand.h, bank.h and
--                  ftl_greedy/ftl.h (Base/Geometry).
--   Eke            target_spw/eke.c: mul_mod_p, pow_mod_p, powmodp, randomint64, randomint32, md5Hash.
--                  Eke/Mul, Pow, Agreement and Hash have the proofs.
--   Session        sata/sata_main.c. Session/State: the globals and the static variables as a record,
--                  the enumerations of include/jasmine.h. Session/Buffers: getData, sendData,
--                  decryptBuffer, encryptBuffer, badRead. Session/Authentication: authentication, one
--                  definition for each case of its switch. Session/MainLoop: authorization, eventq_get
--                  and the loop of Main, one round as a function of the timer and the event.
--                  Session/Quiet, Transitions and Rounds have the lemmas on single operations;
--                  Session/Strings, Access, Runs, Permissions and Protocol the
--                  results.
--   Greedy         ftl_greedy/ftl.c, and the operations of target_spw/flash_wrapper.c that it uses.
--                  Greedy/State: the metadata, the flash by bank, page and sector, the buffers.
--                  Greedy/Collect: get_vt_vblock, garbage_collection. Greedy/Write:
--                  assign_new_write_vpn, write_page. Greedy/Read: the loops of ftl_read and ftl_write.
--                  Greedy/Format: init_metadata_sram and format, up to the first logs. Greedy/Log:
--                  logging_misc_metadata, logging_pmap_table, ftl_flush. Greedy/Load: load_metadata.
--                  Greedy/Scan: build_bad_blk_list.
--                  Greedy/Open: format and ftl_open.
--                  Proofs: Greedy/Copying, Collected, Holes, Written, Rooms, Pages, Victim and Loops
--                  on the data; Greedy/Valid, what holds of the metadata between commands, and Next,
--                  Swapped, Closing, Opened, Assign, Marks, Programmed, Others and Device, that
--                  write_page keeps it; Greedy/Erasure and Clean, on what is erased and programmed; Greedy/Turns on the write buffers; Greedy/Disk and Refine,
--                  ftl_write against a disk of sectors; Greedy/Erased, Initial, Formatted, Placing and
--                  Opening on the format; Greedy/BadBlocks, Listed and Defects on the bad blocks;
--                  Greedy/Logged, Ahead, Flushed, Loaded, Restored and Power on the
--                  logs; Greedy/Reserved, Spared and Homes on the blocks of the logs and the data;
--                  Greedy/Start on ftl_open.
--   Shashtbl       target_spw/shashtbl.c, the hash table of ftl_faster: Shashtbl/Table has the hash
--                  function and the operations, Shashtbl/Chain, Put, Insert, Update, Cut, Remove
--                  and Removed the proofs. The number of buckets and the place of the nodes are parameters.
--   Users          target_spw/passwordList.c, which no other file calls yet. Users/List: the list in its
--                  heap and every function on it; Users/Permissions and Cycle have the proofs.
--
-- The model. Numbers are natural numbers with the wrap-around of their C type written out; arrays
-- are lists. `none` is code without a defined result: a write out of bounds or through a null
-- pointer, or a recursion that does not end. The recursion of pow_mod_p has a bound on its depth;
-- 64 is enough for every exponent from 1 on, and no bound is for 0. The loops of ftl_read and
-- ftl_write have the number of sectors as their bound, since each round has one at least; the
-- search for the next block has the number of blocks behind the current one. A walk over the list
-- of users or over a chain of the hash table needs one step for each node; where a walk is said
-- never to end, that is for every bound. A run of the firmware is a sequence of rounds; what a
-- round reads (the timer, the event, the DRAM behind the host's transfer) is its input.
--
-- Parameters. The AES library (target_spw/aes.c) and the MD5 library (target_spw/md5.c) are copies
-- of other projects' code and stand as functions in records (Session/State, Eke), with the state
-- that they keep between calls; `rand` is the sequence of its results. The bytes behind two arrays
-- that the code reads are parameters too. The session uses the translation layer by its two calls,
-- as the record Ftl, and the handlers of slow commands, which may flush it, are in that record too.
-- The search for a least count (mem_search_min_max) is a field of the state, Greedy.search_min, and
-- what it promises is the record Minimum of Greedy/Victim. The search of the memory utility (mem_search_equ_dram) is a parameter of
-- build_bad_blk_list, and what it promises is the record Searches of Greedy/Listed; the scan lists,
-- and whether their pages were corrupt, are what that code reads.
--
-- The metadata. A page of the logs is what was put there (Format.LogPage), not its bytes. The two
-- loops of logging_pmap_table and of load_pmap_table are one over the pages of the map, and where a
-- loop reads for all banks and then looks at all banks, one round does both for a bank, since each
-- bank has a buffer and an interrupt register of its own. The loops of init_metadata_sram have the
-- number of blocks as their bound. That a bank is `Ripe`, a hypothesis on write_page, is what the
-- ASSERTs of garbage_collection test (two pages of the victim are not valid, so that one is left
-- behind the page that is written next), that the memory utility keeps its promise, and that the
-- known confusion with logical page 0 in the first block of a bank does not arise; `Calm` asks it
-- of every round of ftl_write. A page number behind the map, which CHECK_LPAGE refuses, is `none`.
--
-- The flash. Programming is the writing of a page, which is what flash does to a page that is
-- erased; Greedy/Erasure and Clean are about the pages that are programmed, and that they are. It
-- is not shown that ftl_open and ftl_flush leave the pages erased that data will go to. The
-- programming of a log page changes the flash of the data, too: Ssd.sectors_of and list_of say how a
-- log page reads as sectors or as a list, whatever that is.
--
-- Not modelled: messages on the serial line, the waiting for hardware, sata_reset, in
-- ftl_greedy/ftl.c the format mark and the interrupt handler, the
-- SATA command layer behind `search_ata_function`, the flash drivers, the start-up code, the other translation layers, older
-- copies of files, the host programs and the test bench.
pub mod Base
pub mod Eke
pub mod Greedy
pub mod Session
pub mod Shashtbl
pub mod Users
