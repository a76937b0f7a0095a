-- ===== src/Greedy.antt =====
-- ftl_greedy/ftl.c: the translation layer with a page map and a greedy garbage collector.
pub mod State
pub mod Collect
pub mod Write
pub mod Read
pub mod Holes
pub mod Copying
pub mod Collected
pub mod Written
pub mod Rooms
pub mod Format
pub mod Erased
pub mod Initial
pub mod Valid
pub mod Next
pub mod Swapped
pub mod Closing
pub mod Opened
pub mod Assign
pub mod Marks
pub mod Programmed
pub mod Others
pub mod Erasure
pub mod Clean
pub mod Device
pub mod Turns
pub mod Formatted
pub mod Opening
pub mod Log
pub mod Load
pub mod Logged
pub mod Ahead
pub mod Flushed
pub mod Loaded
pub mod Restored
pub mod Power
pub mod Placing
pub mod Reserved
pub mod Spared
pub mod Homes
pub mod Open
pub mod Start
pub mod Scan
pub mod BadBlocks
pub mod Listed
pub mod Defects
pub mod Disk
pub mod Refine
pub mod Pages
pub mod Victim
pub mod Loops
mod Tests
mod Examples
mod DefectExamples
