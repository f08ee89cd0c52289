-- ===== src/Stm.antt =====
-- rts/STM.c: software transactional memory, as the runtime that is not threaded runs it
-- (`STM_UNIPROC`): no step of another thread falls inside an operation, the locks are no locks, and
-- `config_use_read_phase` is off. Values and addresses are numbers; a transactional variable is its
-- address. A nest of transaction records is a list, the innermost first.
pub mod Trec
pub mod World
pub mod Ops
pub mod Entries
pub mod Nest
pub mod Merge
pub mod Commit
pub mod Process
pub mod Serial
pub mod Alone
pub mod Watch
pub mod Unlink
pub mod Wake
pub mod Sleep
pub mod Round
pub mod Chunks
pub mod Forget
pub mod Check
mod Tests
