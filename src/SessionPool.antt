-- ===== src/SessionPool.antt =====
-- internal/sessionpool/pool.go. State has the data and the buckets, Lend lends and returns, Reclaim
-- drops what is stale and closes, Acquire has the locked sections of `acquire`, OpenCall its loop
-- and that of `OpenCall`, and System all callers at once. The other children are about these:
-- Entries, Invariant, Frame, Rules, Preserve, Ledger and Limits have the lemmas, Safety, Lending
-- and Closing what follows for the pool, and Examples small runs.
pub mod State
pub mod Lend
pub mod Reclaim
pub mod Acquire
pub mod Entries
pub mod Invariant
pub mod Frame
pub mod Rules
pub mod Preserve
pub mod System
pub mod Ledger
pub mod Safety
pub mod Limits
pub mod Lending
pub mod Closing
pub mod OpenCall
pub mod Examples
