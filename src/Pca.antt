-- ===== src/Pca.antt =====
-- The asynchronous producer/consumer of src/common/producer_consumer_async.c: a producer feeds data
-- to a dispatcher thread, which feeds it to the consumer threads that take its type.
pub mod SetUp
pub mod State
pub mod FreeList
pub mod Feed
pub mod Threads
pub mod RefCount
pub mod Steps
pub mod Release
pub mod Ledger
pub mod Progress
pub mod Stop
mod Tests
