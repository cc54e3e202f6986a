-- ===== src/Pca/Steps.antt =====
-- The invariant of the whole of producer_consumer_async.c under every step of its threads.
pub mod Consumers
pub mod Invariant
pub mod Sound
pub mod Setup
