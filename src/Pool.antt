-- ===== src/Pool.antt =====
-- utils/thread_pool.h, class thread_pool: the queues, the worker threads and the release.
pub mod Queue
pub mod Order
pub mod World
pub mod Laws
pub mod Accounts
pub mod Capacity
pub mod Progress
pub mod Priority
