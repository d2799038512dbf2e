-- ===== src/Wheel/Once.antt =====
-- Which timers reach the thread pool, over every interleaving of the wheel with the pool.
use moveon.Wheel.Clock.{Clock}
