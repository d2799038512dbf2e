-- ===== src/Wheel.antt =====
-- utils/thread_pool.h, class time_wheel: timers on a wheel of 100 slots, one millisecond a tick.
pub mod Timer
pub mod Entry
pub mod Delay
pub mod Laws
pub mod Timing
pub mod Start
pub mod Clock
pub mod Soon
pub mod Ahead
pub mod Once
