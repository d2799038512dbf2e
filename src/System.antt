-- ===== src/System.antt =====
-- The server as a whole: connections, services, the router and the thread pool in one state.
pub mod Acts
pub mod Refines
pub mod Accounts
pub mod Served
