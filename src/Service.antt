-- ===== src/Service.antt =====
-- websocket_demo/service: service_mgr and service_base, over the router and the thread pool.
pub mod Mgr
pub mod Laws
pub mod Registry
