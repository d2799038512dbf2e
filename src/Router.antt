-- ===== src/Router.antt =====
-- websocket_demo/service/service_router.cpp and .h: which service a message is for.
pub mod Json
pub mod Uri
pub mod Laws
