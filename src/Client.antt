-- ===== src/Client.antt =====
-- websocket_demo/client/websocket_client.cpp.
pub mod Metadata
pub mod Endpoint
pub mod Command
pub mod Laws
pub mod Connections
pub mod Lines
