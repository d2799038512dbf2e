-- ===== src/Server.antt =====
-- websocket_demo/server, websocket_demo/message/aaws_session and websocket_demo/main.cpp: connections,
-- sessions, replies, and the program.
pub mod State
pub mod Session
pub mod Laws
pub mod Main
pub mod Hostile
pub mod Threads
pub mod Order
