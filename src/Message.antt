-- ===== src/Message.antt =====
-- websocket_demo/message/aaws_message.h and aaws_message.cpp: the binary message of the service.
-- `Layout` has the three header structs and their memory images, `Build` the sending side,
-- `Read` the receiving side; the other children prove.
pub mod Layout
pub mod Build
pub mod Edits
pub mod Read
pub mod ReadExh
pub mod Parts
pub mod BuildLaws
pub mod ReadLaws
pub mod ReadLists
pub mod Received
pub mod Carries
pub mod RoundTrip
pub mod Subscripts
pub mod Options
pub mod Local
pub mod Truncated
pub mod Typed
