-- ===== src/Lib.antt =====
-- moveon: a WebSocket service in C++ with a binary message format, a service registry, a thread
-- pool and a time wheel.
--
-- Parts and files:
-- - Message: websocket_demo/message/aaws_message.h and .cpp. Layout has the structs as bytes under
--   the x86-64 ABI, Build the constructors, append_option, append_exh and submit, Read and ReadExh
--   the accessors. A message under construction is the record Message; a received one holds the
--   text of the websocketpp message. get_exh(exs), get_exh_payload(exs), get_exh_8bit() and
--   get_option(opts) are get_exhs, get_exh_payloads, get_exh_heads and get_options, and
--   get_exh_8bit(exh, id) is get_exh_head.
--   Edits has the builder's calls in any order.
-- - Router: service_router::get_uri of websocket_demo/service/service_router.cpp.
-- - Service: websocket_demo/service/service_mgr.cpp and service_base.h. commit asks the router for
--   the uri, finds the service, and gives the call to the thread pool. Registry takes the services
--   through a list of calls, and has a quotient that forgets the order of the entries.
-- - Pool: class thread_pool of utils/thread_pool.h. One critical section of a worker or one call of
--   a member is an event, and a list of events is an interleaving of the threads.
-- - Wheel: class time_wheel of the same file. A tick is the task that init_wheel posts; what is said
--   of timers counts ticks, however many of them the program makes. Clock runs the wheel and the pool
--   together: a call of intance, the thread that it starts, the turn that this posts, the timers.
-- - Server: websocket_demo/server/websocket_server.cpp and websocket_demo/message/aaws_session.cpp;
--   Main is websocket_demo/main.cpp.
--   on_message hands a received message to commit. Threads has the loop of the polling threads and
--   on_async_send: a thread has a queue of posts, and a round sends what is in it.
-- - System: the global objects of the server in one state. An act is a notice or a message of a
--   connection, a service that starts or stops, the pool's initialisation and release, or a step of
--   one worker; a list of acts is an interleaving.
-- - Client: websocket_demo/client/websocket_client.cpp. Metadata is connection_metadata, Endpoint is
--   websocket_endpoint, Command the loop of main; Lines describes the loop as a run of the endpoint.
-- - CmdTool: cmd_tool_demo/cmd_tool_demo.cpp.
-- - FileHelper: utils/file_helper.h. Paths has the functions on names, Copy WriteFile and CopyFile,
--   Dirs CreateDir, Disk DeleteFile and the functions of one system call, Folder CopyFolder. The
--   file system is a record of its calls, FileSystem and Disk; Tree is what a folder holds.
-- - Base: shared types and lemmas. Outcome has a value for undefined behaviour, for a read past the
--   end of a block, and one for an exception.
-- - Examples: the theorems at concrete inputs.
--
-- Bounds: machine integers wrap by u8, u16, u32 and u64. Loops recurse on the count that bounds
-- them in the code. CopyFolder alone has fuel, the levels of its recursion: a tree of d levels of
-- folders needs d. Times of the wheel are not negative and do not overflow an int; the two counters
-- of the pool do not overflow.
--
-- Not modelled: websocketpp and jsoncpp, whose answers are arguments; printing; what follows the
-- undefined first call in the body of DeleteFile's loop; a thread of the pool or of the wheel below
-- its critical sections.

pub mod Base
pub mod Client
pub mod CmdTool
pub mod Examples
pub mod FileHelper
pub mod Message
pub mod Pool
pub mod Router
pub mod Server
pub mod Service
pub mod System
pub mod Wheel
