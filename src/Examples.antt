-- ===== src/Examples.antt =====
-- Runs of the theorems on concrete messages, services, pools, wheels, servers, clients and files.
pub mod Samples
pub mod Messages
mod Routing
mod Systems
mod Files
mod Program
mod Hostile
mod Folders
mod Commands
mod Whole
mod Typed
