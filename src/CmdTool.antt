-- ===== src/CmdTool.antt =====
-- cmd_tool_demo/cmd_tool_demo.cpp.
pub mod Options
pub mod Laws
