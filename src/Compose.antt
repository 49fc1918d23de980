-- ===== src/Compose.antt =====
-- modules/docker_monitor/src/compose_parser.cpp and its header: the line-based reader of compose
-- files and the dependencies found in them. Reading the file and logging are left out.
-- `pos` into the vector of lines is the list of the lines from there on.
pub mod Lines
pub mod Parse
pub mod Dependencies
mod Examples
