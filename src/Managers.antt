-- ===== src/Managers.antt =====
-- modules/tui/src/managers and tui.cpp: modes, menus, closed panes, keys and the input.
pub mod Modes
pub mod Menus
pub mod Reaper
pub mod Keys
pub mod Input
pub mod Commands
mod Examples
