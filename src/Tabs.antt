-- ===== src/Tabs.antt =====
-- src/tabs.rs: the tabs of a window, each with a split tree, and the active one.
pub mod Manager
pub mod Panes
pub mod Layouts
pub mod Invariant
pub mod Going
pub mod Keeping
pub mod Moving
pub mod Titles
pub mod Calls
