-- ===== src/Client.antt =====
-- The window client of src/client_gui.rs: its pictures of the panes, and the stream that feeds them.
pub mod Snapshot
pub mod Decoding
pub mod Applying
pub mod Frames
pub mod Replica
pub mod Grids
pub mod Mirror
pub mod Panes
pub mod State
pub mod Session
pub mod TabLists
pub mod Agreeing
pub mod Reading
pub mod Showing
pub mod Following
pub mod Ending
pub mod Missing
