-- ===== src/Splits.antt =====
-- src/splits.rs: the binary tree of panes of one tab.
pub mod Node
pub mod Entries
pub mod Leaves
pub mod Frames
pub mod Tree
pub mod Focus
pub mod Invariant
pub mod Resizing
pub mod Dragging
pub mod Hits
pub mod Assigning
pub mod Rotation
pub mod Rebuilding
pub mod Moves
pub mod Distances
pub mod Blocking
pub mod Pointing
pub mod Nearest
pub mod Ratios
pub mod Calls
pub mod Counting
pub mod Arranging
pub mod Losing
