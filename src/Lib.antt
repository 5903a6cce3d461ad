-- ===== src/Lib.antt =====
-- Verification of boo, the terminal multiplexer in src/: its panes, its tabs, and what its server sends.
--
-- The program: a window has tabs (`TabManager`, src/tabs.rs). Each tab has a binary tree of panes
-- (`SplitTree`, src/splits.rs), whose leaves hold pane handles (`PaneHandle`, src/pane.rs). The runtime
-- and the control socket call the methods of both; the tree calls the platform layer to place and hide
-- the views of the panes. A preset (`TabLayout`, src/layout.rs) is a list of splits from which the tree
-- of the active tab is built anew. The server writes frames to remote clients (src/remote_wire.rs); a
-- writer thread for each client takes the frames that wait and sends them as one batch
-- (src/remote_batcher.rs). What the server keeps of its clients is in src/remote_state.rs and
-- src/remote.rs: for each client it remembers the last state of every pane that it sent, so that it can
-- send only the changes (src/remote_server_stream.rs). The window client reads these and keeps a picture
-- of every pane (src/client_gui.rs). A key goes through the bindings of the configuration
-- (src/bindings.rs) or, while it is open, to the command prompt (src/command_prompt.rs).
--
-- The files:
-- - Base: names that all parts share, lists and searches in them, `position`, `set` and `erase_idx`.
--   Base/Int has integers over the native numbers, for counts of cells that may be negative,
--   Base/Strings what the parts use of texts.
-- - Double: the operations on `f64` as an interface, since the float type is the language's. `IsOrdered`
--   states of its comparisons what IEEE 754 says, NaN included. Double/Fixed fills both with thousandths
--   as integers; the examples compute with them.
-- - Geometry: `Point`, `Size` and `Rect` of src/platform/mod.rs.
-- - Pane: `PaneHandle` and the counter that pane ids are drawn from; pointers are addresses.
-- - Splits: src/splits.rs. Splits/Node has the functions on nodes, Splits/Frames those that compute or
--   read frames, Splits/Tree and Splits/Focus the methods of `SplitTree`. A function that takes `&mut
--   Node` returns the new node beside its result; `remove_leaf` returns a `RemoveResult` as the code
--   does. A method with calls into the platform layer returns them as a list of `ViewCall`.
--   Splits/Entries describes a tree by the list of its leaves, each an id with a pane; Splits/Leaves
--   shows that the functions on nodes do to this list what they should. Splits/Invariant, Assigning,
--   Rotation, Rebuilding, Moves, Pointing, Counting and Arranging are about the methods;
--   Splits/Distances, Blocking and Nearest about moves by direction; Splits/Hits about frames;
--   Splits/Resizing, Dragging and Ratios about ratios; Splits/Losing about a focus that is no leaf.
--   Splits/Calls has every method that changes a tree as one step function.
-- - Layout: the presets and `layout_splits` of src/layout.rs.
-- - Tabs: src/tabs.rs. Tabs/Manager adds, chooses and removes tabs, Tabs/Panes moves panes between
--   tabs, Tabs/Layouts arranges the active tab, Tabs/Titles has titles, ids and running commands.
--   Tabs/Invariant, Going, Keeping and Moving are about these; Tabs/Calls has every method that
--   changes a manager as one step function, in which an index out of bounds is `none`. - Wire: `MessageType` of src/remote_wire.rs and its decoder; Wire/Frames encodes and reads a message,
--   Wire/States the full state of a pane, in which a signed number is kept as its bits.
--   A byte is a number below 256, and a stream is the list of bytes that it yields before its end.
-- - Batcher: src/remote_batcher.rs, the frames that wait for a remote client. The variables of
--   `collect_outbound_batch` are the record `Collecting`, its closure is `push`, the hash map is an
--   association list, and what `try_recv` yields is a list. Batcher/Pending, Flushing, Pushing and
--   Accounting count the messages; Batcher/Delivery, Replacing and Latest follow one message,
--   Batcher/Order the order of the frames.
-- -
--   Wire/Delta: `encode_delta` and what it sends of a row; Wire/Same and Wire/Changes are about its
--   comparisons and segments. Wire/TabLists: the lists of tabs with their reader, Wire/TabTrips their
--   way there and back.
-- - Remote: the table of clients of src/remote_state.rs with the targets of
--   src/remote_server_targets.rs; Remote/Control has src/remote_server_control.rs, Remote/Stream
--   src/remote_server_stream.rs, Remote/Calls the methods of src/remote.rs. The map of clients is an
--   association list, a channel is the list of what was sent on it, each call is one step, and the
--   clock is an argument. Two calls are one step here that take the mutex twice, once to read the
--   last state and once to write the new one: `send_state_to_client` and `send_pane_state_to_client`;
--   what other threads do between is not modelled. Remote/Views has the calls as one step function,
--   Remote/Steady their sequences; Remote/Caching, Sweeping and Idle are about single calls.
-- - Client: src/client_gui.rs. Client/Snapshot has the pictures of panes (src/vt_backend_core.rs),
--   Client/Decoding, Panes and TabLists the decoders, Client/Agreeing compares the two readers of a
--   list of tabs, Client/Applying how changes are applied, Client/State `ClientApp` and the events,
--   Client/Session how it handles them, Client/Reading the loop that reads the stream. JSON is
--   serde's, so its readers are a record of functions. Client/Frames, Replica, Grids and Mirror lead
--   from the bytes of `encode_delta` to the picture; Client/Showing and Following join the server's
--   Remote/Stream and the client, Client/Missing is about updates that the client ignores, and
--   Client/Ending about the loop.
-- - Bindings: src/bindings.rs. Bindings/Keys has `handle_key`, Bindings/Actions, Keycodes and Parsing
--   the parsers, Bindings/Config `from_config`, in which a hash map is an association list whose
--   first entry of a key counts. A `match` on characters or texts is a table that is searched.
--   Bindings/Modes has the modes as a relation, Bindings/Bound the way from a key binding to its
--   action, Bindings/Modifiers the loop over modifiers, and Bindings/Spelling how a key with
--   modifiers is written and read.
-- - Prompt: src/command_prompt.rs and `handle_command_key` of src/runtime_input.rs. Prompt/Commands
--   is the table, Prompt/Scores `fuzzy_score`, Prompt/Suggestions the methods of `CommandPrompt`,
--   Prompt/Keys what a key does; a panic is an outcome of its own, and `to_lowercase` an argument.
--   Prompt/Effects and Execution have `execute_command`, whose calls of other parts are values.
--   Prompt/Naming, Sound, Editing and Pressing are about indices in bounds, Prompt/Completing about
--   Tab and Enter.
-- - Checks: the theorems at concrete trees, tabs, messages, keys and prompts.
--
-- Numbers: leaf ids and pane ids are `u64` and `usize` of 64 bits, tab ids are `u32`; counters wrap
-- at 2 ^ 64 and 2 ^ 32, so theorems about fresh ids ask for an id that is left. A byte is a number, and
-- the encoders write numbers below 256. Loops are recursions on a tree, on a list or on a count; three
-- take fuel: `chunks`, which is given the length of its list, the loop that reads a stream, for which
-- the length of the stream is enough, and the loop over the modifiers of a key, for which the number of
-- characters is enough.
-- Memory is not bounded: the two readers of a list of tabs reserve room for the count that the payload
-- names, which can fail in the program.
--
-- Not modelled: the parsing and saving of layout files, drawing, terminal emulation, sockets and
-- processes, the configuration file, the handshake of a remote client, the iOS client, and the
-- vendored bindings.
pub mod Base
pub mod Double
pub mod Geometry
pub mod Pane
pub mod Splits
pub mod Layout
pub mod Tabs
pub mod Wire
pub mod Batcher
pub mod Remote
pub mod Client
pub mod Bindings
pub mod Prompt
mod Checks
