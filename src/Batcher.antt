-- ===== src/Batcher.antt =====
-- src/remote_batcher.rs: what the writer of a remote client sends for the messages that wait.
pub mod Pending
pub mod Flushing
pub mod Pushing
pub mod Accounting
pub mod Delivery
pub mod Replacing
pub mod Latest
pub mod Order
use boo.Base.{
  ℕ, ◌-◌, ◌+◌, ◌^◌, ◌%◌, Bool, true, false, ◌||◌, Option, none, some, List, [], ◌∷◌, ◌++◌,
  get_elem?, is_some, next_64, ◌==◌, if◌then◌else◌,
}
use boo.Wire.{
  MessageType, try_from, auth_ok, auth_fail, error_msg, heartbeat_ack, tab_created, tab_list,
  ui_runtime_state, ui_appearance,
}

-- the bytes of a frame
abbrev pub Frame : Type 0
Frame = List ℕ

pub data OutboundMessage : Type 0 where
  frame screen_update : Frame → OutboundMessage
  pane_update : ℕ → Bool → Frame → OutboundMessage

pub data CoalescibleFrameKind : Type 0 where
  tab_lists runtime_states appearances : CoalescibleFrameKind

-- the derived `==`
abbrev pub same_kind : CoalescibleFrameKind → CoalescibleFrameKind → Bool
same_kind tab_lists tab_lists = true
same_kind runtime_states runtime_states = true
same_kind appearances appearances = true
same_kind _ _ = false

pub record PendingOutboundFrames : Type 0 where
  pub order : List CoalescibleFrameKind
  pub tab_list : Option Frame
  pub ui_runtime_state : Option Frame
  pub ui_appearance : Option Frame

abbrev pub no_frames : PendingOutboundFrames
no_frames = record { order = []; tab_list = none; ui_runtime_state = none; ui_appearance = none }

-- the field of a kind, and the record with a new value in it
abbrev pub slot : PendingOutboundFrames → CoalescibleFrameKind → Option Frame
slot p tab_lists = p.tab_list
slot p runtime_states = p.ui_runtime_state
slot p appearances = p.ui_appearance

abbrev pub with_slot :
    PendingOutboundFrames → CoalescibleFrameKind → Option Frame → PendingOutboundFrames
with_slot p tab_lists f = record p { tab_list = f }
with_slot p runtime_states f = record p { ui_runtime_state = f }
with_slot p appearances f = record p { ui_appearance = f }

abbrev pub has_kind : CoalescibleFrameKind → List CoalescibleFrameKind → Bool
has_kind kind [] = false
has_kind kind (k ∷ ks) = same_kind k kind || has_kind kind ks

unfoldable pub push_kind_once : PendingOutboundFrames → CoalescibleFrameKind → PendingOutboundFrames
push_kind_once p kind = record p {
  order = if has_kind kind p.order then p.order else p.order ++ (kind ∷ []);
}

unfoldable pub set_control :
    PendingOutboundFrames → CoalescibleFrameKind → Frame → PendingOutboundFrames
unfolding push_kind_once
set_control p kind f = with_slot (push_kind_once p kind) kind (some f)

-- the drain of `order` in `take_all`
unfoldable pub drain_control :
    List CoalescibleFrameKind → PendingOutboundFrames → List Frame × PendingOutboundFrames
drain_control [] p = ([], p)
drain_control (kind ∷ kinds) p =
    let (fs, p') = drain_control kinds (with_slot p kind none) in
    elim (slot p kind) [ none ↦ (fs, p') | some f ↦ (f ∷ fs, p') ]

unfoldable pub take_all_control : PendingOutboundFrames → List Frame × PendingOutboundFrames
unfolding drain_control
take_all_control p = drain_control p.order (record p { order = [] })

-- The map is an association list: a new key goes to its end.
pub record PendingPaneFrames : Type 0 where
  pub order : List ℕ
  pub frames : List (ℕ × Frame)
  pub coalesced : ℕ

abbrev pub no_panes : PendingPaneFrames
no_panes = record { order = []; frames = []; coalesced = 0 }

abbrev pub find_frame : ℕ → List (ℕ × Frame) → Option Frame
find_frame k [] = none
find_frame k ((j, f) ∷ m) = if j == k then some f else find_frame k m

abbrev pub insert_frame : ℕ → Frame → List (ℕ × Frame) → List (ℕ × Frame)
insert_frame k f [] = (k, f) ∷ []
insert_frame k f ((j, g) ∷ m) =
    let rest = insert_frame k f m in if j == k then (k, f) ∷ m else (j, g) ∷ rest

abbrev pub remove_frame : ℕ → List (ℕ × Frame) → List (ℕ × Frame)
remove_frame k [] = []
remove_frame k ((j, f) ∷ m) = let rest = remove_frame k m in if j == k then m else (j, f) ∷ rest

unfoldable pub set_pane : PendingPaneFrames → ℕ → Frame → PendingPaneFrames
set_pane p pane_id f =
    if is_some (find_frame pane_id p.frames)
    then record p { frames = insert_frame pane_id f p.frames; coalesced = next_64 p.coalesced }
    else record p { frames = insert_frame pane_id f p.frames; order = p.order ++ (pane_id ∷ []) }

-- the drain of `order` in `take_all`
unfoldable pub drain_panes : List ℕ → List (ℕ × Frame) → List Frame × List (ℕ × Frame)
drain_panes [] m = ([], m)
drain_panes (k ∷ ks) m =
    let (fs, m') = drain_panes ks (remove_frame k m) in
    elim (find_frame k m) [ none ↦ (fs, m') | some f ↦ (f ∷ fs, m') ]

unfoldable pub take_all_panes : PendingPaneFrames → List Frame × PendingPaneFrames
unfolding drain_panes
take_all_panes p =
    let (fs, m) = drain_panes p.order p.frames in (fs, record p { order = []; frames = m })

abbrev pub is_priority : MessageType → Bool
is_priority auth_ok = true
is_priority auth_fail = true
is_priority error_msg = true
is_priority heartbeat_ack = true
is_priority tab_created = true
is_priority _ = false

-- the type of a frame by its third byte
abbrev pub frame_type : Frame → Option MessageType
frame_type f = elim (get_elem? f 2) [ none ↦ none | some byte ↦ try_from byte ]

unfoldable pub priority_frame : Frame → Bool
priority_frame f = elim (frame_type f) [ none ↦ false | some ty ↦ is_priority ty ]

abbrev pub kind_of : MessageType → Option CoalescibleFrameKind
kind_of tab_list = some tab_lists
kind_of ui_runtime_state = some runtime_states
kind_of ui_appearance = some appearances
kind_of _ = none

unfoldable pub coalescible_frame_kind : Frame → Option CoalescibleFrameKind
coalescible_frame_kind f = elim (frame_type f) [ none ↦ none | some ty ↦ kind_of ty ]

-- the variables that `collect_outbound_batch` keeps between messages
pub record Collecting : Type 0 where
  pub frames : List Frame
  pub screen : Option Frame
  pub focused : PendingPaneFrames
  pub passive : PendingPaneFrames
  pub control : PendingOutboundFrames
  pub message_count : ℕ
  pub screen_updates : ℕ
  pub emitted_screen_frames : ℕ
  pub coalesced_control_frames : ℕ

abbrev pub collecting : Collecting
collecting = record {
  frames = [];
  screen = none;
  focused = no_panes;
  passive = no_panes;
  control = no_frames;
  message_count = 0;
  screen_updates = 0;
  emitted_screen_frames = 0;
  coalesced_control_frames = 0;
}

-- the loops that push what one of the pending collections has
unfoldable pub flush_control : Collecting → Collecting
unfolding take_all_control
flush_control s =
    let (fs, p) = take_all_control s.control in record s { frames = s.frames ++ fs; control = p }

unfoldable pub flush_focused : Collecting → Collecting
unfolding take_all_panes
flush_focused s =
    let (fs, p) = take_all_panes s.focused in record s { frames = s.frames ++ fs; focused = p }

unfoldable pub flush_passive : Collecting → Collecting
unfolding take_all_panes
flush_passive s =
    let (fs, p) = take_all_panes s.passive in record s { frames = s.frames ++ fs; passive = p }

unfoldable pub flush_screen : Collecting → Collecting
flush_screen s = elim s.screen [
  | none ↦ s
  | some f ↦ record s {
    frames = s.frames ++ (f ∷ []);
    screen = none;
    emitted_screen_frames = next_64 s.emitted_screen_frames;
  }
]

unfoldable pub flush_pane_updates : Collecting → Collecting
unfolding flush_focused flush_screen flush_passive
flush_pane_updates s = flush_passive (flush_screen (flush_focused s))

abbrev pub emit : Frame → Collecting → Collecting
emit f s = record s { frames = s.frames ++ (f ∷ []) }

-- The closure `push` on each kind of message, after `message_count += 1`.
unfoldable pub push_frame : Frame → Collecting → Collecting
unfolding flush_control flush_pane_updates set_control
push_frame f s = elim (coalescible_frame_kind f) [
  | some kind ↦ record s {
    coalesced_control_frames =
        if is_some (slot s.control kind)
        then next_64 s.coalesced_control_frames
        else s.coalesced_control_frames;
    control = set_control s.control kind f;
  }
  | none ↦
      let t = flush_control s in
      if priority_frame f then emit f t else emit f (flush_pane_updates t)
]

unfoldable pub push_screen : Bool → Frame → Collecting → Collecting
unfolding flush_control flush_screen
push_screen coalesce f s =
    let t = record s { screen_updates = next_64 s.screen_updates } in
    let u = flush_screen (flush_control t) in
    if coalesce
    then record t { screen = some f }
    else emit f (record u { emitted_screen_frames = next_64 u.emitted_screen_frames })

unfoldable pub push_pane : Bool → ℕ → Bool → Frame → Collecting → Collecting
unfolding flush_control flush_pane_updates set_pane
push_pane coalesce pane_id focused f s =
    if focused
    then record s { focused = set_pane s.focused pane_id f }
    else if coalesce
    then record s { passive = set_pane s.passive pane_id f }
    else emit f (flush_pane_updates (flush_control s))

unfoldable pub push : Bool → Collecting → OutboundMessage → Collecting
unfolding push_frame push_screen push_pane
push coalesce s (frame f) = push_frame f (record s { message_count = next_64 s.message_count })
push coalesce s (screen_update f) =
    push_screen coalesce f (record s { message_count = next_64 s.message_count })
push coalesce s (pane_update pane_id focused f) =
    push_pane coalesce pane_id focused f (record s { message_count = next_64 s.message_count })

unfoldable pub push_all : Bool → Collecting → List OutboundMessage → Collecting
unfolding push
push_all coalesce s [] = s
push_all coalesce s (m ∷ ms) = push_all coalesce (push coalesce s m) ms

pub record OutboundBatch : Type 0 where
  pub frames : List Frame
  pub message_count : ℕ
  pub coalesced_screen_updates : ℕ
  pub coalesced_pane_updates : ℕ
  pub coalesced_control_frames : ℕ

-- `collect_outbound_batch` after the last message
unfoldable pub finish : Collecting → OutboundBatch
unfolding flush_control flush_pane_updates
finish s =
    let t = flush_pane_updates (flush_control s) in
    record {
      frames = t.frames;
      message_count = t.message_count;
      coalesced_screen_updates = t.screen_updates - t.emitted_screen_frames;
      coalesced_pane_updates = (t.focused.coalesced + t.passive.coalesced) % 2 ^ 64;
      coalesced_control_frames = t.coalesced_control_frames;
    }

-- `rest` is what `try_recv` yields before it first fails.
unfoldable pub collect_outbound_batch :
    OutboundMessage → List OutboundMessage → Bool → OutboundBatch
unfolding push_all finish
collect_outbound_batch first rest coalesce = finish (push_all coalesce collecting (first ∷ rest))

abbrev pub frame_of : OutboundMessage → Frame
frame_of (frame f) = f
frame_of (screen_update f) = f
frame_of (pane_update pane_id focused f) = f

unfoldable pub collect_single_outbound_message : OutboundMessage → OutboundBatch
collect_single_outbound_message m = record {
  frames = frame_of m ∷ [];
  message_count = 1;
  coalesced_screen_updates = 0;
  coalesced_pane_updates = 0;
  coalesced_control_frames = 0;
}
