-- ===== src/Checks/Batches.antt =====
-- Runs of src/remote_batcher.rs and src/remote_wire.rs and their theorems at concrete messages.
use boo.Base.{ℕ, ◌+◌, ◌≡◌, refl, List, [], ◌∷◌, arith, length, true, false, ◌++◌}
use boo.Wire.{try_from, tab_list}
use boo.Wire.States.{RemoteCell, RemoteFullState, Fits}
use boo.Wire.Frames.{encode_message, read_message, message, read_message-encode_message}
use boo.Batcher.{
  Frame, OutboundMessage, frame, screen_update, pane_update, collect_outbound_batch,
  coalescible_frame_kind,
}
use boo.Batcher.Accounting.{collect_outbound_batch_lem}
use boo.Batcher.Delivery.{Sent}
use boo.Batcher.Order.{InOrder, ordinary, collect_outbound_batch-InOrder}
use boo.Batcher.Latest.{collect_outbound_batch-Sent}

-- a frame of a type, with a body
abbrev typed : ℕ → ℕ → Frame
typed code body = 0x47 ∷ 0x53 ∷ code ∷ body ∷ []

-- Two lists of tabs, the first of which is out of date, two updates of one pane, and a screen.
abbrev waiting : List OutboundMessage
waiting =
    pane_update 4 true (typed 0x91 1)
    ∷ screen_update (typed 0x84 2)
    ∷ frame (typed 0x82 3)
    ∷ pane_update 4 true (typed 0x91 4)
    ∷ []

-- The last list of tabs comes first, then the last update of the pane, then the screen.
run_of_waiting :
    (collect_outbound_batch (frame (typed 0x82 0)) waiting true).frames
    ≡ typed 0x82 3 ∷ typed 0x91 4 ∷ typed 0x84 2 ∷ []
unfolding collect_outbound_batch coalescible_frame_kind try_from
run_of_waiting = refl

collect_outbound_batch_lem_example :
    ((collect_outbound_batch (frame (typed 0x82 0)) waiting true).message_count ≡ 5)
    × (length (collect_outbound_batch (frame (typed 0x82 0)) waiting true).frames
          + (collect_outbound_batch (frame (typed 0x82 0)) waiting true).coalesced_screen_updates
          + (collect_outbound_batch (frame (typed 0x82 0)) waiting true).coalesced_pane_updates
          + (collect_outbound_batch (frame (typed 0x82 0)) waiting true).coalesced_control_frames
        ≡ 5)
collect_outbound_batch_lem_example =
    collect_outbound_batch_lem (frame (typed 0x82 0)) waiting true (omega arith)

collect_outbound_batch-Sent_example :
    Sent (typed 0x84 2) (collect_outbound_batch (frame (typed 0x82 0)) waiting true).frames
collect_outbound_batch-Sent_example =
    collect_outbound_batch-Sent (frame (typed 0x82 0)) waiting true
      (frame (typed 0x82 0) ∷ pane_update 4 true (typed 0x91 1) ∷ []) (screen_update (typed 0x84 2))
      (frame (typed 0x82 3) ∷ pane_update 4 true (typed 0x91 4) ∷ []) refl (omega arith)
      (refl, (refl, tt))

collect_outbound_batch-InOrder_example :
    InOrder
      (ordinary (frame (typed 0x87 0) ∷ frame (typed 0x92 1) ∷ waiting))
      (collect_outbound_batch (frame (typed 0x87 0)) (frame (typed 0x92 1) ∷ waiting) true).frames
collect_outbound_batch-InOrder_example =
    collect_outbound_batch-InOrder (frame (typed 0x87 0)) (frame (typed 0x92 1) ∷ waiting) true

read_message-encode_message_example :
    read_message (encode_message tab_list (1 ∷ 2 ∷ []) ++ (0x47 ∷ []))
    ≡ message tab_list (1 ∷ 2 ∷ []) (0x47 ∷ [])
read_message-encode_message_example =
    read_message-encode_message tab_list (1 ∷ 2 ∷ []) (0x47 ∷ []) (omega arith)

abbrev cell_a : RemoteCell
cell_a = record {
  codepoint = 97;
  fg = record { red = 255; green = 255; blue = 255 };
  bg = record { red = 0; green = 0; blue = 0 };
  style_flags = 1;
  wide = false;
}

-- A grid of one row and two columns.
abbrev small_state : RemoteFullState
small_state = record {
  epoch = 5;
  viewport_top = 40;
  scrollback_total = 60;
  rows = 1;
  cols = 2;
  cursor_x = 1;
  cursor_y = 0;
  cursor_visible = true;
  cursor_blinking = false;
  cursor_style = 3;
  cells = cell_a ∷ cell_a ∷ [];
}

small_state-Fits : Fits small_state
small_state-Fits = record {
  rows = omega arith;
  cols = omega arith;
  cursor_x = omega arith;
  cursor_y = omega arith;
  cursor_style = omega arith;
  cells = (omega arith, (omega arith, tt));
  grid = refl;
}
