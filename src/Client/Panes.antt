-- ===== src/Client/Panes.antt =====
-- What src/client_gui.rs reads of an update of a pane: `decode_remote_pane_full_state` and
-- `decode_remote_pane_delta`, and the full states that they hold.
use boo.Base.{
  ℕ, ◌+◌, ◌*◌, ◌^◌, ◌<◌, ◌≡◌, ◌∙◌, refl, ap, ap₂, Bool, true, false, Option, none, some, List, [],
  ◌∷◌, length, take, drop, ltb, arith, if◌then◌else◌, unwrap_or,
}
use boo.Wire.Frames.{to_le_bytes, from_le_bytes}
use boo.Wire.States.{
  RemoteFullState, DecodeResult, decoded, too_short, grid_mismatch, u16_at, encode_full_state,
  decode_remote_full_state_payload, decode_remote_full_state_payload-encode_full_state, Fits,
  without_rows,
}
use boo.Client.Decoding.{RemoteDelta, ack_of, decode_remote_full_state, decode_remote_delta}
use boo.Remote.Stream.{PaneUpdate, encode_ui_pane_update_payload}

-- the reader of what follows the numbers of a pane
unfoldable pub decode_pane :
    {A : Type 0} → (List ℕ → Option (Option ℕ × A)) → List ℕ → Option (ℕ × (ℕ × A))
decode_pane decode payload =
    if ltb (length payload) 28 then none else elim (decode (drop 28 payload)) [
      | none ↦ none
      | some (seq, value) ↦ some (
        from_le_bytes (take 8 (drop 4 payload)),
        (from_le_bytes (take 8 (drop 20 payload)), value),
      )
    ]

abbrev pub decode_remote_pane_full_state : List ℕ → Option (ℕ × (ℕ × RemoteFullState))
decode_remote_pane_full_state payload = decode_pane decode_remote_full_state payload

abbrev pub decode_remote_pane_delta : List ℕ → Option (ℕ × (ℕ × RemoteDelta))
decode_remote_pane_delta payload = decode_pane decode_remote_delta payload

from_le_bytes-to_le_bytes_eight : (n : ℕ) → n < 2 ^ 64 → from_le_bytes (to_le_bytes 8 n) ≡ n
from_le_bytes-to_le_bytes_eight n h = omega arith

pub decode_pane-encode :
    {A : Type 0} (decode : List ℕ → Option (Option ℕ × A)) (update : PaneUpdate) (payload : List ℕ)
    {seq : Option ℕ} {value : A}
    → update.pane_id < 2 ^ 64
    → update.runtime_revision < 2 ^ 64
    → decode payload ≡ some (seq, value)
    → decode_pane decode (
        encode_ui_pane_update_payload update.tab_id update.pane_id update.pane_revision
          update.runtime_revision payload)
      ≡ some (update.pane_id, (update.runtime_revision, value))
unfolding decode_pane encode_ui_pane_update_payload
decode_pane-encode decode update payload {seq} {value} h h' e =
    let bytes =
      encode_ui_pane_update_payload update.tab_id update.pane_id update.pane_revision
        update.runtime_revision payload in
    let enough : ltb (length bytes) 28 ≡ false = ground arith in
    rw (enough, e)
      (λ i. some (
        from_le_bytes-to_le_bytes_eight update.pane_id h i,
        (from_le_bytes-to_le_bytes_eight update.runtime_revision h' i, value),
      ))

-- the state in the outcome of the other reader, with the input that is acknowledged
abbrev pub as_option : Option ℕ → DecodeResult → Option (Option ℕ × RemoteFullState)
as_option ack (decoded s) = some (ack, s)
as_option ack too_short = none
as_option ack grid_mismatch = none

abbrev tested : Bool → Bool → Option ℕ → RemoteFullState → Option (Option ℕ × RemoteFullState)
tested short smaller ack s = if short then none else if smaller then none else some (ack, s)

both_tests :
    (b c : Bool) (ack : Option ℕ) (s : RemoteFullState)
    → tested b c ack s
      ≡ as_option ack (if b then too_short else if c then grid_mismatch else decoded s)
both_tests true c ack s = refl
both_tests false true ack s = refl
both_tests false false ack s = refl

tests_agree :
    (b c b' c' : Bool) (ack : Option ℕ) (s : RemoteFullState)
    → b ≡ b'
    → c ≡ c'
    → tested b c ack s
      ≡ as_option ack (if b' then too_short else if c' then grid_mismatch else decoded s)
tests_agree b c b' c' ack s e e' = ap₂ (λ x y. tested x y ack s) e e' ∙ both_tests b' c' ack s

pub decode_remote_full_state-payload :
    (payload : List ℕ)
    → decode_remote_full_state payload
      ≡ as_option
          (ack_of (from_le_bytes (take 8 payload)))
          (decode_remote_full_state_payload (drop 8 payload))
unfolding decode_remote_full_state decode_remote_full_state_payload
decode_remote_full_state-payload [] = refl
decode_remote_full_state-payload (a ∷ []) = refl
decode_remote_full_state-payload (a ∷ b ∷ []) = refl
decode_remote_full_state-payload (a ∷ b ∷ c ∷ []) = refl
decode_remote_full_state-payload (a ∷ b ∷ c ∷ d ∷ []) = refl
decode_remote_full_state-payload (a ∷ b ∷ c ∷ d ∷ e ∷ []) = refl
decode_remote_full_state-payload (a ∷ b ∷ c ∷ d ∷ e ∷ f ∷ []) = refl
decode_remote_full_state-payload (a ∷ b ∷ c ∷ d ∷ e ∷ f ∷ g ∷ []) = refl
decode_remote_full_state-payload (a ∷ b ∷ c ∷ d ∷ e ∷ f ∷ g ∷ h ∷ payload) =
    let whole = a ∷ b ∷ c ∷ d ∷ e ∷ f ∷ g ∷ h ∷ payload in
    let cells = u16_at 0 payload * u16_at 2 payload * 12 in
    let short : ltb (length whole) 22 ≡ ltb (length payload) 14 = ground arith in
    let smaller : ltb (length whole) (22 + cells) ≡ ltb (length payload) (14 + cells) =
      ground arith in
    tests_agree _ _ _ _ _ _ short smaller

-- The client reads back a full state that is encoded with the number of an input in front: the
-- number, unless it is 0, and the state with its size, cursor and cells; the epoch and the two
-- numbers about rows are 0. The numbers must be in the ranges of their types, and there must be a
-- cell for each place of the grid.
pub decode_remote_full_state-encode_full_state :
    (s : RemoteFullState) (seq : Option ℕ)
    → Fits s
    → unwrap_or seq 0 < 2 ^ 64
    → decode_remote_full_state (encode_full_state s seq true)
      ≡ some (ack_of (unwrap_or seq 0), without_rows s)
unfolding encode_full_state
decode_remote_full_state-encode_full_state s seq h small =
    decode_remote_full_state-payload (encode_full_state s seq true)
    ∙ rw (decode_remote_full_state_payload-encode_full_state s seq true h) (
        ap (λ n. some (ack_of n, without_rows s))
          (from_le_bytes-to_le_bytes_eight (unwrap_or seq 0) small))
