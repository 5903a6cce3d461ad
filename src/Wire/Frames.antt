-- ===== src/Wire/Frames.antt =====
-- The frames of src/remote_wire.rs: `encode_message` and `read_message`.
use boo.Base.{
  ℕ, zero, suc, ◌+◌, ◌*◌, ◌/◌, ◌%◌, ◌^◌, ◌<◌, ◌≡◌, refl, ap, ◌∙◌, ◌&&◌, Option, none, some, List,
  [], ◌∷◌, ◌++◌, arith, length, get_or, ltb, ◌==◌, if◌then◌else◌,
}
use boo.Wire.{
  MessageType, try_from, code_of, auth, list_tabs, create, input, resize, destroy, scroll, key,
  execute_command, app_action, app_key_event, focus_pane, app_mouse_event, heartbeat,
  runtime_action, render_ack, row_range_request, auth_ok, auth_fail, tab_list, full_state, delta,
  error_msg, tab_created, tab_exited, scroll_data, clipboard, image, ui_runtime_state,
  ui_appearance, ui_pane_full_state, ui_pane_delta, heartbeat_ack, ui_pane_rows,
}

-- `to_le_bytes` on an integer of that many bytes, and `from_le_bytes`
abbrev pub to_le_bytes : ℕ → ℕ → List ℕ
to_le_bytes zero n = []
to_le_bytes (suc w) n = n % 256 ∷ to_le_bytes w (n / 256)

abbrev pub from_le_bytes : List ℕ → ℕ
from_le_bytes [] = 0
from_le_bytes (b ∷ bs) = b + 256 * from_le_bytes bs

unfoldable pub encode_message : MessageType → List ℕ → List ℕ
encode_message ty payload =
    0x47 ∷ 0x53 ∷ code_of ty ∷ (to_le_bytes 4 (length payload % 2 ^ 32) ++ payload)

-- `read_exact` on a stream that ends after the given bytes
abbrev pub read_exact : ℕ → List ℕ → Option (List ℕ × List ℕ)
read_exact zero stream = some ([], stream)
read_exact (suc n) [] = none
read_exact (suc n) (b ∷ stream) = elim (read_exact n stream) [
  | none ↦ none
  | some (bytes, rest) ↦ some (b ∷ bytes, rest)
]

pub data ReadError : Type 0 where
  unexpected_eof invalid_magic unknown_message : ReadError

-- a message with what is left of the stream, or an error
pub data ReadResult : Type 0 where
  message : MessageType → List ℕ → List ℕ → ReadResult
  failed : ReadError → ReadResult

-- the payload behind a header
unfoldable pub read_payload : MessageType → ℕ → List ℕ → ReadResult
read_payload ty payload_len stream =
    if ltb 0 payload_len
    then elim (read_exact payload_len stream) [
      | none ↦ failed unexpected_eof
      | some (payload, rest) ↦ message ty payload rest
    ]
    else message ty [] stream

unfoldable pub read_message : List ℕ → ReadResult
unfolding read_payload
read_message stream = elim (read_exact 7 stream) [
  | none ↦ failed unexpected_eof
  | some (header, rest) ↦
      if get_or header 0 0 == 0x47 && get_or header 1 0 == 0x53
      then elim (try_from (get_or header 2 0)) [
        | none ↦ failed unknown_message
        | some ty ↦
            read_payload ty
              (from_le_bytes (
                get_or header 3 0 ∷ get_or header 4 0 ∷ get_or header 5 0 ∷ get_or header 6 0 ∷ []))
              rest
      ]
      else failed invalid_magic
]

-- The decoder of the type inverts `ty as u8`.
try_from-code_of : (ty : MessageType) → try_from (code_of ty) ≡ some ty
unfolding try_from
try_from-code_of auth = refl
try_from-code_of list_tabs = refl
try_from-code_of create = refl
try_from-code_of input = refl
try_from-code_of resize = refl
try_from-code_of destroy = refl
try_from-code_of scroll = refl
try_from-code_of key = refl
try_from-code_of execute_command = refl
try_from-code_of app_action = refl
try_from-code_of app_key_event = refl
try_from-code_of focus_pane = refl
try_from-code_of app_mouse_event = refl
try_from-code_of heartbeat = refl
try_from-code_of runtime_action = refl
try_from-code_of render_ack = refl
try_from-code_of row_range_request = refl
try_from-code_of auth_ok = refl
try_from-code_of auth_fail = refl
try_from-code_of tab_list = refl
try_from-code_of full_state = refl
try_from-code_of delta = refl
try_from-code_of error_msg = refl
try_from-code_of tab_created = refl
try_from-code_of tab_exited = refl
try_from-code_of scroll_data = refl
try_from-code_of clipboard = refl
try_from-code_of image = refl
try_from-code_of ui_runtime_state = refl
try_from-code_of ui_appearance = refl
try_from-code_of ui_pane_full_state = refl
try_from-code_of ui_pane_delta = refl
try_from-code_of heartbeat_ack = refl
try_from-code_of ui_pane_rows = refl

pub from_le_bytes-to_le_bytes : (n : ℕ) → n < 2 ^ 32 → from_le_bytes (to_le_bytes 4 n) ≡ n
from_le_bytes-to_le_bytes n h = omega arith

read_exact-append :
    (bytes rest : List ℕ) → read_exact (length bytes) (bytes ++ rest) ≡ some (bytes, rest)
read_exact-append [] rest = refl
read_exact-append (b ∷ bytes) rest = rw (read_exact-append bytes rest, read_exact) refl

read_payload-append :
    (ty : MessageType) (payload rest : List ℕ)
    → read_payload ty (length payload) (payload ++ rest) ≡ message ty payload rest
unfolding read_payload
read_payload-append ty [] rest = refl
read_payload-append ty (b ∷ payload) rest = ground (arith, read_exact-append payload rest)

-- Reading from a stream that begins with an encoded message of fewer than 2 ^ 32 payload bytes
-- gives back the type and the payload, and leaves what comes behind the message, for every message
-- type.
pub read_message-encode_message :
    (ty : MessageType) (payload rest : List ℕ)
    → length payload < 2 ^ 32
    → read_message (encode_message ty payload ++ rest) ≡ message ty payload rest
unfolding read_message encode_message
read_message-encode_message ty payload rest h =
    let n = length payload in
    let less : n % 2 ^ 32 < 2 ^ 32 = omega arith in
    let decoded : from_le_bytes (to_le_bytes 4 (n % 2 ^ 32)) ≡ n =
      omega (arith, from_le_bytes-to_le_bytes (n % 2 ^ 32) less) in
    rw (try_from-code_of ty)
      (ap (λ k. read_payload ty k (payload ++ rest)) decoded ∙ read_payload-append ty payload rest)
