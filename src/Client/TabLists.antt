-- ===== src/Client/TabLists.antt =====
-- `decode_remote_tab_list` of src/client_gui.rs, which keeps an offset into the payload.
use boo.Base.{
  ℕ, zero, suc, ◌+◌, Option, none, some, List, [], ◌∷◌, length, take, drop, get_or, ltb, leb,
  has_bit, is_utf8, if◌then◌else◌,
}
use boo.Wire.Frames.{from_le_bytes}
use boo.Wire.States.{u16_at}
use boo.Wire.TabLists.{RemoteTabInfo}

-- the operator `?` on a value with the offset behind it
abbrev pub at_offset {ℓ κ} :
    {A : Type ℓ} {B : Type κ} → Option (A × ℕ) → (A → ℕ → Option B) → Option B
at_offset none f = none
at_offset (some (a, offset)) f = f a offset

-- the id and the flags of a tab
abbrev pub decode_id : List ℕ → ℕ → Option (ℕ × ℕ)
decode_id payload offset =
    if ltb (length payload) (offset + 4)
    then none
    else some (from_le_bytes (take 4 (drop offset payload)), offset + 4)

abbrev pub decode_flags : List ℕ → ℕ → Option (ℕ × ℕ)
decode_flags payload offset =
    if leb (length payload) offset then none else some (get_or payload offset 0, offset + 1)

unfoldable pub decode_remote_string : List ℕ → ℕ → Option (List ℕ × ℕ)
decode_remote_string payload offset =
    let len = u16_at offset payload in
    let start = offset + 2 in
    let value = take len (drop start payload) in
    if ltb (length payload) (offset + 2)
    then none
    else if ltb (length payload) (start + len)
    then none
    else if is_utf8 value
    then some (value, start + len)
    else none

-- one round of the loop
unfoldable pub decode_tab : List ℕ → ℕ → Option (RemoteTabInfo × ℕ)
unfolding decode_remote_string
decode_tab payload offset = at_offset (decode_id payload offset) (λ id offset.
    at_offset (decode_remote_string payload offset) (λ name offset.
      at_offset (decode_remote_string payload offset) (λ title offset.
        at_offset (decode_remote_string payload offset) (λ pwd offset.
          at_offset (decode_flags payload offset) (λ flags offset. some (
            record {
              id = id;
              name = name;
              title = title;
              pwd = pwd;
              active = has_bit flags 0x01;
              child_exited = has_bit flags 0x02;
            },
            offset,
          ))))))

unfoldable pub decode_tabs : ℕ → List ℕ → ℕ → Option (List RemoteTabInfo × ℕ)
unfolding decode_tab
decode_tabs zero payload offset = some ([], offset)
decode_tabs (suc count) payload offset = at_offset (decode_tab payload offset) (λ tab offset.
    at_offset (decode_tabs count payload offset) (λ tabs offset. some (tab ∷ tabs, offset)))

unfoldable pub decode_remote_tab_list : List ℕ → Option (List RemoteTabInfo)
unfolding decode_tabs
decode_remote_tab_list payload =
    if ltb (length payload) 4
    then none
    else at_offset (decode_tabs (from_le_bytes (take 4 payload)) payload 4)
        (λ tabs offset. some tabs)
