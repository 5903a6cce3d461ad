-- ===== src/Wire/TabLists.antt =====
-- The lists of tabs: `encode_tab_list` and `decode_tab_list_payload` of src/remote_wire.rs.
use boo.Base.{
  ℕ, zero, suc, ◌+◌, ◌*◌, Bool, List, [], ◌∷◌, ◌++◌, length, take, drop, min, ltb, has_bit, is_utf8,
  if◌then◌else◌,
}
use boo.Wire.Frames.{to_le_bytes, from_le_bytes}
use boo.Wire.States.{byte_of, u16_at}

-- `RemoteTabInfo` and `RemoteDirectTabInfo` of src/remote_types.rs; a text is the list of its bytes
pub record RemoteTabInfo : Type 0 where
  pub id : ℕ
  pub name : List ℕ
  pub title : List ℕ
  pub pwd : List ℕ
  pub active : Bool
  pub child_exited : Bool

-- `push_string`, which cuts a text at 65535 bytes
unfoldable pub push_string : List ℕ → List ℕ
push_string text = let len = min (length text) 65535 in to_le_bytes 2 len ++ take len text

abbrev pub flags_of : RemoteTabInfo → ℕ
flags_of tab = byte_of tab.active + 2 * byte_of tab.child_exited

unfoldable pub encode_tabs : List RemoteTabInfo → List ℕ
unfolding push_string
encode_tabs [] = []
encode_tabs (tab ∷ tabs) =
    to_le_bytes 4 tab.id
    ++ (push_string tab.name
        ++ (push_string tab.title ++ (push_string tab.pwd ++ flags_of tab ∷ encode_tabs tabs)))

unfoldable pub encode_tab_list : List RemoteTabInfo → List ℕ
unfolding encode_tabs
encode_tab_list tabs = to_le_bytes 4 (length tabs) ++ encode_tabs tabs

pub data TabListError : Type 0 where
  too_short truncated invalid_utf8 trailing_bytes : TabListError

-- a value with what is left behind the offset, or an error
pub data Reading {ℓ} (A : Type ℓ) : Type ℓ where
  read : A → List ℕ → Reading A
  refused : TabListError → Reading A

abbrev pub and_then {ℓ κ} :
    {A : Type ℓ} {B : Type κ} → Reading A → (A → List ℕ → Reading B) → Reading B
and_then (read a rest) f = f a rest
and_then (refused e) f = refused e

-- `read_u32`, `read_u16`, `read_string` and the byte of the flags
abbrev pub read_u32 : List ℕ → Reading ℕ
read_u32 bytes =
    if ltb (length bytes) 4
    then refused truncated
    else read (from_le_bytes (take 4 bytes)) (drop 4 bytes)

abbrev pub read_u16 : List ℕ → Reading ℕ
read_u16 bytes =
    if ltb (length bytes) 2 then refused truncated else read (u16_at 0 bytes) (drop 2 bytes)

abbrev pub read_text : ℕ → List ℕ → Reading (List ℕ)
read_text len bytes =
    if ltb (length bytes) len
    then refused truncated
    else if is_utf8 (take len bytes)
    then read (take len bytes) (drop len bytes)
    else refused invalid_utf8

unfoldable pub read_string : List ℕ → Reading (List ℕ)
read_string bytes = and_then (read_u16 bytes) read_text

abbrev pub read_flags : List ℕ → Reading ℕ
read_flags [] = refused truncated
read_flags (b ∷ bytes) = read b bytes

unfoldable pub read_tab : List ℕ → Reading RemoteTabInfo
unfolding read_string
read_tab bytes = and_then (read_u32 bytes) (λ id rest. and_then (read_string rest) (λ name rest.
    and_then (read_string rest) (λ title rest. and_then (read_string rest) (λ pwd rest.
      and_then (read_flags rest) (λ flags rest.
        read
          (record {
            id = id;
            name = name;
            title = title;
            pwd = pwd;
            active = has_bit flags 0x01;
            child_exited = has_bit flags 0x02;
          })
          rest)))))

-- the loop over the tabs
unfoldable pub read_tabs : ℕ → List ℕ → Reading (List RemoteTabInfo)
unfolding read_tab
read_tabs zero bytes = read [] bytes
read_tabs (suc count) bytes =
    and_then (read_tab bytes)
      (λ tab rest. and_then (read_tabs count rest) (λ tabs left. read (tab ∷ tabs) left))

abbrev pub whole : Reading (List RemoteTabInfo) → Reading (List RemoteTabInfo)
whole (read tabs []) = read tabs []
whole (read tabs (b ∷ rest)) = refused trailing_bytes
whole (refused e) = refused e

unfoldable pub decode_tab_list_payload : List ℕ → Reading (List RemoteTabInfo)
unfolding read_tabs
decode_tab_list_payload payload =
    if ltb (length payload) 4
    then refused too_short
    else whole (read_tabs (from_le_bytes (take 4 payload)) (drop 4 payload))
