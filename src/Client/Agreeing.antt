-- ===== src/Client/Agreeing.antt =====
-- The two readers of a list of tabs, of src/remote_wire.rs and of src/client_gui.rs.
use boo.Base.{
  ℕ, zero, suc, ◌+◌, ◌<◌, ◌≤◌, ◌≡◌, ◌≢◌, refl, inl, inr, ◌⊎◌, true, false, Option, none, some, List,
  [], ◌∷◌, length, take, drop, get_or, ltb, leb, length-drop, drop-drop, nil_of_length, is_utf8,
  arith, Bool-cases, if◌then◌else◌,
}
use boo.Wire.Frames.{from_le_bytes}
use boo.Wire.States.{u16_at}
use boo.Wire.TabLists.{
  RemoteTabInfo, TabListError, Reading, read, refused, too_short, truncated, invalid_utf8,
  trailing_bytes, and_then, read_u32, read_text, read_string, read_flags, read_tab, read_tabs,
  whole, decode_tab_list_payload,
}
use boo.Client.TabLists.{
  at_offset, decode_id, decode_flags, decode_remote_string, decode_tab, decode_tabs,
  decode_remote_tab_list,
}

-- Both read the same value and stand at the same place of the payload, or both refuse.
data Agrees {ℓ} {A : Type ℓ} (payload : List ℕ) : Reading A → Option (A × ℕ) → Type ℓ where
  both_read :
      (a : A) (offset : ℕ)
      → offset ≤ length payload
      → Agrees payload (read a (drop offset payload)) (some (a, offset))
  both_refuse : (e : TabListError) → e ≢ trailing_bytes → Agrees payload (refused e) none

Agrees-and_then {ℓ κ} :
    {A : Type ℓ} {B : Type κ} (payload : List ℕ) {r : Reading A} {c : Option (A × ℕ)}
    (f : A → List ℕ → Reading B) (g : A → ℕ → Option (B × ℕ))
    → Agrees payload r c
    → ((a : A) (offset : ℕ)
        → offset ≤ length payload
        → Agrees payload (f a (drop offset payload)) (g a offset))
    → Agrees payload (and_then r f) (at_offset c g)
Agrees-and_then payload f g (both_read a offset h) next = next a offset h
Agrees-and_then payload f g (both_refuse e h) next = both_refuse e h

read-Agrees {ℓ} :
    {A : Type ℓ} (payload : List ℕ) (a : A) (n offset : ℕ)
    → offset + n ≤ length payload
    → Agrees payload (read a (drop n (drop offset payload))) (some (a, offset + n))
read-Agrees payload a n offset h = rw (drop-drop n offset payload) (both_read a (offset + n) h)

read_u32-Agrees :
    (payload : List ℕ) (offset : ℕ)
    → offset ≤ length payload
    → Agrees payload (read_u32 (drop offset payload)) (decode_id payload offset)
read_u32-Agrees payload offset h = elim (Bool-cases (ltb (length payload) (offset + 4))) [
  | inl short ↦
      let short' : ltb (length (drop offset payload)) 4 ≡ true =
        ground (arith, length-drop offset payload) in
      rw short' (rw short (both_refuse truncated (λ e. cc)))
  | inr long ↦
      let long' : ltb (length (drop offset payload)) 4 ≡ false =
        ground (arith, length-drop offset payload) in
      rw long' (rw long (read-Agrees payload _ 4 offset (ground arith)))
]

-- what the client does behind the length of a text
abbrev decode_text : ℕ → List ℕ → ℕ → Option (List ℕ × ℕ)
decode_text len payload start =
    if ltb (length payload) (start + len)
    then none
    else if is_utf8 (take len (drop start payload))
    then some (take len (drop start payload), start + len)
    else none

read_text-Agrees :
    (payload : List ℕ) (len start : ℕ)
    → start ≤ length payload
    → Agrees payload (read_text len (drop start payload)) (decode_text len payload start)
read_text-Agrees payload len start h = elim (Bool-cases (ltb (length payload) (start + len))) [
  | inl short ↦
      let short' : ltb (length (drop start payload)) len ≡ true =
        ground (arith, length-drop start payload) in
      rw short' (rw short (both_refuse truncated (λ e. cc)))
  | inr long ↦
      let long' : ltb (length (drop start payload)) len ≡ false =
        ground (arith, length-drop start payload) in
      rw long' (
        rw long (elim (Bool-cases (is_utf8 (take len (drop start payload)))) [
          | inl valid ↦ rw valid (read-Agrees payload _ len start (ground arith))
          | inr invalid ↦ rw invalid (both_refuse invalid_utf8 (λ e. cc))
        ]))
]

read_string-Agrees :
    (payload : List ℕ) (offset : ℕ)
    → offset ≤ length payload
    → Agrees payload (read_string (drop offset payload)) (decode_remote_string payload offset)
unfolding read_string decode_remote_string
read_string-Agrees payload offset h = elim (Bool-cases (ltb (length payload) (offset + 2))) [
  | inl short ↦
      let short' : ltb (length (drop offset payload)) 2 ≡ true =
        ground (arith, length-drop offset payload) in
      rw short' (rw short (both_refuse truncated (λ e. cc)))
  | inr long ↦
      let long' : ltb (length (drop offset payload)) 2 ≡ false =
        ground (arith, length-drop offset payload) in
      rw long' (
        rw long (
          rw (drop-drop 2 offset payload)
            (read_text-Agrees payload (u16_at offset payload) (offset + 2) (ground arith))))
]

drop-get_or :
    (payload : List ℕ) (offset : ℕ)
    → offset < length payload
    → drop offset payload ≡ get_or payload offset 0 ∷ drop (offset + 1) payload
drop-get_or [] offset h = absurd (omega arith)
drop-get_or (b ∷ bytes) zero h = refl
drop-get_or (b ∷ bytes) (suc offset) h =
    let next : suc offset + 1 ≡ suc (offset + 1) = omega arith in
    rw next (drop-get_or bytes offset (omega arith))

drop_end : (payload : List ℕ) (offset : ℕ) → length payload ≤ offset → drop offset payload ≡ []
drop_end payload offset h =
    nil_of_length (drop offset payload) (omega (arith, length-drop offset payload))

read_flags-Agrees :
    (payload : List ℕ) (offset : ℕ)
    → offset ≤ length payload
    → Agrees payload (read_flags (drop offset payload)) (decode_flags payload offset)
read_flags-Agrees payload offset h = elim (Bool-cases (leb (length payload) offset)) [
  | inl short ↦
      rw (drop_end payload offset (ground arith)) (rw short (both_refuse truncated (λ e. cc)))
  | inr long ↦
      rw (drop-get_or payload offset (ground arith))
        (rw long (both_read (get_or payload offset 0) (offset + 1) (ground arith)))
]

read_tab-Agrees :
    (payload : List ℕ) (offset : ℕ)
    → offset ≤ length payload
    → Agrees payload (read_tab (drop offset payload)) (decode_tab payload offset)
unfolding read_tab decode_tab
read_tab-Agrees payload offset h =
    let text = read_string-Agrees payload in
    Agrees-and_then payload _ _ (read_u32-Agrees payload offset h) λ id o h.
      Agrees-and_then payload _ _ (text o h) λ name o h.
        Agrees-and_then payload _ _ (text o h) λ title o h.
          Agrees-and_then payload _ _ (text o h) λ pwd o h.
            Agrees-and_then payload _ _ (read_flags-Agrees payload o h) λ flags o h. both_read _ o h

read_tabs-Agrees :
    (count : ℕ) (payload : List ℕ) (offset : ℕ)
    → offset ≤ length payload
    → Agrees payload (read_tabs count (drop offset payload)) (decode_tabs count payload offset)
unfolding read_tabs decode_tabs
read_tabs-Agrees zero payload offset h = both_read [] offset h
read_tabs-Agrees (suc count) payload offset h =
    Agrees-and_then payload _ _ (read_tab-Agrees payload offset h) λ tab o h.
      Agrees-and_then payload _ _ (read_tabs-Agrees count payload o h)
        λ tabs o h. both_read (tab ∷ tabs) o h

-- What the two make of a payload: the same tabs, or the tabs for the client alone where bytes follow
-- them, or nothing.
abbrev pub SameTabs : Reading (List RemoteTabInfo) → Option (List RemoteTabInfo) → Type 0
SameTabs server client =
    ((tabs : List RemoteTabInfo) × (server ≡ read tabs []) × (client ≡ some tabs))
    ⊎ ((tabs : List RemoteTabInfo) × (server ≡ refused trailing_bytes) × (client ≡ some tabs))
    ⊎ ((e : TabListError) × (e ≢ trailing_bytes) × (server ≡ refused e) × (client ≡ none))

read-SameTabs :
    (tabs : List RemoteTabInfo) (rest : List ℕ) → SameTabs (whole (read tabs rest)) (some tabs)
read-SameTabs tabs [] = inl (tabs, refl, refl)
read-SameTabs tabs (b ∷ rest) = inr (inl (tabs, refl, refl))

whole-SameTabs :
    (payload : List ℕ) {r : Reading (List RemoteTabInfo)} {c : Option (List RemoteTabInfo × ℕ)}
    → Agrees payload r c
    → SameTabs (whole r) (at_offset c (λ tabs offset. some tabs))
whole-SameTabs payload (both_read tabs offset h) = read-SameTabs tabs (drop offset payload)
whole-SameTabs payload (both_refuse e other) = inr (inr (e, other, refl, refl))

-- For every payload the reader of a list of tabs in src/remote_wire.rs and the one in
-- src/client_gui.rs either both read the same tabs, or the first refuses the payload for the bytes
-- behind the tabs and the second reads it, or both refuse it, the first for another reason than
-- bytes behind the tabs.
pub decode_remote_tab_list-SameTabs :
    (payload : List ℕ) → SameTabs (decode_tab_list_payload payload) (decode_remote_tab_list payload)
unfolding decode_tab_list_payload decode_remote_tab_list
decode_remote_tab_list-SameTabs payload = elim (Bool-cases (ltb (length payload) 4)) [
  | inl short ↦ rw short (inr (inr (too_short, (λ e. cc), refl, refl)))
  | inr long ↦ rw long (
      whole-SameTabs payload
        (read_tabs-Agrees (from_le_bytes (take 4 payload)) payload 4 (ground arith)))
]
