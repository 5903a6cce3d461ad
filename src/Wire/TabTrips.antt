-- ===== src/Wire/TabTrips.antt =====
-- A list of tabs of src/remote_wire.rs, written and read again.
use boo.Base.{
  ℕ, suc, ◌+◌, ◌*◌, ◌^◌, ◌<◌, ◌≡◌, ◌∙◌, refl, sym, ap, ap₂, Bool, true, false, List, [], ◌∷◌, ◌++◌,
  append_assoc, append-nil, length, length-append, take, take_all, take-append, drop-append, min,
  ltb, has_bit, is_utf8, All, arith,
}
use boo.Wire.Frames.{to_le_bytes, from_le_bytes, from_le_bytes-to_le_bytes}
use boo.Wire.States.{byte_of, from_le_bytes-to_le_bytes_two}
use boo.Wire.TabLists.{
  RemoteTabInfo, push_string, flags_of, encode_tabs, encode_tab_list, read, read_string, read_text,
  read_tab, read_tabs, decode_tab_list_payload, whole,
}

-- a text that `push_string` does not cut
pub record IsText (text : List ℕ) : Type 0 where
  pub valid : is_utf8 text ≡ true
  pub small : length text < 2 ^ 16

pub record IsTab (tab : RemoteTabInfo) : Type 0 where
  pub id : tab.id < 2 ^ 32
  pub name : IsText tab.name
  pub title : IsText tab.title
  pub pwd : IsText tab.pwd

read_text-append :
    (text rest : List ℕ) → IsText text → read_text (length text) (text ++ rest) ≡ read text rest
read_text-append text rest h =
    let enough : ltb (length (text ++ rest)) (length text) ≡ false =
      ground (arith, length-append text rest) in
    rw (enough, take-append text rest, drop-append text rest, h.valid) refl

read_string-push_string :
    (text rest : List ℕ) → IsText text → read_string (push_string text ++ rest) ≡ read text rest
unfolding read_string push_string
read_string-push_string text rest h =
    let len : min (length text) 65535 ≡ length text = omega (arith, h.small) in
    let enough : ltb (length (push_string text ++ rest)) 2 ≡ false = ground arith in
    rw enough (
      ap₂ (λ n m. read_text (from_le_bytes (to_le_bytes 2 n)) (take m text ++ rest)) len len
      ∙ (ap₂ read_text (from_le_bytes-to_le_bytes_two (length text) h.small)
            (ap (λ t. t ++ rest) (take_all (length text) text (omega arith)))
          ∙ read_text-append text rest h))

flags_active : (a b : Bool) → has_bit (byte_of a + 2 * byte_of b) 1 ≡ a
flags_active true true = refl
flags_active true false = refl
flags_active false true = refl
flags_active false false = refl

flags_exited : (a b : Bool) → has_bit (byte_of a + 2 * byte_of b) 2 ≡ b
flags_exited true true = refl
flags_exited true false = refl
flags_exited false true = refl
flags_exited false false = refl

-- the bytes of a tab in front of others
abbrev tab_bytes : RemoteTabInfo → List ℕ → List ℕ
tab_bytes tab tail =
    to_le_bytes 4 tab.id
    ++ (push_string tab.name
        ++ (push_string tab.title ++ (push_string tab.pwd ++ flags_of tab ∷ tail)))

encode_tabs-append :
    (tab : RemoteTabInfo) (tabs : List RemoteTabInfo) (rest : List ℕ)
    → encode_tabs (tab ∷ tabs) ++ rest ≡ tab_bytes tab (encode_tabs tabs ++ rest)
unfolding encode_tabs
encode_tabs-append tab tabs rest =
    let last = flags_of tab ∷ encode_tabs tabs in
    let pwd = append_assoc (push_string tab.pwd) last rest in
    let title =
      append_assoc (push_string tab.title) (push_string tab.pwd ++ last) rest
      ∙ ap (λ l. push_string tab.title ++ l) pwd in
    let name =
      append_assoc (push_string tab.name) (push_string tab.title ++ (push_string tab.pwd ++ last))
        rest
      ∙ ap (λ l. push_string tab.name ++ l) title in
    ap (λ l. to_le_bytes 4 tab.id ++ l) name

read_tab-tab_bytes :
    (tab : RemoteTabInfo) (tail : List ℕ)
    → IsTab tab
    → read_tab (tab_bytes tab tail) ≡ read tab tail
unfolding read_tab
read_tab-tab_bytes tab tail h =
    let last = flags_of tab ∷ tail in
    let enough : ltb (length (tab_bytes tab tail)) 4 ≡ false = ground arith in
    rw
      (
        enough,
        read_string-push_string tab.name (push_string tab.title ++ (push_string tab.pwd ++ last))
            h.name,
        read_string-push_string tab.title (push_string tab.pwd ++ last) h.title,
        read_string-push_string tab.pwd last h.pwd,
      )
      (λ i.
        read
          (record tab {
            id = from_le_bytes-to_le_bytes tab.id h.id i;
            active = flags_active tab.active tab.child_exited i;
            child_exited = flags_exited tab.active tab.child_exited i;
          })
          tail)

pub read_tabs-encode_tabs :
    (tabs : List RemoteTabInfo) (rest : List ℕ)
    → All IsTab tabs
    → read_tabs (length tabs) (encode_tabs tabs ++ rest) ≡ read tabs rest
unfolding read_tabs encode_tabs
read_tabs-encode_tabs [] rest h = refl
read_tabs-encode_tabs (tab ∷ tabs) rest h =
    ap (read_tabs (suc (length tabs))) (encode_tabs-append tab tabs rest)
    ∙ rw
        (read_tab-tab_bytes tab (encode_tabs tabs ++ rest) h.0, read_tabs-encode_tabs tabs rest h.1)
        refl

-- A whole list of tabs, with what follows it.
read_tabs-encode_tab_list :
    (tabs : List RemoteTabInfo) (rest : List ℕ)
    → length tabs < 2 ^ 32
    → All IsTab tabs
    → read_tabs (from_le_bytes (to_le_bytes 4 (length tabs))) (encode_tabs tabs ++ rest)
      ≡ read tabs rest
read_tabs-encode_tab_list tabs rest few h =
    ap (λ n. read_tabs n (encode_tabs tabs ++ rest)) (from_le_bytes-to_le_bytes (length tabs) few)
    ∙ read_tabs-encode_tabs tabs rest h

-- `decode_tab_list_payload` reads back a list of fewer than 2 ^ 32 tabs that `encode_tab_list`
-- writes, and nothing is left, when every id is below 2 ^ 32 and every text is UTF-8 and has fewer
-- than 2 ^ 16 bytes.
pub decode_tab_list_payload-encode_tab_list :
    (tabs : List RemoteTabInfo)
    → length tabs < 2 ^ 32
    → All IsTab tabs
    → decode_tab_list_payload (encode_tab_list tabs) ≡ read tabs []
unfolding decode_tab_list_payload encode_tab_list
decode_tab_list_payload-encode_tab_list tabs few h =
    let enough : ltb (length (encode_tab_list tabs)) 4 ≡ false = ground arith in
    let back = read_tabs-encode_tab_list tabs [] few h in
    rw enough (
      ap (λ l. whole (read_tabs (from_le_bytes (to_le_bytes 4 (length tabs))) l))
        (sym (append-nil (encode_tabs tabs)))
      ∙ ap whole back)
