-- ===== src/Remote/Caching.antt =====
-- The payloads that src/remote_server_control.rs keeps to send none of them twice in a row.
use boo.Base.{
  ℕ, ◌≡◌, ◌∙◌, refl, sym, ap, inl, inr, true, ◌==◌, ==_refl, some, List, [], ◌∷◌, update,
  Bool-cases,
}
use boo.Batcher.{frame}
use boo.Wire.{MessageType}
use boo.Wire.Frames.{encode_message}
use boo.Remote.{ClientRuntimeView, ClientState, State, send, with_view}
use boo.Remote.Views.{if-true, if-false}
use boo.Remote.Control.{
  CachedControlPayload, cached, with_cached, same_bytes, is_cached, send_new,
  send_cached_control_payload_bytes, tab_list_payload, ui_runtime_state_payload,
  ui_appearance_payload,
}

same_bytes_refl : (p : List ℕ) → same_bytes p p ≡ true
same_bytes_refl [] = refl
same_bytes_refl (b ∷ p) = rw (==_refl b, same_bytes_refl p) refl

cached-with_cached :
    (slot : CachedControlPayload) (p : List ℕ) (v : ClientRuntimeView)
    → cached slot (with_cached slot p v) ≡ some p
cached-with_cached tab_list_payload p v = refl
cached-with_cached ui_runtime_state_payload p v = refl
cached-with_cached ui_appearance_payload p v = refl

is_cached-with_cached :
    (slot : CachedControlPayload) (p : List ℕ) (v : ClientRuntimeView)
    → is_cached (cached slot (with_cached slot p v)) p ≡ true
is_cached-with_cached slot p v =
    ap (λ o. is_cached o p) (cached-with_cached slot p v) ∙ same_bytes_refl p

send_new-twice :
    (ty : MessageType) (p : List ℕ) (slot : CachedControlPayload) (client : ClientState)
    → send_new ty p slot (send_new ty p slot client) ≡ send_new ty p slot client
send_new-twice ty p slot client =
    elim (Bool-cases (is_cached (cached slot client.runtime_view) p)) [
      | inl old ↦ ap (send_new ty p slot) (if-true _ _ _ old) ∙ refl
      | inr new ↦
          let sent = send (frame (encode_message ty p)) (with_view (with_cached slot p) client) in
          let first : send_new ty p slot client ≡ sent = if-false _ _ _ new in
          let second : send_new ty p slot sent ≡ sent =
            if-true _ _ _ (is_cached-with_cached slot p client.runtime_view) in
          ap (send_new ty p slot) first ∙ (second ∙ sym first)
    ]

update-twice :
    (client_id : ℕ) (f : ClientState → ClientState) (m : List (ℕ × ClientState))
    → ((client : ClientState) → f (f client) ≡ f client)
    → update client_id f (update client_id f m) ≡ update client_id f m
update-twice client_id f [] h = refl
update-twice client_id f ((i, client) ∷ m) h = elim (Bool-cases (i == client_id)) [
  | inl same ↦ rw same (rw same (ap (λ c. (i, c) ∷ m) (h client)))
  | inr other ↦ rw other (rw other (ap (λ l. (i, client) ∷ l) (update-twice client_id f m h)))
]

-- Sending the same cached payload to a client twice in a row does what sending it once does: the
-- second call changes nothing and sends nothing.
pub send_cached_control_payload_bytes-twice :
    (s : State) (client_id : ℕ) (ty : MessageType) (p : List ℕ) (slot : CachedControlPayload)
    → send_cached_control_payload_bytes
        (send_cached_control_payload_bytes s client_id ty p slot)
        client_id
        ty
        p
        slot
      ≡ send_cached_control_payload_bytes s client_id ty p slot
unfolding send_cached_control_payload_bytes
send_cached_control_payload_bytes-twice s client_id ty p slot = λ i. record {
  clients = update-twice client_id (send_new ty p slot) s.clients (send_new-twice ty p slot) i;
}
