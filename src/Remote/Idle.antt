-- ===== src/Remote/Idle.antt =====
-- When src/remote_state.rs disconnects a client that went silent.
use boo.Base.{
  ℕ, ◌-◌, ◌<◌, ◌≡◌, ◌↔◌, ◌⊎◌, inl, inr, true, false, Option, none, some, find, or_else, arith,
  Option-cases,
}
use boo.Remote.{
  ClientState, State, DisconnectReason, auth_timeout, heartbeat_timeout, idle_reason,
  should_disconnect_idle_client,
}

-- The last sign of life: the last heartbeat or, before the first, the authentication.
abbrev pub LastSign : ClientState → ℕ → Type 0
LastSign client last =
    (client.last_heartbeat_at ≡ some last)
    ⊎ (client.last_heartbeat_at ≡ none) × (client.authenticated_at ≡ some last)

-- A client to be disconnected: one that has not answered the challenge within its window, or one
-- that is authenticated, comes from elsewhere and gave no sign of life within the other window.
abbrev pub IsIdle : ClientState → ℕ → ℕ → ℕ → DisconnectReason → Type 0
IsIdle client now auth_challenge_window heartbeat_window auth_timeout =
    (client.authenticated ≡ false) × (auth_challenge_window < now - client.connected_at)
IsIdle client now auth_challenge_window heartbeat_window heartbeat_timeout =
    (client.authenticated ≡ true)
    × (client.is_local ≡ false)
    × ((last : ℕ) × LastSign client last × (heartbeat_window < now - last))

reason_of : ClientState → ℕ → ℕ → ℕ → Option DisconnectReason
reason_of client now w w' =
    idle_reason now w w' client.authenticated client.is_local
      (or_else client.last_heartbeat_at client.authenticated_at) client.connected_at

reason_of-IsIdle :
    (client : ClientState) (now w w' : ℕ) (reason : DisconnectReason)
    → reason_of client now w w' ≡ some reason
    → IsIdle client now w w' reason
unfolding reason_of
reason_of-IsIdle client now w w' auth_timeout e = ground arith
reason_of-IsIdle client now w w' heartbeat_timeout e =
    elim (Option-cases client.last_heartbeat_at) [
      | inr (last, beat) ↦ (ground arith, ground arith, (last, inl beat, ground arith))
      | inl no_beat ↦ elim (Option-cases client.authenticated_at) [
        | inr (last, since) ↦
            (ground arith, ground arith, (last, inr (no_beat, since), ground arith))
        | inl never ↦ absurd (ground arith)
      ]
    ]

IsIdle-reason_of :
    (client : ClientState) (now w w' : ℕ) (reason : DisconnectReason)
    → IsIdle client now w w' reason
    → reason_of client now w w' ≡ some reason
unfolding reason_of
IsIdle-reason_of client now w w' auth_timeout (waiting, late) = ground arith
IsIdle-reason_of client now w w' heartbeat_timeout (known, remote, (last, inl beat, late)) =
    ground arith
IsIdle-reason_of client now w w' heartbeat_timeout
      (known, remote, (last, inr (no_beat, at), late)) =
    ground arith

-- A client is to be disconnected exactly when it is known and either has not authenticated and is
-- connected for longer than the challenge window, or has, is not local, and its last sign of life,
-- the last heartbeat or else the authentication, is longer ago than the heartbeat window; the
-- reason tells which.
pub should_disconnect_idle_client-IsIdle :
    (s : State) (now client_id auth_challenge_window heartbeat_window : ℕ)
    (reason : DisconnectReason)
    → (should_disconnect_idle_client s now client_id auth_challenge_window heartbeat_window
        ≡ some reason)
      ↔ ((client : ClientState) × (find client_id s.clients ≡ some client)
          × IsIdle client now auth_challenge_window heartbeat_window reason)
unfolding should_disconnect_idle_client reason_of
should_disconnect_idle_client-IsIdle s now client_id w w' reason = (
  λ e. elim (Option-cases (find client_id s.clients)) [
    | inl gone ↦ absurd (ground (arith, gone, e))
    | inr (client, there) ↦ (
      client,
      there,
      reason_of-IsIdle client now w w' reason (rw (there, should_disconnect_idle_client) at e),
    )
  ],
  λ idle.
      let (client, there, late) = idle in
      rw (there, should_disconnect_idle_client) (IsIdle-reason_of client now w w' reason late),
)
