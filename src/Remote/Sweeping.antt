-- ===== src/Remote/Sweeping.antt =====
-- Views that nobody looks at, in src/remote.rs.
use boo.Base.{ℕ, ◌≡◌, refl, ap, inl, inr, false, List, [], ◌∷◌, Bool-cases}
use boo.Remote.{ClientRuntimeView, ClientState, State, with_view}
use boo.Remote.Calls.{is_expired, swept, sweep_clients, sweep_idle_views}

is_expired-swept :
    (now idle_timeout : ℕ) (v : ClientRuntimeView) → is_expired now idle_timeout (swept v) ≡ false
unfolding swept
is_expired-swept now idle_timeout v = refl

sweep_clients-twice :
    (now idle_timeout : ℕ) (m : List (ℕ × ClientState))
    → sweep_clients now idle_timeout (sweep_clients now idle_timeout m).1
      ≡ ([], (sweep_clients now idle_timeout m).1)
sweep_clients-twice now idle_timeout [] = refl
sweep_clients-twice now idle_timeout ((i, client) ∷ m) =
    let later = sweep_clients-twice now idle_timeout m in
    elim (Bool-cases (is_expired now idle_timeout client.runtime_view)) [
      | inl expired ↦ rw expired (
          rw (is_expired-swept now idle_timeout client.runtime_view)
            (ap (λ r. (r.0, (i, with_view swept client) ∷ r.1)) later))
      | inr live ↦ rw live (rw live (ap (λ r. (r.0, (i, client) ∷ r.1)) later))
    ]

-- A second sweep of idle views at the same time and with the same timeout finds no client and
-- changes nothing.
pub sweep_idle_views-twice :
    (s : State) (now idle_timeout : ℕ)
    → sweep_idle_views (sweep_idle_views s now idle_timeout).1 now idle_timeout
      ≡ ([], (sweep_idle_views s now idle_timeout).1)
unfolding sweep_idle_views
sweep_idle_views-twice s now idle_timeout =
    ap (λ r. (r.0, record { clients = r.1 })) (sweep_clients-twice now idle_timeout s.clients)
