-- ===== src/Pane.antt =====
-- src/pane.rs: pane handles and the counter that their ids are drawn from.
use boo.Base.{ℕ, ◌==◌, next_64, Bool}

-- The surface and the view are addresses, 0 for a null pointer.
pub record PaneHandle : Type 0 where
  pub id : ℕ
  pub surface : ℕ
  pub view : ℕ

-- `NEXT_PANE_ID.fetch_add(1)` gives the old value and wraps.
unfoldable pub fetch_id : ℕ → ℕ × ℕ
fetch_id counter = (counter, next_64 counter)

unfoldable pub new_pane : ℕ → ℕ → ℕ → PaneHandle × ℕ
unfolding fetch_id
new_pane surface view counter =
    let (i, rest) = fetch_id counter in (record { id = i; surface = surface; view = view }, rest)

unfoldable pub detached : ℕ → PaneHandle × ℕ
unfolding fetch_id
detached counter =
    let (i, rest) = fetch_id counter in (record { id = i; surface = 0; view = 0 }, rest)

abbrev pub null : PaneHandle
null = record { id = 0; surface = 0; view = 0 }

unfoldable pub is_null : PaneHandle → Bool
is_null p = p.surface == 0
