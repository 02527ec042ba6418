-- ===== src/Adapters/Gorilla/Listeners.antt =====
-- propagateToFirstActiveListener and propagateToAllActiveListener of
-- wscengine/wsadapters/gorilla/gorilla_websocket_connection_adapter.go. A listener is the number of
-- its channel; a channel without capacity can be written to exactly while its listener waits on it.
use gowsclient.Base.{
  ℕ, ◌≡◌, refl, Bool, true, false, Option, none, some, List, [], ◌∷◌, ◌++◌, All, elem, arith,
  if◌then◌else◌,
}
use gowsclient.Errors.{Error}

-- What is left in the queue, who was notified, and the Boolean that is returned.
pub record Propagation : Type 0 where
  pub left : List ℕ
  pub notified : Option (ℕ × Error)
  pub sent : Bool

-- `active` are the listeners that wait on their channel.
unfoldable pub propagate_to_first_active_listener : List ℕ → List ℕ → Error → Propagation
propagate_to_first_active_listener active [] notification = record {
  left = [];
  notified = none;
  sent = false;
}
propagate_to_first_active_listener active (l ∷ listeners) notification =
    if elem l active
    then record { left = listeners; notified = some (l, notification); sent = true }
    else propagate_to_first_active_listener active listeners notification

-- The loop that is meant for every listener; it returns nothing.
unfoldable pub propagate_to_all_active_listener :
    List ℕ → List ℕ → Error → List ℕ × Option (ℕ × Error)
propagate_to_all_active_listener active [] notification = ([], none)
propagate_to_all_active_listener active (l ∷ listeners) notification =
    if elem l active
    then (listeners, some (l, notification))
    else propagate_to_all_active_listener active listeners notification

abbrev pub IsIdle : List ℕ → ℕ → Type 0
IsIdle active l = elem l active ≡ false

-- The first listener that waits is notified and true is returned; those before it leave the queue,
-- and those behind it stay.
pub propagate_to_first_found :
    (active idle rest : List ℕ) (l : ℕ) (notification : Error)
    → All (IsIdle active) idle
    → elem l active ≡ true
    → propagate_to_first_active_listener active (idle ++ (l ∷ rest)) notification
      ≡ record { left = rest; notified = some (l, notification); sent = true }
unfolding propagate_to_first_active_listener
propagate_to_first_found active [] rest l n h k = ground arith
propagate_to_first_found active (x ∷ idle) rest l n h k =
    ground (arith, propagate_to_first_found active idle rest l n h.1 k)

-- If no listener waits, nobody is notified, the queue is left empty and false is returned.
pub propagate_to_first_idle :
    (active idle : List ℕ) (notification : Error)
    → All (IsIdle active) idle
    → propagate_to_first_active_listener active idle notification
      ≡ record { left = []; notified = none; sent = false }
unfolding propagate_to_first_active_listener
propagate_to_first_idle active [] n h = refl
propagate_to_first_idle active (x ∷ idle) n h =
    ground (arith, propagate_to_first_idle active idle n h.1)

-- propagateToAllActiveListener does what propagateToFirstActiveListener does, but for the Boolean:
-- for any queue it notifies the same one listener, if any, and leaves the same listeners queued.
propagate_to_all-first :
    (active listeners : List ℕ) (notification : Error)
    → let first = propagate_to_first_active_listener active listeners notification in
      propagate_to_all_active_listener active listeners notification ≡ (first.left, first.notified)
unfolding propagate_to_first_active_listener propagate_to_all_active_listener
propagate_to_all-first active [] n = refl
propagate_to_all-first active (l ∷ listeners) n =
    ground (arith, propagate_to_all-first active listeners n)
