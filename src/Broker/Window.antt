-- ===== src/Broker/Window.antt =====
-- The window of idempotency keys (`dedupePacket` of apps/console/src/main/server.ts).
use hotelia.Prelude.{
  ℕ, ◌-◌, Text, List, [], ◌∷◌, Option, none, some, Bool, true, false, ltb, if◌then◌else◌, same_text,
  length,
}

pub record Accepted : Type 0 where
  pub accepted_at : ℕ
  pub event : Text

abbrev pub Window : Type 0
Window = List (Text × Accepted)

unfoldable pub find_key : Text → Window → Option Accepted
find_key k [] = none
find_key k ((j, a) ∷ w) = if same_text j k then some a else find_key k w

unfoldable pub set_key : Text → Accepted → Window → Window
set_key k a [] = (k, a) ∷ []
set_key k a ((j, b) ∷ w) = if same_text j k then (j, a) ∷ w else (j, b) ∷ set_key k a w

abbrev pub window_ms : ℕ
window_ms = 60000

-- Entries that are older than the window go.
unfoldable pub prune : ℕ → Window → Window
prune now [] = []
prune now ((k, a) ∷ w) =
    if ltb window_ms (now - a.accepted_at) then prune now w else (k, a) ∷ prune now w

abbrev pub pruned : ℕ → Window → Window
pruned now w = if ltb 500 (length w) then prune now w else w

abbrev pub is_recent : ℕ → Option Accepted → Bool
is_recent now none = false
is_recent now (some a) = ltb (now - a.accepted_at) window_ms

abbrev pub event_in : Text → Option Accepted → Text
event_in event none = event
event_in event (some a) = a.event

-- Whether the packet is a repetition, the event that is answered, and the window afterwards.
unfoldable pub dedupe_packet : Text → Text → ℕ → Window → Bool × Text × Window
unfolding find_key set_key prune
dedupe_packet key event now w =
    let old = find_key key w in
    if is_recent now old
    then (true, event_in event old, w)
    else (false, event, pruned now (set_key key (record { accepted_at = now; event = event }) w))
