-- ===== src/Broker/Stream.antt =====
-- `GET /stream` (apps/console/src/main/server.ts), behind the token. The closures of a connection
-- have its number; each name keeps its own list, so they do not meet.
use hotelia.Prelude.{
  ℕ, Text, List, [], ◌∷◌, ◌++◌, Option, none, some, Bool, true, false, ◌||◌, not, if◌then◌else◌,
  map, same_text, trim, split_on,
}
use hotelia.Prelude.Table.{select}
use hotelia.Events.Registry.{event_types, includes, is_valid, all_events}
use hotelia.Broker.Bus.{Handlers, subscribe, unsubscribe}
use hotelia.Broker.Guard.{is_empty}

-- `req.query.events`
pub data EventsQuery : Type 0 where
  absent : EventsQuery
  text : Text → EventsQuery
  items : List Text → EventsQuery

pub data Frame : Type 0 where
  connected : Frame
  filter_invalid : List Text → Frame
  hello : Option (List Text) → Frame

abbrev raw_events : EventsQuery → List Text
raw_events absent = split_on b',' []
raw_events (text t) = split_on b',' t
raw_events (items l) = l

unfoldable pub requested : EventsQuery → List Text
unfolding split_on trim
requested q = select (λ t. not (is_empty t)) (map trim (raw_events q))

abbrev pub is_known : Text → Bool
is_known t = same_text t all_events || is_valid t

abbrev pub unknown : List Text → List Text
unknown l = select (λ t. not (is_known t)) l

abbrev pub no_texts : List Text → Bool
no_texts [] = true
no_texts (t ∷ l) = false

-- `showsAll`
abbrev pub shows_all : List Text → Bool
shows_all l = no_texts l || includes all_events l

-- The names that a connection is subscribed to.
abbrev pub names_for : List Text → List Text
names_for l = if shows_all l then event_types else select (λ n. includes n l) event_types

unfoldable pub subscribe_each : List Text → ℕ → Handlers → Handlers
subscribe_each [] i b = b
subscribe_each (n ∷ l) i b = subscribe_each l i (subscribe n i b)

unfoldable pub unsubscribe_each : List Text → ℕ → Handlers → Handlers
unsubscribe_each [] i b = b
unsubscribe_each (n ∷ l) i b = unsubscribe_each l i (unsubscribe n i b)

-- The names of a connection's closures, the last one the no-op that counts it.
abbrev pub closures_for : List Text → List Text
closures_for l = names_for l ++ all_events ∷ []

-- The frames that are written, whether the stream stays open, and the bus. `i` is new.
unfoldable pub open_stream : ℕ → EventsQuery → Handlers → List Frame × Bool × Handlers
unfolding subscribe_each requested
open_stream i q b =
    let l = requested q in
    if no_texts (unknown l)
    then (
      connected ∷ hello (if shows_all l then none else some l) ∷ [],
      true,
      subscribe_each (closures_for l) i b,
    )
    else (connected ∷ filter_invalid (unknown l) ∷ [], false, b)

-- `cleanup`, which may be called more than once.
unfoldable pub close_stream : ℕ → EventsQuery → Handlers → Handlers
unfolding unsubscribe_each requested
close_stream i q b = unsubscribe_each (closures_for (requested q)) i b
