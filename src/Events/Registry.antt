-- ===== src/Events/Registry.antt =====
-- The registry of domain event names (packages/events/src/handlers/index.ts and
-- packages/events/src/registry.ts).
use hotelia.Prelude.{Text, codes, List, [], ◌∷◌, Bool, false, ◌||◌, same_text}

-- `Object.values(EVENT_TYPES)`
abbrev pub event_types : List Text
event_types =
    codes "reservation.created"
    ∷ codes "reservation.confirmed"
    ∷ codes "reservation.checked_in"
    ∷ codes "reservation.checked_out"
    ∷ codes "reservation.cancelled"
    ∷ codes "room.status_changed"
    ∷ codes "room.key_generated"
    ∷ codes "folio.balance_updated"
    ∷ codes "order.placed"
    ∷ codes "order.confirmed"
    ∷ codes "order.preparing"
    ∷ codes "order.ready"
    ∷ codes "order.delivered"
    ∷ codes "order.completed"
    ∷ codes "payment.authorized"
    ∷ codes "payment.captured"
    ∷ codes "payment.refunded"
    ∷ codes "work_order.created"
    ∷ codes "work_order.assigned"
    ∷ codes "work_order.completed"
    ∷ codes "daily_rate.changed"
    ∷ codes "guest.message_received"
    ∷ []

unfoldable pub includes : Text → List Text → Bool
includes t [] = false
includes t (s ∷ l) = same_text s t || includes t l

-- `eventRegistry.isValid`
unfoldable pub is_valid : Text → Bool
unfolding includes same_text
is_valid t = includes t event_types

-- `eventRegistry.ALL`
abbrev pub all_events : Text
all_events = codes "*"
