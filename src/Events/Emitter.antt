-- ===== src/Events/Emitter.antt =====
-- The event bus of the packages (packages/events/src/emitter/index.ts). A handler is a number, since
-- handlers are only compared; what it does with an event is a parameter.
use hotelia.Prelude.{
  ℕ, ◌≡◌, refl, Text, List, [], ◌∷◌, ◌++◌, Option, Bool, true, false, ◌&&◌, arith, ◌==◌,
  if◌then◌else◌, same_text,
}

pub record DomainEvent : Type 0 where
  pub id : Text
  pub type : Text
  pub timestamp : ℕ
  pub property_id : ℕ
  pub user_id : Option ℕ
  pub payload : List (Text × Text)

-- How the call of a handler ends: it throws at once, or gives a promise that is rejected, or not.
pub data Ending : Type 0 where
  throws rejects resolves : Ending

abbrev pub EventHandlers : Type 0
EventHandlers = List (Text × List ℕ)

unfoldable pub listeners_of : Text → EventHandlers → List ℕ
listeners_of t [] = []
listeners_of t ((u, l) ∷ b) = if same_text u t then l else listeners_of t b

unfoldable pub set_listeners : Text → List ℕ → EventHandlers → EventHandlers
set_listeners t l [] = (t, l) ∷ []
set_listeners t l ((u, k) ∷ b) = if same_text u t then (u, l) ∷ b else (u, k) ∷ set_listeners t l b

unfoldable pub add_listener : Text → ℕ → EventHandlers → EventHandlers
unfolding listeners_of set_listeners
add_listener t h b = set_listeners t (listeners_of t b ++ h ∷ []) b

abbrev other_listeners : ℕ → List ℕ → List ℕ
other_listeners h [] = []
other_listeners h (g ∷ l) = if g == h then other_listeners h l else g ∷ other_listeners h l

-- The function that `subscribe` returns.
unfoldable pub remove_listener : Text → ℕ → EventHandlers → EventHandlers
unfolding listeners_of set_listeners
remove_listener t h b = set_listeners t (other_listeners h (listeners_of t b)) b

-- `handlers.map((handler) => handler(event))`: the handlers that are called, and whether the map
-- comes to its end. It stops at a handler that throws.
unfoldable pub called : (ℕ → Ending) → List ℕ → List ℕ × Bool
called run [] = ([], true)
called run (h ∷ l) =
    let (c, ended) = called run l in elim (run h) [ throws ↦ (h ∷ [], false) | _ ↦ (h ∷ c, ended) ]

-- Whether `Promise.all` of the handlers' promises resolves.
unfoldable pub all_resolve : (ℕ → Ending) → List ℕ → Bool
all_resolve run [] = true
all_resolve run (h ∷ l) = elim (run h) [ resolves ↦ all_resolve run l | _ ↦ false ]

-- What `emit` does: the handlers that it calls, whether it sends the event to the stream, and
-- whether its promise resolves. An error of the stream client is caught.
pub record Emitted : Type 0 where
  pub handlers : List ℕ
  pub sent : Bool
  pub resolved : Bool

unfoldable pub emit : (ℕ → DomainEvent → Ending) → Bool → DomainEvent → EventHandlers → Emitted
unfolding listeners_of called all_resolve
emit run connected event b =
    let l = listeners_of event.type b in
    let done = all_resolve (λ h. run h event) l in
    record { handlers = (called (λ h. run h event) l).0; sent = done && connected; resolved = done }

-- With a stream client, an event goes to the stream exactly if the promise of `emit` resolves.
emit-sent :
    (run : ℕ → DomainEvent → Ending) (event : DomainEvent) (b : EventHandlers)
    → (emit run true event b).sent ≡ (emit run true event b).resolved
unfolding emit
emit-sent run event b = ground arith

-- Where all handlers resolve, all of them are called.
called-all : (run : ℕ → Ending) (l : List ℕ) → all_resolve run l ≡ true → called run l ≡ (l, true)
unfolding called all_resolve
called-all run [] e = refl
called-all run (h ∷ l) e = ground (arith, e, called-all run l)
