-- ===== src/Broker/Bus.antt =====
-- `LocalStreamBus` (apps/console/src/main/server.ts). A handler is a number, since handlers are only
-- compared; one that throws is caught, so publishing is the list of the handlers that are called.
use hotelia.Prelude.{
  ℕ, ◌≡◌, refl, Text, List, [], ◌∷◌, ◌++◌, All, ◌≢◌, arith, ◌==◌, if◌then◌else◌, length, same_text,
  same_text_iff,
}
use hotelia.Events.Registry.{all_events}

abbrev pub Handlers : Type 0
Handlers = List (Text × List ℕ)

-- `handlers.get(name) ?? []`
unfoldable pub handlers_of : Text → Handlers → List ℕ
handlers_of n [] = []
handlers_of n ((m, l) ∷ b) = if same_text m n then l else handlers_of n b

-- `handlers.set(name, list)`
unfoldable pub set_handlers : Text → List ℕ → Handlers → Handlers
set_handlers n l [] = (n, l) ∷ []
set_handlers n l ((m, k) ∷ b) = if same_text m n then (m, l) ∷ b else (m, k) ∷ set_handlers n l b

unfoldable pub subscribe : Text → ℕ → Handlers → Handlers
subscribe n h b = set_handlers n (handlers_of n b ++ h ∷ []) b

-- `filter((h) => h !== handler)`
unfoldable pub without : ℕ → List ℕ → List ℕ
without h [] = []
without h (g ∷ l) = if g == h then without h l else g ∷ without h l

-- The function that `subscribe` returns.
unfoldable pub unsubscribe : Text → ℕ → Handlers → Handlers
unfolding without
unsubscribe n h b = set_handlers n (without h (handlers_of n b)) b

-- The handlers that are called, in order.
unfoldable pub publish : Text → Handlers → List ℕ
unfolding handlers_of
publish n b = handlers_of n b ++ handlers_of all_events b

unfoldable pub client_count : Handlers → ℕ
unfolding handlers_of
client_count b = length (handlers_of all_events b)

pub handlers_of-set_handlers :
    (n m : Text) (l : List ℕ) (b : Handlers)
    → handlers_of n (set_handlers m l b) ≡ (if same_text m n then l else handlers_of n b)
unfolding handlers_of set_handlers
handlers_of-set_handlers n m l [] = refl
handlers_of-set_handlers n m l ((k, j) ∷ b) = ground (
  arith,
  same_text_iff k m,
  same_text_iff k n,
  same_text_iff m n,
  handlers_of-set_handlers n m l b,
)

-- The handler is not in the list.
abbrev pub IsNew : ℕ → List ℕ → Type 0
IsNew h = All (λ g. g ≢ h)

pub without-IsNew : (h : ℕ) (l : List ℕ) → IsNew h l → without h l ≡ l
unfolding without
without-IsNew h [] k = refl
without-IsNew h (g ∷ l) k = ground (arith, k.0, without-IsNew h l k.1)

pub without-append : (h : ℕ) (l : List ℕ) → without h (l ++ h ∷ []) ≡ without h l
unfolding without
without-append h [] = ground arith
without-append h (g ∷ l) = ground (arith, without-append h l)

pub without-twice : (h : ℕ) (l : List ℕ) → without h (without h l) ≡ without h l
unfolding without
without-twice h [] = refl
without-twice h (g ∷ l) = ground (arith, without-twice h l)
