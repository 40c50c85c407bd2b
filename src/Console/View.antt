-- ===== src/Console/View.antt =====
-- How the handlers of the views run (apps/console/src/renderer): a view's own state, the state behind
-- the bridge, and errors. A promise either resolves or rejects with an `Error` of a message.
use hotelia.Prelude.{Text, codes, [], ◌∷◌, ◌++◌, Option, none, some}
use hotelia.Ipc.Wrap.{Ran, threw, returned, unwrap}
use hotelia.Offline.Action.{SyncAction, Payload, OfflineActionRecord}
use hotelia.Console.Bridge.{Invoked, ConsoleBridge}

pub data ToastKind : Type 0 where
  success error info warn : ToastKind

-- What a view pushes as a toast.
pub record Notice : Type 0 where
  pub kind : ToastKind
  pub title : Text
  pub detail : Option Text

pub data Awaited (A : Type 0) : Type 0 where
  rejected : Text → Awaited A
  resolved : A → Awaited A

-- `await unwrap(…)`, which never returns without a value.
abbrev pub awaited : {A : Type 0} → Ran A → Awaited A
awaited (threw e) = rejected e
awaited (returned none) = rejected []
awaited (returned (some a)) = resolved a

abbrev pub Task : Type 0 → Type 0 → Type 0 → Type 0
Task V S A = V → S → Awaited A × V × S

abbrev pub after : {V S A B : Type 0} → (A → Task V S B) → Awaited A × V × S → Awaited B × V × S
after f (rejected e, v, s) = (rejected e, v, s)
after f (resolved a, v, s) = f a v s

infixl 5 ◌>>=◌ ◌>>◌
abbrev pub ◌>>=◌ : {V S A B : Type 0} → Task V S A → (A → Task V S B) → Task V S B
◌>>=◌ m f v s = after f (m v s)

abbrev pub ◌>>◌ : {V S B : Type 0} → Task V S (Unit {0}) → Task V S B → Task V S B
m >> k = m >>= λ _. k

abbrev pub done : {V S : Type 0} → Task V S (Unit {0})
done v s = (resolved tt, v, s)

abbrev pub set : {V S : Type 0} → (V → V) → Task V S (Unit {0})
set f v s = (resolved tt, f v, s)

abbrev pub call : {V S A : Type 0} → Invoked S A → Task V S A
call f v s = (awaited (unwrap (f s).0), v, (f s).1)

-- `requireBridge`, before a call.
abbrev pub invoke :
    {V S A : Type 0} → Option (ConsoleBridge S) → (ConsoleBridge S → Invoked S A) → Task V S A
invoke none f v s = (rejected (codes "Hotelia bridge unavailable (preload did not load)"), v, s)
invoke (some b) f v s = call (f b) v s

abbrev pub settled : {V S : Type 0} → (Text → V → V) → (V → V) → Awaited (Unit {0}) × V × S → V × S
settled handler last (rejected e, v, s) = (last (handler e v), s)
settled handler last (resolved a, v, s) = (last v, s)

-- `try { … } catch (err) { … } finally { … }`
abbrev pub try_catch :
    {V S : Type 0} → Task V S (Unit {0}) → (Text → V → V) → (V → V) → V → S → V × S
try_catch body handler last v s = settled handler last (body v s)

-- A handler that never rejects, inside of another.
abbrev pub run : {V S : Type 0} → (V → S → V × S) → Task V S (Unit {0})
run f v s = let (v', s') = f v s in (resolved tt, v', s')

-- `String(err)` of an `Error`
abbrev pub error_text : Text → Text
error_text [] = codes "Error"
error_text (c ∷ e) = codes "Error: " ++ c ∷ e

abbrev pub notice : ToastKind → Text → Text → Notice
notice k title detail = record { kind = k; title = title; detail = some detail }

-- `enqueueCritical`; without a bridge the envelope has neither data nor an error.
abbrev pub enqueue_critical :
    {V S : Type 0}
    → Option (ConsoleBridge S)
    → SyncAction
    → Payload
    → Text
    → Task V S OfflineActionRecord
enqueue_critical none action payload key v s = (rejected (codes "IPC call failed"), v, s)
enqueue_critical (some b) action payload key v s =
    call (b.enqueue (record { action_type = action; payload = payload; idempotency_key = key })) v s
