-- ===== src/Offline/Sync/Snapshot.antt =====
-- The snapshots that the engine pushes to the renderer, and the events that it sends
-- (apps/console/src/main/offline/sync.ts).
use hotelia.Prelude.{
  ℕ, zero, suc, ◌≤◌, ◌≡◌, ◌≢◌, ◌↔◌, refl, inl, inr, Text, List, [], ◌∷◌, Option, some, none, Bool,
  true, false, arith, ltb, or_else, Bool-cases,
}
use hotelia.Events.Registry.{is_valid}
use hotelia.Offline.Action.{
  SyncAction, SyncEnqueueInput, checkin, checkout, room_key_generate, pos_order, folio_transfer,
  maintenance_order, etims_invoice,
}
use hotelia.Offline.Store.{Actions}
use hotelia.Offline.Store.Claims.{UniqueIds}
use hotelia.Offline.Sync.{
  Environment, SyncStatus, Engine, status, differs, emit_changed, probe_online, finish, flush,
  enqueue, flush_loop, flush_ceiling, event_type_of,
}
use hotelia.Offline.Sync.Outcome.{probe_online-keeps}
use hotelia.Offline.Sync.Flush.{Ends, drained, stranded, turn, flush_loop-Ends}

abbrev pub latest : List SyncStatus → Option SyncStatus
latest [] = none
latest (s ∷ _) = some s

-- The latest snapshot that was pushed is the state of the engine.
abbrev pub IsShown : Engine → Type 0
IsShown e = latest e.changed ≡ some (status e)

-- Of the seven actions, the console maps all but `etimsInvoice` to a registered event.
event_type_of-valid : (a : SyncAction) → (is_valid (event_type_of a) ≡ true) ↔ (a ≢ etims_invoice)
unfolding is_valid
event_type_of-valid checkin = (λ h e. cc, λ n. refl)
event_type_of-valid checkout = (λ h e. cc, λ n. refl)
event_type_of-valid room_key_generate = (λ h e. cc, λ n. refl)
event_type_of-valid pos_order = (λ h e. cc, λ n. refl)
event_type_of-valid folio_transfer = (λ h e. cc, λ n. refl)
event_type_of-valid maintenance_order = (λ h e. cc, λ n. refl)
event_type_of-valid etims_invoice = (λ h e. cc, λ n. absurd (n refl))

emit_changed-IsShown : (e : Engine) → IsShown (emit_changed e)
unfolding emit_changed status
emit_changed-IsShown e = refl

same_online : (a b : Bool) → differs a b ≡ false → a ≡ b
same_online a b h = ground arith

probe_online-IsShown :
    (health : Option Bool) (e : Engine) → IsShown e → IsShown (probe_online health e)
unfolding probe_online
probe_online-IsShown health e h = elim (Bool-cases (differs e.online (or_else health false))) [
  | inl d ↦ rw d (emit_changed-IsShown _)
  | inr d ↦ rw (d, ← same_online e.online (or_else health false) d) h
]

-- The loop that delivers nothing changes nothing.
Ends-count :
    {env : Environment} {token : Option Text} {left n : ℕ} {t : Actions} {r : ℕ × Actions}
    → Ends env token left n t r
    → (n ≤ r.0) × (left ≢ 0 → r.0 ≡ n → r.1 ≡ t)
Ends-count (drained left n t h) = (omega arith, λ _ _. refl)
Ends-count (stranded n a xs ys c) = (omega arith, λ z _. absurd (z refl))
Ends-count (turn left n a xs ys r c e) = ground (arith, (Ends-count e).0)

finish-IsShown :
    (p : Engine) (r : ℕ × Actions)
    → (r.0 ≡ 0 → r.1 ≡ p.actions)
    → IsShown p
    → IsShown (finish p r).1
unfolding finish
finish-IsShown p (zero, t) same h = rw (same refl) h
finish-IsShown p (suc n, t) same h =
    let delivered : ltb 0 (suc n) ≡ true = ground arith in rw delivered (emit_changed-IsShown _)

finish-status : (p : Engine) (r : ℕ × Actions) → (finish p r).0 ≡ status (finish p r).1
unfolding finish
finish-status p r = refl

-- A pass that starts with the badge up to date ends so, and returns what the badge shows.
flush-IsShown :
    (env : Environment) (health : Option Bool) (e : Engine)
    → UniqueIds e.actions
    → IsShown e
    → let (s, f) = flush env health e in (s ≡ status f) × IsShown f
unfolding flush
flush-IsShown env health e u h =
    (finish-status p _, finish-IsShown p _ unchanged (probe_online-IsShown health e h))
  where
    p : Engine
    p = probe_online health e

    unchanged :
        (flush_loop env p.token flush_ceiling 0 p.actions).0 ≡ 0
        → (flush_loop env p.token flush_ceiling 0 p.actions).1 ≡ p.actions
    unchanged =
        (Ends-count (
            flush_loop-Ends env p.token flush_ceiling 0 p.actions
              (rw (probe_online-keeps health e).0 u))).1
          (omega arith)

-- Queueing an action always brings the badge up to date.
enqueue-IsShown :
    (i : ℕ) (input : SyncEnqueueInput) (now : ℕ) (e : Engine) → IsShown (enqueue i input now e).1
unfolding enqueue emit_changed status
enqueue-IsShown i input now e = refl
