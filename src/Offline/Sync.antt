-- ===== src/Offline/Sync.antt =====
-- The background flusher `OfflineSyncEngine` (apps/console/src/main/offline/sync.ts). The network
-- and the clock are an environment: what the server answers to the n-th request of a pass, with
-- `none` for an exception or a timeout, and the times of the statements of the n-th round.
pub mod Flush
pub mod Outcome
pub mod Snapshot
use hotelia.Prelude.{
  ℕ, zero, suc, ◌+◌, ◌-◌, Text, codes, List, [], ◌∷◌, Option, none, some, Bool, true, false, ◌||◌,
  not, ltb, ◌==◌, if◌then◌else◌, or_else,
}
use hotelia.Offline.Action.{
  SyncAction, checkin, checkout, room_key_generate, pos_order, folio_transfer, maintenance_order,
  etims_invoice, Payload, OfflineActionRecord, SyncEnqueueInput,
}
use hotelia.Offline.Store.{
  Actions, insert, claim_next, mark_complete, mark_failed, requeue_stale_processing,
  count_by_status, list_recent, oldest_pending_ts,
}

-- The text of an action type in the queue.
abbrev pub action_name : SyncAction → Text
action_name checkin = codes "checkin"
action_name checkout = codes "checkout"
action_name room_key_generate = codes "roomKeyGenerate"
action_name pos_order = codes "posOrder"
action_name folio_transfer = codes "folioTransfer"
action_name maintenance_order = codes "maintenanceOrder"
action_name etims_invoice = codes "etimsInvoice"

abbrev pub action_to_event : SyncAction → Option Text
action_to_event checkin = some (codes "reservation.checked_in")
action_to_event checkout = some (codes "reservation.checked_out")
action_to_event pos_order = some (codes "order.placed")
action_to_event room_key_generate = some (codes "room.key_generated")
action_to_event folio_transfer = some (codes "folio.balance_updated")
action_to_event maintenance_order = some (codes "work_order.created")
action_to_event etims_invoice = none

-- `ACTION_TO_EVENT[record.actionType] ?? record.actionType`
abbrev pub event_type_of : SyncAction → Text
event_type_of a = or_else (action_to_event a) (action_name a)

-- The request that `deliver` sends.
pub record SyncRequest : Type 0 where
  pub idempotency_key : Text
  pub authorization : Option Text
  pub event_type : Text
  pub payload : Payload

pub record Environment : Type 0 where
  pub answer : ℕ → SyncRequest → Option ℕ
  pub claim_time : ℕ → ℕ
  pub mark_time : ℕ → ℕ

abbrev pub http_ok : ℕ → Bool
http_ok s = s == 200 || s == 201 || s == 202 || s == 204

abbrev pub request_of : Option Text → OfflineActionRecord → SyncRequest
request_of token a = record {
  idempotency_key = a.idempotency_key;
  authorization = token;
  event_type = event_type_of a.action_type;
  payload = a.payload;
}

unfoldable pub deliver : Environment → Option Text → ℕ → OfflineActionRecord → Bool
deliver env token n a = elim (env.answer n (request_of token a)) [
  | none ↦ false
  | some s ↦ http_ok s
]

abbrev pub delivery_error : Text
delivery_error = codes "delivery failed (timeout / non-2xx)"

-- What happens to a claimed row in round n.
unfoldable pub settle_delivery :
    Environment → Option Text → ℕ → OfflineActionRecord → Actions → Actions
settle_delivery env token n a t =
    if deliver env token n a
    then mark_complete a.id (env.mark_time n) t
    else mark_failed a.id delivery_error (env.mark_time n) t

-- The loop of `flush`, with `left` rounds until the ceiling. A row is claimed before the ceiling is
-- tested, so the last claim is neither delivered nor given back.
unfoldable pub flush_loop : Environment → Option Text → ℕ → ℕ → Actions → ℕ × Actions
flush_loop env token zero n t = (n, (claim_next (env.claim_time n) t).1)
flush_loop env token (suc left) n t =
    let (c, t') = claim_next (env.claim_time n) t in
    elim c [
      | none ↦ (n, t')
      | some a ↦ flush_loop env token left (n + 1) (settle_delivery env token n a t')
    ]

abbrev pub flush_ceiling : ℕ
flush_ceiling = 500

pub record SyncStatus : Type 0 where
  pub queued : ℕ
  pub processing : ℕ
  pub failed : ℕ
  pub online : Bool
  pub oldest : Option ℕ

-- The engine: its store, its `online` flag, the snapshots pushed to `onChanged`, latest first, and
-- how many passes `enqueue` has started.
pub record Engine : Type 0 where
  pub actions : Actions
  pub token : Option Text
  pub online : Bool
  pub changed : List SyncStatus
  pub passes : ℕ

unfoldable pub status : Engine → SyncStatus
status e =
    let counts = count_by_status e.actions in
    record {
      queued = counts.pending + counts.processing;
      processing = counts.processing;
      failed = counts.failed;
      online = e.online;
      oldest = oldest_pending_ts e.actions;
    }

unfoldable pub emit_changed : Engine → Engine
emit_changed e = record e { changed = status e ∷ e.changed }

abbrev pub differs : Bool → Bool → Bool
differs true b = not b
differs false b = b

-- The answer of the health check, `none` for an exception.
unfoldable pub probe_online : Option Bool → Engine → Engine
unfolding emit_changed
probe_online answer e =
    let now_online = or_else answer false in
    let e' = record e { online = now_online } in
    if differs e.online now_online then emit_changed e' else e'

-- The end of `flush`: a pass that delivered anything pushes a snapshot.
unfoldable pub finish : Engine → ℕ × Actions → SyncStatus × Engine
unfolding emit_changed
finish p (delivered, t) =
    let f = record p { actions = t } in
    let g = if ltb 0 delivered then emit_changed f else f in (status g, g)

unfoldable pub flush : Environment → Option Bool → Engine → SyncStatus × Engine
unfolding finish
flush env health e =
    let p = probe_online health e in finish p (flush_loop env p.token flush_ceiling 0 p.actions)

-- `void this.flush()` starts a pass and does not wait for it. Its first statement waits on the
-- network, so no row changes before the call returns: the pass is counted here, and what it does is
-- a `flush` of the engine at a later time.
unfoldable pub enqueue : ℕ → SyncEnqueueInput → ℕ → Engine → Option OfflineActionRecord × Engine
unfolding emit_changed
enqueue i input now e =
    let (r, t) = insert i input now e.actions in
    let f = emit_changed (record e { actions = t }) in (r, record f { passes = f.passes + 1 })

-- Boot: rows left PROCESSING for 30 seconds go back to PENDING, then a first pass.
unfoldable pub start : Environment → Option Bool → ℕ → Engine → SyncStatus × Engine
unfolding flush
start env health now e =
    flush env health (record e { actions = (requeue_stale_processing 30000 now e.actions).1 })

unfoldable pub recent : Engine → Actions
recent e = list_recent 25 e.actions
