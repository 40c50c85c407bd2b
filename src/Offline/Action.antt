-- ===== src/Offline/Action.antt =====
-- The rows of the `offline_actions` table (apps/console/src/main/offline/store.ts) and the kinds of
-- action that the console may queue (packages/shared/src/validators/index.ts). A payload is kept as
-- its fields, each with the text that `String` gives of its value, which is all that the modelled
-- code reads of it. Identifiers are compared and never taken apart, so they are numbers; so are
-- times, in milliseconds, whose order is that of the ISO texts in the table.
use hotelia.Prelude.{ℕ, Text, List, Option, Bool, true, false}

pub data ActionStatus : Type 0 where
  pending processing failed completed : ActionStatus

abbrev pub same_status : ActionStatus → ActionStatus → Bool
same_status pending pending = true
same_status processing processing = true
same_status failed failed = true
same_status completed completed = true
same_status _ _ = false

-- `syncActionSchema`
pub data SyncAction : Type 0 where
  checkin checkout room_key_generate pos_order folio_transfer maintenance_order : SyncAction
  etims_invoice : SyncAction

abbrev pub Payload : Type 0
Payload = List (Text × Text)

pub record OfflineActionRecord : Type 0 where
  pub id : ℕ
  pub action_type : SyncAction
  pub payload : Payload
  pub idempotency_key : Text
  pub status : ActionStatus
  pub created_at : ℕ
  pub updated_at : ℕ
  pub retry_count : ℕ
  pub last_error : Option Text

pub record SyncEnqueueInput : Type 0 where
  pub action_type : SyncAction
  pub payload : Payload
  pub idempotency_key : Text

pub record ActionStatusCounts : Type 0 where
  pub pending : ℕ
  pub processing : ℕ
  pub failed : ℕ
  pub completed : ℕ

abbrev pub max_retry_count : ℕ
max_retry_count = 8
