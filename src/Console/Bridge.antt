-- ===== src/Console/Bridge.antt =====
-- The bridge between the renderer and the main process (apps/console/src/preload/index.ts), as the
-- views take it (`ConsoleBridge` of apps/console/src/renderer/types.ts): over any state behind it.
use hotelia.Prelude.{Text, List, Option}
use hotelia.Ipc.Wrap.{CommandResult}
use hotelia.Offline.Action.{OfflineActionRecord, SyncEnqueueInput}
use hotelia.Offline.Store.{Actions}
use hotelia.Offline.Sync.{SyncStatus}
use hotelia.Hardware.Channel.{EncodeRequest, EncodeResult}
use hotelia.Hardware.Bridge.{LockDevice}
use hotelia.Payments.Row.{PaymentLedgerRow}
use hotelia.Payments.Ledger.{MpesaLedgerSummary}
use hotelia.Pms.Board.{FrontDeskBoard, HousekeepingTask}
use hotelia.Pms.Barrier.{PosVerification, PosChargeResult}
use hotelia.Console.Schema.{
  PaymentRecordWire, PaymentConfirmationWire, PaymentMatchWire, PosVerifyWire, PosChargeWire,
}
use hotelia.Console.Main.{
  World, Main, Conf, sync_enqueue, sync_status, sync_recent, lock_list, lock_encode, lock_link,
  pms_board, housekeeping, pos_verify, pos_charge, conf_get, payments_intent, payments_confirmation,
  payments_match, payments_list, payments_summary, handle,
}

-- A call on a state gives its envelope and the state after it.
abbrev pub Invoked : Type 0 → Type 0 → Type 0
Invoked S A = S → CommandResult A × S

pub record ConsoleBridge (S : Type 0) : Type 0 where
  pub enqueue : SyncEnqueueInput → Invoked S OfflineActionRecord
  pub status : Invoked S SyncStatus
  pub recent : Invoked S Actions
  pub locks : Invoked S (List LockDevice)
  pub encode : EncodeRequest → Invoked S EncodeResult
  pub link : Option Text → Invoked S (Option Text)
  pub board : Text → Invoked S FrontDeskBoard
  pub tasks : Text → Invoked S (List HousekeepingTask)
  pub verify : PosVerifyWire → Invoked S PosVerification
  pub post_charge : PosChargeWire → Invoked S PosChargeResult
  pub conf : Invoked S Conf
  pub record_intent : PaymentRecordWire → Invoked S PaymentLedgerRow
  pub record_confirmation : PaymentConfirmationWire → Invoked S PaymentLedgerRow
  pub match_payment : PaymentMatchWire → Invoked S (Option PaymentLedgerRow)
  pub ledger : Invoked S (List PaymentLedgerRow)
  pub summary : Invoked S MpesaLedgerSummary

-- The frozen bridge of the preload script, in front of the main process.
abbrev pub main_bridge : World → ConsoleBridge Main
main_bridge w = record {
  enqueue = λ i. handle w (sync_enqueue i);
  status = handle w sync_status;
  recent = handle w sync_recent;
  locks = handle w lock_list;
  encode = λ i. handle w (lock_encode i);
  link = λ e. handle w (lock_link e);
  board = λ p. handle w (pms_board p);
  tasks = λ p. handle w (housekeeping p);
  verify = λ i. handle w (pos_verify i);
  post_charge = λ i. handle w (pos_charge i);
  conf = handle w conf_get;
  record_intent = λ i. handle w (payments_intent i);
  record_confirmation = λ i. handle w (payments_confirmation i);
  match_payment = λ i. handle w (payments_match i);
  ledger = handle w payments_list;
  summary = handle w payments_summary;
}
