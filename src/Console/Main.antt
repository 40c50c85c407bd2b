-- ===== src/Console/Main.antt =====
-- The handlers that the main process registers for the IPC channels
-- (apps/console/src/main/index.ts). The queue of actions is one table: the lock bridge writes into
-- the store of the sync engine, so the bridge is kept without it and gets it for each call. The
-- world gives identifiers and times to the n-th call; an identifier that a call does not use is
-- left. The queries of a database that is there do not raise. `lock:link` is modelled for the TCP
-- channel, the only one that the renderer links.
use hotelia.Prelude.{ℕ, ◌+◌, Text, codes, List, [], ◌++◌, Option, none, some, Bool, or_else}
use hotelia.Ipc.Wrap.{CommandResult, Parsed, valid, Ran, threw, returned, wrap_ipc}
use hotelia.Offline.Action.{OfflineActionRecord, SyncEnqueueInput}
use hotelia.Offline.Store.{Actions}
use hotelia.Offline.Sync.{Engine, SyncStatus, enqueue, status, recent}
use hotelia.Hardware.Channel.{EncodeRequest, EncodeResult, tcp}
use hotelia.Hardware.Bridge.{
  Bridge, Wire, LockDevice, encode, attach, endpoint, missing, Attachment,
}
use hotelia.Payments.Row.{PaymentLedgerRow, PaymentRecordInput, PaymentConfirmationInput}
use hotelia.Payments.Ledger.{
  Rows, MpesaLedgerSummary, record_intent, record_confirmation, match_confirmation, list_ledger,
  ledger_summary,
}
use hotelia.Folios.Row.{Day}
use hotelia.Pms.Row.{Hotel}
use hotelia.Pms.Board.{FrontDeskBoard, HousekeepingTask, front_desk_board, housekeeping_tasks}
use hotelia.Pms.Barrier.{
  PosVerifyInput, PosChargeInput, PosVerification, PosChargeResult, PosBarrier, PosOutcome, barred,
  charged, no_active_stay, lastname_mismatch, folio_create_failed, pos_verify_guest, stay_in_room,
}
use hotelia.Pms.Charge.{pos_post_charge}
use hotelia.Console.Schema.{
  Zod, PaymentRecordWire, PaymentConfirmationWire, PaymentMatchWire, PaymentMatchInput,
  PosVerifyWire, PosChargeWire,
}
use hotelia.Console.Inputs.{
  parse_record, parse_confirmation, parse_match, parse_enqueue, parse_encode, parse_link,
  parse_property, parse_verify, parse_charge,
}
use hotelia.Console.Database.{Db, with_db, is_db_available}

pub record World : Type 0 where
  pub zod : Zod
  pub wire : Wire
  pub lower : Text → Text
  pub number_before : Text → Text → Bool
  pub load : Option Text
  pub fresh : ℕ → ℕ
  pub fresh_folio : ℕ → ℕ
  pub now : ℕ → ℕ
  pub today : ℕ → Day
  pub missing_row : Text

pub record Settings : Type 0 where
  pub server_url : Text
  pub server_port : ℕ
  pub server_token : Text
  pub property_id : Option Text
  pub currency : Option Text

pub record Main : Type 0 where
  pub engine : Engine
  pub locks : Bridge
  pub ledger : Rows
  pub hotel : Hotel
  pub db : Db
  pub settings : Settings
  pub calls : ℕ

-- A call of the bridge, by what it sends.
pub data Call : Type 0 where
  sync_enqueue : SyncEnqueueInput → Call
  sync_status sync_recent lock_list : Call
  lock_encode : EncodeRequest → Call
  lock_link : Option Text → Call
  pms_board housekeeping : Text → Call
  pos_verify : PosVerifyWire → Call
  pos_charge : PosChargeWire → Call
  conf_get : Call
  payments_intent : PaymentRecordWire → Call
  payments_confirmation : PaymentConfirmationWire → Call
  payments_match : PaymentMatchWire → Call
  payments_list payments_summary : Call

pub record Conf : Type 0 where
  pub server_url : Text
  pub server_port : ℕ
  pub server_token : Text
  pub db_available : Bool
  pub property_id : Option Text
  pub currency : Text

-- What the renderer gets of a call.
abbrev pub Reply : Call → Type 0
Reply (sync_enqueue i) = OfflineActionRecord
Reply sync_status = SyncStatus
Reply sync_recent = Actions
Reply lock_list = List LockDevice
Reply (lock_encode i) = EncodeResult
Reply (lock_link i) = Option Text
Reply (pms_board p) = FrontDeskBoard
Reply (housekeeping p) = List HousekeepingTask
Reply (pos_verify i) = PosVerification
Reply (pos_charge i) = PosChargeResult
Reply conf_get = Conf
Reply (payments_intent i) = PaymentLedgerRow
Reply (payments_confirmation i) = PaymentLedgerRow
Reply (payments_match i) = Option PaymentLedgerRow
Reply payments_list = List PaymentLedgerRow
Reply payments_summary = MpesaLedgerSummary

-- A row that must be there and is not raises.
abbrev pub row_or : {A : Type 0} → Text → Option A → Ran A
row_or m none = threw m
row_or m (some a) = returned (some a)

abbrev pub give : {A : Type 0} → A → Ran A
give a = returned (some a)

-- `ipcNoArgsSchema` on a call without arguments
abbrev pub no_args : Unit {0} → Parsed (Unit {0})
no_args = valid

-- The bridge works on the store of the engine.
abbrev pub lent : Main → Bridge
lent m = record m.locks { store = some m.engine.actions }

abbrev pub taken_back : Bridge → Main → Main
taken_back b m = record m {
  engine = record m.engine { actions = or_else b.store m.engine.actions };
  locks = record b { store = none };
}

abbrev pub attachment : Option Text → Attachment
attachment none = missing
attachment (some e) = endpoint e

-- The message of the barrier
abbrev barrier_message : PosChargeInput → Hotel → PosBarrier → Text
barrier_message input h no_active_stay =
    codes "POS_BARRIER_NO_ACTIVE_STAY: no CHECKED_IN stay on room " ++ input.room_number
barrier_message input h lastname_mismatch =
    codes "POS_BARRIER_LASTNAME_MISMATCH: last name \""
    ++ input.last_name
    ++ codes "\" does not match active guest \""
    ++ (elim (stay_in_room input.property_id input.room_number h) [
      | none ↦ []
      | some s ↦ s.guest.last_name
    ])
    ++ codes "\" on room "
    ++ input.room_number
barrier_message input h folio_create_failed = codes "POS_BARRIER_FOLIO_CREATE_FAILED: "

abbrev pub charge_answer : PosChargeInput → Hotel → PosOutcome → Ran PosChargeResult × Hotel
charge_answer input h (barred b) = (threw (barrier_message input h b), h)
charge_answer input h (charged r h') = (returned (some r), h')

-- A handler on the hotel, behind `getDb`.
abbrev pub on_hotel : {A : Type 0} → World → (Hotel → Ran A × Hotel) → Main → Ran A × Main
on_hotel w run m =
    let (r, h, d) = with_db w.load run m.db m.hotel in (r, record m { hotel = h; db = d })

abbrev pub on_engine : {A : Type 0} → Option A × Engine → Text → Main → Ran A × Main
on_engine (r, e) text m = (row_or text r, record m { engine = e })

abbrev pub on_ledger : {A : Type 0} → Ran A × Rows → Main → Ran A × Main
on_ledger (r, t) m = (r, record m { ledger = t })

module _ (w : World) where
  abbrev pub run_enqueue : SyncEnqueueInput → Main → Ran OfflineActionRecord × Main
  run_enqueue i m = on_engine (enqueue (w.fresh m.calls) i (w.now m.calls) m.engine) w.missing_row m

  abbrev pub run_encode : EncodeRequest → Main → Ran EncodeResult × Main
  run_encode i m = let (r, b) = encode w.wire i (lent m) in (give r, taken_back b m)

  abbrev pub run_link : Option Text → Main → Ran (Option Text) × Main
  run_link e m = (give e, record m { locks = or_else (attach tcp (attachment e) m.locks) m.locks })

  -- What the handlers on the hotel do there, in the n-th call.
  abbrev pub board_query : ℕ → ℕ → Hotel → Ran FrontDeskBoard × Hotel
  board_query n p h = (give (front_desk_board w.number_before p (w.today n) h), h)

  abbrev pub tasks_query : ℕ → ℕ → Hotel → Ran (List HousekeepingTask) × Hotel
  tasks_query n p h = (give (housekeeping_tasks w.number_before p (w.today n) h), h)

  abbrev pub verify_query : PosVerifyInput → Hotel → Ran PosVerification × Hotel
  verify_query i h = (give (pos_verify_guest w.lower i h), h)

  abbrev pub charge_query : ℕ → PosChargeInput → Hotel → Ran PosChargeResult × Hotel
  charge_query n i h =
      charge_answer i h (pos_post_charge w.lower (w.fresh n) (w.fresh_folio n) (w.today n) i h)

  abbrev pub run_board : ℕ → Main → Ran FrontDeskBoard × Main
  run_board p m = on_hotel w (board_query m.calls p) m

  abbrev pub run_tasks : ℕ → Main → Ran (List HousekeepingTask) × Main
  run_tasks p m = on_hotel w (tasks_query m.calls p) m

  abbrev pub run_verify : PosVerifyInput → Main → Ran PosVerification × Main
  run_verify i m = on_hotel w (verify_query i) m

  abbrev pub run_charge : PosChargeInput → Main → Ran PosChargeResult × Main
  run_charge i m = on_hotel w (charge_query m.calls i) m

  abbrev pub run_conf : Main → Conf
  run_conf m = record {
    server_url = m.settings.server_url;
    server_port = m.settings.server_port;
    server_token = m.settings.server_token;
    db_available = is_db_available m.db;
    property_id = m.settings.property_id;
    currency = or_else m.settings.currency (codes "KES");
  }

  abbrev pub run_intent : PaymentRecordInput → Main → Ran PaymentLedgerRow × Main
  run_intent i m =
      let (r, t) = record_intent (w.fresh m.calls) i (w.now m.calls) m.ledger in
      on_ledger (row_or w.missing_row r, t) m

  abbrev pub run_confirmation : PaymentConfirmationInput → Main → Ran PaymentLedgerRow × Main
  run_confirmation i m =
      let (r, t) = record_confirmation (w.fresh m.calls) i (w.now m.calls) m.ledger in
      on_ledger (row_or w.missing_row r, t) m

  abbrev pub run_match : PaymentMatchInput → Main → Ran (Option PaymentLedgerRow) × Main
  run_match i m =
      let (r, t) =
        match_confirmation i.confirmation_id i.intent_id i.operator_id (w.now m.calls) m.ledger in
      on_ledger (give r, t) m

  -- A handler without arguments that only reads.
  abbrev pub reads : {A : Type 0} → (Main → A) → Main → CommandResult A × Main
  reads f = wrap_ipc no_args (λ u m. (give (f m), m)) tt

  -- The wrapped handler of the channel of a call.
  abbrev pub served : (c : Call) → Main → CommandResult (Reply c) × Main
  served (sync_enqueue i) = wrap_ipc (parse_enqueue w.zod) run_enqueue i
  served sync_status = reads (λ m. status m.engine)
  served sync_recent = reads (λ m. recent m.engine)
  served lock_list = reads (λ m. m.locks.devices)
  served (lock_encode i) = wrap_ipc (parse_encode w.zod) run_encode i
  served (lock_link i) = wrap_ipc (parse_link w.zod) run_link i
  served (pms_board p) = wrap_ipc (parse_property w.zod) run_board p
  served (housekeeping p) = wrap_ipc (parse_property w.zod) run_tasks p
  served (pos_verify i) = wrap_ipc (parse_verify w.zod) run_verify i
  served (pos_charge i) = wrap_ipc (parse_charge w.zod) run_charge i
  served conf_get = reads run_conf
  served (payments_intent i) = wrap_ipc (parse_record w.zod) run_intent i
  served (payments_confirmation i) = wrap_ipc (parse_confirmation w.zod) run_confirmation i
  served (payments_match i) = wrap_ipc (parse_match w.zod) run_match i
  served payments_list = reads (λ m. list_ledger 100 m.ledger)
  served payments_summary = reads (λ m. ledger_summary (w.now m.calls) m.ledger)

  -- The call, and the next one draws other identifiers and times.
  unfoldable pub handle : (c : Call) → Main → CommandResult (Reply c) × Main
  handle c m = let (r, m') = served c m in (r, record m' { calls = m.calls + 1 })
