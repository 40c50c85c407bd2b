-- ===== src/Payments/Row.antt =====
-- The rows of `mpesa_ledger` and the inputs of its operations
-- (apps/console/src/main/offline/store.ts, packages/shared/src/validators/index.ts). An amount of an
-- input is counted in ten-thousandths of the currency unit, and is exact; amounts of rows are whole
-- minor units. Identifiers and times are numbers.
use hotelia.Prelude.{ℕ, ◌+◌, ◌/◌, Text, Option, none, some, [], ◌∷◌, Bool, true, false}

pub data PaymentKind : Type 0 where
  intent confirmation reversal : PaymentKind

pub data PaymentStatus : Type 0 where
  pending matched unmatched reversed : PaymentStatus

pub data EtimsState : Type 0 where
  not_applicable queued transmitted : EtimsState

pub data PaymentMethod : Type 0 where
  cash mpesa_till mpesa_paybill card : PaymentMethod

abbrev pub same_kind : PaymentKind → PaymentKind → Bool
same_kind intent intent = true
same_kind confirmation confirmation = true
same_kind reversal reversal = true
same_kind _ _ = false

abbrev pub same_status : PaymentStatus → PaymentStatus → Bool
same_status pending pending = true
same_status matched matched = true
same_status unmatched unmatched = true
same_status reversed reversed = true
same_status _ _ = false

abbrev pub same_method : PaymentMethod → PaymentMethod → Bool
same_method cash cash = true
same_method mpesa_till mpesa_till = true
same_method mpesa_paybill mpesa_paybill = true
same_method card card = true
same_method _ _ = false

pub record LedgerRow : Type 0 where
  pub id : ℕ
  pub kind : PaymentKind
  pub status : PaymentStatus
  pub method : PaymentMethod
  pub amount_minor : ℕ
  pub currency : Text
  pub reference : Option Text
  pub receipt : Option Text
  pub phone_tail : Option Text
  pub guest_name : Text
  pub room_number : Text
  pub folio_id : Option ℕ
  pub reservation_id : Option ℕ
  pub operator_id : Option ℕ
  pub etims_state : EtimsState
  pub idempotency_key : Text
  pub recorded_at : ℕ
  pub matched_at : Option ℕ
  pub matched_intent_id : Option ℕ

pub record PaymentRecordInput : Type 0 where
  pub method : PaymentMethod
  pub amount : ℕ
  pub currency : Text
  pub guest_name : Text
  pub room_number : Text
  pub reference : Option Text
  pub folio_id : Option ℕ
  pub reservation_id : Option ℕ
  pub idempotency_key : Text
  pub operator_id : Option ℕ

pub record PaymentConfirmationInput : Type 0 where
  pub receipt : Text
  pub amount : ℕ
  pub currency : Text
  pub method : PaymentMethod
  pub reference : Option Text
  pub phone_tail : Option Text
  pub idempotency_key : Text

-- What the ledger hands out: its `amount` is `amount_minor` hundredths.
pub record PaymentLedgerRow : Type 0 where
  pub id : ℕ
  pub kind : PaymentKind
  pub status : PaymentStatus
  pub etims_state : EtimsState
  pub method : PaymentMethod
  pub amount_minor : ℕ
  pub currency : Text
  pub guest_name : Text
  pub room_number : Text
  pub reference : Option Text
  pub receipt : Option Text
  pub folio_id : Option ℕ
  pub reservation_id : Option ℕ
  pub operator_id : Option ℕ
  pub idempotency_key : Text
  pub recorded_at : ℕ
  pub matched_at : Option ℕ
  pub matched_intent_id : Option ℕ

-- An empty text counts as absent.
abbrev pub present : Option Text → Option Text
present none = none
present (some []) = none
present (some (c ∷ s)) = some (c ∷ s)

unfoldable pub row_to_payment : LedgerRow → PaymentLedgerRow
row_to_payment r = record {
  id = r.id;
  kind = r.kind;
  status = r.status;
  etims_state = r.etims_state;
  method = r.method;
  amount_minor = r.amount_minor;
  currency = r.currency;
  guest_name = r.guest_name;
  room_number = r.room_number;
  reference = present r.reference;
  receipt = present r.receipt;
  folio_id = r.folio_id;
  reservation_id = r.reservation_id;
  operator_id = r.operator_id;
  idempotency_key = r.idempotency_key;
  recorded_at = r.recorded_at;
  matched_at = r.matched_at;
  matched_intent_id = r.matched_intent_id;
}

-- `Math.round(amount * 100)`
unfoldable pub to_minor : ℕ → ℕ
to_minor amount = (amount + 50) / 100
