-- ===== src/Console/Inputs.antt =====
-- The IPC schemas themselves (packages/shared/src/validators/index.ts): what a call's input must be
-- before its handler runs. Amounts are bounded in ten-thousandths.
use hotelia.Prelude.{ℕ, Text, codes, Option}
use hotelia.Ipc.Wrap.{Parsed, valid}
use hotelia.Offline.Action.{SyncEnqueueInput}
use hotelia.Hardware.Channel.{EncodeRequest}
use hotelia.Payments.Row.{PaymentRecordInput, PaymentConfirmationInput, PaymentMethod}
use hotelia.Pms.Barrier.{PosVerifyInput, PosChargeInput}
use hotelia.Console.Schema.{
  Zod, PaymentRecordWire, PaymentConfirmationWire, PaymentMatchWire, PaymentMatchInput,
  PosVerifyWire, PosChargeWire, ◌<*>◌, optional, uuid_field, text_field, least_field,
  matching_field, exact_field, amount_field, is_alnum, is_dashed,
}

abbrev record_input :
    ℕ
    → Text
    → Text
    → Text
    → Option Text
    → Option ℕ
    → Option ℕ
    → Text
    → Option ℕ
    → PaymentMethod
    → PaymentRecordInput
record_input amount currency guest room reference folio reservation key operator method = record {
  method = method;
  amount = amount;
  currency = currency;
  guest_name = guest;
  room_number = room;
  reference = reference;
  folio_id = folio;
  reservation_id = reservation;
  idempotency_key = key;
  operator_id = operator;
}

abbrev pub confirmation_input :
    Text → ℕ → Text → Option Text → Option Text → Text → PaymentMethod → PaymentConfirmationInput
confirmation_input receipt amount currency reference tail key method = record {
  receipt = receipt;
  amount = amount;
  currency = currency;
  method = method;
  reference = reference;
  phone_tail = tail;
  idempotency_key = key;
}

abbrev pub match_input : ℕ → ℕ → Option ℕ → PaymentMatchInput
match_input c i o = record { confirmation_id = c; intent_id = i; operator_id = o }

abbrev verify_input : ℕ → Text → Text → PosVerifyInput
verify_input p room name = record { property_id = p; room_number = room; last_name = name }

-- The charge does not use the name of the item.
abbrev charge_input : ℕ → Text → Text → Text → ℕ → Option Text → Option ℕ → PosChargeInput
charge_input p room name description amount item operator = record {
  property_id = p;
  room_number = room;
  last_name = name;
  description = description;
  amount = amount;
  operator_id = operator;
}

abbrev enqueue_input : Text → SyncEnqueueInput → SyncEnqueueInput
enqueue_input key r = record r { idempotency_key = key }

abbrev encode_input : Text → Text → Text → EncodeRequest
encode_input d room c = record { device_id = d; room_number = room; credential = c }

module _ (z : Zod) where
  -- `paymentRecordSchema`
  unfoldable pub parse_record : PaymentRecordWire → Parsed PaymentRecordInput
  parse_record r =
      valid record_input
      <*> amount_field z (codes "amount") 100000000000 r.amount
      <*> exact_field z (codes "currency") 3 r.currency
      <*> text_field z (codes "guestName") 1 200 r.guest_name
      <*> text_field z (codes "roomNumber") 1 10 r.room_number
      <*> optional (text_field z (codes "reference") 1 128) r.reference
      <*> optional (uuid_field z (codes "folioId")) r.folio_id
      <*> optional (uuid_field z (codes "reservationId")) r.reservation_id
      <*> text_field z (codes "idempotencyKey") 8 128 r.idempotency_key
      <*> optional (uuid_field z (codes "operatorId")) r.operator_id
      <*> valid r.method

  -- `paymentConfirmationSchema`
  unfoldable pub parse_confirmation : PaymentConfirmationWire → Parsed PaymentConfirmationInput
  parse_confirmation r =
      valid confirmation_input
      <*> matching_field z (codes "receipt") 1 64 is_alnum r.receipt
      <*> amount_field z (codes "amount") 100000000000 r.amount
      <*> exact_field z (codes "currency") 3 r.currency
      <*> optional (text_field z (codes "reference") 1 128) r.reference
      <*> optional (text_field z (codes "phoneTail") 0 4) r.phone_tail
      <*> text_field z (codes "idempotencyKey") 8 128 r.idempotency_key
      <*> valid r.method

  -- `paymentMatchSchema`
  unfoldable pub parse_match : PaymentMatchWire → Parsed PaymentMatchInput
  parse_match r =
      valid match_input
      <*> uuid_field z (codes "confirmationId") r.confirmation_id
      <*> uuid_field z (codes "intentId") r.intent_id
      <*> optional (uuid_field z (codes "operatorId")) r.operator_id

  -- `syncEnqueueSchema`; the kind of an action is one of its enumeration by type.
  unfoldable pub parse_enqueue : SyncEnqueueInput → Parsed SyncEnqueueInput
  parse_enqueue r =
      valid enqueue_input
      <*> text_field z (codes "idempotencyKey") 8 128 r.idempotency_key
      <*> valid r

  -- `z.string().min(4)`, without a bound above
  abbrev credential_field : Text → Parsed Text
  credential_field t = least_field z (codes "credential") 4 t

  -- `lockEncodeSchema`
  unfoldable pub parse_encode : EncodeRequest → Parsed EncodeRequest
  parse_encode r =
      valid encode_input
      <*> text_field z (codes "deviceId") 1 100 r.device_id
      <*> matching_field z (codes "roomNumber") 1 10 is_dashed r.room_number
      <*> credential_field r.credential

  -- The endpoint of `lockLinkSchema`
  unfoldable pub parse_link : Option Text → Parsed (Option Text)
  parse_link = optional (text_field z (codes "endpoint") 1 255)

  -- `propertyQuerySchema`
  unfoldable pub parse_property : Text → Parsed ℕ
  parse_property = uuid_field z (codes "propertyId")

  -- `posVerifySchema`
  unfoldable pub parse_verify : PosVerifyWire → Parsed PosVerifyInput
  parse_verify r =
      valid verify_input
      <*> uuid_field z (codes "propertyId") r.property_id
      <*> text_field z (codes "roomNumber") 1 10 r.room_number
      <*> text_field z (codes "lastName") 1 100 r.last_name

  -- `posChargeSchema`
  unfoldable pub parse_charge : PosChargeWire → Parsed PosChargeInput
  parse_charge r =
      valid charge_input
      <*> uuid_field z (codes "propertyId") r.property_id
      <*> text_field z (codes "roomNumber") 1 10 r.room_number
      <*> text_field z (codes "lastName") 1 100 r.last_name
      <*> text_field z (codes "description") 1 500 r.description
      <*> amount_field z (codes "amount") 10000000000 r.amount
      <*> optional (text_field z (codes "itemName") 1 200) r.item_name
      <*> optional (uuid_field z (codes "operatorId")) r.operator_id
