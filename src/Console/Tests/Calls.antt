-- ===== src/Console/Tests/Calls.antt =====
-- Calls of the bridge and clicks in the view of the payments, at a concrete main process.
use hotelia.Prelude.{ℕ, ◌≡◌, refl, Text, codes, [], ◌∷◌, none, some, false}
use hotelia.Prelude.Int.{◌+ℤ◌, ◌-ℤ◌}
use hotelia.Ipc.Wrap.{valid}
use hotelia.Offline.Action.{SyncEnqueueInput, checkout}
use hotelia.Payments.Row.{
  PaymentKind, PaymentStatus, cash, mpesa_till, intent, unmatched, PaymentRecordInput,
  PaymentLedgerRow, confirmation, not_applicable, pending,
}
use hotelia.Folios.Balance.{items_owed, transfers_owed}
use hotelia.Console.Inputs.{parse_record}
use hotelia.Console.Main.{Main, sync_enqueue, handle}
use hotelia.Console.Sound.{IsWell}
use hotelia.Console.History.{History, here, next, calls, History-IsWell}
use hotelia.Console.Bridge.{main_bridge}
use hotelia.Console.Reconciliation.{Reconciliation, click_match, record_intent, intent_wire}
use hotelia.Console.Reconciliation.Manual.{IsFruitless, click_match_fails}
use hotelia.Console.Reconciliation.Shown.{Sent, record_intent-Sent}
use hotelia.Console.Tests.{print, world, main, main-IsWell, parse_float}

abbrev checkout_input : SyncEnqueueInput
checkout_input = record {
  action_type = checkout;
  payload = [];
  idempotency_key = codes "checkout-1";
}

abbrev after_checkout : Main
after_checkout = (handle world (sync_enqueue checkout_input) main).1

calls-History : History world main after_checkout
unfolding items_owed transfers_owed ◌+ℤ◌ ◌-ℤ◌
calls-History = next here (calls (sync_enqueue checkout_input) refl)

History-IsWell_example : IsWell after_checkout
History-IsWell_example = History-IsWell calls-History main-IsWell

-- The view with one intent and one confirmation of the same amount on display.
abbrev row_of : ℕ → PaymentKind → PaymentStatus → PaymentLedgerRow
row_of i k s = record {
  id = i;
  kind = k;
  status = s;
  etims_state = not_applicable;
  method = mpesa_till;
  amount_minor = 150000;
  currency = codes "KES";
  guest_name = codes "Amina";
  room_number = codes "204";
  reference = none;
  receipt = none;
  folio_id = none;
  reservation_id = none;
  operator_id = none;
  idempotency_key = codes "intent-000";
  recorded_at = 40;
  matched_at = none;
  matched_intent_id = none;
}

abbrev view : Text → Reconciliation
view tail = record {
  ledger = row_of 1 intent pending ∷ row_of 2 confirmation unmatched ∷ [];
  summary = none;
  busy = false;
  error = none;
  intent_method = cash;
  intent_amount = codes "25";
  intent_guest = codes "Amina";
  intent_room = codes "204";
  intent_ref = [];
  conf_receipt = codes "QX1";
  conf_amount = codes "25";
  conf_method = cash;
  conf_phone_tail = tail;
  toasts = [];
}

abbrev click : Reconciliation × Main
click =
    click_match (some (main_bridge world)) print (row_of 2 confirmation unmatched) (view []) main

click_match_fails_example : IsFruitless (view []) main click
click_match_fails_example =
    click_match_fails world print (row_of 2 confirmation unmatched) (view []) main refl

abbrev intent_input : PaymentRecordInput
intent_input = record {
  method = cash;
  amount = 250000;
  currency = codes "KES";
  guest_name = codes "Amina";
  room_number = codes "204";
  reference = none;
  folio_id = none;
  reservation_id = none;
  idempotency_key = codes "intent-17";
  operator_id = none;
}

intent_taken :
    parse_record world.zod (intent_wire parse_float (codes "KES") (codes "17") (view []))
    ≡ valid intent_input
unfolding parse_record
intent_taken = refl

abbrev shown : Reconciliation × Main
shown =
    record_intent (some (main_bridge world)) parse_float (codes "KES") (codes "17") (view []) main

record_intent-Sent_example : Sent world parse_float (codes "KES") (codes "17") (view []) main shown
record_intent-Sent_example =
    record_intent-Sent world parse_float (codes "KES") (codes "17") (view []) main tt
