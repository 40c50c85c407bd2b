-- ===== src/Payments/Tests.antt =====
-- Runs of the payment ledger, and the theorems about it at concrete tables.
use hotelia.Prelude.{ℕ, ◌≡◌, ◌≢◌, refl, inl, codes, [], ◌∷◌, none, some, arith, same_text}
use hotelia.Prelude.Table.{find}
use hotelia.Payments.Row.{PaymentRecordInput, PaymentConfirmationInput, mpesa_till, to_minor}
use hotelia.Payments.Ledger.{
  Rows, has_id, intent_row, confirmation_row, matched_row, record_confirmation,
}
use hotelia.Payments.Rows.{IsNew}
use hotelia.Payments.Matching.{record_confirmation_links, record_confirmation_pays_twice}

-- 1500.00 for room 12.
abbrev bill : PaymentRecordInput
bill = record {
  method = mpesa_till;
  amount = 15_000_000;
  currency = codes "KES";
  guest_name = codes "Wanjiru";
  room_number = codes "12";
  reference = none;
  folio_id = none;
  reservation_id = none;
  idempotency_key = codes "intent-1";
  operator_id = none;
}

abbrev receipt : PaymentConfirmationInput
receipt = record {
  receipt = codes "QK12";
  amount = 15_000_000;
  currency = codes "KES";
  method = mpesa_till;
  reference = none;
  phone_tail = none;
  idempotency_key = codes "conf-0001";
}

abbrev billed : Rows
billed = intent_row 1 bill 1000 ∷ []

receipt-IsNew : IsNew (confirmation_row 2 receipt 2000) billed
receipt-IsNew = record { id = (omega arith, tt); key = ((λ e. cc), tt); receipt = (refl, tt) }

record_confirmation_links_example :
    let u = (record_confirmation 2 receipt 2000 billed).1 in
    (find (has_id 2) u ≡ some (matched_row 2000 1 (confirmation_row 2 receipt 2000)))
    × (find (has_id 1) u ≡ some (matched_row 2000 2 (intent_row 1 bill 1000)))
    × ((j : ℕ) → j ≢ 2 → j ≢ 1 → find (has_id j) u ≡ find (has_id j) billed)
unfolding to_minor
record_confirmation_links_example =
    record_confirmation_links 2 receipt 2000 billed (intent_row 1 bill 1000) (tt, tt) receipt-IsNew
      refl

-- The receipt was matched with the bill; a second bill of the same amount waits.
abbrev paid_once : Rows
paid_once =
    matched_row 2000 2 (intent_row 1 bill 1000)
    ∷ matched_row 2000 1 (confirmation_row 2 receipt 2000)
    ∷ record (intent_row 3 bill 3000) { idempotency_key = codes "intent-3" }
    ∷ []

record_confirmation_pays_twice_example :
    let u = (record_confirmation 4 receipt 4000 paid_once).1 in
    (find (has_id 1) u ≡ some (matched_row 2000 2 (intent_row 1 bill 1000)))
    × (find (has_id 3) u
        ≡ some (
            matched_row 4000 2
              (record (intent_row 3 bill 3000) { idempotency_key = codes "intent-3" })))
unfolding to_minor same_text
record_confirmation_pays_twice_example =
    record_confirmation_pays_twice 4 receipt 4000 paid_once
      (matched_row 2000 1 (confirmation_row 2 receipt 2000))
      (matched_row 2000 2 (intent_row 1 bill 1000))
      (record (intent_row 3 bill 3000) { idempotency_key = codes "intent-3" }) (omega arith) refl
      (inl refl) refl refl (omega arith) refl (omega arith)
