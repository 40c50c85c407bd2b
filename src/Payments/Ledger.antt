-- ===== src/Payments/Ledger.antt =====
-- The operations on `mpesa_ledger` (apps/console/src/main/offline/store.ts). Each is one SQLite
-- transaction. A result `none` of an insertion is the exception that a missing row raises, which
-- rolls the transaction back.
use hotelia.Prelude.{
  ℕ, ◌+◌, ◌/◌, Text, List, [], ◌∷◌, ◌++◌, Option, none, some, Bool, false, ◌&&◌, ◌||◌, ltb, ◌==◌,
  if◌then◌else◌, same_text, is_some, take, map,
}
use hotelia.Prelude.Table.{find, update, count, select}
use hotelia.Payments.Row.{
  intent, confirmation, pending, matched, unmatched, reversed, EtimsState, not_applicable,
  PaymentMethod, same_kind, same_status, same_method, LedgerRow, PaymentRecordInput,
  PaymentConfirmationInput, PaymentLedgerRow, row_to_payment, to_minor,
}

abbrev pub Rows : Type 0
Rows = List LedgerRow

abbrev pub has_id : ℕ → LedgerRow → Bool
has_id i r = r.id == i

abbrev pub has_key : Text → LedgerRow → Bool
has_key k r = same_text r.idempotency_key k

abbrev pub is_confirmation : LedgerRow → Bool
is_confirmation r = same_kind r.kind confirmation

abbrev pub same_receipt : Option Text → Option Text → Bool
same_receipt (some s) (some t) = same_text s t
same_receipt _ _ = false

-- The partial index `uq_ledger_receipt`: two confirmations with one receipt.
abbrev pub receipt_clash : LedgerRow → LedgerRow → Bool
receipt_clash a b = is_confirmation a && is_confirmation b && same_receipt b.receipt a.receipt

-- INSERT OR IGNORE: a row that breaks one of the three unique indexes is dropped.
unfoldable pub insert_or_ignore : LedgerRow → Rows → Rows
insert_or_ignore r t =
    if is_some (find (has_id r.id) t)
      || is_some (find (has_key r.idempotency_key) t)
      || is_some (find (receipt_clash r) t)
    then t
    else t ++ r ∷ []

abbrev pub intent_row : ℕ → PaymentRecordInput → ℕ → LedgerRow
intent_row i input now = record {
  id = i;
  kind = intent;
  status = pending;
  method = input.method;
  amount_minor = to_minor input.amount;
  currency = input.currency;
  reference = input.reference;
  receipt = none;
  phone_tail = none;
  guest_name = input.guest_name;
  room_number = input.room_number;
  folio_id = input.folio_id;
  reservation_id = input.reservation_id;
  operator_id = input.operator_id;
  etims_state = not_applicable;
  idempotency_key = input.idempotency_key;
  recorded_at = now;
  matched_at = none;
  matched_intent_id = none;
}

abbrev pub confirmation_row : ℕ → PaymentConfirmationInput → ℕ → LedgerRow
confirmation_row i input now = record {
  id = i;
  kind = confirmation;
  status = unmatched;
  method = input.method;
  amount_minor = to_minor input.amount;
  currency = input.currency;
  reference = input.reference;
  receipt = some input.receipt;
  phone_tail = input.phone_tail;
  guest_name = [];
  room_number = [];
  folio_id = none;
  reservation_id = none;
  operator_id = none;
  etims_state = not_applicable;
  idempotency_key = input.idempotency_key;
  recorded_at = now;
  matched_at = none;
  matched_intent_id = none;
}

abbrev pub to_payment : Option LedgerRow → Option PaymentLedgerRow
to_payment none = none
to_payment (some r) = some (row_to_payment r)

unfoldable pub record_intent : ℕ → PaymentRecordInput → ℕ → Rows → Option PaymentLedgerRow × Rows
record_intent i input now t =
    let t' = insert_or_ignore (intent_row i input now) t in
    (to_payment (find (has_key input.idempotency_key) t'), t')

-- WHERE kind='INTENT' AND status='PENDING' AND method=? AND amount_minor=?
abbrev pub is_candidate : PaymentMethod → ℕ → LedgerRow → Bool
is_candidate m n r =
    same_kind r.kind intent
    && same_status r.status pending
    && same_method r.method m
    && r.amount_minor == n

-- One statement of `matchBoth`.
abbrev pub matched_row : ℕ → ℕ → LedgerRow → LedgerRow
matched_row now other r = record r {
  status = matched;
  matched_at = some now;
  matched_intent_id = some other;
}

unfoldable pub set_matched : ℕ → ℕ → ℕ → Rows → Rows
set_matched now other i = update (has_id i) (matched_row now other)

-- The two statements: first the confirmation, then the intent.
unfoldable pub match_both : ℕ → ℕ → ℕ → Rows → Rows
unfolding set_matched
match_both now confirmation_id intent_id t =
    set_matched now confirmation_id intent_id (set_matched now intent_id confirmation_id t)

-- The row that comes back carries its own identifier as that of the intent.
abbrev pub auto_matched : ℕ → LedgerRow → Rows → Rows → Option PaymentLedgerRow × Rows
auto_matched now r (c ∷ []) t =
    (some (row_to_payment (matched_row now r.id r)), match_both now r.id c.id t)
auto_matched now r _ t = (some (row_to_payment r), t)

-- The candidates are counted up to two, so their order plays no part. `t` is the table before.
abbrev pub confirmed :
    ℕ → PaymentConfirmationInput → Rows → Rows → Option LedgerRow → Option PaymentLedgerRow × Rows
confirmed now input t t' none = (none, t)
confirmed now input t t' (some r) =
    auto_matched now r (select (is_candidate input.method (to_minor input.amount)) t') t'

unfoldable pub record_confirmation :
    ℕ → PaymentConfirmationInput → ℕ → Rows → Option PaymentLedgerRow × Rows
record_confirmation i input now t =
    let t' = insert_or_ignore (confirmation_row i input now) t in
    confirmed now input t t' (find (has_key input.idempotency_key) t')

abbrev pub operated_row : Option ℕ → LedgerRow → LedgerRow
operated_row none r = r
operated_row (some o) r = record r { operator_id = some o }

-- The row that comes back was read before the updates.
unfoldable pub match_confirmation : ℕ → ℕ → Option ℕ → ℕ → Rows → Option PaymentLedgerRow × Rows
match_confirmation confirmation_id intent_id operator now t =
    elim (find (has_id confirmation_id) t) [
      | none ↦ (none, t)
      | some r ↦
          if is_confirmation r
          then (
            some (row_to_payment r),
            set_matched now confirmation_id intent_id (
                update (has_id confirmation_id)
                  (λ a. operated_row operator (matched_row now intent_id a)) t),
          )
          else (none, t)
    ]

unfoldable pub insert_newest : LedgerRow → Rows → Rows
insert_newest a [] = a ∷ []
insert_newest a (b ∷ t) =
    if ltb a.recorded_at b.recorded_at then b ∷ insert_newest a t else a ∷ b ∷ t

-- ORDER BY recorded_at DESC
unfoldable pub newest_first : Rows → Rows
unfolding insert_newest
newest_first [] = []
newest_first (a ∷ t) = insert_newest a (newest_first t)

unfoldable pub list_ledger : ℕ → Rows → List PaymentLedgerRow
unfolding newest_first
list_ledger limit t = map row_to_payment (take limit (newest_first t))

pub record MpesaLedgerSummary : Type 0 where
  pub pending_intents : ℕ
  pub unmatched_confirmations : ℕ
  pub matched : ℕ
  pub reversed : ℕ
  pub today_total_minor_by_method : PaymentMethod → ℕ

-- The UTC day of a time, as in the first ten characters of its ISO text.
abbrev pub day_of : ℕ → ℕ
day_of time = time / 86400000

-- SUM(amount_minor) WHERE p
unfoldable pub sum_minor : (LedgerRow → Bool) → Rows → ℕ
sum_minor p [] = 0
sum_minor p (r ∷ t) = (if p r then r.amount_minor else 0) + sum_minor p t

-- status='MATCHED' AND substr(recorded_at,1,10)=?, for one method
abbrev pub counts_today : ℕ → PaymentMethod → LedgerRow → Bool
counts_today today m r =
    same_status r.status matched && day_of r.recorded_at == today && same_method r.method m

unfoldable pub ledger_summary : ℕ → Rows → MpesaLedgerSummary
ledger_summary now t = record {
  pending_intents = count (λ r. same_kind r.kind intent && same_status r.status pending) t;
  unmatched_confirmations = count (λ r. is_confirmation r && same_status r.status unmatched) t;
  matched = count (λ r. same_status r.status matched) t;
  reversed = count (λ r. same_status r.status reversed) t;
  today_total_minor_by_method = λ m. sum_minor (counts_today (day_of now) m) t;
}

unfoldable pub mark_etims : ℕ → EtimsState → Rows → Rows
mark_etims i state = update (has_id i) (λ r. record r { etims_state = state })
