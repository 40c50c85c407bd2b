-- ===== src/Console/Reconciliation.antt =====
-- The view `Reconciliation` (apps/console/src/renderer/views/Reconciliation.tsx): its two forms, the
-- match by hand and the refresh. `parse_float` stands for `parseFloat`, in ten-thousandths with
-- `none` for NaN, and `stamp` for the clock and the random letters of an idempotency key. The toasts
-- are kept latest first. No other event of the view comes in while a handler waits.
pub mod Manual
pub mod Shown
use hotelia.Prelude.{
  ℕ, Text, codes, List, [], ◌∷◌, ◌++◌, Option, none, some, Bool, true, false, ◌&&◌, ◌||◌, ◌==◌,
  if◌then◌else◌,
}
use hotelia.Prelude.Int.{ℤ}
use hotelia.Prelude.Table.{find}
use hotelia.Payments.Row.{
  intent, confirmation, pending, unmatched, same_kind, same_status, same_method, PaymentMethod,
  PaymentLedgerRow,
}
use hotelia.Payments.Ledger.{MpesaLedgerSummary}
use hotelia.Console.Schema.{PaymentRecordWire, PaymentConfirmationWire, PaymentMatchWire}
use hotelia.Console.Bridge.{ConsoleBridge}
use hotelia.Console.View.{
  success, error, warn, Notice, notice, Task, ◌>>=◌, ◌>>◌, done, set, invoke, try_catch, run,
  error_text,
}

pub record Reconciliation : Type 0 where
  pub ledger : List PaymentLedgerRow
  pub summary : Option MpesaLedgerSummary
  pub busy : Bool
  pub error : Option Text
  pub intent_method : PaymentMethod
  pub intent_amount : Text
  pub intent_guest : Text
  pub intent_room : Text
  pub intent_ref : Text
  pub conf_receipt : Text
  pub conf_amount : Text
  pub conf_method : PaymentMethod
  pub conf_phone_tail : Text
  pub toasts : List Notice

abbrev pub is_empty : Text → Bool
is_empty [] = true
is_empty (c ∷ t) = false

-- `text || undefined`
abbrev pub unless_empty : Text → Option Text
unless_empty [] = none
unless_empty (c ∷ t) = some (c ∷ t)

abbrev pub push : Notice → Reconciliation → Reconciliation
push n v = record v { toasts = n ∷ v.toasts }

abbrev set_busy : Bool → Reconciliation → Reconciliation
set_busy b v = record v { busy = b }

-- The `catch` and the `finally` of the handlers.
abbrev pub failed : Text → Text → Reconciliation → Reconciliation
failed title e = push (notice error title (error_text e))

abbrev pub succeeded : Text → Reconciliation → Reconciliation
succeeded title = push (record { kind = success; title = title; detail = none })

abbrev show_ledger : List PaymentLedgerRow → MpesaLedgerSummary → Reconciliation → Reconciliation
show_ledger rows sum v = record v { ledger = rows; summary = some sum; error = none }

abbrev show_error : Text → Reconciliation → Reconciliation
show_error e v = record v { error = some e }

abbrev pub intent_wire : (Text → Option ℤ) → Text → Text → Reconciliation → PaymentRecordWire
intent_wire parse_float currency stamp v = record {
  method = v.intent_method;
  amount = parse_float v.intent_amount;
  currency = currency;
  guest_name = v.intent_guest;
  room_number = v.intent_room;
  reference = unless_empty v.intent_ref;
  folio_id = none;
  reservation_id = none;
  idempotency_key = codes "intent-" ++ stamp;
  operator_id = none;
}

abbrev clear_intent : Reconciliation → Reconciliation
clear_intent v = record v {
  intent_amount = [];
  intent_guest = [];
  intent_room = [];
  intent_ref = [];
}

abbrev pub is_incomplete : Reconciliation → Bool
is_incomplete v = is_empty v.intent_amount || is_empty v.intent_guest || is_empty v.intent_room

abbrev pub is_blank : Reconciliation → Bool
is_blank v = is_empty v.conf_receipt || is_empty v.conf_amount

abbrev pub confirmation_wire :
    (Text → Option ℤ) → Text → Text → Reconciliation → PaymentConfirmationWire
confirmation_wire parse_float currency stamp v = record {
  receipt = v.conf_receipt;
  amount = parse_float v.conf_amount;
  currency = currency;
  method = v.conf_method;
  reference = none;
  phone_tail = unless_empty v.conf_phone_tail;
  idempotency_key = codes "conf-" ++ stamp;
}

abbrev clear_confirmation : Reconciliation → Reconciliation
clear_confirmation v = record v { conf_receipt = []; conf_amount = []; conf_phone_tail = [] }

abbrev pub match_wire : Text → Text → PaymentMatchWire
match_wire c i = record { confirmation_id = c; intent_id = i; operator_id = some (codes "manual") }

module _ {S : Type 0} (bridge : Option (ConsoleBridge S)) where
  -- The two calls of `Promise.all`
  abbrev load_ledger : Task Reconciliation S (Unit {0})
  load_ledger = do
    rows ← invoke bridge (λ b. b.ledger)
    sum ← invoke bridge (λ b. b.summary)
    set (show_ledger rows sum)

  abbrev refresh_with : Option (ConsoleBridge S) → Reconciliation → S → Reconciliation × S
  refresh_with none v s = (v, s)
  refresh_with (some b) v s = try_catch load_ledger show_error (λ u. u) v s

  -- `refresh`
  unfoldable pub refresh : Reconciliation → S → Reconciliation × S
  refresh = refresh_with bridge

  abbrev send_intent : PaymentRecordWire → Task Reconciliation S (Unit {0})
  unfolding refresh
  send_intent wire = do
    row ← invoke bridge (λ b. b.record_intent wire)
    set (succeeded (codes "Payment intent recorded"))
    set clear_intent
    run refresh

  -- `recordIntent`
  unfoldable pub record_intent :
      (Text → Option ℤ) → Text → Text → Reconciliation → S → Reconciliation × S
  unfolding send_intent
  record_intent parse_float currency stamp v s =
      if is_incomplete v
      then (
        push
            (notice error (codes "Missing fields")
              (codes "Amount, guest name, and room are required."))
            v,
        s,
      )
      else try_catch (send_intent (intent_wire parse_float currency stamp v))
          (failed (codes "Failed to record intent")) (set_busy false) (set_busy true v) s

  abbrev send_confirmation : PaymentConfirmationWire → Task Reconciliation S (Unit {0})
  unfolding refresh
  send_confirmation wire = do
    row ← invoke bridge (λ b. b.record_confirmation wire)
    set (push (notice success (codes "Confirmation recorded") (codes "Auto-matching attempted.")))
    set clear_confirmation
    run refresh

  -- `recordConfirmation`
  unfoldable pub record_confirmation :
      (Text → Option ℤ) → Text → Text → Reconciliation → S → Reconciliation × S
  unfolding send_confirmation
  record_confirmation parse_float currency stamp v s =
      if is_blank v
      then (
        push (notice error (codes "Missing fields") (codes "Receipt and amount are required.")) v,
        s,
      )
      else try_catch (send_confirmation (confirmation_wire parse_float currency stamp v))
          (failed (codes "Failed to record confirmation")) (set_busy false) (set_busy true v) s

  abbrev send_match : PaymentMatchWire → Task Reconciliation S (Unit {0})
  unfolding refresh
  send_match wire = do
    row ← invoke bridge (λ b. b.match_payment wire)
    set (succeeded (codes "Matched!"))
    run refresh

  -- `matchIntent`
  unfoldable pub match_intent : Text → Text → Reconciliation → S → Reconciliation × S
  unfolding send_match
  match_intent c i v s =
      try_catch (send_match (match_wire c i)) (failed (codes "Match failed")) (set_busy false)
        (set_busy true v) s

-- The intent that the button of a row proposes.
abbrev pub is_proposal : PaymentLedgerRow → PaymentLedgerRow → Bool
is_proposal row r =
    same_kind r.kind intent
    && same_status r.status pending
    && same_method r.method row.method
    && r.amount_minor == row.amount_minor

-- The rows that have a button.
abbrev pub has_button : PaymentLedgerRow → Bool
has_button r = same_status r.status unmatched && same_kind r.kind confirmation

-- A click on the button, by the intent that it proposes; `print` gives the text of an identifier.
abbrev pub clicked :
    {S : Type 0}
    → Option (ConsoleBridge S)
    → (ℕ → Text)
    → PaymentLedgerRow
    → Reconciliation
    → S
    → Option PaymentLedgerRow
    → Reconciliation × S
unfolding match_intent
clicked bridge print row v s (some r) = match_intent bridge (print row.id) (print r.id) v s
clicked bridge print row v s none = (
  push
      (notice warn (codes "No matching intent found")
        (codes "Create a payment intent first, then match manually."))
      v,
  s,
)

unfoldable pub click_match :
    {S : Type 0}
    → Option (ConsoleBridge S)
    → (ℕ → Text)
    → PaymentLedgerRow
    → Reconciliation
    → S
    → Reconciliation × S
unfolding match_intent
click_match bridge print row v s = clicked bridge print row v s (find (is_proposal row) v.ledger)
