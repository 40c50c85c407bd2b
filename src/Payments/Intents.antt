-- ===== src/Payments/Intents.antt =====
-- What recording an intent does to `mpesa_ledger`, and where the list of the ledger shows it
-- (apps/console/src/main/offline/store.ts).
use hotelia.Prelude.{
  ℕ, suc, ◌<◌, ◌≡◌, refl, [], ◌∷◌, ◌++◌, none, some, true, All, ltb, arith, same_text_iff,
}
use hotelia.Prelude.Table.{find, find-append_none}
use hotelia.Payments.Row.{LedgerRow, PaymentRecordInput, row_to_payment}
use hotelia.Payments.Ledger.{
  Rows, has_id, has_key, receipt_clash, insert_or_ignore, intent_row, record_intent, insert_newest,
  newest_first, list_ledger,
}

-- An intent has no receipt.
no_clash :
    (i : ℕ) (input : PaymentRecordInput) (now : ℕ) (t : Rows)
    → find (receipt_clash (intent_row i input now)) t ≡ none
no_clash i input now [] = refl
no_clash i input now (r ∷ t) = no_clash i input now t

pub intent_known :
    (i : ℕ) (input : PaymentRecordInput) (now : ℕ) (t : Rows) (r : LedgerRow)
    → find (has_key input.idempotency_key) t ≡ some r
    → record_intent i input now t ≡ (some (row_to_payment r), t)
unfolding record_intent insert_or_ignore
intent_known i input now t r e = ground (arith, e)

pub intent_clash :
    (i : ℕ) (input : PaymentRecordInput) (now : ℕ) (t : Rows) (r : LedgerRow)
    → find (has_key input.idempotency_key) t ≡ none
    → find (has_id i) t ≡ some r
    → record_intent i input now t ≡ (none, t)
unfolding record_intent insert_or_ignore
intent_clash i input now t r e f = ground (arith, e, f)

pub intent_new :
    (i : ℕ) (input : PaymentRecordInput) (now : ℕ) (t : Rows)
    → find (has_key input.idempotency_key) t ≡ none
    → find (has_id i) t ≡ none
    → record_intent i input now t
      ≡ (some (row_to_payment (intent_row i input now)), t ++ intent_row i input now ∷ [])
unfolding record_intent insert_or_ignore
intent_new i input now t e f = ground (
  arith,
  no_clash i input now t,
  find-append_none (has_key input.idempotency_key) t (intent_row i input now ∷ []),
  same_text_iff input.idempotency_key input.idempotency_key,
)

-- Every row was recorded before the time.
abbrev pub AllBefore : ℕ → Rows → Type 0
AllBefore now t = All (λ (r : LedgerRow). r.recorded_at < now) t

newest_first-latest :
    (r : LedgerRow) (t : Rows)
    → AllBefore r.recorded_at t
    → newest_first (t ++ r ∷ []) ≡ r ∷ newest_first t
unfolding newest_first insert_newest
newest_first-latest r [] h = refl
newest_first-latest r (a ∷ t) h =
    let k : ltb a.recorded_at r.recorded_at ≡ true = ground (arith, h.0) in
    rw (newest_first-latest r t h.1, k) refl

-- The row that was recorded last is listed first.
pub list_ledger-latest :
    (n : ℕ) (r : LedgerRow) (t : Rows)
    → AllBefore r.recorded_at t
    → list_ledger (suc n) (t ++ r ∷ []) ≡ row_to_payment r ∷ list_ledger n t
unfolding list_ledger
list_ledger-latest n r t h = rw (newest_first-latest r t h) refl
