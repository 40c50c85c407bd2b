-- ===== src/Console/Reconciliation/Shown.antt =====
-- What the two forms of the view achieve (apps/console/src/renderer/views/Reconciliation.tsx).
use hotelia.Prelude.{
  ℕ, ◌+◌, ◌≡◌, refl, inl, inr, Text, codes, List, [], ◌∷◌, ◌++◌, ◌⊎◌, Option, none, some, false,
  Bool-cases, Option-cases,
}
use hotelia.Prelude.Int.{ℤ}
use hotelia.Prelude.Table.{find}
use hotelia.Ipc.Wrap.{Issue, Parsed, invalid, valid, wrap_ipc, unwrap}
use hotelia.Payments.Row.{PaymentRecordInput, LedgerRow, row_to_payment}
use hotelia.Payments.Ledger.{Rows, has_id, has_key, intent_row, list_ledger, ledger_summary}
use hotelia.Payments.Intents.{intent_known, intent_clash, intent_new, AllBefore, list_ledger-latest}
use hotelia.Console.Reconciliation.Manual.{IsFruitless}
use hotelia.Console.Inputs.{parse_record}
use hotelia.Console.Main.{World, Main, handle}
use hotelia.Console.Bridge.{main_bridge}
use hotelia.Console.View.{success}
use hotelia.Console.Reconciliation.{
  Reconciliation, is_incomplete, intent_wire, record_intent, refresh,
}

-- The view after an intent that was sent without an error: the form is cleared, the toast reports
-- success, and the ledger and the summary are those of the main process.
abbrev pub after_intent : ℕ → Reconciliation → Rows → Reconciliation
after_intent now v t = record v {
  ledger = list_ledger 100 t;
  summary = some (ledger_summary now t);
  busy = false;
  error = none;
  intent_amount = [];
  intent_guest = [];
  intent_room = [];
  intent_ref = [];
  toasts =
      record { kind = success; title = codes "Payment intent recorded"; detail = none } ∷ v.toasts;
}

Parsed-cases :
    {I : Type 0} (p : Parsed I) → ((l : List Issue) × (p ≡ invalid l)) ⊎ ((i : I) × (p ≡ valid i))
Parsed-cases (invalid l) = inl (l, refl)
Parsed-cases (valid i) = inr (i, refl)

module _ (w : World) (parse_float : Text → Option ℤ) (currency stamp : Text) where
  -- The schema takes the form as the input i.
  abbrev TakenAs : Reconciliation → PaymentRecordInput → Type 0
  TakenAs v i = parse_record w.zod (intent_wire parse_float currency stamp v) ≡ valid i

  abbrev pub new_intent : Main → PaymentRecordInput → LedgerRow
  new_intent m i = intent_row (w.fresh m.calls) i (w.now m.calls)

  -- What becomes of the form of an intent: nothing, with an error on display; a row that the ledger
  -- has already under the key of the form, which is reported like a new one; or a new PENDING row,
  -- which is then the first on display.
  pub data Sent (v : Reconciliation) (m : Main) : Reconciliation × Main → Type 0 where
    refused : {r : Reconciliation × Main} → IsFruitless v m r → Sent v m r
    repeated :
        (i : PaymentRecordInput) (r : LedgerRow)
        → TakenAs v i
        → find (has_key i.idempotency_key) m.ledger ≡ some r
        → Sent v m (
          after_intent (w.now (m.calls + 1 + 1)) v m.ledger,
          record m { calls = m.calls + 1 + 1 + 1 },
        )
    recorded :
        {u : Reconciliation} {n : Main} (i : PaymentRecordInput)
        → TakenAs v i
        → find (has_key i.idempotency_key) m.ledger ≡ none
        → n ≡ record m { ledger = m.ledger ++ new_intent m i ∷ []; calls = m.calls + 1 + 1 + 1 }
        → u ≡ after_intent (w.now (m.calls + 1 + 1)) v n.ledger
        → u.ledger ≡ row_to_payment (new_intent m i) ∷ list_ledger 99 m.ledger
        → Sent v m (u, n)

  sent_new :
      (v : Reconciliation) (m : Main) (i : PaymentRecordInput)
      → is_incomplete v ≡ false
      → TakenAs v i
      → AllBefore (w.now m.calls) m.ledger
      → find (has_key i.idempotency_key) m.ledger ≡ none
      → find (has_id (w.fresh m.calls)) m.ledger ≡ none
      → Sent v m (record_intent (some (main_bridge w)) parse_float currency stamp v m)
  unfolding record_intent handle wrap_ipc unwrap refresh
  sent_new v m i c p h e f =
      rw (c, p, intent_new (w.fresh m.calls) i (w.now m.calls) m.ledger e f)
        (recorded i p e refl refl (list_ledger-latest 99 (new_intent m i) m.ledger h))

  sent_valid :
      (v : Reconciliation) (m : Main) (i : PaymentRecordInput)
      → is_incomplete v ≡ false
      → TakenAs v i
      → AllBefore (w.now m.calls) m.ledger
      → Sent v m (record_intent (some (main_bridge w)) parse_float currency stamp v m)
  unfolding record_intent handle wrap_ipc unwrap refresh
  sent_valid v m i c p h = elim (Option-cases (find (has_key i.idempotency_key) m.ledger)) [
    | inr (r, e) ↦
        rw (c, p, intent_known (w.fresh m.calls) i (w.now m.calls) m.ledger r e) (repeated i r p e)
    | inl e ↦ elim (Option-cases (find (has_id (w.fresh m.calls)) m.ledger)) [
      | inl f ↦ sent_new v m i c p h e f
      | inr (r, f) ↦
          rw (c, p, intent_clash (w.fresh m.calls) i (w.now m.calls) m.ledger r e f)
            (refused (record { main = refl; view = refl; toast = (_, refl, λ x. cc) }))
    ]
  ]

  -- Where every row of the ledger was recorded before the time of the call, the form of an intent
  -- has one of three outcomes. It is refused: the main process keeps its state but for the number of
  -- calls, the view keeps the form, and the new toast reports no success. Or the ledger has a row
  -- with the key of the form already, and keeps its rows. Or exactly one row is appended, the
  -- PENDING intent of the form, and the view shows it on top of the 99 latest rows of before. In the
  -- last two, and only in them, the view reports success: its form is cleared, and it shows the
  -- ledger and the summary of the main process.
  pub record_intent-Sent :
      (v : Reconciliation) (m : Main)
      → AllBefore (w.now m.calls) m.ledger
      → Sent v m (record_intent (some (main_bridge w)) parse_float currency stamp v m)
  unfolding record_intent handle wrap_ipc unwrap
  record_intent-Sent v m h = elim (Bool-cases (is_incomplete v)) [
    | inl c ↦ rw c (refused (record { main = refl; view = refl; toast = (_, refl, λ x. cc) }))
    | inr c ↦ elim (Parsed-cases (parse_record w.zod (intent_wire parse_float currency stamp v))) [
      | inl (l, p) ↦
          rw (c, p) (refused (record { main = refl; view = refl; toast = (_, refl, λ x. cc) }))
      | inr (i, p) ↦ sent_valid v m i c p h
    ]
  ]
