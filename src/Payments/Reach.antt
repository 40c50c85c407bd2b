-- ===== src/Payments/Reach.antt =====
-- What holds of the payment ledger after any history of its operations
-- (apps/console/src/main/offline/store.ts).
use hotelia.Prelude.{ℕ, refl, inl, inr, [], ◌∷◌, Option, none, some, Bool-cases, Option-cases}
use hotelia.Prelude.Table.{find, update, select}
use hotelia.Payments.Row.{
  LedgerRow, PaymentRecordInput, PaymentConfirmationInput, EtimsState, to_minor,
}
use hotelia.Payments.Ledger.{
  Rows, has_id, has_key, is_confirmation, is_candidate, insert_or_ignore, intent_row,
  confirmation_row, record_intent, matched_row, set_matched, match_both, auto_matched, confirmed,
  record_confirmation, operated_row, match_confirmation, mark_etims,
}
use hotelia.Payments.Insert.{IsKeyed, Inserted-IsKeyed, insert_or_ignore-Inserted, update-IsKeyed}

pub data Step (t : Rows) : Rows → Type 0 where
  intents : (i : ℕ) (input : PaymentRecordInput) (now : ℕ) → Step t (record_intent i input now t).1
  confirms :
      (i : ℕ) (input : PaymentConfirmationInput) (now : ℕ)
      → Step t (record_confirmation i input now t).1
  matches :
      (c i : ℕ) (operator : Option ℕ) (now : ℕ) → Step t (match_confirmation c i operator now t).1
  etims : (i : ℕ) (state : EtimsState) → Step t (mark_etims i state t)

pub data Reach (t : Rows) : Rows → Type 0 where
  here : Reach t t
  next : {u v : Rows} → Reach t u → Step u v → Reach t v

set_matched-IsKeyed : (now other i : ℕ) (t : Rows) → IsKeyed t → IsKeyed (set_matched now other i t)
unfolding set_matched
set_matched-IsKeyed now other i t s =
    update-IsKeyed (has_id i) (matched_row now other) (λ _. refl) (λ _. refl) (λ _ _. refl)
      (λ _ _. refl) t s

match_both-IsKeyed : (now c i : ℕ) (t : Rows) → IsKeyed t → IsKeyed (match_both now c i t)
unfolding match_both
match_both-IsKeyed now c i t s =
    set_matched-IsKeyed now c i (set_matched now i c t) (set_matched-IsKeyed now i c t s)

auto_matched-IsKeyed :
    (now : ℕ) (r : LedgerRow) (cs t : Rows) → IsKeyed t → IsKeyed (auto_matched now r cs t).1
auto_matched-IsKeyed now r [] t s = s
auto_matched-IsKeyed now r (c ∷ []) t s = match_both-IsKeyed now r.id c.id t s
auto_matched-IsKeyed now r (c ∷ d ∷ cs) t s = s

inserted-IsKeyed : (r : LedgerRow) (t : Rows) → IsKeyed t → IsKeyed (insert_or_ignore r t)
inserted-IsKeyed r t s = Inserted-IsKeyed (insert_or_ignore-Inserted r t) s

record_confirmation-IsKeyed :
    (i : ℕ) (input : PaymentConfirmationInput) (now : ℕ) (t : Rows)
    → IsKeyed t
    → IsKeyed (record_confirmation i input now t).1
unfolding record_confirmation
record_confirmation-IsKeyed i input now t s =
    by_row
      (find (has_key input.idempotency_key) (insert_or_ignore (confirmation_row i input now) t))
      (inserted-IsKeyed (confirmation_row i input now) t s)
  where
    by_row : (o : Option LedgerRow) {u : Rows} → IsKeyed u → IsKeyed (confirmed now input t u o).1
    by_row none v = s
    by_row (some r) {u} v =
        auto_matched-IsKeyed now r (select (is_candidate input.method (to_minor input.amount)) u) u
          v

operated-IsKeyed :
    (c i now : ℕ) (operator : Option ℕ) (t : Rows)
    → IsKeyed t
    → IsKeyed (update (has_id c) (λ a. operated_row operator (matched_row now i a)) t)
operated-IsKeyed c i now none t s =
    update-IsKeyed (has_id c) _ (λ _. refl) (λ _. refl) (λ _ _. refl) (λ _ _. refl) t s
operated-IsKeyed c i now (some o) t s =
    update-IsKeyed (has_id c) _ (λ _. refl) (λ _. refl) (λ _ _. refl) (λ _ _. refl) t s

match_confirmation-IsKeyed :
    (c i : ℕ) (operator : Option ℕ) (now : ℕ) (t : Rows)
    → IsKeyed t
    → IsKeyed (match_confirmation c i operator now t).1
unfolding match_confirmation
match_confirmation-IsKeyed c i operator now t s = elim (Option-cases (find (has_id c) t)) [
  | inl e ↦ rw (e, match_confirmation) s
  | inr (r, e) ↦ elim (Bool-cases (is_confirmation r)) [
    | inl k ↦
        rw (e, match_confirmation, k)
          (set_matched-IsKeyed now c i _ (operated-IsKeyed c i now operator t s))
    | inr k ↦ rw (e, match_confirmation, k) s
  ]
]

pub Step-IsKeyed : {t u : Rows} → Step t u → IsKeyed t → IsKeyed u
unfolding record_intent mark_etims
Step-IsKeyed {t} (intents i input now) s = inserted-IsKeyed (intent_row i input now) t s
Step-IsKeyed {t} (confirms i input now) s = record_confirmation-IsKeyed i input now t s
Step-IsKeyed {t} (matches c i operator now) s = match_confirmation-IsKeyed c i operator now t s
Step-IsKeyed {t} (etims i state) s =
    update-IsKeyed (has_id i) _ (λ _. refl) (λ _. refl) (λ _ _. refl) (λ _ _. refl) t s

-- After any history that began with an empty ledger no identifier, no idempotency key and no
-- receipt of a confirmation occurs twice.
Reach-IsKeyed : {t : Rows} → Reach [] t → IsKeyed t
Reach-IsKeyed here = record { ids = tt; keys = tt; receipts = tt }
Reach-IsKeyed (next r st) = Step-IsKeyed st (Reach-IsKeyed r)
