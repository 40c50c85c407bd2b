-- ===== src/Payments/Rows.antt =====
-- Rows of the payment ledger under the statements of a match, and the sums over them
-- (apps/console/src/main/offline/store.ts).
use mathlib.Core.Option
use hotelia.Prelude.{
  ℕ, ◌≡◌, ◌≢◌, refl, ap, ◌∙◌, [], ◌∷◌, ◌++◌, some, Bool, false, All, All-map, arith, if◌then◌else◌,
  ◌==◌, same_text_iff,
}
use hotelia.Prelude.Table.{find, update, select, find-none_of, find-append_none}
use hotelia.Prelude.Table.Split.{find-update}
use hotelia.Payments.Row.{LedgerRow, PaymentConfirmationInput, to_minor}
use hotelia.Payments.Ledger.{
  Rows, has_id, has_key, receipt_clash, is_candidate, insert_or_ignore, confirmation_row,
  matched_row, set_matched, match_both, auto_matched, confirmed, record_confirmation,
}
use hotelia.Payments.Insert.{AbsentId, AbsentKey}

-- Nothing in the table stands in the way of the row.
pub record IsNew (r : LedgerRow) (t : Rows) : Type 0 where
  pub id : AbsentId r.id t
  pub key : AbsentKey r.idempotency_key t
  pub receipt : All (λ s. receipt_clash r s ≡ false) t

pub insert_new : (r : LedgerRow) (t : Rows) → IsNew r t → insert_or_ignore r t ≡ t ++ r ∷ []
unfolding insert_or_ignore
insert_new r t n = ground (
  arith,
  find-none_of (has_id r.id) t (All-map _ _ (λ s ne. other_id s ne) t n.id),
  find-none_of (has_key r.idempotency_key) t (All-map _ _ (λ s ne. other_key s ne) t n.key),
  find-none_of (receipt_clash r) t n.receipt,
)
  where
    other_id : (s : LedgerRow) → s.id ≢ r.id → has_id r.id s ≡ false
    other_id s ne = ground (arith, ne)

    other_key :
        (s : LedgerRow)
        → s.idempotency_key ≢ r.idempotency_key
        → has_key r.idempotency_key s ≡ false
    other_key s ne = ground (arith, ne, same_text_iff s.idempotency_key r.idempotency_key)

pub insert_known :
    (r : LedgerRow) (t : Rows) (s : LedgerRow)
    → find (has_key r.idempotency_key) t ≡ some s
    → insert_or_ignore r t ≡ t
unfolding insert_or_ignore
insert_known r t s e = ground (arith, e)

pub find_new_key :
    (r : LedgerRow) (t : Rows) → IsNew r t → find (has_key r.idempotency_key) (t ++ r ∷ []) ≡ some r
find_new_key r t n = ground (
  arith,
  find-append_none (has_key r.idempotency_key) t (r ∷ [])
      (find-none_of (has_key r.idempotency_key) t (All-map _ _ (λ s ne. other_key s ne) t n.key)),
  same_text_iff r.idempotency_key r.idempotency_key,
)
  where
    other_key :
        (s : LedgerRow)
        → s.idempotency_key ≢ r.idempotency_key
        → has_key r.idempotency_key s ≡ false
    other_key s ne = ground (arith, ne, same_text_iff s.idempotency_key r.idempotency_key)

select-append_none :
    (p : LedgerRow → Bool) (t : Rows) (r : LedgerRow)
    → p r ≡ false
    → select p (t ++ r ∷ []) ≡ select p t
select-append_none p [] r e = ground arith
select-append_none p (s ∷ t) r e = ground (arith, select-append_none p t r e)

-- A new confirmation is appended, and the candidates are those of the table before.
pub record_confirmation_new :
    (i : ℕ) (input : PaymentConfirmationInput) (now : ℕ) (t : Rows)
    → IsNew (confirmation_row i input now) t
    → record_confirmation i input now t
      ≡ auto_matched now
          (confirmation_row i input now)
          (select (is_candidate input.method (to_minor input.amount)) t)
          (t ++ confirmation_row i input now ∷ [])
unfolding record_confirmation
record_confirmation_new i input now t n =
    ap (λ u. confirmed now input t u (find (has_key input.idempotency_key) u))
      (insert_new (confirmation_row i input now) t n)
    ∙ rw (
      find_new_key (confirmation_row i input now) t n,
      select-append_none (is_candidate input.method (to_minor input.amount)) t
          (confirmation_row i input now) refl,
    )

-- A key that is known inserts nothing, and its row is matched as if it were new.
pub record_confirmation_known :
    (i : ℕ) (input : PaymentConfirmationInput) (now : ℕ) (t : Rows) (r : LedgerRow)
    → find (has_key input.idempotency_key) t ≡ some r
    → record_confirmation i input now t
      ≡ auto_matched now r (select (is_candidate input.method (to_minor input.amount)) t) t
unfolding record_confirmation
record_confirmation_known i input now t r e =
    ap (λ u. confirmed now input t u (find (has_key input.idempotency_key) u))
      (insert_known (confirmation_row i input now) t r e)
    ∙ rw e

-- The rows under the two numbers of a match are linked to one another, and no other row changes.
pub find-match_both :
    (now c i j : ℕ) (t : Rows)
    → c ≢ i
    → find (has_id j) (match_both now c i t) ≡ (
        if j == i
        then Option.map (matched_row now c) (find (has_id i) t)
        else if j == c
        then Option.map (matched_row now i) (find (has_id c) t)
        else find (has_id j) t)
unfolding match_both set_matched
find-match_both now c i j t ne = ground (
  arith,
  find-update (λ r. r.id) (matched_row now c) (λ _. refl) j i
      (update (has_id c) (matched_row now i) t),
  find-update (λ r. r.id) (matched_row now i) (λ _. refl) j c t,
)
