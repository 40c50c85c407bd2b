-- ===== src/Payments/Matching.antt =====
-- How confirmations meet intents (apps/console/src/main/offline/store.ts).
use hotelia.Prelude.{
  ℕ, ◌+◌, ◌*◌, ◌≤◌, ◌<◌, ◌≡◌, ◌≢◌, refl, sym, ap, ◌∙◌, inl, inr, [], ◌∷◌, ◌++◌, some, Bool, true,
  All-In, ◌⊎◌, In, In-append_left, In-append_last, arith, Bool-cases, some_eq,
}
use hotelia.Prelude.Table.{find, select, Unique-append, find-append_false}
use hotelia.Prelude.Table.Split.{Split, Split-In, find-at}
use hotelia.Payments.Row.{
  LedgerRow, PaymentConfirmationInput, PaymentMethod, cash, mpesa_till, mpesa_paybill, card,
  to_minor, row_to_payment, same_method, matched, pending,
}
use hotelia.Payments.Ledger.{
  Rows, has_id, has_key, is_candidate, confirmation_row, matched_row, match_both, auto_matched,
  record_confirmation, sum_minor, counts_today, day_of, ledger_summary,
}
use hotelia.Payments.Insert.{AbsentId, UniqueIds}
use hotelia.Payments.Rows.{
  IsNew, record_confirmation_new, record_confirmation_known, find-match_both,
}
use hotelia.Payments.Sums.{weight, sum_minor-append, sum_minor-match_both}

-- Minor units are the amount rounded to the nearest, halves up.
to_minor-nearest :
    (amount : ℕ) → (to_minor amount * 100 ≤ amount + 50) × (amount < to_minor amount * 100 + 50)
unfolding to_minor
to_minor-nearest amount = omega arith

select-In :
    (p : LedgerRow → Bool) (t : Rows) (r : LedgerRow) → In r (select p t) → In r t × (p r ≡ true)
select-In p [] r m = absurd m
select-In p (s ∷ t) r m = elim (Bool-cases (p s)) [
  | inl e ↦ head_or e (rw e at m) (select-In p t r)
  | inr e ↦ let rest = select-In p t r (rw e at m) in (inr rest.0, rest.1)
]
  where
    head_or :
        p s ≡ true
        → (s ≡ r) ⊎ In r (select p t)
        → (In r (select p t) → In r t × (p r ≡ true))
        → In r (s ∷ t) × (p r ≡ true)
    head_or e (inl same) ih = (inl same, ap p (sym same) ∙ e)
    head_or e (inr n) ih = (inr (ih n).0, (ih n).1)

find_row : (a : LedgerRow) (t : Rows) → UniqueIds t → In a t → find (has_id a.id) t ≡ some a
find_row a t u m = by_split (Split-In (λ r. r.id) a t u m)
  where
    by_split : Split (λ (r : LedgerRow). r.id) a t → find (has_id a.id) t ≡ some a
    by_split s =
        ap (find (has_id a.id)) s.whole
        ∙ find-at (λ r. r.id) a.id a s.before s.after refl s.absent_before

same_method_refl : (m : PaymentMethod) → same_method m m ≡ true
same_method_refl cash = refl
same_method_refl mpesa_till = refl
same_method_refl mpesa_paybill = refl
same_method_refl card = refl

Absent-In-ne : (i : ℕ) (c : LedgerRow) (t : Rows) → AbsentId i t → In c t → c.id ≢ i
Absent-In-ne i c t h m = All-In (λ r. r.id ≢ i) c t h m

module _ (i : ℕ) (input : PaymentConfirmationInput) (now : ℕ) (t : Rows) (c : LedgerRow)
    (unique : UniqueIds t) (new : IsNew (confirmation_row i input now) t)
    (only : select (is_candidate input.method (to_minor input.amount)) t ≡ c ∷ []) where
  abbrev paid : LedgerRow
  paid = confirmation_row i input now

  abbrev after : Rows
  after = (record_confirmation i input now t).1

  candidate : In c t × (is_candidate input.method (to_minor input.amount) c ≡ true)
  candidate = select-In (is_candidate input.method (to_minor input.amount)) t c (rw only (inl refl))

  other : c.id ≢ i
  other = Absent-In-ne i c t new.id candidate.0

  unique_after : UniqueIds (t ++ paid ∷ [])
  unique_after = Unique-append (λ r. r.id) paid t unique new.id

  result :
      record_confirmation i input now t
      ≡ (some (row_to_payment (matched_row now i paid)), match_both now i c.id (t ++ paid ∷ []))
  result =
      record_confirmation_new i input now t new
      ∙ ap (λ l. auto_matched now paid l (t ++ paid ∷ [])) only

  -- A new confirmation with exactly one pending intent of its method and amount is linked with that
  -- intent, in both directions, and no other row changes.
  pub record_confirmation_links :
      (find (has_id i) after ≡ some (matched_row now c.id paid))
      × (find (has_id c.id) after ≡ some (matched_row now i c))
      × ((j : ℕ) → j ≢ i → j ≢ c.id → find (has_id j) after ≡ find (has_id j) t)
  record_confirmation_links = (
    ap (λ r. find (has_id i) r.1) result
        ∙ find-match_both now i c.id i _ (λ e. other (sym e))
        ∙ ground
            (arith, other, find_row paid (t ++ paid ∷ []) unique_after (In-append_last paid t)),
    ap (λ r. find (has_id c.id) r.1) result
        ∙ find-match_both now i c.id c.id _ (λ e. other (sym e))
        ∙ ground
            (arith, find_row c (t ++ paid ∷ []) unique_after (In-append_left c t _ candidate.0)),
    λ j ni nc.
        ap (λ r. find (has_id j) r.1) result
        ∙ find-match_both now i c.id j _ (λ e. other (sym e))
        ∙ ground (arith, ni, nc, find-append_other j ni),
  )
    where
      find-append_other : (j : ℕ) → j ≢ i → find (has_id j) (t ++ paid ∷ []) ≡ find (has_id j) t
      find-append_other j ni = find-append_false (has_id j) t paid (ground (arith, ni))

  -- The day's total for the method grows by twice the amount that was paid, if the intent was
  -- recorded on the same day.
  today_total_doubles :
      day_of c.recorded_at ≡ day_of now
      → (ledger_summary now after).today_total_minor_by_method input.method
        ≡ (ledger_summary now t).today_total_minor_by_method input.method
          + 2 * to_minor input.amount
  unfolding ledger_summary
  today_total_doubles same_day =
      ap (λ r. sum_minor today r.1) result
      ∙ omega (
        arith,
        sum_minor-match_both today now paid c (t ++ paid ∷ []) (λ e. other (sym e)) unique_after
            (In-append_last paid t) (In-append_left c t _ candidate.0),
        sum_minor-append today t (paid ∷ []),
        one_row,
        intent_before,
        intent_after,
        paid_after,
      )
    where
      today : LedgerRow → Bool
      today = counts_today (day_of now) input.method

      one_row : sum_minor today (paid ∷ []) ≡ 0
      one_row = unfold sum_minor in omega arith

      intent_before : weight today c ≡ 0
      intent_before = ground (arith, candidate.1)

      intent_after : weight today (matched_row now i c) ≡ to_minor input.amount
      intent_after = ground (arith, candidate.1, same_day)

      paid_after : weight today (matched_row now c.id paid) ≡ to_minor input.amount
      paid_after = ground (arith, same_method_refl input.method)

  -- The caller is told that the confirmation matches itself: the row that comes back carries the
  -- confirmation's own identifier where the table has that of the intent.
  record_confirmation_misreports :
      ((record_confirmation i input now t).0 ≡ some (row_to_payment (matched_row now i paid)))
      × (find (has_id i) after ≢ some (matched_row now i paid))
  record_confirmation_misreports =
      (ap (λ r. r.0) result, λ e. other_link (some_eq (sym (record_confirmation_links.0) ∙ e)))
    where
      other_link : matched_row now c.id paid ≢ matched_row now i paid
      other_link e = other (some_eq (ap (λ r. r.matched_intent_id) e))

-- Posting a confirmation again pays a second intent with it: where the key belongs to a row that is
-- already matched with the intent `o`, and exactly one other intent of the method and amount is
-- pending, that one is matched to the same row, while `o` stays matched to it.
pub record_confirmation_pays_twice :
    (i : ℕ) (input : PaymentConfirmationInput) (now : ℕ) (t : Rows) (r o c : LedgerRow)
    → UniqueIds t
    → find (has_key input.idempotency_key) t ≡ some r
    → In o t
    → o.matched_intent_id ≡ some r.id
    → o.status ≡ matched
    → o.id ≢ r.id
    → select (is_candidate input.method (to_minor input.amount)) t ≡ c ∷ []
    → c.id ≢ r.id
    → let u = (record_confirmation i input now t).1 in
      (find (has_id o.id) u ≡ some o) × (find (has_id c.id) u ≡ some (matched_row now r.id c))
record_confirmation_pays_twice i input now t r o c unique key mo linked done nor only ncr = (
  ap (λ x. find (has_id o.id) x.1) result
      ∙ find-match_both now r.id c.id o.id t (λ e. ncr (sym e))
      ∙ ground (arith, nor, not_candidate, find_row o t unique mo),
  ap (λ x. find (has_id c.id) x.1) result
      ∙ find-match_both now r.id c.id c.id t (λ e. ncr (sym e))
      ∙ ground (arith, find_row c t unique candidate.0),
)
  where
    candidate : In c t × (is_candidate input.method (to_minor input.amount) c ≡ true)
    candidate =
        select-In (is_candidate input.method (to_minor input.amount)) t c (rw only (inl refl))

    result :
        record_confirmation i input now t
        ≡ (some (row_to_payment (matched_row now r.id r)), match_both now r.id c.id t)
    result = record_confirmation_known i input now t r key ∙ ap (λ l. auto_matched now r l t) only

    pending_candidate :
        (x : LedgerRow)
        → is_candidate input.method (to_minor input.amount) x ≡ true
        → x.status ≡ pending
    pending_candidate x e = ground (arith, e)

    not_candidate : o.id ≢ c.id
    not_candidate e =
        let same : some o ≡ some c =
          sym (find_row o t unique mo)
          ∙ ap (λ k. find (has_id k) t) e
          ∙ find_row c t unique candidate.0 in
        cc (done, ap (λ (x : LedgerRow). x.status) (some_eq same), pending_candidate c candidate.1)
