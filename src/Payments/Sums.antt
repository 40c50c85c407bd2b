-- ===== src/Payments/Sums.antt =====
-- The sums over the payment ledger under an update of one row
-- (apps/console/src/main/offline/store.ts).
use hotelia.Prelude.{
  ℕ, ◌+◌, ◌≡◌, ◌≢◌, refl, sym, subst, [], ◌∷◌, ◌++◌, Bool, In, arith, if◌then◌else◌,
}
use hotelia.Prelude.Table.{update, In-update, Unique-update}
use hotelia.Prelude.Table.Split.{Split, Split-In, update-at}
use hotelia.Payments.Row.{LedgerRow}
use hotelia.Payments.Ledger.{Rows, has_id, matched_row, set_matched, match_both, sum_minor}
use hotelia.Payments.Insert.{UniqueIds}

-- What a row adds to a sum.
abbrev pub weight : (LedgerRow → Bool) → LedgerRow → ℕ
weight p r = if p r then r.amount_minor else 0

pub sum_minor-append :
    (p : LedgerRow → Bool) (t u : Rows) → sum_minor p (t ++ u) ≡ sum_minor p t + sum_minor p u
unfolding sum_minor
sum_minor-append p [] u = omega arith
sum_minor-append p (r ∷ t) u = omega (arith, sum_minor-append p t u)

sum_minor-replace :
    (p : LedgerRow → Bool) (a b : LedgerRow) (xs ys : Rows)
    → sum_minor p (xs ++ b ∷ ys) + weight p a ≡ sum_minor p (xs ++ a ∷ ys) + weight p b
unfolding sum_minor
sum_minor-replace p a b [] ys = omega arith
sum_minor-replace p a b (r ∷ xs) ys = omega (arith, sum_minor-replace p a b xs ys)

sum_minor-update :
    (p : LedgerRow → Bool) (f : LedgerRow → LedgerRow) (a : LedgerRow) (t : Rows)
    → UniqueIds t
    → In a t
    → sum_minor p (update (has_id a.id) f t) + weight p a ≡ sum_minor p t + weight p (f a)
sum_minor-update p f a t u m = by_split (Split-In (λ r. r.id) a t u m)
  where
    by_split :
        Split (λ (r : LedgerRow). r.id) a t
        → sum_minor p (update (has_id a.id) f t) + weight p a ≡ sum_minor p t + weight p (f a)
    by_split s =
        subst
          (λ v.
            sum_minor p (update (has_id a.id) f v) + weight p a ≡ sum_minor p v + weight p (f a))
          (sym s.whole)
          (rw (update-at (λ r. r.id) f a.id a s.before s.after refl s.absent_before s.absent_after)
            (sum_minor-replace p a (f a) s.before s.after))

-- A match changes a sum by what its two rows weigh before and after.
pub sum_minor-match_both :
    (p : LedgerRow → Bool) (now : ℕ) (a b : LedgerRow) (t : Rows)
    → a.id ≢ b.id
    → UniqueIds t
    → In a t
    → In b t
    → sum_minor p (match_both now a.id b.id t) + weight p a + weight p b
      ≡ sum_minor p t + weight p (matched_row now b.id a) + weight p (matched_row now a.id b)
unfolding match_both set_matched
sum_minor-match_both p now a b t ne u ma mb =
    let t' = update (has_id a.id) (matched_row now b.id) t in
    omega (
      arith,
      sum_minor-update p (matched_row now b.id) a t u ma,
      sum_minor-update p (matched_row now a.id) b t'
          (Unique-update (λ r. r.id) (has_id a.id) (matched_row now b.id) (λ _. refl) t u)
          (In-update (has_id a.id) (matched_row now b.id) b t (ground (arith, ne)) mb),
    )
