-- ===== src/Offline/Store/Budget.antt =====
-- The retry budget of the queue: one round of delivery takes a claimed row to COMPLETED or FAILED
-- and lowers the sum of the retries that are left (apps/console/src/main/offline/store.ts).
use hotelia.Prelude.{ℕ, ◌+◌, ◌-◌, ◌<◌, max, ◌≡◌, refl, Text, [], ◌∷◌, ◌++◌, true, false, All, arith}
use hotelia.Prelude.Table.Split.{update-at}
use hotelia.Offline.Action.{OfflineActionRecord, ActionStatus, pending, failed, max_retry_count}
use hotelia.Offline.Store.{
  Actions, claimable, claimed_row, completed_row, failed_row, mark_complete, mark_failed,
}
use hotelia.Offline.Store.Claims.{AbsentId}

-- How often a row can still be claimed if every delivery fails.
abbrev pub row_budget : ActionStatus → ℕ → ℕ
row_budget pending r = max 1 (max_retry_count - r)
row_budget failed r = max_retry_count - r
row_budget _ r = 0

unfoldable pub budget : Actions → ℕ
budget [] = 0
budget (a ∷ t) = row_budget a.status a.retry_count + budget t

pub budget-append : (t u : Actions) → budget (t ++ u) ≡ budget t + budget u
unfolding budget
budget-append [] u = omega arith
budget-append (a ∷ t) u = omega (arith, budget-append t u)

-- A row that had its turn: delivered, or refused with one more retry on its count.
pub data Settled (a : OfflineActionRecord) : OfflineActionRecord → Type 0 where
  delivered : (m n : ℕ) → Settled a (completed_row n (claimed_row m a))
  refused : (m n : ℕ) (error : Text) → Settled a (failed_row error n (claimed_row m a))

-- One row had its turn, and nothing else changed.
pub data Round : Actions → Actions → Type 0 where
  round :
      (a b : OfflineActionRecord) (xs ys : Actions)
      → claimable a ≡ true
      → Settled a b
      → Round (xs ++ a ∷ ys) (xs ++ b ∷ ys)

claimable_budget :
    (a : OfflineActionRecord) → claimable a ≡ true → 0 < row_budget a.status a.retry_count
claimable_budget a h = ground arith

budget_unclaimable :
    (a : OfflineActionRecord) → claimable a ≡ false → row_budget a.status a.retry_count ≡ 0
budget_unclaimable a h = ground arith

Settled-budget :
    (a b : OfflineActionRecord)
    → claimable a ≡ true
    → Settled a b
    → row_budget b.status b.retry_count < row_budget a.status a.retry_count
Settled-budget a b h (delivered m n) = claimable_budget a h
Settled-budget a b h (refused m n error) = ground arith

-- Every round lowers the budget.
pub Round-budget : (t u : Actions) → Round t u → budget u < budget t
unfolding budget
Round-budget t u (round a b xs ys h s) =
    omega (arith, budget-append xs (a ∷ ys), budget-append xs (b ∷ ys), Settled-budget a b h s)

-- Where the budget is used up nothing can be claimed.
pub budget-zero : (t : Actions) → budget t ≡ 0 → All (λ a. claimable a ≡ false) t
unfolding budget
budget-zero [] h = tt
budget-zero (a ∷ t) h = (no_claim a (omega arith), budget-zero t (omega arith))
  where
    no_claim :
        (b : OfflineActionRecord) → row_budget b.status b.retry_count ≡ 0 → claimable b ≡ false
    no_claim b e = ground (arith)

pub mark_complete-at :
    (m n : ℕ) (a : OfflineActionRecord) (xs ys : Actions)
    → AbsentId a.id xs
    → AbsentId a.id ys
    → mark_complete a.id n (xs ++ claimed_row m a ∷ ys)
      ≡ xs ++ completed_row n (claimed_row m a) ∷ ys
unfolding mark_complete
mark_complete-at m n a xs ys hx hy =
    update-at (λ b. b.id) (completed_row n) a.id (claimed_row m a) xs ys refl hx hy

pub mark_failed-at :
    (m n : ℕ) (error : Text) (a : OfflineActionRecord) (xs ys : Actions)
    → AbsentId a.id xs
    → AbsentId a.id ys
    → mark_failed a.id error n (xs ++ claimed_row m a ∷ ys)
      ≡ xs ++ failed_row error n (claimed_row m a) ∷ ys
unfolding mark_failed
mark_failed-at m n error a xs ys hx hy =
    update-at (λ b. b.id) (failed_row error n) a.id (claimed_row m a) xs ys refl hx hy
