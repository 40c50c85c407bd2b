-- ===== src/Offline/Store/Counts.antt =====
-- The reads of the store: the badge counts, the oldest open row and the recent rows, and how the
-- recovery of stale rows shows in the counts (apps/console/src/main/offline/store.ts).
use hotelia.Prelude.{
  ℕ, ◌+◌, ◌-◌, ◌≤◌, ◌≡◌, refl, inl, inr, [], ◌∷◌, some, none, true, All, arith, length,
  Option-cases, Bool-cases, ltb, if◌then◌else◌,
}
use mathlib.Core.List.{Perm}
use mathlib.Core.List.Perm
use hotelia.Prelude.Table.{count, select}
use hotelia.Offline.Action.{OfflineActionRecord, pending, failed, processing, completed}
use hotelia.Offline.Store.{
  Actions, has_status, requeue_stale_processing, count_by_status, newest_first, insert_newest,
  is_unsettled, earliest, oldest_pending_ts,
}

-- The four counts add up to the number of rows.
pub count_by_status-total :
    (t : Actions)
    → let c = count_by_status t in c.pending + c.processing + c.failed + c.completed ≡ length t
unfolding count_by_status
count_by_status-total [] = refl
count_by_status-total (a ∷ t) = ground (arith, count_by_status-total t)

-- Recovery moves as many rows as it reports from PROCESSING to PENDING, and changes no other count.
requeue_stale_processing-counts :
    (before_ms now : ℕ) (t : Actions)
    → let (n, u) = requeue_stale_processing before_ms now t in
      (count (has_status pending) u ≡ count (has_status pending) t + n)
      × (count (has_status processing) u + n ≡ count (has_status processing) t)
      × (count (has_status failed) u ≡ count (has_status failed) t)
      × (count (has_status completed) u ≡ count (has_status completed) t)
unfolding requeue_stale_processing
requeue_stale_processing-counts before_ms now [] = omega arith
requeue_stale_processing-counts before_ms now (a ∷ t) =
    ground (arith, requeue_stale_processing-counts before_ms now t)

-- After recovery no row older than the cutoff is in PROCESSING.
pub requeue_none_stale :
    (before_ms now : ℕ) (t : Actions)
    → All
        (λ a. a.status ≡ processing → now - before_ms ≤ a.updated_at)
        (requeue_stale_processing before_ms now t).1
unfolding requeue_stale_processing
requeue_none_stale before_ms now [] = tt
requeue_none_stale before_ms now (a ∷ t) = ground (arith, requeue_none_stale before_ms now t)

-- Neighbours are in order, newest first.
abbrev pub IsNewestFirst : Actions → Type 0
IsNewestFirst [] = Unit
IsNewestFirst (a ∷ t) = All (λ b. b.created_at ≤ a.created_at) t × IsNewestFirst t

All-insert_newest :
    (n : ℕ) (a : OfflineActionRecord) (t : Actions)
    → a.created_at ≤ n
    → All (λ b. b.created_at ≤ n) t
    → All (λ b. b.created_at ≤ n) (insert_newest a t)
unfolding insert_newest
All-insert_newest n a [] h k = (h, tt)
All-insert_newest n a (b ∷ t) h k = ground (arith, h, k, All-insert_newest n a t h k.1)

All-le_trans :
    (m n : ℕ) (t : Actions) → m ≤ n → All (λ b. b.created_at ≤ m) t → All (λ b. b.created_at ≤ n) t
All-le_trans m n [] h k = tt
All-le_trans m n (b ∷ t) h k = (omega (arith, k.0), All-le_trans m n t h k.1)

insert_newest-IsNewestFirst :
    (a : OfflineActionRecord) (t : Actions) → IsNewestFirst t → IsNewestFirst (insert_newest a t)
unfolding insert_newest
insert_newest-IsNewestFirst a [] h = (tt, tt)
insert_newest-IsNewestFirst a (b ∷ t) h = ground (
  arith,
  insert_newest-IsNewestFirst a t h.1,
  All-insert_newest b.created_at a t,
  All-le_trans b.created_at a.created_at t,
)

insert_newest-perm : (a : OfflineActionRecord) (t : Actions) → Perm (insert_newest a t) (a ∷ t)
unfolding insert_newest
insert_newest-perm a [] = Perm.refl (a ∷ [])
insert_newest-perm a (b ∷ t) = ground (
  arith,
  Perm.refl (a ∷ b ∷ t),
  Perm.trans (Perm.cons b (insert_newest-perm a t)) (Perm.swap a b t),
)

-- The order of the recent rows is the whole table, newest first.
newest_first-sorted : (t : Actions) → IsNewestFirst (newest_first t) × Perm (newest_first t) t
unfolding newest_first
newest_first-sorted [] = (tt, Perm.refl [])
newest_first-sorted (a ∷ t) = (
  insert_newest-IsNewestFirst a (newest_first t) (newest_first-sorted t).0,
  Perm.trans (insert_newest-perm a (newest_first t)) (Perm.cons a (newest_first-sorted t).1),
)

earliest-none : (t : Actions) → earliest t ≡ none → t ≡ []
unfolding earliest
earliest-none [] h = refl
earliest-none (a ∷ t) h = cc

earliest-bound :
    (n m : ℕ) (t : Actions) → n ≤ m → earliest t ≡ some m → All (λ a. n ≤ a.created_at) t
unfolding earliest
earliest-bound n m [] l h = tt
earliest-bound n m (a ∷ t) l h = elim (Option-cases (earliest t)) [
  | inl e ↦
      let q : some a.created_at ≡ some m = rw e at h in
      (ground (arith, q), rw (earliest-none t e) tt)
  | inr (k, e) ↦
      let q : some (if ltb k a.created_at then k else a.created_at) ≡ some m = rw e at h in
      (ground (arith, q), earliest-bound n k t (ground (arith, q)) e)
]

All-select :
    (n : ℕ) (t : Actions)
    → All (λ a. n ≤ a.created_at) (select is_unsettled t)
    → All (λ a. is_unsettled a ≡ true → n ≤ a.created_at) t
All-select n [] h = tt
All-select n (a ∷ t) h = elim (Bool-cases (is_unsettled a)) [
  | inl e ↦
      let k : All (λ b. n ≤ b.created_at) (a ∷ select is_unsettled t) = rw e at h in
      ((λ _. k.0), All-select n t k.1)
  | inr e ↦ ((λ o. absurd (cc (e, o))), All-select n t (rw e at h))
]

-- No row that is still to be delivered is older than the timestamp of the badge.
oldest_pending_ts-bound :
    (t : Actions) (n : ℕ)
    → oldest_pending_ts t ≡ some n
    → All (λ a. is_unsettled a ≡ true → n ≤ a.created_at) t
unfolding oldest_pending_ts
oldest_pending_ts-bound t n h =
    All-select n t (earliest-bound n n (select is_unsettled t) (omega arith) h)
