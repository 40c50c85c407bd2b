-- ===== src/Offline/Store.antt =====
-- The operations of `OfflineActionStore` on `offline_actions`
-- (apps/console/src/main/offline/store.ts). Each is one SQLite transaction, so it maps the whole
-- table to the whole table. The clock and fresh identifiers are arguments.
pub mod Claims
pub mod Budget
pub mod Counts
pub mod Insert
pub mod Reach
use hotelia.Prelude.{
  ℕ, suc, ◌+◌, ◌-◌, Text, List, [], ◌∷◌, ◌++◌, Option, none, some, Bool, true, false, ◌&&◌, ◌||◌,
  ltb, ◌==◌, if◌then◌else◌, same_text, is_some, or_else, length, take,
}
use hotelia.Prelude.Table.{find, update, count, select}
use hotelia.Offline.Action.{
  ActionStatus, pending, processing, failed, completed, same_status, OfflineActionRecord,
  SyncEnqueueInput, ActionStatusCounts, max_retry_count,
}

abbrev pub Actions : Type 0
Actions = List OfflineActionRecord

abbrev pub has_id : ℕ → OfflineActionRecord → Bool
has_id i a = a.id == i

abbrev pub has_key : Text → OfflineActionRecord → Bool
has_key k a = same_text a.idempotency_key k

abbrev pub has_status : ActionStatus → OfflineActionRecord → Bool
has_status s a = same_status a.status s

-- The row that INSERT writes.
abbrev pub new_row : ℕ → SyncEnqueueInput → ℕ → OfflineActionRecord
new_row i input now = record {
  id = i;
  action_type = input.action_type;
  payload = input.payload;
  idempotency_key = input.idempotency_key;
  status = pending;
  created_at = now;
  updated_at = now;
  retry_count = 0;
  last_error = none;
}

-- INSERT OR IGNORE: a row that repeats a primary key or an idempotency key is dropped.
unfoldable pub insert_or_ignore : OfflineActionRecord → Actions → Actions
insert_or_ignore a t =
    if is_some (find (has_id a.id) t) || is_some (find (has_key a.idempotency_key) t)
    then t
    else t ++ a ∷ []

-- The row is read back by its key; `none` is the exception that a missing row raises.
unfoldable pub insert : ℕ → SyncEnqueueInput → ℕ → Actions → Option OfflineActionRecord × Actions
unfolding insert_or_ignore
insert i input now t =
    let t' = insert_or_ignore (new_row i input now) t in
    (find (has_key input.idempotency_key) t', t')

-- WHERE status = 'PENDING' OR (status = 'FAILED' AND retry_count < 8)
abbrev pub claimable : OfflineActionRecord → Bool
claimable a = has_status pending a || has_status failed a && ltb a.retry_count max_retry_count

-- CASE status WHEN 'PENDING' THEN 0 WHEN 'FAILED' THEN 1 ELSE 2 END
abbrev pub rank : ActionStatus → ℕ
rank pending = 0
rank failed = 1
rank _ = 2

abbrev pub lex_before : ℕ → ℕ → ℕ → ℕ → Bool
lex_before r m s n = ltb r s || r == s && ltb m n

-- ORDER BY rank, created_at ASC: the first row comes strictly before the second.
abbrev pub comes_before : OfflineActionRecord → OfflineActionRecord → Bool
comes_before a b = lex_before (rank a.status) a.created_at (rank b.status) b.created_at

abbrev pub earlier : OfflineActionRecord → Option OfflineActionRecord → OfflineActionRecord
earlier a none = a
earlier a (some b) = if comes_before b a then b else a

-- The row that the query of `claimNext` selects; of equal rows, the one inserted first.
unfoldable pub next_claim : Actions → Option OfflineActionRecord
next_claim [] = none
next_claim (a ∷ t) = let rest = next_claim t in if claimable a then some (earlier a rest) else rest

abbrev pub claimed_row : ℕ → OfflineActionRecord → OfflineActionRecord
claimed_row now a = record a { status = processing; updated_at = now }

unfoldable pub claim_next : ℕ → Actions → Option OfflineActionRecord × Actions
unfolding next_claim
claim_next now t = elim (next_claim t) [
  | none ↦ (none, t)
  | some a ↦ let t' = update (has_id a.id) (claimed_row now) t in (find (has_id a.id) t', t')
]

abbrev pub completed_row : ℕ → OfflineActionRecord → OfflineActionRecord
completed_row now a = record a { status = completed; updated_at = now; last_error = none }

unfoldable pub mark_complete : ℕ → ℕ → Actions → Actions
mark_complete i now = update (has_id i) (completed_row now)

abbrev pub failed_row : Text → ℕ → OfflineActionRecord → OfflineActionRecord
failed_row error now a = record a {
  status = failed;
  retry_count = a.retry_count + 1;
  last_error = some error;
  updated_at = now;
}

unfoldable pub mark_failed : ℕ → Text → ℕ → Actions → Actions
mark_failed i error now = update (has_id i) (failed_row error now)

abbrev pub is_stale : ℕ → OfflineActionRecord → Bool
is_stale cutoff a = has_status processing a && ltb a.updated_at cutoff

abbrev pub requeued_row : ℕ → OfflineActionRecord → OfflineActionRecord
requeued_row now a = record a { status = pending; updated_at = now }

-- The cutoff lies `before_ms` behind the clock. The result counts the rows that changed.
unfoldable pub requeue_stale_processing : ℕ → ℕ → Actions → ℕ × Actions
requeue_stale_processing before_ms now t =
    (count (is_stale (now - before_ms)) t, update (is_stale (now - before_ms)) (requeued_row now) t)

-- GROUP BY status, with 0 for a status that no row has.
unfoldable pub count_by_status : Actions → ActionStatusCounts
count_by_status t = record {
  pending = count (has_status pending) t;
  processing = count (has_status processing) t;
  failed = count (has_status failed) t;
  completed = count (has_status completed) t;
}

insert_newest : OfflineActionRecord → Actions → Actions
insert_newest a [] = a ∷ []
insert_newest a (b ∷ t) = if ltb a.created_at b.created_at then b ∷ insert_newest a t else a ∷ b ∷ t

-- ORDER BY created_at DESC
unfoldable pub newest_first : Actions → Actions
unfolding insert_newest
newest_first [] = []
newest_first (a ∷ t) = insert_newest a (newest_first t)

unfoldable pub list_recent : ℕ → Actions → Actions
unfolding newest_first
list_recent limit t = take limit (newest_first t)

abbrev pub is_unsettled : OfflineActionRecord → Bool
is_unsettled a = has_status pending a || has_status failed a || has_status processing a

earliest : List OfflineActionRecord → Option ℕ
earliest [] = none
earliest (a ∷ t) =
    let rest = earliest t in
    some
      (elim rest [ none ↦ a.created_at | some n ↦ if ltb n a.created_at then n else a.created_at ])

-- MIN(created_at) over the rows that are not completed
unfoldable pub oldest_pending_ts : Actions → Option ℕ
unfolding earliest
oldest_pending_ts t = earliest (select is_unsettled t)
