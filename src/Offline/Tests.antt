-- ===== src/Offline/Tests.antt =====
-- Runs of the offline queue and of the flusher, and the theorems about them at concrete tables.
use hotelia.Prelude.{
  ℕ, zero, suc, ◌+◌, ◌≤◌, ◌≡◌, refl, inl, inr, codes, [], ◌∷◌, none, some, true, false, All, In,
  arith, ap,
}
use hotelia.Prelude.Table.{count}
use hotelia.Offline.Action.{OfflineActionRecord, SyncEnqueueInput, processing, failed, checkin}
use hotelia.Offline.Store.{Actions, new_row, claimable, claim_next, has_status, count_by_status}
use hotelia.Offline.Store.Claims.{UniqueIds, AbsentId, Claims, claim_next-Claims}
use hotelia.Offline.Store.Counts.{count_by_status-total}
use hotelia.Offline.Store.Budget.{budget}
use hotelia.Offline.Sync.{Environment, Engine, deliver, flush, start, status}
use hotelia.Offline.Sync.Outcome.{
  flush_drains, flush_exhausts, flush_strands, start_holds_recent, IsExhausted,
}

abbrev key_input : SyncEnqueueInput
key_input = record {
  action_type = checkin;
  payload = (codes "room", codes "101") ∷ [];
  idempotency_key = codes "stay-0001";
}

-- A table with a waiting row, a row that failed twice and a row that is being delivered.
abbrev queue : Actions
queue =
    record (new_row 1 key_input 40) { status = failed; retry_count = 2 }
    ∷ record (new_row 2 key_input 60) { idempotency_key = codes "stay-0002" }
    ∷ record (new_row 3 key_input 50) {
      idempotency_key = codes "stay-0003";
      status = processing;
      updated_at = 90000;
    }
    ∷ []

queue-UniqueIds : UniqueIds queue
queue-UniqueIds = omega arith

-- No request is answered.
abbrev offline : Environment
offline = record { answer = λ _ _. none; claim_time = λ n. 100000 + n; mark_time = λ n. 100000 + n }

abbrev engine : Engine
engine = record { actions = queue; token = none; online = true; changed = []; passes = 0 }

-- The PENDING row goes first, although the FAILED one is older.
claims_pending_first :
    (claim_next 70 queue).0
    ≡ some (record (new_row 2 key_input 60) {
      idempotency_key = codes "stay-0002";
      status = processing;
      updated_at = 70;
    })
unfolding claim_next
claims_pending_first = refl

claim_next-Claims_example : Claims 70 queue (claim_next 70 queue)
claim_next-Claims_example = claim_next-Claims 70 queue queue-UniqueIds

count_by_status-total_example :
    let c = count_by_status queue in c.pending + c.processing + c.failed + c.completed ≡ 3
count_by_status-total_example = count_by_status-total queue

abbrev waiting : Engine
waiting = record engine {
  actions =
      record (new_row 1 key_input 40) { status = failed; retry_count = 2 }
      ∷ record (new_row 2 key_input 60) { idempotency_key = codes "stay-0002" }
      ∷ [];
}

flush_drains_example : All (λ a. claimable a ≡ false) (flush offline none engine).1.actions
unfolding budget
flush_drains_example = flush_drains offline none engine queue-UniqueIds (omega arith)

flush_exhausts_example : All IsExhausted (flush offline none waiting).1.actions
unfolding budget deliver
flush_exhausts_example =
    flush_exhausts offline none waiting (omega arith) (λ n a. refl) (omega arith)
      (inr refl, (inl refl, tt))

abbrev stuck : OfflineActionRecord
stuck = record (new_row 3 key_input 50) {
  idempotency_key = codes "stay-0003";
  status = processing;
  updated_at = 90000;
}

start_holds_recent_example : In stuck (start offline none 110000 engine).1.actions
start_holds_recent_example =
    start_holds_recent offline none 110000 engine stuck queue-UniqueIds (inr (inr (inl refl))) refl
      (omega arith)

-- A table with n waiting rows.
many : ℕ → Actions
many zero = []
many (suc n) = new_row n key_input 40 ∷ many n

many-AbsentId : (i n : ℕ) → n ≤ i → AbsentId i (many n)
unfolding many
many-AbsentId i zero h = tt
many-AbsentId i (suc n) h = (omega arith, many-AbsentId i n (omega arith))

many-UniqueIds : (n : ℕ) → UniqueIds (many n)
unfolding many
many-UniqueIds zero = tt
many-UniqueIds (suc n) = (many-AbsentId n n (omega arith), many-UniqueIds n)

count-many : (n : ℕ) → count claimable (many n) ≡ n
unfolding many
count-many zero = refl
count-many (suc n) = ap suc (count-many n)

abbrev crowded : Engine
crowded = record { actions = many 501; token = none; online = true; changed = []; passes = 0 }

flush_strands_example :
    count (has_status processing) (flush offline none crowded).1.actions
    ≡ suc (count (has_status processing) (many 501))
flush_strands_example =
    flush_strands offline none crowded (many-UniqueIds 501) (omega (arith, count-many 501))

abbrev shown : Engine
shown = record engine { changed = status engine ∷ [] }
