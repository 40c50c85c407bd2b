-- ===== src/Offline/Store/Reach.antt =====
-- What holds of the queue after any interleaving of the store's statements, whoever issues them:
-- the IPC handlers, the flusher or the lock bridge (apps/console/src/main/offline/store.ts).
use hotelia.Prelude.{
  ℕ, ◌-◌, ◌≤◌, ◌≡◌, refl, sym, ap, subst, ◌∙◌, Text, [], ◌∷◌, Option, true, All, In, arith,
  All-append,
}
use hotelia.Prelude.Table.{update, All-update, Unique-update}
use hotelia.Prelude.Table.Split.{Split, Split-In, update-at, All-replace, Unique-replace}
use hotelia.Offline.Action.{
  OfflineActionRecord, SyncEnqueueInput, ActionStatus, failed, processing, max_retry_count,
}
use hotelia.Offline.Store.{
  Actions, claimable, has_id, is_stale, requeued_row, new_row, insert, claim_next, claimed_row,
  completed_row, failed_row, mark_complete, mark_failed, requeue_stale_processing,
}
use hotelia.Offline.Store.Claims.{UniqueIds, Claims, idle, took, claim_next-Claims}
use hotelia.Offline.Store.Insert.{
  UniqueKeys, Inserts, known, added, clash, insert-Inserts, Inserts-UniqueIds, Inserts-UniqueKeys,
}

-- One statement. A row is settled only by who holds it in PROCESSING.
pub data Step (t : Actions) : Actions → Type 0 where
  inserts : (i : ℕ) (input : SyncEnqueueInput) (now : ℕ) → Step t (insert i input now t).1
  claims : (now : ℕ) → Step t (claim_next now t).1
  completes :
      (a : OfflineActionRecord)
      → In a t
      → a.status ≡ processing
      → (now : ℕ) → Step t (mark_complete a.id now t)
  fails :
      (a : OfflineActionRecord)
      → In a t
      → a.status ≡ processing
      → (error : Text) (now : ℕ) → Step t (mark_failed a.id error now t)
  requeues : (before_ms now : ℕ) → Step t (requeue_stale_processing before_ms now t).1

pub data Reach (t : Actions) : Actions → Type 0 where
  here : Reach t t
  next : {u v : Actions} → Reach t u → Step u v → Reach t v

abbrev retry_bound : ActionStatus → ℕ
retry_bound failed = max_retry_count
retry_bound _ = max_retry_count - 1

-- The retry count is at most 8, and below 8 while the row has not failed.
abbrev pub IsWithinRetries : OfflineActionRecord → Type 0
IsWithinRetries a = a.retry_count ≤ retry_bound a.status

pub record IsSound (t : Actions) : Type 0 where
  pub ids : UniqueIds t
  pub keys : UniqueKeys t
  pub retries : All IsWithinRetries t

update_row-IsSound :
    (f : OfflineActionRecord → OfflineActionRecord)
    → ((a : OfflineActionRecord) → (f a).id ≡ a.id)
    → ((a : OfflineActionRecord) → (f a).idempotency_key ≡ a.idempotency_key)
    → (a : OfflineActionRecord) (t : Actions) → (IsWithinRetries a → IsWithinRetries (f a))
    → In a t
    → IsSound t
    → IsSound (update (has_id a.id) f t)
update_row-IsSound f same_id same_key a t keep m s =
    let p : Split (λ (b : OfflineActionRecord). b.id) a t = Split-In _ a t s.ids m in
    record {
      ids = Unique-update (λ b. b.id) (has_id a.id) f same_id t s.ids;
      keys = Unique-update (λ b. b.idempotency_key) (has_id a.id) f same_key t s.keys;
      retries =
          subst (All IsWithinRetries)
            (sym (
              ap (update (has_id a.id) f) p.whole
              ∙ update-at (λ b. b.id) f a.id a p.before p.after refl p.absent_before
                  p.absent_after))
            (All-replace IsWithinRetries a (f a) p.before p.after (rw (← p.whole) s.retries) keep);
    }

insert-IsSound :
    {i : ℕ} {input : SyncEnqueueInput} {now : ℕ} {t : Actions}
    {r : Option OfflineActionRecord × Actions}
    → Inserts i input now t r
    → All IsWithinRetries t
    → All IsWithinRetries r.1
insert-IsSound (known a m e) h = h
insert-IsSound {i} {input} {now} {t} (added x k) h =
    All-append IsWithinRetries t (new_row i input now ∷ []) h (omega arith, tt)
insert-IsSound (clash k a m e) h = h

claim-IsSound :
    (now : ℕ) (t : Actions) {r : Option OfflineActionRecord × Actions}
    → Claims now t r
    → IsSound t
    → IsSound r.1
claim-IsSound now t (idle h) s = s
claim-IsSound now t (took a xs ys e hx hy c f) s = record {
  ids =
      Unique-replace (λ (b : OfflineActionRecord). b.id) a (claimed_row now a) xs ys refl
        (rw (← e) s.ids);
  keys =
      Unique-replace (λ (b : OfflineActionRecord). b.idempotency_key) a (claimed_row now a) xs ys
        refl (rw (← e) s.keys);
  retries =
      All-replace IsWithinRetries a (claimed_row now a) xs ys (rw (← e) s.retries)
        (λ w. claimed_within a w c);
}
  where
    claimed_within :
        (b : OfflineActionRecord) → IsWithinRetries b → claimable b ≡ true → b.retry_count ≤ 7
    claimed_within b w k = ground arith

pub Step-IsSound : {t u : Actions} → Step t u → IsSound t → IsSound u
unfolding mark_complete mark_failed requeue_stale_processing
Step-IsSound {t} (inserts i input now) s =
    let r = insert-Inserts i input now t in
    record {
      ids = Inserts-UniqueIds r s.ids;
      keys = Inserts-UniqueKeys r s.keys;
      retries = insert-IsSound r s.retries;
    }
Step-IsSound {t} (claims now) s = claim-IsSound now t (claim_next-Claims now t s.ids) s
Step-IsSound {t} (completes a m p now) s =
    update_row-IsSound (completed_row now) (λ b. refl) (λ b. refl) a t (λ w. ground (arith, p)) m s
Step-IsSound {t} (fails a m p error now) s =
    update_row-IsSound (failed_row error now) (λ b. refl) (λ b. refl) a t (λ w. ground (arith, p)) m
      s
Step-IsSound {t} (requeues before_ms now) s = record {
  ids =
      Unique-update (λ b. b.id) (is_stale (now - before_ms)) (requeued_row now) (λ b. refl) t s.ids;
  keys =
      Unique-update (λ b. b.idempotency_key) (is_stale (now - before_ms)) (requeued_row now)
        (λ b. refl) t s.keys;
  retries =
      All-update IsWithinRetries (is_stale (now - before_ms)) (requeued_row now)
        (λ b e w. ground (arith, e, w)) t s.retries;
}

-- After any history that began with an empty table: no identifier and no idempotency key occurs
-- twice, and no row was retried more than eight times.
Reach-IsSound : {t : Actions} → Reach [] t → IsSound t
Reach-IsSound here = record { ids = tt; keys = tt; retries = tt }
Reach-IsSound (next r st) = Step-IsSound st (Reach-IsSound r)
