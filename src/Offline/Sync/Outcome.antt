-- ===== src/Offline/Sync/Outcome.antt =====
-- What one pass of the flusher does to the queue (`flush` and `start` of
-- apps/console/src/main/offline/sync.ts).
use mathlib.Core.Path.{ap₂}
use hotelia.Prelude.{
  ℕ, ◌-◌, ◌≤◌, ◌<◌, ◌≡◌, refl, sym, subst, ◌⊎◌, inr, suc, ◌∙◌, Option, Bool, true, false, All, In,
  arith, All-trivial, All-map₂, Text,
}
use hotelia.Prelude.Table.{count, Unique-update, In-update}
use hotelia.Offline.Action.{OfflineActionRecord, processing, pending, failed, max_retry_count}
use hotelia.Offline.Store.{
  Actions, claimable, claimed_row, has_status, requeue_stale_processing, is_stale, requeued_row,
}
use hotelia.Offline.Store.Claims.{UniqueIds}
use hotelia.Offline.Store.Budget.{budget}
use hotelia.Offline.Sync.{
  Environment, Engine, deliver, flush_loop, flush, start, finish, probe_online, flush_ceiling,
}
use hotelia.Offline.Sync.Flush.{
  Ends, settled_row, flush_loop-Ends, Ends-keeps_within, Ends-holds, Ends-strands,
}

-- The probe touches neither the queue nor the token.
pub probe_online-keeps :
    (health : Option Bool) (e : Engine)
    → ((probe_online health e).actions ≡ e.actions) × ((probe_online health e).token ≡ e.token)
unfolding probe_online
probe_online-keeps health e = ground arith

finish-actions : (p : Engine) (r : ℕ × Actions) → (finish p r).1.actions ≡ r.1
unfolding finish
finish-actions p r = ground arith

-- The table after a flush is the table after its loop.
pub flush-actions :
    (env : Environment) (health : Option Bool) (e : Engine)
    → (flush env health e).1.actions ≡ (flush_loop env e.token flush_ceiling 0 e.actions).1
unfolding flush
flush-actions env health e =
    finish-actions (probe_online health e) _
    ∙ ap₂ (λ k t. (flush_loop env k flush_ceiling 0 t).1) (probe_online-keeps health e).1
        (probe_online-keeps health e).0

-- The row waits for a delivery.
abbrev pub IsWaiting : OfflineActionRecord → Type 0
IsWaiting a = (a.status ≡ pending) ⊎ (a.status ≡ failed)

-- The row has FAILED for good: no claim takes it any more.
abbrev pub IsExhausted : OfflineActionRecord → Type 0
IsExhausted a = (a.status ≡ failed) × (max_retry_count ≤ a.retry_count)

pub waiting_spent : (a : OfflineActionRecord) → IsWaiting a → claimable a ≡ false → IsExhausted a
waiting_spent a w c = ground arith

settled_row-IsWaiting :
    (env : Environment) (token : Option Text)
    → ((n : ℕ) (a : OfflineActionRecord) → deliver env token n a ≡ false)
    → (n : ℕ) (a : OfflineActionRecord) → claimable a ≡ true
    → IsWaiting a
    → IsWaiting (settled_row env token n a)
settled_row-IsWaiting env token down n a c w =
    rw (down n (claimed_row (env.claim_time n) a)) (inr refl)

module _ (env : Environment) (health : Option Bool) (e : Engine)
    (unique : UniqueIds e.actions) where
  flush-Ends :
      Ends env e.token flush_ceiling 0 e.actions (flush_loop env e.token flush_ceiling 0 e.actions)
  flush-Ends = flush_loop-Ends env e.token flush_ceiling 0 e.actions unique

  -- A pass whose retry budget fits under the ceiling leaves no row that could be claimed.
  pub flush_drains :
      budget e.actions ≤ flush_ceiling
      → All (λ a. claimable a ≡ false) (flush env health e).1.actions
  flush_drains b =
      rw (flush-actions env health e)
        (Ends-keeps_within env e.token (λ _. Unit {0}) (λ _ _ _ _. tt) flush-Ends b
          (All-trivial e.actions)).1

  -- If every delivery fails, such a pass uses up the retries of all waiting rows.
  pub flush_exhausts :
      ((n : ℕ) (a : OfflineActionRecord) → deliver env e.token n a ≡ false)
      → budget e.actions ≤ flush_ceiling
      → All IsWaiting e.actions
      → All IsExhausted (flush env health e).1.actions
  flush_exhausts down b w = rw (flush-actions env health e) (
      All-map₂ IsWaiting (λ a. claimable a ≡ false) IsExhausted waiting_spent _
        (Ends-keeps_within env e.token IsWaiting (settled_row-IsWaiting env e.token down) flush-Ends
          b w))

  -- A row that is in PROCESSING when the pass begins is neither delivered nor given back.
  flush_holds_processing :
      (c : OfflineActionRecord)
      → In c e.actions
      → c.status ≡ processing
      → In c (flush env health e).1.actions
  flush_holds_processing c m p =
      subst (In c) (sym (flush-actions env health e)) (Ends-holds env e.token c p flush-Ends m)

  -- With more claimable rows than the ceiling, a pass leaves one more row in PROCESSING.
  pub flush_strands :
      flush_ceiling < count claimable e.actions
      → count (has_status processing) (flush env health e).1.actions
        ≡ suc (count (has_status processing) e.actions)
  flush_strands l = rw (flush-actions env health e) (Ends-strands env e.token flush-Ends l)

-- Recovery at boot passes over a row that was claimed less than 30 seconds before: it is in
-- PROCESSING after the first pass as well.
pub start_holds_recent :
    (env : Environment) (health : Option Bool) (now : ℕ) (e : Engine) (c : OfflineActionRecord)
    → UniqueIds e.actions
    → In c e.actions
    → c.status ≡ processing
    → now - 30000 ≤ c.updated_at
    → In c (start env health now e).1.actions
unfolding start requeue_stale_processing
start_holds_recent env health now e c u m p recent =
    flush_holds_processing env health
      (record e { actions = (requeue_stale_processing 30000 now e.actions).1 })
      (Unique-update (λ b. b.id) (is_stale (now - 30000)) (requeued_row now) (λ b. refl) e.actions
        u)
      c (In-update (is_stale (now - 30000)) (requeued_row now) c e.actions (ground arith) m) p
