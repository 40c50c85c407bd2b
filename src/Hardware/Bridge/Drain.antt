-- ===== src/Hardware/Bridge/Drain.antt =====
-- One pass of `drainRetryQueue` (apps/console/src/main/hardware/lockBridge.ts).
use hotelia.Prelude.{
  ℕ, zero, suc, ◌+◌, ◌<◌, ◌≡◌, ◌≢◌, refl, sym, subst, ap, ◌∙◌, inr, Text, ◌∷◌, ◌++◌, Option, none,
  some, true, false, All, All-trivial, In, arith,
}
use hotelia.Prelude.Table.Split.{Unique-replace}
use hotelia.Offline.Action.{OfflineActionRecord, failed}
use hotelia.Offline.Store.{Actions, claimable, claimed_row, completed_row, failed_row, claim_next}
use hotelia.Offline.Store.Claims.{AbsentId, UniqueIds, Claims, idle, took, claim_next-Claims}
use hotelia.Offline.Store.Budget.{
  Settled, delivered, refused, round, budget, Round-budget, mark_complete-at, mark_failed-at,
}
use hotelia.Offline.Sync.Outcome.{IsWaiting, IsExhausted, waiting_spent}
use hotelia.Hardware.Bridge.{Bridge, Wire}
use hotelia.Hardware.Bridge.Retry.{
  is_lock_action, retry_row, mark_row, drain_loop, drain_store, drain_retry_queue,
}
use hotelia.Hardware.Bridge.Passes.{Passes, done, turn, Passes-keeps, Passes-follows}

-- A turn of the drain: the row is settled, and a row that is no lock action fails.
pub record Turn (a b : OfflineActionRecord) : Type 0 where
  pub settled : Settled a b
  pub same_id : b.id ≡ a.id
  pub same_action : b.action_type ≡ a.action_type
  pub foreign_fails : is_lock_action a.action_type ≡ false → b.status ≡ failed

module _ (w : Wire) where
  abbrev marked_row : Option Text → ℕ → OfflineActionRecord → OfflineActionRecord
  marked_row none n a = completed_row (w.mark_time n) (claimed_row (w.claim_time n) a)
  marked_row (some e) n a = failed_row e (w.mark_time n) (claimed_row (w.claim_time n) a)

  mark_row-at :
      (m : Option Text) (n : ℕ) (a : OfflineActionRecord) (xs ys : Actions)
      → AbsentId a.id xs
      → AbsentId a.id ys
      → mark_row m a.id (w.mark_time n) (xs ++ claimed_row (w.claim_time n) a ∷ ys)
        ≡ xs ++ marked_row m n a ∷ ys
  mark_row-at none n a xs ys hx hy = mark_complete-at (w.claim_time n) (w.mark_time n) a xs ys hx hy
  mark_row-at (some e) n a xs ys hx hy =
      mark_failed-at (w.claim_time n) (w.mark_time n) e a xs ys hx hy

  retry_row-foreign :
      (a : OfflineActionRecord) (s : Bridge)
      → is_lock_action a.action_type ≡ false
      → (retry_row w a s).0 ≢ none
  unfolding retry_row
  retry_row-foreign a s h e = ground (arith, h, e)

  marked_row-Settled :
      (m : Option Text) (n : ℕ) (a : OfflineActionRecord) → Settled a (marked_row m n a)
  marked_row-Settled none n a = delivered (w.claim_time n) (w.mark_time n)
  marked_row-Settled (some e) n a = refused (w.claim_time n) (w.mark_time n) e

  marked_row-Turn :
      (m : Option Text) (n : ℕ) (a : OfflineActionRecord)
      → (is_lock_action a.action_type ≡ false → m ≢ none)
      → Turn a (marked_row m n a)
  marked_row-Turn none n a h = record {
    settled = delivered (w.claim_time n) (w.mark_time n);
    same_id = refl;
    same_action = refl;
    foreign_fails = λ f. absurd (h f refl);
  }
  marked_row-Turn (some e) n a h = record {
    settled = refused (w.claim_time n) (w.mark_time n) e;
    same_id = refl;
    same_action = refl;
    foreign_fails = λ f. refl;
  }

  marked_row-id : (m : Option Text) (n : ℕ) (a : OfflineActionRecord) → (marked_row m n a).id ≡ a.id
  marked_row-id none n a = refl
  marked_row-id (some e) n a = refl

  turn_spends :
      (m : Option Text) (n : ℕ) (a : OfflineActionRecord) (xs ys : Actions) (fuel : ℕ)
      → claimable a ≡ true
      → budget (xs ++ a ∷ ys) < suc fuel
      → budget (xs ++ marked_row m n a ∷ ys) < fuel
  turn_spends m n a xs ys fuel c b =
      omega
        (arith, Round-budget _ _ (round a (marked_row m n a) xs ys c (marked_row-Settled m n a)))

  -- The drain has returned, after a pass of turns.
  abbrev Drains : Actions → Option (Bridge × Actions) → Type 0
  Drains t r = (s : Bridge) × (u : Actions) × (r ≡ some (s, u)) × Passes Turn t u

  drain_loop-Drains :
      (fuel n : ℕ) (s : Bridge) (t : Actions)
      → UniqueIds t
      → budget t < fuel
      → Drains t (drain_loop w fuel n s t)
  unfolding drain_loop
  drain_loop-Drains zero n s t u b = absurd (omega arith)
  drain_loop-Drains (suc fuel) n s t u b =
      drains (claim_next (w.claim_time n) t) (claim_next-Claims (w.claim_time n) t u)
        (drain_loop-Drains fuel (n + 1))
    where
      drains :
          (r : Option OfflineActionRecord × Actions)
          → Claims (w.claim_time n) t r
          → ((s' : Bridge) (v : Actions)
              → UniqueIds v
              → budget v < fuel
              → Drains v (drain_loop w fuel (n + 1) s' v))
          → Drains t (elim r.0 [
            | none ↦ some (s, r.1)
            | some a ↦
                drain_loop w fuel
                  (n + 1)
                  (retry_row w a s).1
                  (mark_row (retry_row w a s).0 a.id (w.mark_time n) r.1)
          ])
      drains r (idle h) rest = (s, t, refl, done t h)
      drains r (took a xs ys e hx hy c f) rest =
          let m = (retry_row w (claimed_row (w.claim_time n) a) s).0 in
          let (s', v, q, p) =
            rest (retry_row w (claimed_row (w.claim_time n) a) s).1 (xs ++ marked_row m n a ∷ ys)
              (Unique-replace (λ (x : OfflineActionRecord). x.id) a (marked_row m n a) xs ys
                (marked_row-id m n a) (subst UniqueIds e u))
              (turn_spends m n a xs ys fuel c (subst (λ v. budget v < suc fuel) e b)) in
          (
            s',
            v,
            ap (drain_loop w fuel (n + 1) (retry_row w (claimed_row (w.claim_time n) a) s).1)
                  (mark_row-at m n a xs ys hx hy)
                ∙ q,
            subst (λ x. Passes Turn x v) (sym e)
                (turn a (marked_row m n a) xs ys v c
                  (marked_row-Turn m n a (retry_row-foreign (claimed_row (w.claim_time n) a) s)) p),
          )

  drain_retry_queue-some :
      (fuel : ℕ) (s s' : Bridge) (t u : Actions)
      → s.store ≡ some t
      → drain_loop w fuel 0 s t ≡ some (s', u)
      → drain_retry_queue w fuel s ≡ some (record s' { store = some u })
  unfolding drain_retry_queue
  drain_retry_queue-some fuel s s' t u e q =
      subst (λ x. drain_store w fuel s x ≡ some (record s' { store = some u })) (sym e)
        (rw (q, drain_store) refl)

  -- With unique identifiers and more fuel than there are retries left, a drain returns, and no row
  -- of the table it leaves can be claimed.
  pub drain_settles :
      (fuel : ℕ) (s : Bridge) (t : Actions)
      → s.store ≡ some t
      → UniqueIds t
      → budget t < fuel
      → (s' : Bridge) × (u : Actions) × (drain_retry_queue w fuel s
          ≡ some (record s' { store = some u }))
        × All (λ a. claimable a ≡ false) u
  drain_settles fuel s t e u b =
      let (s', v, q, p) = drain_loop-Drains fuel 0 s t u b in
      (
        s',
        v,
        drain_retry_queue-some fuel s s' t v e q,
        (Passes-keeps (λ _. Unit {0}) (λ _ _ _ _ _. tt) p (All-trivial t)).1,
      )

  -- What a row of another kind is for a whole drain.
  record Foreign (c a : OfflineActionRecord) : Type 0 where
    same_id : a.id ≡ c.id
    foreign : is_lock_action a.action_type ≡ false
    waiting : IsWaiting a

  Turn-Foreign :
      (c a b : OfflineActionRecord) → claimable a ≡ true → Turn a b → Foreign c a → Foreign c b
  Turn-Foreign c a b k t f = record {
    same_id = t.same_id ∙ f.same_id;
    foreign = ap is_lock_action t.same_action ∙ f.foreign;
    waiting = inr (t.foreign_fails f.foreign);
  }

  -- With unique identifiers and more fuel than there are retries left, a drain returns with every
  -- waiting row that is no lock action turned into a row of the same identifier that has FAILED for
  -- good.
  pub drain_exhausts_foreign :
      (fuel : ℕ) (s : Bridge) (t : Actions) (c : OfflineActionRecord)
      → s.store ≡ some t
      → UniqueIds t
      → budget t < fuel
      → In c t
      → is_lock_action c.action_type ≡ false
      → IsWaiting c
      → (s' : Bridge) × (u : Actions) × (drain_retry_queue w fuel s
          ≡ some (record s' { store = some u }))
        × (b : OfflineActionRecord) × In b u
        × (b.id ≡ c.id)
        × IsExhausted b
  drain_exhausts_foreign fuel s t c e u b m f h =
      let (s', v, q, p) = drain_loop-Drains fuel 0 s t u b in
      let (d, i, g, n) =
        Passes-follows (Foreign c) (Turn-Foreign c) c p m
          (record { same_id = refl; foreign = f; waiting = h }) in
      (
        s',
        v,
        drain_retry_queue-some fuel s s' t v e q,
        d,
        i,
        g.same_id,
        waiting_spent d g.waiting n,
      )
