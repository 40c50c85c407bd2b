-- ===== src/Offline/Sync/Flush.antt =====
-- The loop of `flush` (apps/console/src/main/offline/sync.ts): what it keeps, and how it ends.
use hotelia.Prelude.{
  ℕ, zero, suc, ◌+◌, ◌≤◌, ◌<◌, ◌≡◌, ap, subst, ◌≢◌, inl, inr, Text, ◌∷◌, ◌++◌, Option, none, some,
  true, false, All, In, arith, Bool-cases, if◌then◌else◌,
}
use hotelia.Prelude.Table.{count, count-none}
use hotelia.Prelude.Table.Split.{All-replace, In-replace, Unique-replace, count-replace}
use hotelia.Offline.Action.{OfflineActionRecord, processing}
use hotelia.Offline.Store.{
  Actions, claimable, claimed_row, completed_row, failed_row, claim_next, has_status,
}
use hotelia.Offline.Store.Claims.{AbsentId, UniqueIds, Claims, idle, took, claim_next-Claims}
use hotelia.Offline.Store.Budget.{
  Settled, delivered, refused, round, budget, Round-budget, mark_complete-at, mark_failed-at,
}
use hotelia.Offline.Sync.{Environment, deliver, delivery_error, settle_delivery, flush_loop}

not_claimable : (c a : OfflineActionRecord) → c.status ≡ processing → claimable a ≡ true → c ≢ a
not_claimable c a p k e = ground (arith, p, k, ap (λ (b : OfflineActionRecord). b.status) e)

module _ (env : Environment) (token : Option Text) where
  -- The row after its turn in round n.
  abbrev pub settled_row : ℕ → OfflineActionRecord → OfflineActionRecord
  settled_row n a =
      let c = claimed_row (env.claim_time n) a in
      if deliver env token n c
      then completed_row (env.mark_time n) c
      else failed_row delivery_error (env.mark_time n) c

  settled_row-Settled : (n : ℕ) (a : OfflineActionRecord) → Settled a (settled_row n a)
  settled_row-Settled n a =
      elim (Bool-cases (deliver env token n (claimed_row (env.claim_time n) a))) [
        | inl e ↦ rw e (delivered (env.claim_time n) (env.mark_time n))
        | inr e ↦ rw e (refused (env.claim_time n) (env.mark_time n) delivery_error)
      ]

  settled_row-id : (n : ℕ) (a : OfflineActionRecord) → (settled_row n a).id ≡ a.id
  settled_row-id n a = ground arith

  -- How the loop ends: by an empty claim, or at the ceiling with one more row claimed.
  pub data Ends : ℕ → ℕ → Actions → ℕ × Actions → Type 0 where
    drained : (left n : ℕ) (t : Actions) → All (λ a. claimable a ≡ false) t → Ends left n t (n, t)
    stranded :
        (n : ℕ) (a : OfflineActionRecord) (xs ys : Actions)
        → claimable a ≡ true
        → Ends 0 n (xs ++ a ∷ ys) (n, xs ++ claimed_row (env.claim_time n) a ∷ ys)
    turn :
        (left n : ℕ) (a : OfflineActionRecord) (xs ys : Actions) (r : ℕ × Actions)
        → claimable a ≡ true
        → Ends left (n + 1) (xs ++ settled_row n a ∷ ys) r
        → Ends (suc left) n (xs ++ a ∷ ys) r

  settle_delivery-at :
      (n : ℕ) (a : OfflineActionRecord) (xs ys : Actions)
      → AbsentId a.id xs
      → AbsentId a.id ys
      → settle_delivery env token n
          (claimed_row (env.claim_time n) a)
          (xs ++ claimed_row (env.claim_time n) a ∷ ys)
        ≡ xs ++ settled_row n a ∷ ys
  unfolding settle_delivery
  settle_delivery-at n a xs ys hx hy =
      elim (Bool-cases (deliver env token n (claimed_row (env.claim_time n) a))) [
        | inl e ↦ rw e (mark_complete-at (env.claim_time n) (env.mark_time n) a xs ys hx hy)
        | inr e ↦
            rw e (mark_failed-at (env.claim_time n) (env.mark_time n) delivery_error a xs ys hx hy)
      ]

  pub flush_loop-Ends :
      (left n : ℕ) (t : Actions) → UniqueIds t → Ends left n t (flush_loop env token left n t)
  unfolding flush_loop
  flush_loop-Ends zero n t u =
      ends (claim_next (env.claim_time n) t) (claim_next-Claims (env.claim_time n) t u)
    where
      ends :
          (r : Option OfflineActionRecord × Actions)
          → Claims (env.claim_time n) t r
          → Ends 0 n t (n, r.1)
      ends r (idle h) = drained 0 n t h
      ends r (took a xs ys e hx hy c f) = rw e (stranded n a xs ys c)
  flush_loop-Ends (suc left) n t u =
      ends (claim_next (env.claim_time n) t) (claim_next-Claims (env.claim_time n) t u)
        (flush_loop-Ends left (n + 1))
    where
      ends :
          (r : Option OfflineActionRecord × Actions)
          → Claims (env.claim_time n) t r
          → ((v : Actions)
              → UniqueIds v
              → Ends left (n + 1) v (flush_loop env token left (n + 1) v))
          → Ends (suc left) n t (elim r.0 [
            | none ↦ (n, r.1)
            | some a ↦ flush_loop env token left (n + 1) (settle_delivery env token n a r.1)
          ])
      ends r (idle h) rest = drained (suc left) n t h
      ends r (took a xs ys e hx hy c f) rest =
          rw (settle_delivery-at n a xs ys hx hy, e)
            (turn left n a xs ys _ c (
              rest (xs ++ settled_row n a ∷ ys) (
                Unique-replace (λ (b : OfflineActionRecord). b.id) a (settled_row n a) xs ys
                  (settled_row-id n a) (subst UniqueIds e u))))

  -- What every turn keeps of each row, the loop keeps of the table; a row claimed beyond the
  -- ceiling is the exception.
  pub Ends-keeps :
      (P : OfflineActionRecord → Type 0)
      → ((n : ℕ) (a : OfflineActionRecord) → claimable a ≡ true → P a → P (settled_row n a))
      → ((n : ℕ) (a : OfflineActionRecord) → claimable a ≡ true → P a → P (claimed_row n a))
      → {left n : ℕ} {t : Actions} {r : ℕ × Actions} → Ends left n t r
      → All P t
      → All P r.1
  Ends-keeps P keep keep_claimed (drained left n t h) k = k
  Ends-keeps P keep keep_claimed (stranded n a xs ys c) k =
      All-replace P a (claimed_row (env.claim_time n) a) xs ys k
        (keep_claimed (env.claim_time n) a c)
  Ends-keeps P keep keep_claimed (turn left n a xs ys r c e) k =
      Ends-keeps P keep keep_claimed e (All-replace P a (settled_row n a) xs ys k (keep n a c))

  -- Within the budget no row is claimed beyond the ceiling.
  pub Ends-keeps_within :
      (P : OfflineActionRecord → Type 0)
      → ((n : ℕ) (a : OfflineActionRecord) → claimable a ≡ true → P a → P (settled_row n a))
      → {left n : ℕ} {t : Actions} {r : ℕ × Actions} → Ends left n t r
      → budget t ≤ left
      → All P t
      → All P r.1 × All (λ a. claimable a ≡ false) r.1
  Ends-keeps_within P keep (drained left n t h) b k = (k, h)
  Ends-keeps_within P keep (stranded n a xs ys c) b k = absurd (
      omega (arith, Round-budget _ _ (round a (settled_row n a) xs ys c (settled_row-Settled n a))))
  Ends-keeps_within P keep (turn left n a xs ys r c e) b k =
      Ends-keeps_within P keep e
        (omega
          (arith, Round-budget _ _ (round a (settled_row n a) xs ys c (settled_row-Settled n a))))
        (All-replace P a (settled_row n a) xs ys k (keep n a c))

  -- A row in PROCESSING is passed over.
  pub Ends-holds :
      (c : OfflineActionRecord)
      → c.status ≡ processing
      → {left n : ℕ} {t : Actions} {r : ℕ × Actions} → Ends left n t r
      → In c t
      → In c r.1
  Ends-holds c p (drained left n t h) m = m
  Ends-holds c p (stranded n a xs ys k) m =
      In-replace c a (claimed_row (env.claim_time n) a) xs ys (not_claimable c a p k) m
  Ends-holds c p (turn left n a xs ys r k e) m =
      Ends-holds c p e (In-replace c a (settled_row n a) xs ys (not_claimable c a p k) m)

  abbrev processing_rows : Actions → ℕ
  processing_rows = count (has_status processing)

  turn-processing :
      (n : ℕ) (a : OfflineActionRecord) (xs ys : Actions)
      → claimable a ≡ true
      → processing_rows (xs ++ settled_row n a ∷ ys) ≡ processing_rows (xs ++ a ∷ ys)
  turn-processing n a xs ys c =
      ground (arith, count-replace (has_status processing) a (settled_row n a) xs ys)

  turn-claimable :
      (n : ℕ) (a : OfflineActionRecord) (xs ys : Actions)
      → claimable a ≡ true
      → count claimable (xs ++ a ∷ ys) ≤ suc (count claimable (xs ++ settled_row n a ∷ ys))
  turn-claimable n a xs ys c = ground (arith, count-replace claimable a (settled_row n a) xs ys)

  -- With more claimable rows than rounds, one row is left in PROCESSING that was not so before.
  pub Ends-strands :
      {left n : ℕ} {t : Actions} {r : ℕ × Actions}
      → Ends left n t r
      → left < count claimable t
      → processing_rows r.1 ≡ suc (processing_rows t)
  Ends-strands (drained left n t h) l = absurd (omega (arith, count-none claimable t h))
  Ends-strands (stranded n a xs ys c) l =
      ground
        (arith, count-replace (has_status processing) a (claimed_row (env.claim_time n) a) xs ys)
  Ends-strands (turn left n a xs ys r c e) l =
      omega (arith, turn-processing n a xs ys c, turn-claimable n a xs ys c, Ends-strands e)
