-- ===== src/Hardware/Bridge/Encode.antt =====
-- What `encode` promises (apps/console/src/main/hardware/lockBridge.ts).
use hotelia.Prelude.{
  ℕ, ◌+◌, ◌<◌, ◌≡◌, refl, ap, ◌∙◌, ◌⊎◌, inl, inr, [], ◌∷◌, ◌++◌, Option, none, some, true, arith,
  Bool-cases,
}
use hotelia.Prelude.Table.{find}
use hotelia.Offline.Action.{OfflineActionRecord}
use hotelia.Offline.Store.{Actions, has_id, has_key, new_row}
use hotelia.Offline.Store.Insert.{insert_known, insert_new}
use hotelia.Hardware.Breaker.{open_, allow, allow_open}
use hotelia.Hardware.Channel.{
  LockChannels, EncodeRequest, EncodeResult, EncodeStatus, encoded, queued_offline,
}
use hotelia.Hardware.Bridge.{
  LockDevice, Bridge, Wire, is_device, has_adapter, lock_key, lock_input, persist_in, get_breaker,
  set_breaker, encode_on, encode_device, encode, is_encoded, adapter_encode, encode_completes,
  encode_fails, encode_refused, persist_offline,
}

pub encode-known :
    (w : Wire) (req : EncodeRequest) (s : Bridge) (d : LockDevice)
    → find (is_device req.device_id) s.devices ≡ some d
    → has_adapter d.channel s ≡ true
    → encode w req s ≡ encode_on w d.channel req s
unfolding encode
encode-known w req s d e h = ap (encode_device w req s) e ∙ rw h refl

-- How an encode of a known device ends, when its request would be stored as `q`.
pub data Outcome (q : ℕ → ℕ × Option Actions) (s : Bridge) : EncodeResult × Bridge → Type 0 where
  live :
      (r : EncodeResult) (s' : Bridge)
      → r.status ≡ encoded
      → s'.store ≡ s.store
      → Outcome q s (r, s')
  queued :
      (now : ℕ) (r : EncodeResult) (s' : Bridge)
      → r.status ≡ queued_offline
      → r.queued_id ≡ some (q now).0
      → s'.store ≡ (q now).1
      → Outcome q s (r, s')

is_encoded_status : (x : EncodeStatus) → is_encoded x ≡ true → x ≡ encoded
is_encoded_status x e = ground arith

pub encode_on-Outcome :
    (w : Wire) (c : LockChannels) (req : EncodeRequest) (s : Bridge)
    → Outcome (λ now. persist_in (w.fresh_id s.attempts) req now s.store) s (encode_on w c req s)
unfolding encode_on encode_completes encode_fails encode_refused persist_offline
encode_on-Outcome w c req s =
    let b = allow (w.asked_at s.attempts) (get_breaker req.device_id s.breakers) in
    let s' = record s { breakers = set_breaker req.device_id b.1 s.breakers } in
    elim (Bool-cases b.0) [
      | inr e ↦ rw e (queued (w.asked_at s.attempts) _ _ refl refl refl)
      | inl e ↦ elim (Bool-cases (is_encoded (adapter_encode w c req s').status)) [
        | inl f ↦ rw (e, f) (live _ _ (is_encoded_status _ f) refl)
        | inr f ↦ rw (e, f) (queued (w.settled_at s.attempts) _ _ refl refl refl)
      ]
    ]

persist_in-known :
    (i : ℕ) (req : EncodeRequest) (now : ℕ) (t : Actions) (a : OfflineActionRecord)
    → find (has_key (lock_key req)) t ≡ some a
    → persist_in i req now (some t) ≡ (a.id, some t)
persist_in-known i req now t a e = rw (insert_known i (lock_input req) now t a e) refl

persist_in-new :
    (i : ℕ) (req : EncodeRequest) (now : ℕ) (t : Actions)
    → find (has_key (lock_key req)) t ≡ none
    → find (has_id i) t ≡ none
    → persist_in i req now (some t) ≡ (i, some (t ++ new_row i (lock_input req) now ∷ []))
persist_in-new i req now t e f = rw (insert_new i (lock_input req) now t e f) refl

encode_on-open :
    (w : Wire) (c : LockChannels) (req : EncodeRequest) (s : Bridge)
    → (get_breaker req.device_id s.breakers).state ≡ open_
    → w.asked_at s.attempts
      < (get_breaker req.device_id s.breakers).opened_at
        + (get_breaker req.device_id s.breakers).cooldown_ms
    → ((encode_on w c req s).0.status ≡ queued_offline)
      × ((encode_on w c req s).1.attempts ≡ s.attempts)
unfolding encode_on encode_refused persist_offline
encode_on-open w c req s o h =
    rw ((allow_open (w.asked_at s.attempts) (get_breaker req.device_id s.breakers) o).0 h)
      (refl, refl)

module _ (w : Wire) (req : EncodeRequest) (s : Bridge) (d : LockDevice)
    (known : find (is_device req.device_id) s.devices ≡ some d)
    (adapter : has_adapter d.channel s ≡ true) where
  encode-Outcome :
      Outcome (λ now. persist_in (w.fresh_id s.attempts) req now s.store) s (encode w req s)
  encode-Outcome = rw (encode-known w req s d known adapter) (encode_on-Outcome w d.channel req s)

  -- If the device and its adapter are known and neither the lock key nor the fresh identifier is in
  -- the store, an encode either succeeds on the wire and leaves the store as it is, or it returns
  -- `queued_offline` with the identifier of a PENDING row of this request that was appended.
  pub encode_durable :
      (t : Actions)
      → s.store ≡ some t
      → find (has_key (lock_key req)) t ≡ none
      → find (has_id (w.fresh_id s.attempts)) t ≡ none
      → (((encode w req s).0.status ≡ encoded) × ((encode w req s).1.store ≡ some t))
        ⊎ (now : ℕ) × ((encode w req s).0.status ≡ queued_offline)
          × ((encode w req s).0.queued_id ≡ some (w.fresh_id s.attempts))
          × ((encode w req s).1.store
              ≡ some (t ++ new_row (w.fresh_id s.attempts) (lock_input req) now ∷ []))
  encode_durable t e k f = durable (encode w req s) encode-Outcome
    where
      durable :
          (r : EncodeResult × Bridge)
          → Outcome (λ now. persist_in (w.fresh_id s.attempts) req now s.store) s r
          → ((r.0.status ≡ encoded) × (r.1.store ≡ some t))
            ⊎ (now : ℕ) × (r.0.status ≡ queued_offline)
              × (r.0.queued_id ≡ some (w.fresh_id s.attempts))
              × (r.1.store ≡ some (t ++ new_row (w.fresh_id s.attempts) (lock_input req) now ∷ []))
      durable r (live x s' p q) = inl (p, q ∙ e)
      durable r (queued now x s' p i q) =
          let n : persist_in (w.fresh_id s.attempts) req now s.store ≡ (
            w.fresh_id s.attempts,
            some (t ++ new_row (w.fresh_id s.attempts) (lock_input req) now ∷ []),
          ) =
            ap (persist_in (w.fresh_id s.attempts) req now) e
            ∙ persist_in-new (w.fresh_id s.attempts) req now t k f in
          inr (now, p, i ∙ ap (λ z. some z.0) n, q ∙ ap (λ z. z.1) n)

  -- If the device and its adapter are known and the store has a row under the lock key, whatever
  -- its status, an encode leaves the store as it is; it succeeds on the wire, or it returns
  -- `queued_offline` with the identifier of that old row.
  pub encode_lost :
      (t : Actions) (a : OfflineActionRecord)
      → s.store ≡ some t
      → find (has_key (lock_key req)) t ≡ some a
      → ((encode w req s).1.store ≡ some t)
        × (((encode w req s).0.status ≡ encoded)
            ⊎ (((encode w req s).0.status ≡ queued_offline)
                × ((encode w req s).0.queued_id ≡ some a.id)))
  encode_lost t a e k = lost (encode w req s) encode-Outcome
    where
      lost :
          (r : EncodeResult × Bridge)
          → Outcome (λ now. persist_in (w.fresh_id s.attempts) req now s.store) s r
          → (r.1.store ≡ some t)
            × ((r.0.status ≡ encoded)
                ⊎ ((r.0.status ≡ queued_offline) × (r.0.queued_id ≡ some a.id)))
      lost r (live x s' p q) = (q ∙ e, inl p)
      lost r (queued now x s' p i q) =
          let n : persist_in (w.fresh_id s.attempts) req now s.store ≡ (a.id, some t) =
            ap (persist_in (w.fresh_id s.attempts) req now) e
            ∙ persist_in-known (w.fresh_id s.attempts) req now t a k in
          (q ∙ ap (λ z. z.1) n, inr (p, i ∙ ap (λ z. some z.0) n))

  -- If the device and its adapter are known, its breaker is OPEN and the cooldown has not passed,
  -- an encode makes no attempt on the wire and returns `queued_offline`.
  encode_open :
      (get_breaker req.device_id s.breakers).state ≡ open_
      → w.asked_at s.attempts
        < (get_breaker req.device_id s.breakers).opened_at
          + (get_breaker req.device_id s.breakers).cooldown_ms
      → ((encode w req s).0.status ≡ queued_offline) × ((encode w req s).1.attempts ≡ s.attempts)
  encode_open o c = rw (encode-known w req s d known adapter) (encode_on-open w d.channel req s o c)
