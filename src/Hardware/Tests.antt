-- ===== src/Hardware/Tests.antt =====
-- Runs of the lock bridge, and the theorems about it at concrete states.
use hotelia.Prelude.{
  same_text, ℕ, ◌+◌, ◌≡◌, refl, inl, ◌⊎◌, codes, [], ◌∷◌, none, some, false, All, In, arith,
}
use hotelia.Offline.Action.{OfflineActionRecord, pending, failed, completed, checkin}
use hotelia.Offline.Store.{Actions, new_row, claimable, claim_next, mark_failed}
use hotelia.Offline.Store.Budget.{budget}
use hotelia.Offline.Store.Claims.{UniqueIds}
use hotelia.Offline.Sync.Outcome.{IsExhausted}
use hotelia.Hardware.Breaker.{new_breaker, open_}
use hotelia.Hardware.Channel.{EncodeRequest, encoded, queued_offline, failed, tcp}
use hotelia.Hardware.Bridge.{Bridge, LockDevice, Wire, lock_key, lock_input, encode}
use hotelia.Hardware.Bridge.Retry.{drain_retry_queue}
use hotelia.Hardware.Bridge.Encode.{encode_durable, encode_lost}
use hotelia.Hardware.Bridge.Drain.{drain_settles, drain_exhausts_foreign}

abbrev request : EncodeRequest
request = record { device_id = codes "enc-1"; room_number = codes "204"; credential = codes "ff00" }

abbrev encoder : LockDevice
encoder = record {
  id = codes "enc-1";
  channel = tcp;
  endpoint = codes "10.0.0.9:9100";
  model = codes "RW-5";
  online = false;
}

-- No encoder answers.
abbrev dead_wire : Wire
dead_wire = record {
  socket = λ _ _. failed (codes "ECONNREFUSED") ∷ [];
  asked_at = λ n. 1000 + n;
  settled_at = λ n. 1000 + n;
  fresh_id = λ n. 70 + n;
  claim_time = λ n. 2000 + n;
  mark_time = λ n. 2000 + n;
}

abbrev checkin_row : OfflineActionRecord
checkin_row = record {
  id = 1;
  action_type = checkin;
  payload = [];
  idempotency_key = codes "stay-0001";
  status = pending;
  created_at = 10;
  updated_at = 10;
  retry_count = 0;
  last_error = none;
}

-- An encode for the same room and encoder that was delivered long ago.
abbrev old_key : OfflineActionRecord
old_key = record (new_row 2 (lock_input request) 20) { status = completed }

abbrev bridge_over : Actions → Bridge
bridge_over t = record {
  devices = encoder ∷ [];
  tcp_adapter = some (codes "10.0.0.9:9100");
  serial_adapter = none;
  breakers = [];
  retry_loop = false;
  store = some t;
  emitted = [];
  attempts = 0;
}

abbrev rows : Actions
rows = checkin_row ∷ old_key ∷ []

rows-UniqueIds : UniqueIds rows
rows-UniqueIds = omega arith

-- One pass makes eight attempts on the row and gives it up.
drains_dead :
    (drain_retry_queue dead_wire 9 (bridge_over (checkin_row ∷ [])))
    ≡ some (
        bridge_over (
          record checkin_row {
            status = failed;
            retry_count = 8;
            updated_at = 2007;
            last_error = some (codes "non-lock action removed from lock drain");
          }
          ∷ []))
unfolding drain_retry_queue claim_next mark_failed
drains_dead = refl

drain_settles_example :
    (s' : Bridge) × (u : Actions) × (drain_retry_queue dead_wire 9 (bridge_over rows)
      ≡ some (record s' { store = some u }))
    × All (λ a. claimable a ≡ false) u
unfolding budget
drain_settles_example =
    drain_settles dead_wire 9 (bridge_over rows) rows refl rows-UniqueIds (omega arith)

drain_exhausts_foreign_example :
    (s' : Bridge) × (u : Actions) × (drain_retry_queue dead_wire 9 (bridge_over rows)
      ≡ some (record s' { store = some u }))
    × (b : OfflineActionRecord) × In b u
    × (b.id ≡ 1)
    × IsExhausted b
unfolding budget
drain_exhausts_foreign_example =
    drain_exhausts_foreign dead_wire 9 (bridge_over rows) rows checkin_row refl rows-UniqueIds
      (omega arith) (inl refl) refl (inl refl)

encode_durable_example :
    (((encode dead_wire request (bridge_over (checkin_row ∷ []))).0.status ≡ encoded)
      × ((encode dead_wire request (bridge_over (checkin_row ∷ []))).1.store
          ≡ some (checkin_row ∷ [])))
    ⊎ (now : ℕ) × ((encode dead_wire request (bridge_over (checkin_row ∷ []))).0.status
        ≡ queued_offline)
      × ((encode dead_wire request (bridge_over (checkin_row ∷ []))).0.queued_id ≡ some 70)
      × ((encode dead_wire request (bridge_over (checkin_row ∷ []))).1.store
          ≡ some (checkin_row ∷ new_row 70 (lock_input request) now ∷ []))
unfolding same_text lock_key
encode_durable_example =
    encode_durable dead_wire request (bridge_over (checkin_row ∷ [])) encoder refl refl
      (checkin_row ∷ []) refl refl refl

encode_lost_example :
    ((encode dead_wire request (bridge_over rows)).1.store ≡ some rows)
    × (((encode dead_wire request (bridge_over rows)).0.status ≡ encoded)
        ⊎ (((encode dead_wire request (bridge_over rows)).0.status ≡ queued_offline)
            × ((encode dead_wire request (bridge_over rows)).0.queued_id ≡ some 2)))
unfolding same_text lock_key
encode_lost_example =
    encode_lost dead_wire request (bridge_over rows) encoder refl refl rows old_key refl refl

abbrev tripped : Bridge
tripped = record (bridge_over rows) {
  breakers =
      (
        codes "enc-1",
        record new_breaker { state = open_; consecutive_failures = 3; opened_at = 900 },
      )
      ∷ [];
}
