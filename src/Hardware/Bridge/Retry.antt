-- ===== src/Hardware/Bridge/Retry.antt =====
-- `drainRetryQueue` of the lock bridge (apps/console/src/main/hardware/lockBridge.ts).
use hotelia.Prelude.{
  ℕ, zero, suc, ◌+◌, Text, codes, [], ◌∷◌, Option, none, some, Bool, true, false, if◌then◌else◌,
  same_text, or_else,
}
use hotelia.Prelude.Table.{find}
use hotelia.Offline.Action.{OfflineActionRecord, SyncAction, Payload, room_key_generate}
use hotelia.Offline.Store.{Actions, claim_next, mark_complete, mark_failed}
use hotelia.Hardware.Breaker.{allow, on_success, on_failure}
use hotelia.Hardware.Channel.{LockChannels, EncodeRequest}
use hotelia.Hardware.Bridge.{
  Bridge, Wire, encode_completed, is_device, get_breaker, set_breaker, set_online, has_adapter,
  adapter_encode, is_encoded,
}

-- `String(record.payload.f)`; a missing field gives "undefined".
unfoldable pub field_of : Text → Payload → Text
field_of f [] = codes "undefined"
field_of f ((g, v) ∷ p) = if same_text g f then v else field_of f p

abbrev pub request_from : OfflineActionRecord → EncodeRequest
request_from a = record {
  device_id = field_of (codes "deviceId") a.payload;
  room_number = field_of (codes "roomNumber") a.payload;
  credential = field_of (codes "credential") a.payload;
}

abbrev pub is_lock_action : SyncAction → Bool
is_lock_action room_key_generate = true
is_lock_action _ = false

-- What the drain does with a claimed row: the new bridge without its store, and how the row is
-- marked, with `none` for COMPLETED and the error for FAILED.
unfoldable pub retry_on : Wire → LockChannels → EncodeRequest → Bridge → Option Text × Bridge
retry_on w c req s =
    let (allowed, b) = allow (w.asked_at s.attempts) (get_breaker req.device_id s.breakers) in
    let s' = record s { breakers = set_breaker req.device_id b s.breakers } in
    let r = adapter_encode w c req s' in
    if allowed
    then if is_encoded r.status
      then (
        none,
        record s' {
          breakers =
              set_breaker req.device_id (on_success (get_breaker req.device_id s'.breakers))
                s'.breakers;
          devices = set_online req.device_id true s'.devices;
          emitted = encode_completed r ∷ s'.emitted;
          attempts = s'.attempts + 1;
        },
      )
      else (
        some (or_else r.error (codes "encoder still offline")),
        record s' {
          breakers =
              set_breaker req.device_id
                (on_failure (w.settled_at s.attempts) (get_breaker req.device_id s'.breakers))
                s'.breakers;
          devices = set_online req.device_id false s'.devices;
          attempts = s'.attempts + 1;
        },
      )
    else (some (codes "breaker open / no adapter — will retry on next pass"), s')

unfoldable pub retry_row : Wire → OfflineActionRecord → Bridge → Option Text × Bridge
unfolding retry_on
retry_row w a s =
    if is_lock_action a.action_type
    then elim (find (is_device (request_from a).device_id) s.devices) [
      | none ↦ (some (codes "encoder device no longer registered"), s)
      | some d ↦ if has_adapter d.channel s then retry_on w d.channel (request_from a) s else (
        some (codes "breaker open / no adapter — will retry on next pass"),
        record s {
          breakers =
              set_breaker (request_from a).device_id
                (get_breaker (request_from a).device_id s.breakers) s.breakers;
        },
      )
    ]
    else (some (codes "non-lock action removed from lock drain"), s)

abbrev pub mark_row : Option Text → ℕ → ℕ → Actions → Actions
mark_row none i now t = mark_complete i now t
mark_row (some e) i now t = mark_failed i e now t

-- The rounds of `drainRetryQueue` on a store `t`, on fuel; `none` means that the fuel ran out.
unfoldable pub drain_loop : Wire → ℕ → ℕ → Bridge → Actions → Option (Bridge × Actions)
unfolding retry_row
drain_loop w zero n s t = none
drain_loop w (suc fuel) n s t =
    let (c, t') = claim_next (w.claim_time n) t in
    elim c [
      | none ↦ some (s, t')
      | some a ↦
          let (m, s') = retry_row w a s in
          drain_loop w fuel (n + 1) s' (mark_row m a.id (w.mark_time n) t')
    ]

abbrev pub drain_store : Wire → ℕ → Bridge → Option Actions → Option Bridge
drain_store w fuel s none = some s
drain_store w fuel s (some t) = elim (drain_loop w fuel 0 s t) [
  | none ↦ none
  | some (s', t') ↦ some (record s' { store = some t' })
]

-- `drainRetryQueue`, on fuel for its rounds; `none` means that the fuel ran out.
unfoldable pub drain_retry_queue : Wire → ℕ → Bridge → Option Bridge
unfolding drain_loop
drain_retry_queue w fuel s = drain_store w fuel s s.store
