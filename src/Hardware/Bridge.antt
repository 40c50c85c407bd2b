-- ===== src/Hardware/Bridge.antt =====
-- `LockBridgeController` (apps/console/src/main/hardware/lockBridge.ts). An environment gives what
-- the socket of the n-th attempt does, the clock when that attempt is asked for and when it is
-- settled, fresh identifiers, and the clock at the statements of the n-th round of a drain. The
-- attempts are counted in the state. An encode is taken as one step: no other call is made while it
-- waits for the encoder.
pub mod Encode
pub mod Retry
pub mod Passes
pub mod Drain
use hotelia.Prelude.{
  ℕ, zero, suc, ◌+◌, Text, codes, List, [], ◌∷◌, ◌++◌, Option, none, some, Bool, true, false,
  if◌then◌else◌, same_text, or_else,
}
use hotelia.Prelude.Table.{find}
use hotelia.Offline.Action.{
  OfflineActionRecord, SyncEnqueueInput, SyncAction, Payload, checkin, checkout, room_key_generate,
  pos_order, folio_transfer, maintenance_order, etims_invoice,
}
use hotelia.Offline.Store.{Actions, insert, claim_next, mark_complete, mark_failed}
use hotelia.Hardware.Breaker.{CircuitBreaker, new_breaker, allow, on_success, on_failure}
use hotelia.Hardware.Channel.{
  LockChannels, tcp, serial, EncodeRequest, EncodeStatus, encoded, queued_offline, error,
  EncodeResult, build_result, SocketEvent, tcp_encode, serial_encode,
}

pub record LockDevice : Type 0 where
  pub id : Text
  pub channel : LockChannels
  pub endpoint : Text
  pub model : Text
  pub online : Bool

pub data BridgeEvent : Type 0 where
  encode_completed : EncodeResult → BridgeEvent
  offline_encode_queued : EncodeRequest → BridgeEvent

-- The adapter of the TCP channel needs no data beyond its endpoint; the one of the serial channel
-- holds its provider. `store` is `none` if no store was injected.
pub record Bridge : Type 0 where
  pub devices : List LockDevice
  pub tcp_adapter : Option Text
  pub serial_adapter : Option (EncodeRequest → Bool)
  pub breakers : List (Text × CircuitBreaker)
  pub retry_loop : Bool
  pub store : Option Actions
  pub emitted : List BridgeEvent
  pub attempts : ℕ

pub record Wire : Type 0 where
  pub socket : ℕ → EncodeRequest → List SocketEvent
  pub asked_at : ℕ → ℕ
  pub settled_at : ℕ → ℕ
  pub fresh_id : ℕ → ℕ
  pub claim_time : ℕ → ℕ
  pub mark_time : ℕ → ℕ

abbrev pub is_device : Text → LockDevice → Bool
is_device i d = same_text d.id i

-- `breakers.get(deviceId)`, with a new breaker if there is none.
unfoldable pub get_breaker : Text → List (Text × CircuitBreaker) → CircuitBreaker
get_breaker i [] = new_breaker
get_breaker i ((j, b) ∷ l) = if same_text j i then b else get_breaker i l

unfoldable pub set_breaker :
    Text → CircuitBreaker → List (Text × CircuitBreaker) → List (Text × CircuitBreaker)
set_breaker i b [] = (i, b) ∷ []
set_breaker i b ((j, c) ∷ l) = if same_text j i then (j, b) ∷ l else (j, c) ∷ set_breaker i b l

unfoldable pub set_online : Text → Bool → List LockDevice → List LockDevice
set_online i on [] = []
set_online i on (d ∷ l) =
    (if is_device i d then record d { online = on } else d) ∷ set_online i on l

-- `devices.set(d.id, d)`: a device that is known keeps its place.
unfoldable pub put_device : LockDevice → List LockDevice → List LockDevice
put_device d [] = d ∷ []
put_device d (e ∷ l) = if same_text e.id d.id then d ∷ l else e ∷ put_device d l

unfoldable pub register_device : LockDevice → Bridge → Bridge
unfolding put_device
register_device d s = record s { devices = put_device (record d { online = false }) s.devices }

-- `lock:<deviceId>:<room>`
unfoldable pub lock_key : EncodeRequest → Text
lock_key req = codes "lock:" ++ req.device_id ++ codes ":" ++ req.room_number

abbrev pub lock_payload : EncodeRequest → Payload
lock_payload req =
    (codes "deviceId", req.device_id)
    ∷ (codes "roomNumber", req.room_number)
    ∷ (codes "credential", req.credential)
    ∷ []

abbrev pub lock_input : EncodeRequest → SyncEnqueueInput
lock_input req = record {
  action_type = room_key_generate;
  payload = lock_payload req;
  idempotency_key = lock_key req;
}

-- The identifier of the stored row, or a fresh one where there is no store or it raises.
abbrev pub persist_in : ℕ → EncodeRequest → ℕ → Option Actions → ℕ × Option Actions
persist_in i req now none = (i, none)
persist_in i req now (some t) =
    let (r, t') = insert i (lock_input req) now t in (elim r [ none ↦ i | some a ↦ a.id ], some t')

unfoldable pub persist_offline : Wire → EncodeRequest → ℕ → Bridge → ℕ × Bridge
persist_offline w req now s =
    let (i, t) = persist_in (w.fresh_id s.attempts) req now s.store in
    (i, record s { store = t; emitted = offline_encode_queued req ∷ s.emitted })

abbrev pub has_adapter : LockChannels → Bridge → Bool
has_adapter tcp s = elim s.tcp_adapter [ none ↦ false | some _ ↦ true ]
has_adapter serial s = true

-- `adapter.encode(req)`; the serial adapter exists from the start.
abbrev pub adapter_encode : Wire → LockChannels → EncodeRequest → Bridge → EncodeResult
adapter_encode w tcp req s = tcp_encode req (w.socket s.attempts req)
adapter_encode w serial req s = serial_encode req s.serial_adapter

abbrev pub is_encoded : EncodeStatus → Bool
is_encoded encoded = true
is_encoded _ = false

unfoldable pub encode_completes : EncodeRequest → EncodeResult → Bridge → EncodeResult × Bridge
encode_completes req r s = (
  r,
  record s {
    breakers =
        set_breaker req.device_id (on_success (get_breaker req.device_id s.breakers)) s.breakers;
    devices = set_online req.device_id true s.devices;
    emitted = encode_completed r ∷ s.emitted;
    attempts = s.attempts + 1;
  },
)

unfoldable pub encode_fails : Wire → EncodeRequest → EncodeResult → Bridge → EncodeResult × Bridge
unfolding persist_offline
encode_fails w req r s =
    let b = on_failure (w.settled_at s.attempts) (get_breaker req.device_id s.breakers) in
    let s' = record s {
      breakers = set_breaker req.device_id b s.breakers;
      devices = set_online req.device_id false s.devices;
    } in
    let (i, s3) = persist_offline w req (w.settled_at s.attempts) s' in
    (
      record r {
        status = queued_offline;
        queued_id = some i;
        error = some (or_else r.error (codes "encoder offline -> queued"));
      },
      record s3 { retry_loop = true; attempts = s.attempts + 1 },
    )

unfoldable pub encode_refused : Wire → EncodeRequest → Bridge → EncodeResult × Bridge
unfolding persist_offline
encode_refused w req s =
    let (i, s') = persist_offline w req (w.asked_at s.attempts) s in
    (
      record (build_result req queued_offline (some (codes "circuit open (fast-fail)->queued"))) {
        queued_id = some i;
      },
      s',
    )

-- The part of `encode` behind the two checks, on the device and its adapter.
unfoldable pub encode_on : Wire → LockChannels → EncodeRequest → Bridge → EncodeResult × Bridge
unfolding encode_completes encode_fails encode_refused
encode_on w c req s =
    let (allowed, b) = allow (w.asked_at s.attempts) (get_breaker req.device_id s.breakers) in
    let s' = record s { breakers = set_breaker req.device_id b s.breakers } in
    let r = adapter_encode w c req s' in
    if allowed
    then if is_encoded r.status then encode_completes req r s' else encode_fails w req r s'
    else encode_refused w req s'

abbrev pub encode_device : Wire → EncodeRequest → Bridge → Option LockDevice → EncodeResult × Bridge
encode_device w req s none = (build_result req error (some (codes "unknown encoder device")), s)
encode_device w req s (some d) =
    if has_adapter d.channel s
    then encode_on w d.channel req s
    else (build_result req error (some (codes "no adapter for channel: tcp")), s)

unfoldable pub encode : Wire → EncodeRequest → Bridge → EncodeResult × Bridge
unfolding encode_on
encode w req s = encode_device w req s (find (is_device req.device_id) s.devices)

unfoldable pub ensure_retry_loop : Bridge → Bridge
ensure_retry_loop s = record s { retry_loop = true }

unfoldable pub shutdown : Bridge → Bridge
shutdown s = record s { retry_loop = false }

-- `endpointOrProvider`
pub data Attachment : Type 0 where
  missing : Attachment
  endpoint : Text → Attachment
  provider : (EncodeRequest → Bool) → Attachment

-- A text for the serial channel is kept as its provider, and then an encode raises: `none`. The
-- empty text is no provider.
unfoldable pub attach : LockChannels → Attachment → Bridge → Option Bridge
attach tcp (endpoint e) s = some (record s { tcp_adapter = some e })
attach tcp a s = some s
attach serial (provider write) s = some (record s { serial_adapter = some write })
attach serial (endpoint (c ∷ e)) s = none
attach serial a s = some s
