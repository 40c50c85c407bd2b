-- ===== src/Console/Boot.antt =====
-- The boot of the main process, the events of the lock bridge on the bus, and the window's channel
-- (apps/console/src/main/index.ts). The first pass of the flusher is taken as over before the lock
-- bridge is built; it touches nothing of the bridge.
use hotelia.Prelude.{
  ℕ, ◌≡◌, ◌⊎◌, inl, inr, refl, Text, codes, [], Option, none, some, Bool, true, false, or_else,
  same_text,
}
use hotelia.Offline.Store.{Actions}
use hotelia.Offline.Sync.{Environment, start}
use hotelia.Hardware.Channel.{EncodeRequest, tcp}
use hotelia.Hardware.Bridge.{
  Bridge, BridgeEvent, encode_completed, offline_encode_queued, LockDevice, Wire, register_device,
  attach, endpoint, encode, encode_on, put_device,
}
use hotelia.Hardware.Bridge.Encode.{encode-known}
use hotelia.Pms.Row.{Hotel}
use hotelia.Payments.Ledger.{Rows}
use hotelia.Console.Database.{Db}
use hotelia.Console.Main.{Main, Settings, lent}

-- The bridge as it is constructed, without its store.
abbrev new_bridge : Bridge
new_bridge = record {
  devices = [];
  tcp_adapter = none;
  serial_adapter = none;
  breakers = [];
  retry_loop = false;
  store = none;
  emitted = [];
  attempts = 0;
}

abbrev lobby_encoder : Text → Text → LockDevice
lobby_encoder e i = record {
  id = i;
  channel = tcp;
  endpoint = e;
  model = codes "SALTO-BRIDGE";
  online = false;
}

-- The adapter and the two encoders of the lobby
unfoldable pub boot_locks : Text → Bridge
unfolding register_device
boot_locks e = register_device (lobby_encoder e (codes "LDOOR-02")) (
    register_device (lobby_encoder e (codes "LDOOR-01"))
      (or_else (attach tcp (endpoint e) new_bridge) new_bridge))

-- `app.whenReady`: the tables are those of the SQLite file and of the hotel's database.
unfoldable pub boot :
    Environment
    → Option Bool
    → ℕ
    → Option Text
    → Text
    → Actions
    → Rows
    → Hotel
    → Db
    → Settings
    → Main
unfolding boot_locks
boot env health now lock_endpoint token actions ledger hotel db settings = record {
  engine =
      (start env health now (record {
        actions = actions;
        token = some token;
        online = false;
        changed = [];
        passes = 0;
      })).1;
  locks = boot_locks (or_else lock_endpoint (codes "127.0.0.1:9100"));
  ledger = ledger;
  hotel = hotel;
  db = db;
  settings = settings;
  calls = 0;
}

-- What the process publishes for an event of the lock bridge: of which room and encoder, and whether
-- the key is written or queued.
pub record KeyGenerated : Type 0 where
  pub device_id : Text
  pub room_number : Text
  pub credential : Text
  pub completed : Bool
  pub queued : Bool

unfoldable pub key_event : BridgeEvent → KeyGenerated
key_event (encode_completed r) = record {
  device_id = r.device_id;
  room_number = r.room_number;
  credential = r.credential;
  completed = true;
  queued = false;
}
key_event (offline_encode_queued q) = record {
  device_id = q.device_id;
  room_number = q.room_number;
  credential = q.credential;
  completed = false;
  queued = true;
}

pub data WinAction : Type 0 where
  minimize toggle_maximize close : WinAction

-- What the handler asks of the window.
pub data WindowCall : Type 0 where
  minimizes maximizes unmaximizes closes : WindowCall

abbrev window_call : WinAction → Bool → WindowCall
window_call minimize maximized = minimizes
window_call toggle_maximize true = unmaximizes
window_call toggle_maximize false = maximizes
window_call close maximized = closes

-- The handler of `win:control`: the action that it answers, or none, and the call. The window is
-- given by whether it is maximized, and is absent if there is none.
unfoldable pub control : WinAction → Option Bool → Option WinAction × Option WindowCall
control a none = (none, none)
control a (some maximized) = (some a, some (window_call a maximized))

-- A device of the lobby.
abbrev IsLobby : Text → Type 0
IsLobby i = (i ≡ codes "LDOOR-01") ⊎ (i ≡ codes "LDOOR-02")

-- After the boot an encode for an encoder of the lobby is neither refused as unknown nor for want of
-- an adapter: it goes on behind these checks, over TCP.
boot-encode :
    (env : Environment) (health : Option Bool) (now : ℕ) (e : Option Text) (token : Text)
    (actions : Actions) (ledger : Rows) (hotel : Hotel) (db : Db) (settings : Settings) (w : Wire)
    (req : EncodeRequest)
    → IsLobby req.device_id
    → encode w req (lent (boot env health now e token actions ledger hotel db settings))
      ≡ encode_on w tcp req (lent (boot env health now e token actions ledger hotel db settings))
unfolding boot boot_locks register_device same_text put_device attach
boot-encode env health now e token actions ledger hotel db settings w req (inl k) =
    encode-known w req (lent (boot env health now e token actions ledger hotel db settings))
      (lobby_encoder (or_else e (codes "127.0.0.1:9100")) (codes "LDOOR-01")) (rw k refl) refl
boot-encode env health now e token actions ledger hotel db settings w req (inr k) =
    encode-known w req (lent (boot env health now e token actions ledger hotel db settings))
      (lobby_encoder (or_else e (codes "127.0.0.1:9100")) (codes "LDOOR-02")) (rw k refl) refl
