-- ===== src/Lib.antt =====
-- Hotelia, a hotel management platform: a verification library for its core.
--
-- The program is a monorepo. The desktop console (apps/console) runs the property: its main process
-- owns a SQLite queue of offline actions, the flusher that delivers them to the local broker, the
-- bridge to the door-lock encoders, a local payment ledger, and the store behind the views.
-- The kitchen display (apps/kds) reads the broker's stream. The packages hold what the console
-- shares with the servers: the ledger and inventory services (packages/database), the tax engine and
-- the validators (packages/shared), the domain events (packages/events), the channel adapters
-- (packages/channels).
--
-- What models which part:
--
--   Offline.Action, Offline.Store   the table `offline_actions` and the methods of
--                                   `OfflineActionStore` (apps/console/src/main/offline/store.ts)
--   Offline.Sync                    `OfflineSyncEngine` (apps/console/src/main/offline/sync.ts)
--   Payments.Row, Payments.Ledger   the table `mpesa_ledger` and its methods (the same store.ts)
--   Hardware.Breaker, .Channel,     `CircuitBreaker`, the adapters and `LockBridgeController`
--   Hardware.Bridge, .Bridge.Retry  (apps/console/src/main/hardware/lockBridge.ts)
--   Folios.Row, .Service,           the ledger service (packages/database/src/ledger.ts) over the
--   Folios.Transfer, .Closing       tables of packages/database/prisma/schema.prisma
--   Inventory.Rooms, .Channels      `atomicReserveRoom` and `lockChannelInventory`
--                                   (packages/database/src/inventory.ts)
--   Tax.Engine                      the tax engine (packages/shared/src/tax/index.ts)
--   Pms.Row, .Barrier, .Charge,     `posVerifyGuest`, `posPostCharge` and the boards of
--   Pms.Board                       apps/console/src/main/pms.ts
--   Broker.Bus, .Limiter, .Window,  the local broker (apps/console/src/main/server.ts): the
--   .Guard, .Packet, .Stream,       handlers, the limiter, the idempotency keys, the token, the
--   .Written                        two requests, and the text of a stream
--   Broker.Delivery                 the flusher as a client of the broker
--   Kds.Queue, .Frames,             the kitchen display (apps/kds/app/page.tsx): its cards, the
--   Kds.Subscription                reading of the stream, the events that it asks for
--   Channels.Adapter                the booking channels (packages/channels/src)
--   Console.Schema, .Inputs         the IPC schemas (packages/shared/src/validators/index.ts)
--   Console.Main, .Boot, .Database  the handlers and the boot of the main process, and its lazy
--                                   database client (apps/console/src/main/index.ts, main/db.ts)
--   Console.Bridge, .View           the bridge (apps/console/src/preload/index.ts) and how the views
--                                   call it (apps/console/src/renderer/offline/sync-client.ts)
--   Console.Reconciliation,         the views in apps/console/src/renderer/views: Reconciliation.tsx,
--   Console.Terminal, .FrontDesk,   Pos.tsx, FrontDesk.tsx, and the displays of Housekeeping.tsx,
--   Console.Rooms, .Panels          Revenue.tsx, Settings.tsx and App.tsx
--   Console.Store, .Palette,        app-store.ts, use-shortcuts.ts, palette.tsx and toast.tsx of
--   Console.Toasts                  apps/console/src/renderer
--   Console.Sound, .History         what calls and statements keep, in any order
--   Ipc.Wrap                        `wrapIpc` (apps/console/src/main/ipcWrap.ts) and `unwrap`
--                                   (apps/console/src/renderer/offline/sync-client.ts)
--   Events.Emitter                  `EventBus` (packages/events/src/emitter/index.ts)
--   Events.Registry                 `EVENT_TYPES` and `eventRegistry` (packages/events/src)
--
-- A table is the list of its rows, oldest first, and a statement maps tables to tables
-- (Prelude.Table); an operation that is one SQLite transaction is one function. A fresh UUID and the
-- clock are arguments. Identifiers are only compared, so they are numbers; times are milliseconds.
-- Texts are lists of code points (Prelude.Texts). Money is counted in whole minor units, as the
-- tables do; an amount before rounding is counted in ten-thousandths, and a price of a booking
-- channel is any fraction that is not negative. JavaScript's numbers are taken as exact at these
-- values, so rounding errors of binary fractions are not modelled. The network is a function that
-- answers the n-th request of a pass, with `none` for an exception or a timeout.
--
-- The broker's state is its handlers, buckets, window of keys and what it has published; a request is
-- a function on it with the clock as an argument. A handler is a number, since handlers are only
-- compared. The tokens of the limiter are counted in thousandths, which are exact for a clock in
-- milliseconds. SHA-256, JSON.parse and String.toLowerCase are parameters.
--
-- The loop of `flush` recurs on the rounds left until its ceiling of 500, so it needs no fuel. The
-- drain of the lock bridge has no ceiling, so it recurs on fuel: every turn uses up one of the
-- retries left in the table, of which a fresh row has eight, so more fuel than retries is enough.
--
-- The main process is one record: the engine, the lock bridge, the payment ledger, the hotel and the
-- database client. The queue is one table, which the engine owns and lends to the bridge for a call.
-- A call of the renderer is a constructor of `Call` with its input as it goes over the wire, where
-- identifiers are texts and amounts may be NaN or negative; zod's test of UUIDs and its wording are
-- parameters, and so are parseFloat, Number and parseInt. A view is a record, and a handler of a
-- view a function on it and the state behind the bridge, which is any state for the views and the
-- main process in the theorems about both.
--
-- Not modelled: the sockets and headers of the broker, the connection and the markup of the kitchen
-- display and of the views, the windows of the console, logging, the SQLite file and its pragmas,
-- negative prices of a booking channel, and the scheduling of timers. The pass of the flusher that
-- `enqueue` starts without waiting for it is counted in the engine, and runs as a later step.
-- Asynchronous waits are points between steps: `Offline.Store.Reach` and `Console.History` allow the
-- statements of all callers in any order, while the theorems about one pass of the flusher, or one
-- handler of a view, speak of a run whose statements no other caller interrupts.
pub mod Prelude
pub mod Console
pub mod Events
pub mod Offline
pub mod Payments
pub mod Hardware
pub mod Folios
pub mod Inventory
pub mod Tax
pub mod Pms
pub mod Broker
pub mod Kds
pub mod Channels
pub mod Ipc
