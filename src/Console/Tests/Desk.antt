-- ===== src/Console/Tests/Desk.antt =====
-- A check-in at a concrete main process, and what the views show of rooms and commands.
use hotelia.Prelude.{◌≡◌, refl, codes, List, [], ◌∷◌, none, some, false, same_text, arith}
use hotelia.Prelude.Int.{pos}
use hotelia.Ipc.Wrap.{unwrap, wrap_ipc}
use hotelia.Offline.Sync.{enqueue}
use hotelia.Offline.Store.{insert}
use hotelia.Hardware.Channel.{tcp_encode, EncodeResult, build_result, encoded}
use hotelia.Hardware.Bridge.{get_breaker, encode}
use hotelia.Inventory.Rooms.{RoomStatus, vacant_dirty, out_of_order}
use hotelia.Console.Inputs.{parse_enqueue, parse_encode}
use hotelia.Pms.Board.{HousekeepingTask}
use hotelia.Console.Schema.{matches}
use hotelia.Hardware.Breaker.{allow}
use hotelia.Console.Main.{Main, handle}
use hotelia.Console.Bridge.{main_bridge}
use hotelia.Console.Store.{initial_store}
use hotelia.Console.FrontDesk.{FrontDesk, Draws, check_in, key_request}
use hotelia.Prelude.Table.{select}
use mathlib.Core.List.{Perm}
use hotelia.Console.Rooms.{cards, groups, by_status}
use hotelia.Console.Rooms.Columns.{vacant_task, cards-groups}
use hotelia.Console.Palette.{
  filtered, open_palette, on_event, on_events, palette_commands, PaletteCommand, Palette,
  arrow_down, arrow_up, enter,
}
use hotelia.Console.Palette.Cursor.{Runs, on_event-Runs}
use hotelia.Console.Tests.{same_case, world, main}

abbrev desk : FrontDesk
desk = record {
  guest = codes "Amina";
  last_name = codes "otieno";
  room = codes "204";
  device = codes "LDOOR-01";
  lock_devices = [];
  encode_result = none;
  busy = false;
  board_error = none;
  peek_room = none;
  store = initial_store;
  toasts = [];
}

abbrev draws : Draws
draws = record {
  ts = codes "now";
  checkin_stamp = codes "1";
  keygen_stamp = codes "2";
  checkin_uuid = codes "uuid-0001";
  keygen_uuid = codes "uuid-0002";
}

abbrev written : EncodeResult
written = build_result (key_request same_case desk) encoded none

abbrev arrival : FrontDesk × Main
arrival = check_in (some (main_bridge world)) same_case (some (codes "p7")) draws desk main

arrives : arrival.0.encode_result ≡ some written
unfolding check_in handle wrap_ipc unwrap parse_enqueue parse_encode enqueue insert encode same_text
    matches allow get_breaker tcp_encode
arrives = refl

abbrev task : RoomStatus → HousekeepingTask
task s = record {
  room_id = 3;
  room_number = codes "204";
  status = s;
  has_departure = false;
  open_work_orders = 0;
  work_order_subjects = [];
}

abbrev tasks : List HousekeepingTask
tasks = task vacant_dirty ∷ task out_of_order ∷ []

cards-groups_example :
    Perm (cards groups tasks) (select vacant_task tasks) × (by_status (codes "OOO") tasks ≡ [])
cards-groups_example = cards-groups tasks

abbrev closed : Palette
closed = record { shown = false; query = []; cursor = pos 0; ran = [] }

abbrev commands : List PaletteCommand
commands = palette_commands same_case none

abbrev moved : Palette
moved = on_events same_case commands (arrow_down ∷ arrow_down ∷ arrow_up ∷ []) (open_palette closed)

on_event-Runs_example :
    Runs (filtered same_case commands moved.query) moved (on_event same_case commands enter moved)
unfolding on_events on_event open_palette palette_commands filtered
on_event-Runs_example =
    on_event-Runs same_case commands (arrow_down ∷ arrow_down ∷ arrow_up ∷ []) closed refl
      (omega arith)
