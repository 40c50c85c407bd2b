-- ===== src/Console/FrontDesk.antt =====
-- The view `FrontDesk` (apps/console/src/renderer/views/FrontDesk.tsx): the check-in, the refresh of
-- the board and the quick peek. `upper` stands for `String.toUpperCase`; the time, the stamps of the
-- two keys in the payloads and the two UUIDs are arguments. The store that the views share is part
-- of the state. The text of the toast of a check-in is left out.
use hotelia.Prelude.{
  Text, codes, List, [], ◌∷◌, ◌++◌, Option, none, some, Bool, true, false, ◌||◌, if◌then◌else◌,
  trim, same_text, or_else,
}
use hotelia.Prelude.Table.{find}
use hotelia.Offline.Action.{Payload, checkin, room_key_generate}
use hotelia.Hardware.Channel.{EncodeRequest, EncodeResult}
use hotelia.Hardware.Bridge.{LockDevice}
use hotelia.Pms.Board.{FrontDeskRoom, FrontDeskBoard}
use hotelia.Console.Bridge.{ConsoleBridge}
use hotelia.Console.Store.{AppStore, set_board, set_state}
use hotelia.Console.View.{
  success, error, Notice, notice, Task, ◌>>=◌, ◌>>◌, done, set, try_catch, enqueue_critical, call,
}

pub record FrontDesk : Type 0 where
  pub guest : Text
  pub last_name : Text
  pub room : Text
  pub device : Text
  pub lock_devices : List LockDevice
  pub encode_result : Option EncodeResult
  pub busy : Bool
  pub board_error : Option Text
  pub peek_room : Option Text
  pub store : AppStore
  pub toasts : List Notice

-- What a press of the button draws.
pub record Draws : Type 0 where
  pub ts : Text
  pub checkin_stamp : Text
  pub keygen_stamp : Text
  pub checkin_uuid : Text
  pub keygen_uuid : Text

abbrev pub push : Notice → FrontDesk → FrontDesk
push n v = record v { toasts = n ∷ v.toasts }

abbrev set_busy : Bool → FrontDesk → FrontDesk
set_busy b v = record v { busy = b }

abbrev set_encode_result : EncodeResult → FrontDesk → FrontDesk
set_encode_result r v = record v { encode_result = some r }

abbrev checkin_failed : Text → FrontDesk → FrontDesk
checkin_failed e = push (notice error (codes "Check-in failed") e)

-- The property of the configuration is a text or null.
abbrev pub checkin_payload : Option Text → Draws → FrontDesk → Payload
unfolding trim
checkin_payload property d v =
    (codes "guestName", trim (v.guest ++ codes " " ++ v.last_name))
    ∷ (codes "roomNumber", v.room)
    ∷ (codes "propertyId", or_else property (codes "null"))
    ∷ (codes "ts", d.ts)
    ∷ (codes "idempotencyKey", codes "checkin-" ++ d.checkin_stamp)
    ∷ []

abbrev pub credential : (Text → Text) → FrontDesk → Text
credential upper v = codes "KEY-" ++ v.room ++ codes "-" ++ upper v.last_name

abbrev pub key_payload : (Text → Text) → Draws → FrontDesk → Payload
key_payload upper d v =
    (codes "deviceId", v.device)
    ∷ (codes "roomNumber", v.room)
    ∷ (codes "credential", credential upper v)
    ∷ (codes "idempotencyKey", codes "keygen-" ++ d.keygen_stamp)
    ∷ []

abbrev pub key_request : (Text → Text) → FrontDesk → EncodeRequest
key_request upper v = record {
  device_id = v.device;
  room_number = v.room;
  credential = credential upper v;
}

abbrev pub queued : Notice
queued = record { kind = success; title = codes "Check-in queued"; detail = none }

-- `if (window.hotelia)`
abbrev encode_key :
    {S : Type 0} → Option (ConsoleBridge S) → EncodeRequest → Task FrontDesk S (Unit {0})
encode_key none req = done
encode_key (some b) req = do r ← call (b.encode req); set (set_encode_result r)

module _ {S : Type 0} (bridge : Option (ConsoleBridge S)) where
  abbrev queue_checkin :
      (Text → Text) → Option Text → Draws → FrontDesk → Task FrontDesk S (Unit {0})
  unfolding checkin_payload
  queue_checkin upper property d v = do
    m ← enqueue_critical bridge checkin (checkin_payload property d v) d.checkin_uuid
    k ← enqueue_critical bridge room_key_generate (key_payload upper d v) d.keygen_uuid
    encode_key bridge (key_request upper v)
    set (push queued)

  -- `checkIn`
  unfoldable pub check_in : (Text → Text) → Option Text → Draws → FrontDesk → S → FrontDesk × S
  unfolding queue_checkin
  check_in upper property d v s =
      try_catch (queue_checkin upper property d v) checkin_failed (set_busy false) (set_busy true v)
        s

-- Some room has the number.
has_number : Text → List FrontDeskRoom → Bool
unfolding same_text
has_number n [] = false
has_number n (r ∷ rs) = same_text r.number n || has_number n rs

abbrev first_number : List FrontDeskRoom → Text → Text
first_number [] room = room
first_number (r ∷ rs) room = r.number

-- The board goes to the shared store; a selected room that it lacks becomes its first one.
abbrev take_board : FrontDeskBoard → FrontDesk → FrontDesk
unfolding set_state has_number
take_board b v = record v {
  store = set_board (some b) v.store;
  board_error = none;
  room = if has_number v.room b.rooms then v.room else first_number b.rooms v.room;
}

abbrev board_failed : Text → FrontDesk → FrontDesk
board_failed e v = record v { board_error = some e }

-- `refreshBoard`
unfoldable pub refresh_board :
    {S : Type 0} → Option (ConsoleBridge S) → Option Text → FrontDesk → S → FrontDesk × S
unfolding take_board
refresh_board (some bridge) (some (x ∷ p)) v s =
    try_catch (do b ← call (bridge.board (x ∷ p)); set (take_board b)) board_failed (λ u. u) v s
refresh_board _ _ v s = (v, s)

abbrev is_peeked : Option Text → Text → Bool
unfolding same_text
is_peeked none n = false
is_peeked (some p) n = same_text p n

-- `prev === n ? null : n`
abbrev toggled : Option Text → Text → Option Text
unfolding is_peeked
toggled p n = if is_peeked p n then none else some n

-- A click on the tile of a room
unfoldable pub click_room : Text → FrontDesk → FrontDesk
unfolding toggled
click_room n v = record v { room = n; peek_room = toggled v.peek_room n }

-- The space bar outside of a field
unfoldable pub press_space : FrontDesk → FrontDesk
unfolding toggled
press_space v = record v { peek_room = toggled v.peek_room v.room }

-- The palette's event `palette:room`
unfoldable pub reveal_room : Text → FrontDesk → FrontDesk
reveal_room n v = record v { room = n; peek_room = some n }

abbrev numbered : Text → FrontDeskRoom → Bool
unfolding same_text
numbered n r = same_text r.number n

-- `peekData`
unfoldable pub peek_data : FrontDesk → Option FrontDeskRoom
unfolding numbered
peek_data v = elim v.peek_room [
  | some (c ∷ n) ↦ elim v.store.state.board [
    | none ↦ none
    | some b ↦ find (numbered (c ∷ n)) b.rooms
  ]
  | _ ↦ none
]
