-- ===== src/Pms/Board.antt =====
-- The boards that the console shows (`frontDeskBoard` and `housekeepingTasks` of
-- apps/console/src/main/pms.ts). The order of room numbers is that of the database's collation, a
-- parameter. Balances are kept in cents, where the source prints them.
use hotelia.Prelude.{
  ℕ, zero, Text, List, [], ◌∷◌, ◌++◌, Option, none, some, Bool, true, false, ◌&&◌, ltb, ◌==◌,
  if◌then◌else◌, length, take, map,
}
use hotelia.Prelude.Int.{ℤ, pos, ◌+ℤ◌}
use hotelia.Prelude.Table.{select}
use hotelia.Prelude.Table.Order.{order_by}
use hotelia.Inventory.Rooms.{RoomStatus}
use hotelia.Inventory.Channels.{RoomType}
use hotelia.Folios.Row.{Day, same_day, Folio}
use hotelia.Pms.Row.{
  ReservationStatus, is_checked_in, is_confirmed, Guest, Room, Reservation, WorkOrder,
  WorkOrderStatus, pending, in_progress, Hotel, room_of,
}
use hotelia.Pms.Barrier.{is_open_folio_of}

pub record GuestName : Type 0 where
  pub first_name : Text
  pub last_name : Text

pub record FrontDeskRoom : Type 0 where
  pub id : ℕ
  pub number : Text
  pub floor : Option ℕ
  pub type : RoomType
  pub status : RoomStatus
  pub base_rate : Option Text
  pub occupancy : List GuestName
  pub balance : Option ℤ

pub record ReservationRow : Type 0 where
  pub id : ℕ
  pub confirmation_no : Text
  pub room_number : Option Text
  pub guest : GuestName
  pub status : ReservationStatus
  pub check_in_date : Day
  pub check_out_date : Day

pub record FrontDeskBoard : Type 0 where
  pub property_id : ℕ
  pub rooms : List FrontDeskRoom
  pub arrivals : List ReservationRow
  pub departures : List ReservationRow

pub record HousekeepingTask : Type 0 where
  pub room_id : ℕ
  pub room_number : Text
  pub status : RoomStatus
  pub has_departure : Bool
  pub open_work_orders : ℕ
  pub work_order_subjects : List Text

abbrev pub guest_name : Guest → GuestName
guest_name g = record { first_name = g.first_name; last_name = g.last_name }

-- `where: { propertyId, isActive: true }`
abbrev pub is_listed : ℕ → Room → Bool
is_listed p r = r.property_id == p && r.is_active

-- `floor: 'asc'` puts rooms without a floor last.
abbrev floor_before : Option ℕ → Option ℕ → Bool
floor_before none o = false
floor_before (some a) none = true
floor_before (some a) (some b) = ltb a b

-- `orderBy: [{ floor: 'asc' }, { number: 'asc' }]`
abbrev pub room_before : (Text → Text → Bool) → Room → Room → Bool
room_before number_before a b =
    if floor_before a.floor b.floor
    then true
    else if floor_before b.floor a.floor
    then false
    else number_before a.number b.number

abbrev pub listed_rooms : (Text → Text → Bool) → ℕ → List Room → List Room
listed_rooms number_before p rooms =
    order_by (room_before number_before) (select (is_listed p) rooms)

abbrev is_room_id : Option ℕ → ℕ → Bool
is_room_id none i = false
is_room_id (some j) i = j == i

-- A reservation of the room that is checked in.
abbrev pub stays_in : ℕ → Reservation → Bool
stays_in i s = is_room_id s.room_id i && is_checked_in s.status

sum_balances : List Folio → ℤ
sum_balances [] = pos 0
sum_balances (f ∷ fs) = f.balance +ℤ sum_balances fs

-- The open folios of the stays, one after the other.
stay_folios : List Folio → List Reservation → List Folio
stay_folios fs [] = []
stay_folios fs (s ∷ ss) = select (is_open_folio_of s.id) fs ++ stay_folios fs ss

-- `balance === 0 ? null : …`
abbrev shown_balance : ℤ → Option ℤ
shown_balance (pos zero) = none
shown_balance b = some b

unfoldable pub board_room : Hotel → Room → FrontDeskRoom
unfolding sum_balances stay_folios
board_room h r =
    let stays = select (stays_in r.id) h.reservations in
    record {
      id = r.id;
      number = r.number;
      floor = r.floor;
      type = r.type;
      status = r.status;
      base_rate = r.base_rate;
      occupancy = map (λ s. guest_name s.guest) stays;
      balance = shown_balance (sum_balances (stay_folios h.books.folios stays));
    }

abbrev number_of : Option Room → Option Text
number_of none = none
number_of (some r) = some r.number

abbrev pub to_row : List Room → Reservation → ReservationRow
to_row rooms s = record {
  id = s.id;
  confirmation_no = s.confirmation_no;
  room_number = number_of (room_of rooms s.room_id);
  guest = guest_name s.guest;
  status = s.status;
  check_in_date = s.check_in_date;
  check_out_date = s.check_out_date;
}

abbrev pub arrives : ℕ → Day → Reservation → Bool
arrives p today s = s.property_id == p && is_confirmed s.status && same_day s.check_in_date today

abbrev pub departs : ℕ → Day → Reservation → Bool
departs p today s = s.property_id == p && is_checked_in s.status && same_day s.check_out_date today

-- All arrivals have the same date of check-in, so the order by it changes nothing.
unfoldable pub front_desk_board : (Text → Text → Bool) → ℕ → Day → Hotel → FrontDeskBoard
unfolding board_room order_by
front_desk_board number_before p today h = record {
  property_id = p;
  rooms = map (board_room h) (listed_rooms number_before p h.rooms);
  arrivals = map (to_row h.rooms) (take 25 (select (arrives p today) h.reservations));
  departures = map (to_row h.rooms) (take 25 (select (departs p today) h.reservations));
}

abbrev is_pending_work : WorkOrderStatus → Bool
is_pending_work pending = true
is_pending_work in_progress = true
is_pending_work _ = false

-- `status: { in: ['PENDING', 'IN_PROGRESS'] }`
abbrev pub is_open_work : ℕ → WorkOrder → Bool
is_open_work p w = w.property_id == p && is_pending_work w.status

abbrev pub RoomTitles : Type 0
RoomTitles = List (ℕ × List Text)

-- `byRoom.get(i)`, with `[]` for a room that has no entry.
unfoldable pub titles_of : ℕ → RoomTitles → List Text
titles_of i [] = []
titles_of i ((j, l) ∷ m) = if j == i then l else titles_of i m

-- `list.push(title); byRoom.set(i, list)`
unfoldable pub push_title : ℕ → Text → RoomTitles → RoomTitles
push_title i t [] = (i, t ∷ []) ∷ []
push_title i t ((j, l) ∷ m) = if j == i then (j, l ++ t ∷ []) ∷ m else (j, l) ∷ push_title i t m

abbrev pub add_title : WorkOrder → RoomTitles → RoomTitles
add_title w m = elim w.room_id [ none ↦ m | some i ↦ push_title i w.title m ]

-- The loop over the open work orders.
unfoldable pub by_room : List WorkOrder → RoomTitles → RoomTitles
unfolding push_title
by_room [] m = m
by_room (w ∷ ws) m = by_room ws (add_title w m)

abbrev leaves : ℕ → Day → Reservation → Bool
leaves i today s = stays_in i s && same_day s.check_out_date today

abbrev not_empty : List Reservation → Bool
not_empty [] = false
not_empty (s ∷ ss) = true

abbrev pub task_of : Day → Hotel → RoomTitles → Room → HousekeepingTask
task_of today h m r = record {
  room_id = r.id;
  room_number = r.number;
  status = r.status;
  has_departure = not_empty (select (leaves r.id today) h.reservations);
  open_work_orders = length (titles_of r.id m);
  work_order_subjects = titles_of r.id m;
}

unfoldable pub housekeeping_tasks : (Text → Text → Bool) → ℕ → Day → Hotel → List HousekeepingTask
unfolding by_room titles_of order_by
housekeeping_tasks number_before p today h =
    map (task_of today h (by_room (select (is_open_work p) h.work_orders) []))
      (listed_rooms number_before p h.rooms)
