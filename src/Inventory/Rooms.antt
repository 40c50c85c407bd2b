-- ===== src/Inventory/Rooms.antt =====
-- `atomicReserveRoom` (packages/database/src/inventory.ts). Of the tables, the columns that the
-- transaction reads or writes are kept; of a reservation, those that do not merely pass through.
use hotelia.Prelude.{
  ℕ, ◌≡◌, inl, inr, List, [], ◌∷◌, ◌++◌, Option, none, some, Bool, true, false, arith, ◌==◌,
  if◌then◌else◌, Text, Option-cases,
}
use hotelia.Prelude.Table.{find, update}

pub data InventoryError : Type 0 where
  room_not_found room_unavailable sold_out inventory_not_found : InventoryError

-- A transaction that raises is rolled back.
pub data Outcome (A : Type 0) : Type 0 where
  raised : InventoryError → Outcome A
  committed : A → Outcome A

pub data RoomStatus : Type 0 where
  vacant_dirty vacant_clean vacant_inspected occupied_dirty occupied_clean : RoomStatus
  out_of_order out_of_service : RoomStatus

-- `OCCUPIED_STATUSES.includes(status)`
abbrev pub is_occupied : RoomStatus → Bool
is_occupied occupied_dirty = true
is_occupied occupied_clean = true
is_occupied _ = false

pub record Room : Type 0 where
  pub id : ℕ
  pub status : RoomStatus

pub record AtomicReserveInput : Type 0 where
  pub guest_id : ℕ
  pub room_id : ℕ
  pub confirmation_no : Text
  pub source : Text
  pub check_in_date : ℕ
  pub check_out_date : ℕ

pub record Reservation : Type 0 where
  pub id : ℕ
  pub guest_id : ℕ
  pub room_id : ℕ
  pub confirmation_no : Text
  pub source : Text
  pub check_in_date : ℕ
  pub check_out_date : ℕ

pub record RoomStatusLog : Type 0 where
  pub room_id : ℕ
  pub previous_status : RoomStatus
  pub new_status : RoomStatus
  pub source : Text

pub record Rooms : Type 0 where
  pub rooms : List Room
  pub reservations : List Reservation
  pub logs : List RoomStatusLog

abbrev pub has_id : ℕ → Room → Bool
has_id i r = r.id == i

abbrev pub new_reservation : ℕ → AtomicReserveInput → Reservation
new_reservation i input = record {
  id = i;
  guest_id = input.guest_id;
  room_id = input.room_id;
  confirmation_no = input.confirmation_no;
  source = input.source;
  check_in_date = input.check_in_date;
  check_out_date = input.check_out_date;
}

abbrev pub occupied_room : Room → Room
occupied_room r = record r { status = occupied_dirty }

-- The statements that write.
abbrev pub reserve_written : ℕ → AtomicReserveInput → Room → Rooms → Rooms
reserve_written i input r t = record {
  rooms = update (has_id input.room_id) occupied_room t.rooms;
  reservations = t.reservations ++ new_reservation i input ∷ [];
  logs =
      t.logs
      ++ record {
        room_id = input.room_id;
        previous_status = r.status;
        new_status = occupied_dirty;
        source = input.source;
      }
        ∷ [];
}

unfoldable pub atomic_reserve_room : ℕ → AtomicReserveInput → Rooms → Outcome (Reservation × Rooms)
atomic_reserve_room i input t = elim (find (has_id input.room_id) t.rooms) [
  | none ↦ raised room_not_found
  | some r ↦
      if is_occupied r.status
      then raised room_unavailable
      else committed (new_reservation i input, reserve_written i input r t)
]

-- Attempts in a row, by whatever caller, each with its fresh identifier. One that raises changes
-- nothing, so only those that commit are listed.
pub data Attempts : Rooms → Rooms → Type 0 where
  stop : (t : Rooms) → Attempts t t
  attempt :
      (i : ℕ) (input : AtomicReserveInput) (t u v : Rooms) (r : Reservation)
      → atomic_reserve_room i input t ≡ committed (r, u)
      → Attempts u v
      → Attempts t v

abbrev taken_room : Option Room → Bool
taken_room none = false
taken_room (some r) = is_occupied r.status

-- The room is there and occupied.
abbrev IsTaken : ℕ → List Room → Type 0
IsTaken i t = taken_room (find (has_id i) t) ≡ true

update-IsTaken :
    (i j : ℕ) (t : List Room) → IsTaken i t → IsTaken i (update (has_id j) occupied_room t)
update-IsTaken i j [] h = absurd (cc h)
update-IsTaken i j (x ∷ t) h = ground (arith, h, update-IsTaken i j t)

occupied-IsTaken :
    (i : ℕ) (r : Room) (t : List Room)
    → find (has_id i) t ≡ some r
    → IsTaken i (update (has_id i) occupied_room t)
occupied-IsTaken i r [] h = absurd (cc h)
occupied-IsTaken i r (x ∷ t) h = ground (arith, h, occupied-IsTaken i r t)

reserve-rooms :
    (i : ℕ) (input : AtomicReserveInput) (t u : Rooms) (r : Reservation)
    → atomic_reserve_room i input t ≡ committed (r, u)
    → u.rooms ≡ update (has_id input.room_id) occupied_room t.rooms
unfolding atomic_reserve_room
reserve-rooms i input t u r h = ground (arith, h)

reserve-IsTaken :
    (i : ℕ) (input : AtomicReserveInput) (t u : Rooms) (r : Reservation)
    → atomic_reserve_room i input t ≡ committed (r, u)
    → IsTaken input.room_id u.rooms
unfolding atomic_reserve_room
reserve-IsTaken i input t u r h = elim (Option-cases (find (has_id input.room_id) t.rooms)) [
  | inl e ↦ absurd (ground (arith, h, e))
  | inr (x, e) ↦ rw (reserve-rooms i input t u r h) (occupied-IsTaken input.room_id x t.rooms e)
]

Attempts-IsTaken : (i : ℕ) (t u : Rooms) → Attempts t u → IsTaken i t.rooms → IsTaken i u.rooms
Attempts-IsTaken i t u (stop v) h = h
Attempts-IsTaken i t u (attempt j input a b c r e s) h =
    Attempts-IsTaken i b c s
      (rw (reserve-rooms j input a b r e) (update-IsTaken i input.room_id a.rooms h))

taken_raises :
    (i : ℕ) (input : AtomicReserveInput) (t : Rooms)
    → IsTaken input.room_id t.rooms
    → atomic_reserve_room i input t ≡ raised room_unavailable
unfolding atomic_reserve_room
taken_raises i input t h = ground (arith, h)

-- After a reservation of a room that committed, and whatever reservations commit then, every further
-- reservation of the room raises `room_unavailable`, whatever its dates.
pub reserve_excludes :
    (i j : ℕ) (input later : AtomicReserveInput) (t u v : Rooms) (r : Reservation)
    → atomic_reserve_room i input t ≡ committed (r, u)
    → Attempts u v
    → later.room_id ≡ input.room_id
    → atomic_reserve_room j later v ≡ raised room_unavailable
reserve_excludes i j input later t u v r h s e =
    taken_raises j later v
      (rw e (Attempts-IsTaken input.room_id u v s (reserve-IsTaken i input t u r h)))
