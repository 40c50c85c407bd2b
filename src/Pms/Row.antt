-- ===== src/Pms/Row.antt =====
-- The rows that the property management store reads (apps/console/src/main/pms.ts, as the tables of
-- packages/database/prisma/schema.prisma hold them). A reservation carries the guest that it refers
-- to; identifiers are only compared.
use hotelia.Prelude.{ℕ, Text, List, Option, none, some, Bool, true, false, ◌==◌}
use hotelia.Prelude.Int.{ℤ}
use hotelia.Prelude.Table.{find}
use hotelia.Inventory.Rooms.{RoomStatus}
use hotelia.Inventory.Channels.{RoomType}
use hotelia.Folios.Row.{Day, Books}

pub data ReservationStatus : Type 0 where
  pending confirmed checked_in checked_out cancelled no_show : ReservationStatus

abbrev pub is_checked_in : ReservationStatus → Bool
is_checked_in checked_in = true
is_checked_in _ = false

abbrev pub is_confirmed : ReservationStatus → Bool
is_confirmed confirmed = true
is_confirmed _ = false

pub record Guest : Type 0 where
  pub id : ℕ
  pub first_name : Text
  pub last_name : Text

pub record Room : Type 0 where
  pub id : ℕ
  pub property_id : ℕ
  pub number : Text
  pub floor : Option ℕ
  pub type : RoomType
  pub status : RoomStatus
  pub base_rate : Option Text
  pub is_active : Bool

pub record Reservation : Type 0 where
  pub id : ℕ
  pub property_id : ℕ
  pub guest : Guest
  pub room_id : Option ℕ
  pub confirmation_no : Text
  pub status : ReservationStatus
  pub check_in_date : Day
  pub check_out_date : Day
  pub currency : Text

pub data WorkOrderStatus : Type 0 where
  pending assigned in_progress on_hold completed cancelled : WorkOrderStatus

pub record WorkOrder : Type 0 where
  pub property_id : ℕ
  pub room_id : Option ℕ
  pub status : WorkOrderStatus
  pub title : Text

-- `config.taxRate` of a property, in ten-thousandths; `none` where it is no finite number.
pub record PropertyConfig : Type 0 where
  pub property_id : ℕ
  pub tax_rate : Option ℤ

pub record Hotel : Type 0 where
  pub books : Books
  pub rooms : List Room
  pub reservations : List Reservation
  pub work_orders : List WorkOrder
  pub configs : List PropertyConfig

abbrev pub has_room_id : ℕ → Room → Bool
has_room_id i r = r.id == i

-- The room of a reservation, by its foreign key.
abbrev pub room_of : List Room → Option ℕ → Option Room
room_of rooms none = none
room_of rooms (some i) = find (has_room_id i) rooms
