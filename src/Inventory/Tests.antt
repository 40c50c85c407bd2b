-- ===== src/Inventory/Tests.antt =====
-- Runs of the inventory service, and the theorems about it at concrete tables.
use hotelia.Prelude.{◌≡◌, refl, codes, [], ◌∷◌, some, same_text}
use hotelia.Prelude.Int.{pos}
use hotelia.Prelude.Table.{find}
use hotelia.Inventory.Rooms.{
  Rooms, AtomicReserveInput, vacant_clean, out_of_order, room_unavailable, raised, committed,
  reserve_written, new_reservation, atomic_reserve_room, stop, reserve_excludes,
}
use hotelia.Inventory.Channels.{
  ChannelInventory, LockChannelInventoryInput, deluxe, is_row, sell, sell-min,
}

abbrev hotel : Rooms
hotel = record {
  rooms = record { id = 3; status = vacant_clean } ∷ record { id = 4; status = out_of_order } ∷ [];
  reservations = [];
  logs = [];
}

abbrev stay : AtomicReserveInput
stay = record {
  guest_id = 1;
  room_id = 3;
  confirmation_no = codes "A1";
  source = codes "DIRECT";
  check_in_date = 20;
  check_out_date = 22;
}

-- A stay that does not overlap with the first.
abbrev later_stay : AtomicReserveInput
later_stay = record stay { guest_id = 2; check_in_date = 90; check_out_date = 91 }

abbrev booked : Rooms
booked = reserve_written 8 stay (record { id = 3; status = vacant_clean }) hotel

reserve_excludes_example : atomic_reserve_room 9 later_stay booked ≡ raised room_unavailable
unfolding atomic_reserve_room
reserve_excludes_example =
    reserve_excludes 8 9 stay later_stay hotel booked booked (new_reservation 8 stay) refl
      (stop booked) refl

abbrev broken_stay : AtomicReserveInput
broken_stay = record stay { room_id = 4 }

-- A room that is out of order can be reserved.
reserves_out_of_order :
    atomic_reserve_room 9 broken_stay hotel
    ≡ committed (
      new_reservation 9 broken_stay,
      reserve_written 9 broken_stay (record { id = 4; status = out_of_order }) hotel,
    )
unfolding atomic_reserve_room
reserves_out_of_order = refl

abbrev deluxe_row : ChannelInventory
deluxe_row = record {
  id = 1;
  property_id = 7;
  room_type = deluxe;
  channel = codes "expedia";
  date = 20;
  available = pos 2;
  last_synced_at = 0;
}

abbrev deluxe_key : LockChannelInventoryInput
deluxe_key = record { property_id = 7; channel = codes "expedia"; date = 20; room_type = deluxe }

sell-min_example :
    ((sell 3 100 deluxe_key (deluxe_row ∷ [])).0 ≡ 2)
    × (s : ChannelInventory) × (find (is_row deluxe_key) (sell 3 100 deluxe_key (deluxe_row ∷ [])).1
        ≡ some s)
    × (s.available ≡ pos 0)
unfolding same_text
sell-min_example = sell-min 3 100 2 deluxe_key (deluxe_row ∷ []) deluxe_row refl refl
