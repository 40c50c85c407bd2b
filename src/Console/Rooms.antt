-- ===== src/Console/Rooms.antt =====
-- What the views show of rooms: the columns of `Housekeeping`
-- (apps/console/src/renderer/views/Housekeeping.tsx), the pills of `FrontDesk`
-- (apps/console/src/renderer/views/FrontDesk.tsx), the badges and counts of the shell
-- (apps/console/src/renderer/App.tsx) and the rate of `Revenue`
-- (apps/console/src/renderer/views/Revenue.tsx). A status travels as its text.
pub mod Columns
use hotelia.Prelude.{
  ℕ, ◌+◌, ◌*◌, ◌/◌, ◌≡◌, refl, Text, codes, List, [], ◌∷◌, ◌++◌, Option, none, some, Bool, true,
  false, ◌&&◌, ◌||◌, ltb, if◌then◌else◌, same_text, starts_with, length,
}
use hotelia.Prelude.Table.{select}
use hotelia.Inventory.Rooms.{
  RoomStatus, vacant_dirty, vacant_clean, vacant_inspected, occupied_dirty, occupied_clean,
  out_of_order, out_of_service, is_occupied,
}
use hotelia.Pms.Board.{HousekeepingTask, FrontDeskRoom, FrontDeskBoard}

abbrev pub status_name : RoomStatus → Text
status_name vacant_dirty = codes "VACANT_DIRTY"
status_name vacant_clean = codes "VACANT_CLEAN"
status_name vacant_inspected = codes "VACANT_INSPECTED"
status_name occupied_dirty = codes "OCCUPIED_DIRTY"
status_name occupied_clean = codes "OCCUPIED_CLEAN"
status_name out_of_order = codes "OUT_OF_ORDER"
status_name out_of_service = codes "OUT_OF_SERVICE"

-- `GROUPS`, without the labels
abbrev pub groups : List Text
groups = codes "VACANT_DIRTY" ∷ codes "VACANT_CLEAN" ∷ codes "INSPECTED" ∷ codes "OOO" ∷ []

-- The test of `byStatus`
unfoldable pub in_group : Text → RoomStatus → Bool
unfolding same_text starts_with
in_group g s =
    same_text (status_name s) g
    || same_text g (codes "INSPECTED") && same_text (status_name s) (codes "VACANT_INSPECTED")
    || same_text g (codes "OOO") && starts_with (codes "OOO") (status_name s)

abbrev pub task_in : Text → HousekeepingTask → Bool
unfolding in_group
task_in g t = in_group g t.status

unfoldable pub by_status : Text → List HousekeepingTask → List HousekeepingTask
unfolding task_in
by_status g tasks = select (task_in g) tasks

-- The tasks whose cards the view shows, column after column.
unfoldable pub cards : List Text → List HousekeepingTask → List HousekeepingTask
unfolding by_status
cards [] tasks = []
cards (g ∷ gs) tasks = by_status g tasks ++ cards gs tasks

-- `statusPill`
unfoldable pub status_pill : RoomStatus → Text
unfolding starts_with
status_pill s =
    if starts_with (codes "OCCUPIED") (status_name s)
    then codes "pill occupied"
    else if starts_with (codes "VACANT_CLEAN") (status_name s)
        || starts_with (codes "VACANT_INSPECTED") (status_name s)
    then codes "pill clean"
    else if starts_with (codes "VACANT_DIRTY") (status_name s)
    then codes "pill dirty"
    else codes "pill ooo"

abbrev shown_occupied : FrontDeskRoom → Bool
unfolding starts_with
shown_occupied r = starts_with (codes "OCCUPIED") (status_name r.status)

abbrev shown_dirty : FrontDeskRoom → Bool
unfolding same_text
shown_dirty r = same_text (status_name r.status) (codes "VACANT_DIRTY")

abbrev rooms_of : Option FrontDeskBoard → List FrontDeskRoom
rooms_of none = []
rooms_of (some b) = b.rooms

-- The counts of the shell
unfoldable pub occupied_count : Option FrontDeskBoard → ℕ
unfolding shown_occupied
occupied_count b = length (select shown_occupied (rooms_of b))

unfoldable pub dirty_count : Option FrontDeskBoard → ℕ
unfolding shown_dirty
dirty_count b = length (select shown_dirty (rooms_of b))

-- `n || null`
abbrev unless_zero : ℕ → Option ℕ
unless_zero n = if ltb 0 n then some n else none

-- The badges of the first two entries of the navigation
unfoldable pub room_badge : Option FrontDeskBoard → Option ℕ
room_badge b = unless_zero (length (rooms_of b))

unfoldable pub dirty_badge : Option FrontDeskBoard → Option ℕ
unfolding dirty_count
dirty_badge b = unless_zero (dirty_count b)

-- `occupancyRate`, in tenths of a percent
unfoldable pub occupancy_rate : Option FrontDeskBoard → ℕ
unfolding occupied_count
occupancy_rate b =
    if ltb 0 (length (rooms_of b))
    then (2000 * occupied_count b + length (rooms_of b)) / (2 * length (rooms_of b))
    else 0

occupied_status : (s : RoomStatus) → starts_with (codes "OCCUPIED") (status_name s) ≡ is_occupied s
unfolding starts_with
occupied_status vacant_dirty = refl
occupied_status vacant_clean = refl
occupied_status vacant_inspected = refl
occupied_status occupied_dirty = refl
occupied_status occupied_clean = refl
occupied_status out_of_order = refl
occupied_status out_of_service = refl
